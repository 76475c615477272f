-- ===== src/Scum/Parser/Tree.antt =====
-- Sums over the nodes of a tree, and what an appended node adds to them (scum/append_node.go).
use shitposter.Prelude.{
  ℕ, zero, suc, ◌+◌, ◌<◌, ◌≡◌, refl, ◌∙◌, Option, none, some, List, [], ◌∷◌, ◌++◌, length,
  length-append, length-modify, get_or, modify, arith,
}
use shitposter.Scum.Ast.{Node, new_node, Ast, link_child, append_node}

-- What the nodes have in all of a number.
abbrev pub total : (Node → ℕ) → List Node → ℕ
total f [] = 0
total f (n ∷ ns) = f n + total f ns

total-append : (f : Node → ℕ) (xs ys : List Node) → total f (xs ++ ys) ≡ total f xs + total f ys
total-append f [] ys = omega arith
total-append f (x ∷ xs) ys = omega (arith, total-append f xs ys)

pub total-modify :
    (f : Node → ℕ) (k : ℕ) (g : Node → Node)
    → ((n : Node) → f (g n) ≡ f n + k)
    → (xs : List Node) (i : ℕ) → i < length xs
    → total f (modify xs i g) ≡ total f xs + k
total-modify f k g h [] i lt = absurd (omega (arith, lt))
total-modify f k g h (x ∷ xs) zero lt = omega (arith, h x)
total-modify f k g h (x ∷ xs) (suc i) lt =
    omega (arith, total-modify f k g h xs i (omega (arith, lt)))

-- A change that leaves the number alone, at any index.
pub total-same :
    (f : Node → ℕ) (g : Node → Node)
    → ((n : Node) → f (g n) ≡ f n)
    → (xs : List Node) (i : ℕ) → total f (modify xs i g) ≡ total f xs
total-same f g h [] i = refl
total-same f g h (x ∷ xs) zero = omega (arith, h x)
total-same f g h (x ∷ xs) (suc i) = omega (arith, total-same f g h xs i)

abbrev pub children : Node → ℕ
children n = n.child_count

abbrev pub attributes_of : Node → ℕ
attributes_of n = n.attributes.len

link_child-total :
    (f : Node → ℕ) (nodes : List Node) (parent i : ℕ) (first last : Option ℕ)
    → ((n : Node) (c : Option ℕ) → f (record n { last_child = c }) ≡ f n)
    → ((n : Node) (c : Option ℕ) → f (record n { next_sibling = c }) ≡ f n)
    → ((n : Node) (c : Option ℕ) → f (record n { first_child = c; last_child = c }) ≡ f n)
    → total f (link_child nodes parent i first last) ≡ total f nodes
unfolding link_child
link_child-total f nodes parent i none last l s b = total-same f _ (λ n. b n (some i)) nodes parent
link_child-total f nodes parent i (some _) none l s b = refl
link_child-total f nodes parent i (some _) (some x) l s b =
    total-same f _ (λ n. l n (some i)) _ parent ∙ total-same f _ (λ n. s n (some i)) nodes x

link_child-length :
    (nodes : List Node) (parent i : ℕ) (first last : Option ℕ)
    → length (link_child nodes parent i first last) ≡ length nodes
unfolding link_child
link_child-length nodes parent i none last =
    length-modify nodes parent (λ n. record n { first_child = some i; last_child = some i })
link_child-length nodes parent i (some _) none = refl
link_child-length nodes parent i (some _) (some x) =
    length-modify (modify nodes x (λ n. record n { next_sibling = some i })) parent
      (λ n. record n { last_child = some i })
    ∙ length-modify nodes x (λ n. record n { next_sibling = some i })

-- The node that a new child is counted at.
abbrev pub one_more : Node → Node
one_more n = record n { child_count = n.child_count + 1 }

abbrev pub counted : Ast → ℕ → Node → List Node
counted ast parent node = modify (ast.nodes ++ node ∷ []) parent one_more

abbrev pub before : Ast → ℕ → Node → Node
before ast parent node = get_or (counted ast parent node) parent new_node

pub append_node-length :
    (ast : Ast) (parent : ℕ) (node : Node)
    → length (append_node ast parent node).nodes ≡ length ast.nodes + 1
unfolding append_node
append_node-length ast parent node =
    link_child-length (counted ast parent node) parent (length ast.nodes)
      (before ast parent node).first_child (before ast parent node).last_child
    ∙ length-modify (ast.nodes ++ node ∷ []) parent one_more
    ∙ length-append ast.nodes (node ∷ [])

pub append_node-children :
    (ast : Ast) (parent : ℕ) (node : Node)
    → parent < length ast.nodes
    → node.child_count ≡ 0
    → total children (append_node ast parent node).nodes ≡ total children ast.nodes + 1
unfolding append_node
append_node-children ast parent node lt z =
    link_child-total children (counted ast parent node) parent (length ast.nodes)
      (before ast parent node).first_child (before ast parent node).last_child (λ n c. refl)
      (λ n c. refl) (λ n c. refl)
    ∙ total-modify children 1 one_more (λ n. refl) (ast.nodes ++ node ∷ []) parent
        (omega (arith, lt, length-append ast.nodes (node ∷ [])))
    ∙ omega (arith, total-append children ast.nodes (node ∷ []), z)

pub append_node-attributes :
    (ast : Ast) (parent : ℕ) (node : Node)
    → node.attributes.len ≡ 0
    → total attributes_of (append_node ast parent node).nodes ≡ total attributes_of ast.nodes
unfolding append_node
append_node-attributes ast parent node z =
    link_child-total attributes_of (counted ast parent node) parent (length ast.nodes)
      (before ast parent node).first_child (before ast parent node).last_child (λ n c. refl)
      (λ n c. refl) (λ n c. refl)
    ∙ total-same attributes_of one_more (λ n. refl) (ast.nodes ++ node ∷ []) parent
    ∙ omega (arith, total-append attributes_of ast.nodes (node ∷ []), z)
