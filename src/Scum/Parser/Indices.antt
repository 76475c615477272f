-- ===== src/Scum/Parser/Indices.antt =====
-- The invariant of the tree that the parser builds, through an append.
use shitposter.Prelude.{
  ℕ, zero, suc, ◌+◌, ◌≤◌, ◌<◌, ◌≡◌, refl, sym, ap, subst, ◌∙◌, ◌⊎◌, inl, inr, Bool, true, false,
  Option, none, some, List, [], ◌∷◌, ◌++◌, All, All-append, length, modify, arith, Bool-cases,
}
use shitposter.Scum.Dictionary.{Limits}
use shitposter.Scum.Ast.{Range, Node, Ast, link_child, append_node}
use shitposter.Scum.State.{ParserState, top, reached, append_state_node, warn, warn_max_nodes}
use shitposter.Scum.Parser.Tree.{
  total, children, attributes_of, one_more, counted, before, append_node-length,
  append_node-children, append_node-attributes,
}

-- The attribute range of a node lies inside an arena of that length.
abbrev pub HasWindow : ℕ → Node → Type 0
HasWindow bound n = n.attributes.start + n.attributes.len ≤ bound

pub All-modify :
    (P Q : Node → Type 0) (g : Node → Node)
    → ((n : Node) → P n → Q n)
    → ((n : Node) → P n → Q (g n))
    → (xs : List Node) (i : ℕ) → All P xs
    → All Q (modify xs i g)
All-modify P Q g keep change [] i h = tt
All-modify P Q g keep change (x ∷ xs) zero (p, h) = (change x p, All-keep xs h)
  where
    All-keep : (ys : List Node) → All P ys → All Q ys
    All-keep [] h = tt
    All-keep (y ∷ ys) (p, h) = (keep y p, All-keep ys h)
All-modify P Q g keep change (x ∷ xs) (suc i) (p, h) =
    (keep x p, All-modify P Q g keep change xs i h)

-- A change that leaves the ranges alone.
pub All-same :
    (bound : ℕ) (g : Node → Node)
    → ((n : Node) → HasWindow bound n → HasWindow bound (g n))
    → (xs : List Node) (i : ℕ) → All (HasWindow bound) xs
    → All (HasWindow bound) (modify xs i g)
All-same bound g = All-modify (HasWindow bound) (HasWindow bound) g (λ n h. h)

link_child-HasWindow :
    (bound : ℕ) (nodes : List Node) (parent i : ℕ) (first last : Option ℕ)
    → All (HasWindow bound) nodes
    → All (HasWindow bound) (link_child nodes parent i first last)
unfolding link_child
link_child-HasWindow bound nodes parent i none last h =
    All-same bound (λ n. record n { first_child = some i; last_child = some i }) (λ n w. w) nodes
      parent h
link_child-HasWindow bound nodes parent i (some _) none h = h
link_child-HasWindow bound nodes parent i (some _) (some x) h =
    All-same bound (λ n. record n { last_child = some i }) (λ n w. w) _ parent
      (All-same bound (λ n. record n { next_sibling = some i }) (λ n w. w) nodes x h)

append_node-HasWindow :
    (ast : Ast) (parent : ℕ) (node : Node)
    → HasWindow (length ast.attributes) node
    → All (HasWindow (length ast.attributes)) ast.nodes
    → All (HasWindow (length ast.attributes)) (append_node ast parent node).nodes
unfolding append_node
append_node-HasWindow ast parent node w h =
    link_child-HasWindow (length ast.attributes) (counted ast parent node) parent (length ast.nodes)
      (before ast parent node).first_child (before ast parent node).last_child
      (All-same (length ast.attributes) one_more (λ n w. w) (ast.nodes ++ node ∷ []) parent
        (All-append (HasWindow (length ast.attributes)) ast.nodes (node ∷ []) h (w, tt)))

-- The counts of the tree agree with its arenas, the indices that the parser holds are nodes, and the
-- limits of the dictionary hold. Each attribute range lies inside its arena.
pub record IsTree (l : Limits) (s : ParserState) : Type 0 where
  pub counts : total children s.ast.nodes + 1 ≡ length s.ast.nodes
  pub ranges : total attributes_of s.ast.nodes ≡ length s.ast.attributes
  pub windows : All (HasWindow (length s.ast.attributes)) s.ast.nodes
  pub last : s.last_node_idx < length s.ast.nodes
  pub crumbs : All (λ i. i < length s.ast.nodes) s.breadcrumbs
  pub same_limits : s.limits ≡ l
  pub nodes_within : (l.max_nodes ≡ 0) ⊎ (length s.ast.nodes ≤ l.max_nodes)
  pub attributes_within : (l.max_attributes ≡ 0) ⊎ (length s.ast.attributes ≤ l.max_attributes)

-- The parts of the state that the tree's invariant reads.
pub record SameTree (s s' : ParserState) : Type 0 where
  pub ast_nodes : s'.ast.nodes ≡ s.ast.nodes
  pub ast_attributes : s'.ast.attributes ≡ s.ast.attributes
  pub last : s'.last_node_idx ≡ s.last_node_idx
  pub crumbs : s'.breadcrumbs ≡ s.breadcrumbs
  pub limits : s'.limits ≡ s.limits

pub SameTree-IsTree : {l : Limits} {s s' : ParserState} → SameTree s s' → IsTree l s → IsTree l s'
SameTree-IsTree e v = record {
  windows = rw (e.ast_nodes, e.ast_attributes) v.windows;
  same_limits = e.limits ∙ v.same_limits;
  counts = rw e.ast_nodes v.counts;
  ranges = rw (e.ast_nodes, e.ast_attributes) v.ranges;
  last = rw (e.ast_nodes, e.last) v.last;
  crumbs = rw (e.crumbs, e.ast_nodes) v.crumbs;
  nodes_within = rw e.ast_nodes v.nodes_within;
  attributes_within = rw e.ast_attributes v.attributes_within;
}

All-weaken : (m n : ℕ) (xs : List ℕ) → m ≤ n → All (λ i. i < m) xs → All (λ i. i < n) xs
All-weaken m n [] le h = tt
All-weaken m n (x ∷ xs) le (p, h) = (omega (arith, p, le), All-weaken m n xs le h)

pub top-in : {l : Limits} (s : ParserState) → IsTree l s → top s.breadcrumbs < length s.ast.nodes
top-in s v = by_crumbs s.breadcrumbs v.crumbs
  where
    by_crumbs : (xs : List ℕ) → All (λ i. i < length s.ast.nodes) xs → top xs < length s.ast.nodes
    by_crumbs [] h = omega (arith, v.last)
    by_crumbs (x ∷ xs) (p, h) = p

pub room : (limit n : ℕ) → reached limit n ≡ false → (limit ≡ 0) ⊎ (n + 1 ≤ limit)
room zero n r = inl refl
room (suc limit) n r = inr (ground (arith, r))

append_node-same_attributes :
    (ast : Ast) (parent : ℕ) (node : Node)
    → length (append_node ast parent node).attributes ≡ length ast.attributes
unfolding append_node
append_node-same_attributes ast parent node = refl

-- A state with one more node.
grown-IsTree :
    {l : Limits} (s : ParserState) (parent : ℕ) (node : Node)
    → parent < length s.ast.nodes
    → node.child_count ≡ 0
    → node.attributes ≡ record { start = 0; len = 0 }
    → reached s.limits.max_nodes (length s.ast.nodes) ≡ false
    → IsTree l s
    → IsTree l (record s { ast = append_node s.ast parent node })
grown-IsTree s parent node lt c a free v = record {
  counts = omega (
    arith,
    append_node-children s.ast parent node lt c,
    append_node-length s.ast parent node,
    v.counts,
  );
  ranges =
      append_node-attributes s.ast parent node (ap (λ (r : Range). r.len) a)
      ∙ v.ranges
      ∙ sym (append_node-same_attributes s.ast parent node);
  windows = rw append_node-same_attributes (
      append_node-HasWindow s.ast parent node
        (omega (arith, ap (λ (r : Range). r.start) a, ap (λ (r : Range). r.len) a)) v.windows);
  last = omega (arith, append_node-length s.ast parent node, v.last);
  crumbs =
      All-weaken (length s.ast.nodes) _ s.breadcrumbs
        (omega (arith, append_node-length s.ast parent node)) v.crumbs;
  same_limits = v.same_limits;
  nodes_within = rw append_node-length (
      subst (λ (x : Limits). (x.max_nodes ≡ 0) ⊎ (length s.ast.nodes + 1 ≤ x.max_nodes))
        v.same_limits (room s.limits.max_nodes (length s.ast.nodes) free));
  attributes_within = rw append_node-same_attributes v.attributes_within;
}

-- The appended node's index is a node when the flag says so.
pub record Appended (l : Limits) (s : ParserState) (r : ParserState × Bool) : Type 0 where
  pub tree : IsTree l r.0
  pub longer : r.1 ≡ true → length r.0.ast.nodes ≡ length s.ast.nodes + 1
  pub grows : length s.ast.nodes ≤ length r.0.ast.nodes
  pub crumbs : r.0.breadcrumbs ≡ s.breadcrumbs

pub append_state_node-Appended :
    {l : Limits} (s : ParserState) (parent : ℕ) (node : Node) (p : ℕ)
    → parent < length s.ast.nodes
    → node.child_count ≡ 0
    → node.attributes ≡ record { start = 0; len = 0 }
    → IsTree l s
    → Appended l s (append_state_node s parent node p)
unfolding append_state_node
append_state_node-Appended s parent node p lt c a v =
    elim (Bool-cases (reached s.limits.max_nodes (length s.ast.nodes))) [
      | inl full ↦ rw full (record {
        tree = SameTree-IsTree (unfold warn_max_nodes warn in ground arith) v;
        longer = λ e. absurd (cc e);
        grows = unfold warn_max_nodes warn in ground arith;
        crumbs = unfold warn_max_nodes warn in ground arith;
      })
      | inr free ↦ rw free (record {
        tree = grown-IsTree s parent node lt c a free v;
        longer = λ e. append_node-length s.ast parent node;
        grows = omega (arith, append_node-length s.ast parent node);
        crumbs = refl;
      })
    ]
