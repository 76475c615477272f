-- ===== src/Scum/Ast/Ranges.antt =====
-- The attribute range of a node under scum/append_attribute.go.
use shitposter.Prelude.{
  ℕ, zero, suc, ◌+◌, ◌<◌, ◌≡◌, ◌≢◌, refl, ap, ◌⊎◌, List, [], ◌∷◌, length, length-append, get_or,
  modify, arith,
}
use shitposter.Scum.Ast.{Range, Node, new_node, Ast, Attribute, append_attribute, link_attribute}

-- The range of the node at an index.
abbrev pub range_at : Ast → ℕ → Range
range_at ast i = (get_or ast.nodes i new_node).attributes

get_or-modify :
    (g : Node → Node) (xs : List Node) (i : ℕ)
    → i < length xs
    → get_or (modify xs i g) i new_node ≡ g (get_or xs i new_node)
get_or-modify g [] i lt = absurd (omega (arith, lt))
get_or-modify g (x ∷ xs) zero lt = refl
get_or-modify g (x ∷ xs) (suc i) lt = get_or-modify g xs i (omega (arith, lt))

get_or-other :
    (g : Node → Node) (xs : List Node) (i j : ℕ)
    → j ≢ i
    → get_or (modify xs i g) j new_node ≡ get_or xs j new_node
get_or-other g [] i j ne = refl
get_or-other g (x ∷ xs) zero zero ne = absurd (ne refl)
get_or-other g (x ∷ xs) zero (suc j) ne = refl
get_or-other g (x ∷ xs) (suc i) zero ne = refl
get_or-other g (x ∷ xs) (suc i) (suc j) ne = get_or-other g xs i j (λ e. ne (omega (arith, e)))

range_at-append :
    (ast : Ast) (i : ℕ) (attr : Attribute)
    → i < length ast.nodes
    → range_at (append_attribute ast i attr) i
      ≡ (link_attribute (length ast.attributes) (get_or ast.nodes i new_node)).attributes
unfolding append_attribute
range_at-append ast i attr lt =
    ap (λ (n : Node). n.attributes)
      (get_or-modify (link_attribute (length ast.attributes)) ast.nodes i lt)

range_at-other :
    (ast : Ast) (i : ℕ) (attr : Attribute) (j : ℕ)
    → j ≢ i
    → range_at (append_attribute ast i attr) j ≡ range_at ast j
unfolding append_attribute
range_at-other ast i attr j ne =
    ap (λ (n : Node). n.attributes)
      (get_or-other (link_attribute (length ast.attributes)) ast.nodes i j ne)

append_attribute-length :
    (ast : Ast) (i : ℕ) (attr : Attribute)
    → length (append_attribute ast i attr).attributes ≡ length ast.attributes + 1
unfolding append_attribute
append_attribute-length ast i attr = length-append ast.attributes (attr ∷ [])

-- Appending an attribute to a node makes its range one longer and leaves the other nodes' alone; and
-- the range ends with the new attribute exactly when the node had none or its range ended with the
-- attributes before.
pub append_attribute-range :
    (ast : Ast) (i : ℕ) (attr : Attribute)
    → i < length ast.nodes
    → ((range_at (append_attribute ast i attr) i).len ≡ (range_at ast i).len + 1)
      × ((j : ℕ) → j ≢ i → range_at (append_attribute ast i attr) j ≡ range_at ast j)
      × (((range_at ast i).len ≡ 0)
            ⊎ ((range_at ast i).start + (range_at ast i).len ≡ length ast.attributes)
          → (range_at (append_attribute ast i attr) i).start
              + (range_at (append_attribute ast i attr) i).len
            ≡ length (append_attribute ast i attr).attributes)
      × ((range_at (append_attribute ast i attr) i).start
              + (range_at (append_attribute ast i attr) i).len
            ≡ length (append_attribute ast i attr).attributes
          → ((range_at ast i).len ≡ 0)
            ⊎ ((range_at ast i).start + (range_at ast i).len ≡ length ast.attributes))
append_attribute-range ast i attr lt = (
  rw (range_at-append ast i attr lt) refl,
  range_at-other ast i attr,
  rw (range_at-append ast i attr lt, append_attribute-length) (ground arith),
  rw (range_at-append ast i attr lt, append_attribute-length) (ground arith),
)
