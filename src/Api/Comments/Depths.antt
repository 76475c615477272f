-- ===== src/Api/Comments/Depths.antt =====
-- The order of the rows that make a tree, and what a row adds to it.
use shitposter.Prelude.{
  ℕ, zero, suc, ◌≤◌, ◌<◌, ◌≡◌, refl, inl, inr, subst, Bool, true, false, List, [], ◌∷◌, ◌++◌, ltb,
  length, get_or, modify, take, length-append, length-take, arith, Bool-cases,
}
use shitposter.Prelude.Int.{ℤ, pos, negsuc}
use shitposter.Api.Comments.{
  Comment, Forest, Prepared, prepared, bad_depth_jump, panics, with_reply, no_forest, place,
  place_at, then_place, prepare_from, prepare_comment_tree,
}

-- Below a stack of that height, a row is a root or a reply to a row of the branch.
abbrev pub Allowed : ℕ → ℤ → Type 0
Allowed height (pos d) = d ≤ height
Allowed height (negsuc _) = ⊥

abbrev pub below : ℤ → ℕ
below (pos d) = suc d
below (negsuc _) = 0

-- Rows in depth-first order: none is more than one level below the row before it.
abbrev pub DepthFirst : ℕ → List Comment → Type 0
DepthFirst height [] = Unit
DepthFirst height (c ∷ cs) = Allowed height c.depth × DepthFirst (below c.depth) cs

abbrev pub is_prepared : Prepared → Bool
is_prepared (prepared _) = true
is_prepared _ = false

-- The forest after a row that is accepted.
abbrev pub placed : Forest → Comment → ℕ → Forest
placed f c zero = record {
  nodes = f.nodes ++ record { comment = c; replies = [] } ∷ [];
  roots = f.roots ++ length f.nodes ∷ [];
  stack = length f.nodes ∷ [];
}
placed f c (suc d) = record {
  nodes =
      modify (f.nodes ++ record { comment = c; replies = [] } ∷ []) (get_or f.stack d 0)
        (with_reply (length f.nodes));
  roots = f.roots;
  stack = take (suc d) f.stack ++ length f.nodes ∷ [];
}

pub place-placed :
    (f : Forest) (c : Comment) (d : ℕ) → d ≤ length f.stack → place f c d ≡ prepared (placed f c d)
unfolding place
place-placed f c zero le = refl
place-placed f c (suc d) le = ground (arith, le)

pub placed-stack :
    (f : Forest) (c : Comment) (d : ℕ) → d ≤ length f.stack → length (placed f c d).stack ≡ suc d
placed-stack f c zero le = refl
placed-stack f c (suc d) le = omega (
  arith,
  le,
  length-append (take (suc d) f.stack) (length f.nodes ∷ []),
  length-take (suc d) f.stack,
)

pub place-beyond :
    (f : Forest) (c : Comment) (d : ℕ)
    → length f.stack < d
    → place f c d ≡ bad_depth_jump (length f.nodes) c.id d (length f.stack)
unfolding place
place-beyond f c zero lt = absurd (omega (arith, lt))
place-beyond f c (suc d) lt = ground (arith, lt)

-- An error ends the loop.
pub stopped :
    (p : Prepared) (cs : List Comment)
    → is_prepared p ≡ false
    → is_prepared (prepare_from p cs) ≡ false
unfolding prepare_from then_place
stopped p [] e = e
stopped (prepared f) (c ∷ cs) e = absurd (cc e)
stopped (bad_depth_jump i id d n) (c ∷ cs) e = stopped (bad_depth_jump i id d n) cs e
stopped panics (c ∷ cs) e = stopped panics cs e

accepted :
    (cs : List Comment) (f : Forest)
    → DepthFirst (length f.stack) cs
    → is_prepared (prepare_from (prepared f) cs) ≡ true
unfolding prepare_from then_place place_at
accepted [] f h = refl
accepted (c ∷ cs) f (here, later) = by_depth c.depth (accepted cs) here later
  where
    by_depth :
        (z : ℤ)
        → ((g : Forest)
            → DepthFirst (length g.stack) cs
            → is_prepared (prepare_from (prepared g) cs) ≡ true)
        → Allowed (length f.stack) z
        → DepthFirst (below z) cs
        → is_prepared (prepare_from (place_at f c z) cs) ≡ true
    by_depth (pos d) ih le rest =
        rw (place-placed f c d le) (ih (placed f c d) (rw (placed-stack f c d le) rest))
    by_depth (negsuc n) ih none rest = absurd none

refused :
    (cs : List Comment) (f : Forest)
    → is_prepared (prepare_from (prepared f) cs) ≡ true
    → DepthFirst (length f.stack) cs
unfolding prepare_from then_place place_at
refused [] f e = tt
refused (c ∷ cs) f e = by_depth c.depth (refused cs) e
  where
    by_depth :
        (z : ℤ)
        → ((g : Forest)
            → is_prepared (prepare_from (prepared g) cs) ≡ true
            → DepthFirst (length g.stack) cs)
        → is_prepared (prepare_from (place_at f c z) cs) ≡ true
        → Allowed (length f.stack) z × DepthFirst (below z) cs
    by_depth (pos d) ih e = elim (Bool-cases (ltb (length f.stack) d)) [
      | inl beyond ↦
          absurd (
            cc
              (e, stopped (place f c d) cs (rw (place-beyond f c d (ground (arith, beyond))) refl)))
      | inr within ↦
          let le : d ≤ length f.stack = ground (arith, within) in
          (
            le,
            subst (λ h. DepthFirst h cs) (placed-stack f c d le)
                (ih (placed f c d) (rw (place-placed f c d le) at e)),
          )
    ]
    by_depth (negsuc n) ih e = absurd (cc (e, stopped panics cs refl))

abbrev pub IsCapacity : ℤ → Type 0
IsCapacity (pos _) = Unit
IsCapacity (negsuc _) = ⊥

-- The rows make a tree exactly when the number of roots that is asked for is not negative and they are
-- in depth-first order: the first is a root, and none is negative or more than one level below the row
-- before it.
pub prepare_comment_tree-DepthFirst :
    (cs : List Comment) (n_roots : ℤ)
    → (IsCapacity n_roots × DepthFirst 0 cs → is_prepared (prepare_comment_tree cs n_roots) ≡ true)
      × (is_prepared (prepare_comment_tree cs n_roots) ≡ true
          → IsCapacity n_roots × DepthFirst 0 cs)
unfolding prepare_comment_tree
prepare_comment_tree-DepthFirst cs (pos n) =
    ((λ h. accepted cs no_forest h.1), (λ e. (tt, refused cs no_forest e)))
prepare_comment_tree-DepthFirst cs (negsuc n) = ((λ h. absurd h.0), (λ e. absurd (cc e)))
