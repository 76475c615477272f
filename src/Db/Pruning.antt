-- ===== src/Db/Pruning.antt =====
-- What taking a comment out (db/migration/000011) leaves of the threads.
use shitposter.Prelude.{
  ℕ, suc, ◌≤◌, ◌≡◌, ◌≢◌, refl, arith, Bool, true, false, ◌&&◌, Option, none, some, List, [], ◌∷◌,
  ◌==◌, if◌then◌else◌, Bool-cases, inl, inr, ◌⊎◌,
}
use shitposter.Db.Tables.{Config, Comment}
use shitposter.Db.Queries.{
  find_by, count_by, is_root_of, is_root, remove_by, exists_by, is_some, has_id, replies_to,
  is_parent,
}
use shitposter.Db.Threads.{Hangs, IsThreaded, IsThreaded-weaken}

pub find-remove_by :
    (i j : ℕ) (p : Comment) (cs : List Comment)
    → j ≢ i
    → find_by (has_id j) cs ≡ some p
    → find_by (has_id j) (remove_by (has_id i) cs) ≡ some p
find-remove_by i j p [] ne e = e
find-remove_by i j p (c ∷ cs) ne e =
    by_tests (find-remove_by i j p cs ne) (Bool-cases (c.id == i)) (Bool-cases (c.id == j))
  where
    by_tests :
        (find_by (has_id j) cs ≡ some p → find_by (has_id j) (remove_by (has_id i) cs) ≡ some p)
        → ((c.id == i) ≡ true) ⊎ ((c.id == i) ≡ false)
        → ((c.id == j) ≡ true) ⊎ ((c.id == j) ≡ false)
        → find_by (has_id j) (remove_by (has_id i) (c ∷ cs)) ≡ some p
    by_tests ih a b = grind (arith, ih, e, ne, a, b)

-- No row of the list replies to that comment.
abbrev pub Childless : ℕ → List Comment → Type 0
Childless i [] = Unit
Childless i (c ∷ cs) = (replies_to i c ≡ false) × Childless i cs

pub exists-Childless :
    (i : ℕ) (cs : List Comment) → exists_by (replies_to i) cs ≡ false → Childless i cs
exists-Childless i [] h = tt
exists-Childless i (c ∷ cs) h = by_test (replies_to i c) h (exists-Childless i cs)
  where
    by_test :
        (b : Bool)
        → is_some (if b then some c else find_by (replies_to i) cs) ≡ false
        → (exists_by (replies_to i) cs ≡ false → Childless i cs)
        → (b ≡ false) × Childless i cs
    by_test true h ih = absurd (cc h)
    by_test false h ih = (refl, ih h)

pub count-remove_by_le :
    {A : Type 0} (t r : A → Bool) (xs : List A) → count_by t (remove_by r xs) ≤ count_by t xs
count-remove_by_le t r [] = omega arith
count-remove_by_le t r (x ∷ xs) = by_test (r x) (count-remove_by_le t r xs)
  where
    by_test :
        (d : Bool)
        → count_by t (remove_by r xs) ≤ count_by t xs
        → count_by t (if d then remove_by r xs else x ∷ remove_by r xs) ≤ count_by t (x ∷ xs)
    by_test true ih = ground (arith, ih)
    by_test false ih = ground (arith, ih)

Hangs-remove_by :
    (d : Config) (i : ℕ) (c : Comment) (cs : List Comment) (o : Option ℕ)
    → is_parent i o ≡ false
    → Hangs d c cs o
    → Hangs d c (remove_by (has_id i) cs) o
Hangs-remove_by d i c cs none e (zero_depth, few) = (
  zero_depth,
  omega (arith, few, count-remove_by_le (is_root_of c.post_id c.user_id) (has_id i) cs),
)
Hangs-remove_by d i c cs (some j) e (p, found, same, below, within) =
    (p, find-remove_by i j p cs (ground (arith, e)) found, same, below, within)

-- Taking out a comment without replies keeps the threads.
pub remove_by-IsThreaded :
    (d : Config) (n i : ℕ) (cs : List Comment)
    → Childless i cs
    → IsThreaded d n cs
    → IsThreaded d n (remove_by (has_id i) cs)
remove_by-IsThreaded d n i [] free h = tt
remove_by-IsThreaded d n i (c ∷ cs) (none_here, free) (lt, hangs, h) =
    by_test (has_id i c) (remove_by-IsThreaded d c.id i cs free h)
  where
    by_test :
        (b : Bool)
        → IsThreaded d c.id (remove_by (has_id i) cs)
        → IsThreaded d n (if b then remove_by (has_id i) cs else c ∷ remove_by (has_id i) cs)
    by_test true ih = IsThreaded-weaken d c.id n (remove_by (has_id i) cs) (omega (arith, lt)) ih
    by_test false ih = (lt, Hangs-remove_by d i c cs c.parent_id none_here hangs, ih)

-- No user has more roots under a post than the limit.
pub IsThreaded-few_roots :
    (cfg : Config) (n p u : ℕ) (cs : List Comment)
    → IsThreaded cfg n cs
    → count_by (is_root_of p u) cs ≤ cfg.comment_max_root_count_per_user
IsThreaded-few_roots cfg n p u [] h = omega arith
IsThreaded-few_roots cfg n p u (c ∷ cs) (lt, hangs, h) =
    by_parent c.parent_id hangs (IsThreaded-few_roots cfg c.id p u cs h)
  where
    by_parent :
        (o : Option ℕ)
        → Hangs cfg c cs o
        → count_by (is_root_of p u) cs ≤ cfg.comment_max_root_count_per_user
        → (if (c.post_id == p) && (c.user_id == u) && is_root o
            then suc (count_by (is_root_of p u) cs)
            else count_by (is_root_of p u) cs)
          ≤ cfg.comment_max_root_count_per_user
    by_parent (some i) v ih = ground (arith, ih)
    by_parent none (zero_depth, few) ih = elim (Bool-cases ((c.post_id == p) && (c.user_id == u))) [
      | inl own ↦
          let same_post : c.post_id ≡ p = ground (arith, own) in
          let same_user : c.user_id ≡ u = ground (arith, own) in
          let here = rw (same_post, same_user) at few in ground (arith, ih, here)
      | inr other ↦ ground (arith, ih, other)
    ]
