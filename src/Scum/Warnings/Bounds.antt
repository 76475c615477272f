-- ===== src/Scum/Warnings/Bounds.antt =====
-- What a collector holds after a run of `Add`s.
use shitposter.Prelude.{
  ℕ, zero, suc, ◌+◌, ◌≤◌, ◌≡◌, refl, sym, ap, ◌∙◌, ◌≢◌, true, false, List, [], ◌∷◌, ◌++◌,
  append_assoc, append-nil, arith, length, length-append, length-take, take, Option, none, some,
  get_elem?, ◌⊎◌, inl, inr,
}
use shitposter.Scum.Issue.{warnings_truncated}
use shitposter.Scum.Warnings.{
  Warning, warning, Policy, no_cap, no_rec, drop, trunc, Warnings, add, empty,
}

pub add_all : Warnings → List Warning → Warnings
add_all w [] = w
add_all w (x ∷ xs) = add_all (add w x) xs

-- The truncation marker carries the position of the first warning that is dropped.
marker : Option Warning → List Warning
marker none = []
marker (some x) = warning warnings_truncated x.pos ∷ []

-- What each policy promises to keep of a run of warnings.
pub kept : Policy → ℕ → List Warning → List Warning
unfolding marker
kept no_cap m xs = xs
kept no_rec m xs = []
kept drop m xs = take m xs
kept trunc zero xs = []
kept trunc (suc m) xs = take m xs ++ marker (get_elem? xs m)

abbrev Capped : Policy → Type 0
Capped p = (p ≡ drop) ⊎ (p ≡ trunc)

add-overflowed :
    (w : Warnings) (x : Warning)
    → Capped w.policy
    → w.overflowed ≡ true
    → ((add w x).list ≡ w.list) × Capped (add w x).policy × ((add w x).overflowed ≡ true)
unfolding add
add-overflowed w x c o = ground arith

add_all-overflowed :
    (w : Warnings) (xs : List Warning)
    → Capped w.policy
    → w.overflowed ≡ true
    → (add_all w xs).list ≡ w.list
unfolding add_all
add_all-overflowed w [] c o = refl
add_all-overflowed w (x ∷ xs) c o =
    let (same, c', o') = add-overflowed w x c o in add_all-overflowed (add w x) xs c' o' ∙ same

add_all-step :
    (w : Warnings) {v : Warnings} (x : Warning) (xs : List Warning)
    → add w x ≡ v
    → (add_all w (x ∷ xs)).list ≡ (add_all v xs).list
unfolding add_all
add_all-step w x xs e = ap (λ (v : Warnings). (add_all v xs).list) e

-- A collector with room for `k` more, its marker's slot apart.
record Room (w : Warnings) (cap k : ℕ) : Type 0 where
  open_yet : w.overflowed ≡ false
  fits : length w.list + k ≡ cap

add-Room :
    (w : Warnings) (x : Warning) (k cap : ℕ)
    → Room w cap (suc k)
    → ((w.policy ≡ drop) × (cap ≡ w.max_warnings))
      ⊎ ((w.policy ≡ trunc) × (suc cap ≡ w.max_warnings))
    → add w x ≡ record w { list = w.list ++ x ∷ [] }
unfolding add
add-Room w x k cap r p = ground arith

add-full-drop :
    (w : Warnings) (x : Warning)
    → Room w w.max_warnings 0
    → w.policy ≡ drop
    → add w x ≡ record w { overflowed = true; first_drop_pos = x.pos }
unfolding add
add-full-drop w x r p = ground arith

add-full-trunc :
    (w : Warnings) (x : Warning) (m : ℕ)
    → Room w m 0
    → w.policy ≡ trunc
    → suc m ≡ w.max_warnings
    → add w x ≡ record w {
      overflowed = true;
      first_drop_pos = x.pos;
      dropped_count = 1;
      list = w.list ++ warning warnings_truncated x.pos ∷ [];
    }
unfolding add
add-full-trunc w x m r p e = ground arith

add_all-drop :
    (w : Warnings) (xs : List Warning) (k : ℕ)
    → w.policy ≡ drop
    → Room w w.max_warnings k
    → (add_all w xs).list ≡ w.list ++ take k xs
unfolding add_all
add_all-drop w [] zero p r = sym (append-nil w.list)
add_all-drop w [] (suc k) p r = sym (append-nil w.list)
add_all-drop w (x ∷ xs) zero p r =
    add_all-step w x xs (add-full-drop w x r p)
    ∙ add_all-overflowed _ xs (inl p) refl
    ∙ sym (append-nil w.list)
add_all-drop w (x ∷ xs) (suc k) p r =
    add_all-step w x xs (add-Room w x k w.max_warnings r (inl (p, refl)))
    ∙ (add_all-drop _ xs k p (record {
      open_yet = r.open_yet;
      fits = omega (arith, r.fits, length-append w.list (x ∷ []));
    })
        ∙ append_assoc w.list (x ∷ []) (take k xs))

add_all-trunc :
    (w : Warnings) (xs : List Warning) (k m : ℕ)
    → w.policy ≡ trunc
    → suc m ≡ w.max_warnings
    → Room w m k
    → (add_all w xs).list ≡ w.list ++ (take k xs ++ marker (get_elem? xs k))
unfolding add_all marker
add_all-trunc w [] zero m p e r = sym (append-nil w.list)
add_all-trunc w [] (suc k) m p e r = sym (append-nil w.list)
add_all-trunc w (x ∷ xs) zero m p e r =
    add_all-step w x xs (add-full-trunc w x m r p e) ∙ add_all-overflowed _ xs (inr p) refl
add_all-trunc w (x ∷ xs) (suc k) m p e r =
    add_all-step w x xs (add-Room w x k m r (inr (p, e)))
    ∙ (add_all-trunc _ xs k m p e (record {
      open_yet = r.open_yet;
      fits = omega (arith, r.fits, length-append w.list (x ∷ []));
    })
        ∙ append_assoc w.list (x ∷ []) (take k xs ++ marker (get_elem? xs k)))

add-no_cap :
    (w : Warnings) (x : Warning)
    → w.policy ≡ no_cap
    → add w x ≡ record w { list = w.list ++ x ∷ [] }
unfolding add
add-no_cap w x p = ground arith

add_all-no_cap :
    (w : Warnings) (xs : List Warning) → w.policy ≡ no_cap → (add_all w xs).list ≡ w.list ++ xs
unfolding add_all
add_all-no_cap w [] p = sym (append-nil w.list)
add_all-no_cap w (x ∷ xs) p =
    add_all-step w x xs (add-no_cap w x p) ∙ add_all-no_cap _ xs p ∙ append_assoc w.list (x ∷ []) xs

add-no_rec : (w : Warnings) (x : Warning) → w.policy ≡ no_rec → add w x ≡ w
unfolding add
add-no_rec w x p = ground arith

add_all-no_rec :
    (w : Warnings) (xs : List Warning) → w.policy ≡ no_rec → (add_all w xs).list ≡ w.list
unfolding add_all
add_all-no_rec w [] p = refl
add_all-no_rec w (x ∷ xs) p = add_all-step w x xs (add-no_rec w x p) ∙ add_all-no_rec w xs p

add_all-trunc_zero : (xs : List Warning) → (add_all (empty trunc 0) xs).list ≡ []
add_all-trunc_zero [] = unfold add_all in refl
add_all-trunc_zero (x ∷ xs) =
    add_all-step (empty trunc 0) x xs refl
    ∙ (unfold add in add_all-overflowed (add (empty trunc 0) x) xs (inr refl) refl)

-- Whatever run of warnings is added to a fresh collector, it holds exactly what its policy promises:
-- everything under `no_cap`, nothing under `no_rec`, the first `m` under `drop`; and under `trunc`
-- nothing for `m` zero, else the first `m - 1` with a truncation marker at the position of the next
-- warning when there is one.
pub add_all-kept :
    (p : Policy) (m : ℕ) (xs : List Warning) → (add_all (empty p m) xs).list ≡ kept p m xs
unfolding kept
add_all-kept no_cap m xs = add_all-no_cap (empty no_cap m) xs refl
add_all-kept no_rec m xs = add_all-no_rec (empty no_rec m) xs refl
add_all-kept drop m xs =
    add_all-drop (empty drop m) xs m refl (record { open_yet = refl; fits = omega arith })
add_all-kept trunc zero xs = add_all-trunc_zero xs
add_all-kept trunc (suc m) xs =
    add_all-trunc (empty trunc (suc m)) xs m m refl refl
      (record { open_yet = refl; fits = omega arith })

length-kept : (p : Policy) (m : ℕ) (xs : List Warning) → p ≢ no_cap → length (kept p m xs) ≤ m
unfolding kept marker
length-kept no_cap m xs ne = absurd (ne refl)
length-kept no_rec m xs ne = omega arith
length-kept drop m xs ne = omega (arith, length-take m xs)
length-kept trunc zero xs ne = omega arith
length-kept trunc (suc m) xs ne =
    ground (arith, length-append (take m xs) (marker (get_elem? xs m)), length-take m xs)

-- A collector of any policy but `no_cap` never holds more warnings than its cap.
pub add_all_bound :
    (p : Policy) (m : ℕ) (xs : List Warning) → p ≢ no_cap → length (add_all (empty p m) xs).list ≤ m
add_all_bound p m xs ne = rw add_all-kept (length-kept p m xs ne)
