-- ===== src/Scum/Warnings.antt =====
-- scum/warnings.go: the bounded collector of warnings.
pub mod Bounds
use shitposter.Prelude.{
  ℕ, zero, suc, ◌+◌, ◌-◌, Bool, true, false, List, [], ◌∷◌, ◌++◌, ltb, if◌then◌else◌, length,
}
use shitposter.Prelude.Int.{ℤ, pos, negsuc}
use shitposter.Scum.Issue.{
  IsNoPanic, Issue, warnings_truncated, invalid_warnings_policy, negative_warnings_cap, Result, ok,
  config_error, ◌>>=◌,
}

pub record Warning : Type 0 where
  pub issue : Issue
  pub pos : ℕ
  pub tag_id : ℕ
  pub close_tag_id : ℕ
  pub expected : ℕ
  pub got : ℕ

-- A composite literal that sets the issue and the position only.
abbrev pub warning : Issue → ℕ → Warning
warning i p = record { issue = i; pos = p; tag_id = 0; close_tag_id = 0; expected = 0; got = 0 }

pub data Policy : Type 0 where
  no_cap no_rec drop trunc : Policy

pub record Warnings : Type 0 where
  pub policy : Policy
  pub list : List Warning
  pub max_warnings : ℕ
  pub overflowed : Bool
  pub dropped_count : ℕ
  pub first_drop_pos : ℕ

-- `Add` behind the switch: the limit is `max(maxWarnings-1, 0)` under `trunc`.
capacity : Policy → ℕ → ℕ
capacity trunc m = m - 1
capacity _ m = m

-- The first overflow.
overflow : Policy → Warnings → Warning → Warnings
overflow trunc w item = record w {
  overflowed = true;
  first_drop_pos = item.pos;
  dropped_count = 1;
  list =
      if ltb 0 w.max_warnings then w.list ++ warning warnings_truncated item.pos ∷ [] else w.list;
}
overflow _ w item = record w { overflowed = true; first_drop_pos = item.pos }

-- After the overflow `trunc` counts and the others ignore.
after_overflow : Policy → Warnings → Warnings
after_overflow trunc w = record w { dropped_count = w.dropped_count + 1 }
after_overflow _ w = w

add_capped : Warnings → Warning → Warnings
unfolding capacity overflow after_overflow
add_capped w item =
    if w.overflowed
    then after_overflow w.policy w
    else if ltb (length w.list) (capacity w.policy w.max_warnings)
    then record w { list = w.list ++ item ∷ [] }
    else overflow w.policy w item

add_by : Policy → Warnings → Warning → Warnings
unfolding add_capped
add_by no_rec w item = w
add_by no_cap w item = record w { list = w.list ++ item ∷ [] }
add_by _ w item = add_capped w item

unfoldable pub add : Warnings → Warning → Warnings
unfolding add_by
add w item = add_by w.policy w item

-- The policies by their numbers, `numPolicies` being 4.
policy_of : ℤ → Result Policy
policy_of (pos zero) = ok no_cap
policy_of (pos (suc zero)) = ok no_rec
policy_of (pos (suc (suc zero))) = ok drop
policy_of (pos (suc (suc (suc zero)))) = ok trunc
policy_of _ = config_error invalid_warnings_policy

abbrev pub empty : Policy → ℕ → Warnings
empty p cap = record {
  policy = p;
  list = [];
  max_warnings = cap;
  overflowed = false;
  dropped_count = 0;
  first_drop_pos = 0;
}

cap_of : ℤ → Result ℕ
cap_of (pos n) = ok n
cap_of (negsuc _) = config_error negative_warnings_cap

unfoldable pub new_warnings : ℤ → ℤ → Result Warnings
unfolding policy_of cap_of
new_warnings policy cap = do p ← policy_of policy; n ← cap_of cap; ok (empty p n)

-- Its errors are values.
pub new_warnings-IsNoPanic : (policy cap : ℤ) → IsNoPanic (new_warnings policy cap)
unfolding new_warnings
new_warnings-IsNoPanic (pos zero) (pos n) = tt
new_warnings-IsNoPanic (pos zero) (negsuc n) = tt
new_warnings-IsNoPanic (pos (suc zero)) (pos n) = tt
new_warnings-IsNoPanic (pos (suc zero)) (negsuc n) = tt
new_warnings-IsNoPanic (pos (suc (suc zero))) (pos n) = tt
new_warnings-IsNoPanic (pos (suc (suc zero))) (negsuc n) = tt
new_warnings-IsNoPanic (pos (suc (suc (suc zero)))) (pos n) = tt
new_warnings-IsNoPanic (pos (suc (suc (suc zero)))) (negsuc n) = tt
new_warnings-IsNoPanic (pos (suc (suc (suc (suc m))))) cap = tt
new_warnings-IsNoPanic (negsuc m) cap = tt
