-- ===== src/Prelude/ByteTests.antt =====
-- Tests on byte strings.
use Prim.Native.Nat.{ℕ}
use mathlib.Core.Bool.{Bool, true, false, ◌&&◌, ◌||◌}
use mathlib.Core.List.{[], ◌∷◌}
use shitposter.Prelude.Tests.{◌==◌}
use shitposter.Prelude.Lists.{Bytes}

abbrev pub bytes_eq : Bytes → Bytes → Bool
bytes_eq [] [] = true
bytes_eq (x ∷ xs) (y ∷ ys) = (x == y) && bytes_eq xs ys
bytes_eq _ _ = false

abbrev pub has_prefix : Bytes → Bytes → Bool
has_prefix xs [] = true
has_prefix [] (y ∷ ys) = false
has_prefix (x ∷ xs) (y ∷ ys) = (x == y) && has_prefix xs ys

-- Whether one of the bytes stands in the text.
abbrev pub contains_any : Bytes → Bytes → Bool
contains_any [] bs = false
contains_any (x ∷ xs) bs = is_one_of x bs || contains_any xs bs
  where
    is_one_of : ℕ → Bytes → Bool
    is_one_of x [] = false
    is_one_of x (b ∷ bs) = (x == b) || is_one_of x bs
