-- ===== src/Scum/Utf8.antt =====
-- What scum takes from Go's unicode/utf8, and the tables of package unicode as a parameter.
use shitposter.Prelude.{
  ℕ, zero, suc, ◌+◌, ◌-◌, ◌*◌, ◌≤◌, min, Bool, not, ◌&&◌, [], ◌∷◌, arith, ltb, leb, ◌==◌,
  if◌then◌else◌, Bytes, length, get_or, drop,
}

-- unicode.IsLetter, unicode.IsNumber and unicode.IsPunct: any three tables.
pub record Unicode : Type 0 where
  pub is_letter : ℕ → Bool
  pub is_number : ℕ → Bool
  pub is_punct : ℕ → Bool

pub record Rune : Type 0 where
  pub value : ℕ
  pub width : ℕ

abbrev pub rune_error : ℕ
rune_error = 0xfffd

abbrev invalid : Rune
invalid = record { value = rune_error; width = 1 }

within : ℕ → ℕ → ℕ → Bool
within lo hi b = leb lo b && leb b hi

continues : ℕ → Bool
unfolding within
continues b = within 0x80 0xbf b

-- The continuation bytes, once the first byte has told how many there are and where the next may lie.
decode_two : ℕ → Bytes → Rune
unfolding continues
decode_two p (b ∷ _) =
    if continues b then record { value = (p - 0xc0) * 64 + (b - 0x80); width = 2 } else invalid
decode_two p _ = invalid

decode_three : ℕ → ℕ → ℕ → Bytes → Rune
unfolding continues
decode_three p lo hi (b ∷ c ∷ _) =
    if within lo hi b && continues c
    then record { value = (p - 0xe0) * 4096 + (b - 0x80) * 64 + (c - 0x80); width = 3 }
    else invalid
decode_three p lo hi _ = invalid

decode_four : ℕ → ℕ → ℕ → Bytes → Rune
unfolding continues
decode_four p lo hi (b ∷ c ∷ d ∷ _) =
    if within lo hi b && (continues c && continues d)
    then record {
      value = (p - 0xf0) * 262144 + (b - 0x80) * 4096 + (c - 0x80) * 64 + (d - 0x80);
      width = 4;
    }
    else invalid
decode_four p lo hi _ = invalid

-- utf8.DecodeRuneInString
unfoldable pub decode_rune : Bytes → Rune
unfolding decode_two decode_three decode_four within
decode_rune [] = record { value = rune_error; width = 0 }
decode_rune (p ∷ rest) =
    if ltb p 0x80
    then record { value = p; width = 1 }
    else if within 0xc2 0xdf p
    then decode_two p rest
    else if p == 0xe0
    then decode_three p 0xa0 0xbf rest
    else if p == 0xed
    then decode_three p 0x80 0x9f rest
    else if within 0xe1 0xef p
    then decode_three p 0x80 0xbf rest
    else if p == 0xf0
    then decode_four p 0x90 0xbf rest
    else if within 0xf1 0xf3 p
    then decode_four p 0x80 0xbf rest
    else if p == 0xf4
    then decode_four p 0x80 0x8f rest
    else invalid

-- The backwards search for a byte that starts a rune, at most `rounds` bytes below `p`.
rune_start : ℕ → ℕ → Bytes → ℕ
unfolding continues
rune_start zero p s = p - 1
rune_start (suc rounds) p s =
    let further = rune_start rounds (p - 1) s in
    if not (continues (get_or s (p - 1) 0)) then p - 1 else further

-- utf8.DecodeLastRuneInString
unfoldable pub decode_last_rune : Bytes → Rune
unfolding rune_start decode_rune
decode_last_rune s =
    let n = length s in
    let last = get_or s (n - 1) 0 in
    let start = rune_start (min (n - 1) 3) (n - 1) s in
    let r = decode_rune (drop start s) in
    if n == 0
    then record { value = rune_error; width = 0 }
    else if ltb last 0x80
    then record { value = last; width = 1 }
    else if not (start + r.width == n)
    then invalid
    else r

-- A rune is at least one byte wide, and no wider than the text that it starts.
pub decode_rune-width :
    (b : ℕ) (rest : Bytes)
    → (1 ≤ (decode_rune (b ∷ rest)).width) × ((decode_rune (b ∷ rest)).width ≤ length (b ∷ rest))
unfolding decode_rune
decode_rune-width p [] = ground arith
decode_rune-width p (b ∷ []) = ground arith
decode_rune-width p (b ∷ c ∷ []) = ground arith
decode_rune-width p (b ∷ c ∷ d ∷ rest) = ground arith
