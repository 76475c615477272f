-- ===== src/Scum/Search.antt =====
-- The byte searches of scum/utils.go: `strings.IndexByte` as the package uses it, and
-- `longestCommonSubPrefix`. The index -1 is `none`.
pub mod Occurrence
pub mod Best
use shitposter.Prelude.{
  ℕ, zero, suc, ◌+◌, ◌-◌, Bool, true, false, Option, none, some, List, [], ◌∷◌, ltb, ◌==◌,
  if◌then◌else◌, Bytes, length, drop,
}
use mathlib.Core.Option

unfoldable pub index_byte : Bytes → ℕ → Option ℕ
index_byte [] c = none
index_byte (x ∷ xs) c = if x == c then some 0 else Option.map suc (index_byte xs c)

-- How many bytes two strings share from their starts: the inner loop, which stops at the end of
-- either string or at the first difference.
unfoldable pub shared : Bytes → Bytes → ℕ
shared (x ∷ xs) (y ∷ ys) = if x == y then suc (shared xs ys) else 0
shared _ _ = 0

pub record Match : Type 0 where
  pub contained : Bool
  pub idx : Option ℕ
  pub length : ℕ

abbrev pub no_match : Option ℕ → ℕ → Match
no_match at best = record { contained = false; idx = at; length = best }

-- One round at the first byte of `seq` found at `rel` bytes after `start`.
abbrev round : (ℕ → Option ℕ → ℕ → Match) → Bytes → ℕ → Bytes → ℕ → Option ℕ → ℕ → Option ℕ → Match
round again src c rest start at best none = no_match at best
round again src c rest start at best (some rel) =
    let here = start + rel in
    let i = suc (shared (drop (suc here) src) rest) in
    let longer = ltb best i in
    let at' = if longer then some here else at in
    let best' = if longer then i else best in
    if i == suc (length rest)
    then record { contained = true; idx = at'; length = best' }
    else again (suc here) at' best'

-- The outer loop over `seq = c ∷ rest`; the fuel bounds the rounds, since each starts later.
pub prefix_loop : ℕ → Bytes → ℕ → Bytes → ℕ → Option ℕ → ℕ → Match
prefix_loop zero src c rest start at best = no_match at best
prefix_loop (suc f) src c rest start at best =
    let found =
      round (prefix_loop f src c rest) src c rest start at best (index_byte (drop start src) c) in
    if ltb start (length src - best) then found else no_match at best

single : Option ℕ → Match
single none = no_match none 0
single (some i) = record { contained = true; idx = some i; length = 1 }

unfoldable pub longest_common_sub_prefix : Bytes → Bytes → Match
unfolding prefix_loop single
longest_common_sub_prefix src [] = no_match none 0
longest_common_sub_prefix src (c ∷ []) = single (index_byte src c)
longest_common_sub_prefix src (c ∷ d ∷ rest) =
    prefix_loop (suc (length src)) src c (d ∷ rest) 0 none 0
