-- ===== src/Scum/Search/Occurrence.antt =====
-- What `longestCommonSubPrefix` finds: the place where most of the sequence stands.
use shitposter.Prelude.{
  ℕ, zero, suc, ◌+◌, ◌≤◌, ◌<◌, ◌≡◌, refl, ap, ◌∙◌, Option, none, some, [], ◌∷◌, arith, ◌==◌, Bytes,
  length, drop,
}
use shitposter.Scum.Search.{index_byte, shared, Match}

pub shared-le-right : (xs ys : Bytes) → shared xs ys ≤ length ys
unfolding shared
shared-le-right [] ys = omega arith
shared-le-right (x ∷ xs) [] = omega arith
shared-le-right (x ∷ xs) (y ∷ ys) = ground (arith, shared-le-right xs ys)

pub shared-le-left : (xs ys : Bytes) → shared xs ys ≤ length xs
unfolding shared
shared-le-left [] ys = omega arith
shared-le-left (x ∷ xs) [] = omega arith
shared-le-left (x ∷ xs) (y ∷ ys) = ground (arith, shared-le-left xs ys)

pub drop-drop : (i j : ℕ) (xs : Bytes) → drop j (drop i xs) ≡ drop (i + j) xs
drop-drop zero j xs = rw (zero_add j)
  where
    zero_add : (j : ℕ) → 0 + j ≡ j
    zero_add j = omega arith
drop-drop (suc i) zero [] = rw suc_add
  where
    suc_add : suc i + 0 ≡ suc i
    suc_add = omega arith
drop-drop (suc i) (suc j) [] = rw (suc_add)
  where
    suc_add : suc i + suc j ≡ suc (i + suc j)
    suc_add = omega arith
drop-drop (suc i) j (x ∷ xs) = drop-drop i j xs ∙ ap (λ n. drop n (x ∷ xs)) (suc_add)
  where
    suc_add : suc (i + j) ≡ suc i + j
    suc_add = omega arith

-- Where no byte is `c`, a sequence that starts with `c` shares nothing.
pub index_byte-none :
    (xs : Bytes) (c : ℕ) (rest : Bytes) (j : ℕ)
    → index_byte xs c ≡ none
    → shared (drop j xs) (c ∷ rest) ≡ 0
unfolding index_byte shared
index_byte-none [] c rest zero e = refl
index_byte-none [] c rest (suc j) e = refl
index_byte-none (x ∷ xs) c rest zero e = ground arith
index_byte-none (x ∷ xs) c rest (suc j) e = index_byte-none xs c rest j (ground arith)

-- The first place of `c`: nothing is shared before it, and the count goes on from it.
pub record IsFirst (xs : Bytes) (c : ℕ) (rest : Bytes) (i : ℕ) : Type 0 where
  pub inside : i < length xs
  pub before : (j : ℕ) → j < i → shared (drop j xs) (c ∷ rest) ≡ 0
  pub here : shared (drop i xs) (c ∷ rest) ≡ suc (shared (drop (suc i) xs) rest)

IsFirst-suc :
    (x : ℕ) {xs : Bytes} {c : ℕ} {rest : Bytes} {i : ℕ}
    → shared (x ∷ xs) (c ∷ rest) ≡ 0
    → IsFirst xs c rest i
    → IsFirst (x ∷ xs) c rest (suc i)
IsFirst-suc x {xs} {c} {rest} {i} ne f = record {
  inside = omega (arith, f.inside);
  before = before';
  here = f.here;
}
  where
    before' : (j : ℕ) → j < suc i → shared (drop j (x ∷ xs)) (c ∷ rest) ≡ 0
    before' zero h = ne
    before' (suc j) h = f.before j (omega arith)

pub index_byte-some :
    (xs : Bytes) (c : ℕ) (rest : Bytes) (i : ℕ) → index_byte xs c ≡ some i → IsFirst xs c rest i
unfolding index_byte
index_byte-some [] c rest i e = absurd (cc e)
index_byte-some (x ∷ xs) c rest zero e = record {
  inside = omega arith;
  before = λ j h. absurd (omega arith);
  here = unfold shared in ground arith;
}
index_byte-some (x ∷ xs) c rest (suc i) e =
    IsFirst-suc x (unfold shared in ground arith) (index_byte-some xs c rest i (ground arith))

-- The best match at `at`, `best` bytes long, among the places below `start`.
pub data Attained (src seq : Bytes) : Option ℕ → ℕ → Type 0 where
  nothing : {best : ℕ} → best ≡ 0 → Attained src seq none best
  found :
      {best : ℕ} (k : ℕ)
      → shared (drop k src) seq ≡ best
      → 1 ≤ best
      → ((j : ℕ) → j < k → shared (drop j src) seq < best)
      → Attained src seq (some k) best

pub record IsBest (src seq : Bytes) (m : Match) : Type 0 where
  -- no place shares more with the sequence
  pub longest : (j : ℕ) → shared (drop j src) seq ≤ m.length
  -- the first place that shares as much, if any byte is shared
  pub attained : Attained src seq m.idx m.length
  -- all of the sequence is there exactly when it says so
  pub whole : m.contained ≡ (m.length == length seq)
