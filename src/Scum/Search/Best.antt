-- ===== src/Scum/Search/Best.antt =====
-- The prefix that the search of scum/utils.go finds, against all that occur.
use shitposter.Prelude.{
  ℕ, zero, suc, ◌+◌, ◌-◌, ◌≤◌, ◌<◌, ◌≡◌, refl, sym, ap, ◌∙◌, Bool, true, false, Option, none, some,
  [], ◌∷◌, arith, ltb, ◌==◌, if◌then◌else◌, Bytes, length, drop, length-drop, ◌⊎◌, inl, inr,
  Bool-cases, ltb→lt,
}
use shitposter.Scum.Search.{
  index_byte, shared, Match, no_match, round, prefix_loop, single, longest_common_sub_prefix,
}
use shitposter.Scum.Search.Occurrence.{
  found, nothing, shared-le-right, shared-le-left, drop-drop, index_byte-none, index_byte-some,
  Attained, IsBest,
}

module _ (src : Bytes) (c : ℕ) (rest : Bytes) where
  abbrev seq : Bytes
  seq = c ∷ rest

  record Inv (start : ℕ) (at : Option ℕ) (best : ℕ) : Type 0 where
    below : (j : ℕ) → j < start → shared (drop j src) seq ≤ best
    attained : Attained src seq at best
    partial_yet : best < length seq

  -- From a place near the end no more than the remaining bytes are shared.
  shared_near_end : (j : ℕ) → shared (drop j src) seq ≤ length src - j
  shared_near_end j = omega (arith, shared-le-left (drop j src) seq, length-drop j src)

  stop :
      {start : ℕ} {at : Option ℕ} {best : ℕ}
      → Inv start at best
      → ((j : ℕ) → start ≤ j → shared (drop j src) seq ≤ best)
      → IsBest src seq (no_match at best)
  stop {start} {at} {best} v above = record {
    longest = all;
    attained = v.attained;
    whole = ground (arith, v.partial_yet);
  }
    where
      all : (j : ℕ) → shared (drop j src) seq ≤ best
      all j = elim (Bool-cases (ltb j start)) [
        | inl early ↦ v.below j (ltb→lt j start early)
        | inr late ↦ above j (ground arith)
      ]

  -- Nothing is shared between `start` and the next `c`, at `here`.
  record Next (start here : ℕ) : Type 0 where
    from : start ≤ here
    inside : here < length src
    between : (j : ℕ) → start ≤ j → j < here → shared (drop j src) seq ≡ 0
    count : shared (drop here src) seq ≡ suc (shared (drop (suc here) src) rest)

  next : (start rel : ℕ) → index_byte (drop start src) c ≡ some rel → Next start (start + rel)
  next start rel e =
      let f = index_byte-some (drop start src) c rest rel e in
      record {
        from = omega arith;
        inside = omega (arith, f.inside, length-drop start src);
        between = λ j lo hi. rw (← at_offset j lo) (f.before (j - start) (omega arith));
        count = rw (← drop-drop start rel src, ← later) f.here;
      }
    where
      at_offset : (j : ℕ) → start ≤ j → drop (j - start) (drop start src) ≡ drop j src
      at_offset j lo = drop-drop start (j - start) src ∙ ap (λ n. drop n src) (omega arith)

      later : drop (suc rel) (drop start src) ≡ drop (suc (start + rel)) src
      later =
          drop-drop start (suc rel) src ∙ ap (λ n. drop n src) {y = suc (start + rel)} (omega arith)

  none_left :
      (start : ℕ)
      → index_byte (drop start src) c ≡ none
      → (j : ℕ) → start ≤ j
      → shared (drop j src) seq ≡ 0
  none_left start e j lo = rw (← at_offset) (index_byte-none (drop start src) c rest (j - start) e)
    where
      at_offset : drop (j - start) (drop start src) ≡ drop j src
      at_offset = drop-drop start (j - start) src ∙ ap (λ n. drop n src) (omega arith)

  module _ {start here : ℕ} {at : Option ℕ} {best : ℕ} (v : Inv start at best)
      (n : Next start here) where
    abbrev i : ℕ
    i = suc (shared (drop (suc here) src) rest)

    up_to : (j : ℕ) → j < here → shared (drop j src) seq ≤ best
    up_to j h = elim (Bool-cases (ltb j start)) [
      | inl early ↦ v.below j (ltb→lt j start early)
      | inr late ↦ omega (arith, n.between j (ground arith) h)
    ]

    up_to_here :
        (j : ℕ) → j < suc here → (shared (drop j src) seq ≤ best) ⊎ (shared (drop j src) seq ≡ i)
    up_to_here j h = elim (Bool-cases (ltb j here)) [
      | inl early ↦ inl (up_to j (ltb→lt j here early))
      | inr late ↦
          let e : j ≡ here = ground arith in inr (ap (λ n. shared (drop n src) seq) e ∙ n.count)
    ]

    better : best < i → Attained src seq (some here) i
    better lt = found here n.count (omega arith) (λ j h. omega (arith, up_to j h))

    finish :
        i ≡ length seq → IsBest src seq (record { contained = true; idx = some here; length = i })
    finish e = record {
      longest = λ j. omega (arith, e, shared-le-right (drop j src) seq);
      attained = better (omega (arith, e, v.partial_yet));
      whole = ground (arith, e);
    }

    go_on :
        (longer : Bool)
        → longer ≡ ltb best i
        → (i == length seq) ≡ false
        → Inv (suc here) (if longer then some here else at) (if longer then i else best)
    go_on true l ne = record {
      below = λ j h. grind (arith, up_to_here j h, ltb→lt best i (sym l));
      attained = better (ltb→lt best i (sym l));
      partial_yet = ground (arith, shared-le-right (drop (suc here) src) rest);
    }
    go_on false l ne = record {
      below = λ j h. omega (arith, up_to_here j h, bound);
      attained = v.attained;
      partial_yet = v.partial_yet;
    }
      where
        bound : i ≤ best
        bound = ground arith

  round-IsBest :
      (f : ℕ) (again : ℕ → Option ℕ → ℕ → Match)
      → ((start : ℕ) (at : Option ℕ) (best : ℕ)
          → length src < f + start
          → Inv start at best
          → IsBest src seq (again start at best))
      → {start : ℕ} {at : Option ℕ} {best : ℕ} → length src < suc f + start
      → Inv start at best
      → (o : Option ℕ) → index_byte (drop start src) c ≡ o
      → IsBest src seq (round again src c rest start at best o)
  round-IsBest f again ih {start} h v none e =
      stop v (λ j lo. omega (arith, none_left start e j lo))
  round-IsBest f again ih {start} {at} {best} h v (some rel) e =
      let n = next start rel e in
      elim (Bool-cases (i v n == length seq)) [
        | inl full ↦
            let all : i v n ≡ length seq = ground arith in
            let longer : ltb best (i v n) ≡ true = ground (arith, all, v.partial_yet) in
            rw (full, longer) (finish v n all)
        | inr short ↦ rw short (
            ih (suc (start + rel)) _ _ (omega (arith, h)) (go_on v n (ltb best (i v n)) refl short))
      ]

  prefix_loop-IsBest :
      (f start : ℕ) (at : Option ℕ) (best : ℕ)
      → length src < f + start
      → Inv start at best
      → IsBest src seq (prefix_loop f src c rest start at best)
  unfolding prefix_loop
  prefix_loop-IsBest zero start at best h v = stop v (λ j lo. omega (arith, shared_near_end j))
  prefix_loop-IsBest (suc f) start at best h v = elim (Bool-cases (ltb start (length src - best))) [
    | inl more ↦
        rw more (round-IsBest f _ (prefix_loop-IsBest f) h v (index_byte (drop start src) c) refl)
    | inr done ↦ rw done (stop v (λ j lo. near_end j lo (ground arith)))
  ]
    where
      near_end : (j : ℕ) → start ≤ j → length src ≤ best + start → shared (drop j src) seq ≤ best
      near_end j lo le = omega (arith, shared_near_end j)

module _ (src : Bytes) (c : ℕ) where
  unsearched : (rest : Bytes) → Inv src c rest 0 none 0
  unsearched rest = record {
    below = λ j h. absurd (omega arith);
    attained = nothing refl;
    partial_yet = omega arith;
  }

  single-IsBest : (o : Option ℕ) → index_byte src c ≡ o → IsBest src (c ∷ []) (single o)
  unfolding single
  single-IsBest none e =
      stop src c [] (unsearched []) (λ j lo. omega (arith, none_left src c [] 0 e j lo))
  single-IsBest (some k) e =
      let f = index_byte-some src c [] k e in
      record {
        longest = λ j. shared-le-right (drop j src) (c ∷ []);
        attained =
            found k (omega (arith, f.here, shared-le-right (drop (suc k) src) [])) (omega arith)
              (λ j h. omega (arith, f.before j h));
        whole = refl;
      }

  -- The search for a sequence that is not empty finds the first place where most of it stands, how
  -- much of it stands there, and says `contained` exactly when that is all of it.
  pub longest_common_sub_prefix-IsBest :
      (rest : Bytes) → IsBest src (c ∷ rest) (longest_common_sub_prefix src (c ∷ rest))
  unfolding longest_common_sub_prefix
  longest_common_sub_prefix-IsBest [] = single-IsBest (index_byte src c) refl
  longest_common_sub_prefix-IsBest (d ∷ rest) =
      prefix_loop-IsBest src c (d ∷ rest) (suc (length src)) 0 none 0 (omega arith)
        (unsearched (d ∷ rest))

-- A match that was found lies inside the text.
pub match-fits :
    (src wanted : Bytes) (m : Match) (k : ℕ)
    → IsBest src wanted m
    → m.idx ≡ some k
    → k + m.length ≤ length src
match-fits src wanted m k b e = inside m.idx b.attained e
  where
    inside :
        (at : Option ℕ) → Attained src wanted at m.length → at ≡ some k → k + m.length ≤ length src
    inside none a e = absurd (cc e)
    inside (some j) (found _ s pos _) e =
        ground (arith, shared-le-left (drop j src) wanted, length-drop j src)

pub match-length-le : (src wanted : Bytes) (m : Match) → IsBest src wanted m → m.length ≤ length src
match-length-le src wanted m b = inside m.idx b.attained
  where
    inside : (at : Option ℕ) → Attained src wanted at m.length → m.length ≤ length src
    inside none (nothing e) = omega (arith, e)
    inside (some j) (found _ s pos _) =
        ground (arith, shared-le-left (drop j src) wanted, length-drop j src)

-- A match of all of a sequence stands somewhere.
pub match-contained :
    (src : Bytes) (c : ℕ) (rest : Bytes) (m : Match)
    → IsBest src (c ∷ rest) m
    → m.contained ≡ true
    → (k : ℕ) × (m.idx ≡ some k)
match-contained src c rest m b e = somewhere m.idx b.attained refl
  where
    somewhere :
        (at : Option ℕ)
        → Attained src (c ∷ rest) at m.length
        → m.idx ≡ at
        → (k : ℕ) × (m.idx ≡ some k)
    somewhere none (nothing z) i = absurd (ground (arith, z, e, b.whole))
    somewhere (some k) a i = (k, i)
