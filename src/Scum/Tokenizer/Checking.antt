-- ===== src/Scum/Tokenizer/Checking.antt =====
-- The invariant of the context through the checks that set the bounds of a tag.
use shitposter.Prelude.{
  ℕ, zero, suc, ◌+◌, ◌-◌, ◌≤◌, ◌<◌, min, ◌≡◌, refl, sym, subst, inl, inr, Bool, true, false, Option,
  none, some, [], ◌∷◌, arith, ◌&&◌, Bool-cases, if◌then◌else◌, Bytes, length, ltb, ◌==◌, get_or,
  take, drop, slice, length-slice-le, slice-cons,
}
use shitposter.Scum.Search.{Match, index_byte, shared}
use shitposter.Scum.Search.Occurrence.{IsBest, index_byte-some}
use shitposter.Scum.Search.Best.{
  longest_common_sub_prefix-IsBest, match-fits, match-length-le, match-contained,
}
use shitposter.Scum.Tag.{Tag, TagSequence, id, seq_id}
use shitposter.Scum.Dictionary.{lookup_tag}
use shitposter.Scum.Dictionary.Registered.{IsSequence, IsRegistered}
use shitposter.Scum.Token.{ActionContext}
use shitposter.Scum.Checks.{
  prepare_single_char_tag, check_multi_char_tag_seq, set_sequence, check_close_tag, no_close_tag,
  set_close, close_by, find_sequence, check_tag_vs_content, mutate_with_only_opening_tag,
  closed_by_run, search_round, search_run, open_run, count_run,
}
use shitposter.Scum.Tokenizer.Context.{Site, Inv, Keeps}

take-cons :
    (bs : Bytes) (n : ℕ)
    → 1 ≤ n
    → 1 ≤ length bs
    → take n bs ≡ get_or bs 0 0 ∷ take (n - 1) (drop 1 bs)
take-cons [] n p h = absurd (omega arith)
take-cons (b ∷ bs) zero p h = absurd (omega arith)
take-cons (b ∷ bs) (suc n) p h = let e : suc n - 1 ≡ n = omega arith in rw e

-- The search for the sequence of a tag is described by its best match.
find_sequence-IsBest :
    (s : TagSequence) (src : Bytes)
    → IsSequence s
    → IsBest src (seq_id s ∷ take (s.len - 1) (drop 1 s.bytes)) (find_sequence s src)
find_sequence-IsBest s src q =
    rw (take-cons s.bytes s.len q.not_empty (omega (arith, q.full)))
      (longest_common_sub_prefix-IsBest src (seq_id s) _)

module _ (e : Site) (t : Tag) where
  pub prepare_single_char_tag-Keeps : Keeps e t prepare_single_char_tag
  unfolding prepare_single_char_tag
  prepare_single_char_tag-Keeps k c v = ground arith

  set_sequence-Keeps :
      (m : Match) (k : Bool) (c : ActionContext)
      → 1 ≤ m.length
      → e.i + m.length ≤ length e.input
      → Inv e t k c
      → Inv e t k (set_sequence c m)
  unfolding set_sequence
  set_sequence-Keeps m k c pos fits v = ground arith

  no_close_tag-Keeps : Keeps e t no_close_tag
  unfolding no_close_tag
  no_close_tag-Keeps k c v = ground arith

  set_close-Keeps :
      (m : Match) (k : Bool) (c : ActionContext) (scan_end : ℕ)
      → scan_end ≤ length e.input
      → (m.contained ≡ true
          → (at : ℕ) × (m.idx ≡ some at) × (c.idx + c.bounds.width + at + m.length ≤ scan_end))
      → Inv e t k c
      → Inv e t k (set_close c (c.idx + c.bounds.width) scan_end m)
  unfolding set_close
  set_close-Keeps m k c scan_end le inside v = elim (Bool-cases m.contained) [
    | inl all ↦ let (at, found, fits) = inside all in ground (arith, all, found, fits)
    | inr part ↦ ground (arith, part)
  ]

  mutate-Keeps :
      (k : Bool) (c : ActionContext) (w : ℕ) (key_limit payload_limit : Bool)
      → 1 ≤ w
      → e.i + w ≤ length e.input
      → Inv e t k c
      → Inv e t k (mutate_with_only_opening_tag c w key_limit payload_limit)
  unfolding mutate_with_only_opening_tag
  mutate-Keeps k c w key_limit payload_limit pos fits v = ground arith

  closed_by_run-Keeps :
      (k : Bool) (c : ActionContext) (w at : ℕ)
      → 1 ≤ w
      → e.i + w ≤ at
      → at + w ≤ length e.input
      → Inv e t k c
      → Inv e t k (closed_by_run c w at)
  unfolding closed_by_run
  closed_by_run-Keeps k c w at pos apart fits v = ground arith

-- At a trigger that is the first byte of its sequence at least that byte is there.
multi_match :
    (t : Tag) (input : Bytes) (i : ℕ)
    → IsSequence t.seq
    → get_or input i 0 ≡ id t
    → i < length input
    → (1 ≤ (find_sequence t.seq (slice input i (min (length input) (i + t.seq.len)))).length)
      × (i + (find_sequence t.seq (slice input i (min (length input) (i + t.seq.len)))).length
          ≤ length input)
multi_match t input i q first inside =
    let to = min (length input) (i + t.seq.len) in
    let window = slice input i to in
    let rest = take (t.seq.len - 1) (drop 1 t.seq.bytes) in
    let best = find_sequence-IsBest t.seq window q in
    let head : 1 ≤ shared window (id t ∷ rest) =
      rw (slice-cons input i to 0 inside (omega (arith, q.not_empty)), first)
        (unfold shared in ground arith) in
    (
      omega (arith, head, best.longest 0),
      omega (arith, match-length-le window (id t ∷ rest) _ best, length-slice-le input i to),
    )

-- Where the close tag's sequence is found, from `content` on, it ends before the scan does.
close_match :
    (s : TagSequence) (input : Bytes) (content scan_end : ℕ)
    → IsSequence s
    → content ≤ scan_end
    → scan_end ≤ length input
    → (find_sequence s (slice input content scan_end)).contained ≡ true
    → (at : ℕ) × ((find_sequence s (slice input content scan_end)).idx ≡ some at)
      × (content + at + (find_sequence s (slice input content scan_end)).length ≤ scan_end)
close_match s input content scan_end q from to all =
    let window = slice input content scan_end in
    let rest = take (s.len - 1) (drop 1 s.bytes) in
    let best = find_sequence-IsBest s window q in
    let (at, here) = match-contained window (seq_id s) rest _ best all in
    (
      at,
      here,
      omega (
        arith,
        match-fits window (seq_id s ∷ rest) _ at best here,
        length-slice-le input content scan_end,
      ),
    )

module _ (e : Site) (t : Tag) where
  pub check_multi_char_tag_seq-Keeps :
      IsSequence t.seq
      → get_or e.input e.i 0 ≡ id t
      → e.i < length e.input
      → Keeps e t check_multi_char_tag_seq
  unfolding check_multi_char_tag_seq
  check_multi_char_tag_seq-Keeps q first inside k c v =
      let here : get_or c.input c.idx 0 ≡ id c.tag = cc in
      let fits =
        multi_match c.tag c.input c.idx (subst (λ (x : Tag). IsSequence x.seq) (sym v.same_tag) q)
          here (ground arith) in
      set_sequence-Keeps e t
        (find_sequence c.tag.seq
          (slice c.input c.idx (min (length c.input) (c.idx + c.tag.seq.len))))
        k c fits.0 (ground (arith, fits.1)) v

  close_by-Keeps :
      (found : Tag × Bool) (k : Bool) (c : ActionContext)
      → (found.1 ≡ true → IsSequence found.0.seq)
      → Inv e t k c
      → Inv e t k (close_by c found)
  unfolding close_by
  close_by-Keeps (close_tag, false) k c q v = no_close_tag-Keeps e t k c v
  close_by-Keeps (close_tag, true) k c q v =
      let content = c.idx + c.bounds.width in
      let scan_end = min (content + c.dictionary.limits.max_payload_len + 1) (length c.input) in
      set_close-Keeps e t _ k c scan_end (ground arith)
        (close_match close_tag.seq c.input content scan_end (q refl) (ground arith) (omega arith)) v

  pub check_close_tag-Keeps : IsRegistered e.dictionary → Keeps e t check_close_tag
  unfolding check_close_tag lookup_tag
  check_close_tag-Keeps r k c v =
      close_by-Keeps (lookup_tag c.dictionary c.tag.close_id) k c
        (λ there.
          (subst IsRegistered (sym v.same_dictionary) r).tag_or_none c.tag.close_id
            (ground (arith, there)))
        v

  search_round-Keeps :
      (again : ℕ → ActionContext) (k : Bool) (c : ActionContext) (w scan_end start : ℕ)
      → 1 ≤ w
      → e.i + w ≤ start
      → scan_end ≤ length e.input - w + 1
      → e.i + w ≤ length e.input
      → Inv e t k c
      → ((later : ℕ) → e.i + w ≤ later → Inv e t k (again later))
      → (o : Option ℕ) → index_byte (slice c.input start scan_end) (id c.tag) ≡ o
      → Inv e t k (search_round again c w scan_end start o)
  search_round-Keeps again k c w scan_end start pos from to fits v ih none found =
      mutate-Keeps e t k c w _ _ pos fits v
  search_round-Keeps again k c w scan_end start pos from to fits v ih (some rel) found =
      let first = index_byte-some (slice c.input start scan_end) (id c.tag) [] rel found in
      let at = start + rel in
      let close_width =
        suc (count_run (length c.input - at - 1) (drop (at + 1) c.input) (id c.tag)) in
      elim (Bool-cases (close_width == w)) [
        | inl same ↦ rw same (
            closed_by_run-Keeps e t k c w at pos (omega arith)
              (omega (arith, first.inside, length-slice-le c.input start scan_end)) v)
        | inr other ↦ rw other (ih (at + close_width + 1) (omega arith))
      ]

  search_run-Keeps :
      (fuel : ℕ) (k : Bool) (c : ActionContext) (w scan_end start : ℕ)
      → 1 ≤ w
      → e.i + w ≤ start
      → scan_end ≤ length e.input - w + 1
      → e.i + w ≤ length e.input
      → Inv e t k c
      → Inv e t k (search_run fuel c w scan_end start)
  unfolding search_run
  search_run-Keeps zero k c w scan_end start pos from to fits v =
      mutate-Keeps e t k c w _ _ pos fits v
  search_run-Keeps (suc fuel) k c w scan_end start pos from to fits v =
      elim (Bool-cases (ltb start scan_end)) [
        | inl more ↦ rw more (
            search_round-Keeps (search_run fuel c w scan_end) k c w scan_end start pos from to fits
              v (λ later lo. search_run-Keeps fuel k c w scan_end later pos lo to fits v) _ refl)
        | inr done ↦ rw done (mutate-Keeps e t k c w _ _ pos fits v)
      ]

  count_run-le : (limit : ℕ) (bs : Bytes) (b : ℕ) → count_run limit bs b ≤ limit
  unfolding count_run
  count_run-le zero bs b = omega arith
  count_run-le (suc limit) [] b = omega arith
  count_run-le (suc limit) (x ∷ bs) b = ground (arith, count_run-le limit bs b)

  branches :
      (k b₁ b₂ : Bool) (x y z : ActionContext)
      → Inv e t k x
      → (b₂ ≡ true → Inv e t k y)
      → Inv e t k z
      → Inv e t k (if b₁ then x else if b₂ then y else z)
  branches k true b₂ x y z hx hy hz = hx
  branches k false true x y z hx hy hz = hy refl
  branches k false false x y z hx hy hz = hz

  open_run-fits :
      (k : Bool) (c : ActionContext)
      → Inv e t k c
      → e.i < length e.input
      → (1 ≤ open_run c) × (e.i + open_run c ≤ length e.input)
  unfolding open_run
  open_run-fits k c v inside =
      let max_width = min c.dictionary.limits.max_key_len (length c.input - c.idx) in
      let at_most = count_run-le (max_width - 1) (drop (c.idx + 1) c.input) (id c.tag) in
      (omega arith, ground (arith, at_most))

  pub check_tag_vs_content-Keeps : e.i < length e.input → Keeps e t check_tag_vs_content
  unfolding check_tag_vs_content
  check_tag_vs_content-Keeps inside k c v =
      let n = length c.input in
      let lim = c.dictionary.limits.max_key_len in
      let w = open_run c in
      let start = c.idx + w + 1 in
      let scan_end = min (start + c.dictionary.limits.max_payload_len) (n - w + 1) in
      let long = w == lim && get_or c.input (c.idx + w) 0 == id c.tag in
      let bounds = open_run-fits k c v inside in
      let at_limit : long ≡ true → w ≡ lim = λ both. ground (arith, both) in
      branches k (c.idx + w == n) long (mutate_with_only_opening_tag c w false false)
        (mutate_with_only_opening_tag c lim true false) (search_run n c w scan_end start)
        (mutate-Keeps e t k c w false false bounds.0 bounds.1 v)
        (λ both.
          mutate-Keeps e t k c lim true false (omega (arith, at_limit both, bounds.0))
            (omega (arith, at_limit both, bounds.1)) v)
        (search_run-Keeps n k c w scan_end start bounds.0 (ground arith) (ground arith) bounds.1 v)
