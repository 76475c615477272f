-- ===== src/Scum/Tokenizer/Coverage.antt =====
-- The tokens of an input against its bytes and against the counters (scum/tokenize.go).
use shitposter.Prelude.{
  ℕ, zero, suc, ◌+◌, ◌-◌, ◌≤◌, ◌<◌, ◌≡◌, refl, sym, subst, ◌∙◌, inl, inr, Bool, true, false, Option,
  none, some, List, [], ◌∷◌, ◌++◌, arith, Bool-cases, Bytes, length, ltb, drop, slice,
  take-append-drop,
}
use shitposter.Scum.Search.Occurrence.{drop-drop}
use shitposter.Scum.Warnings.{Warnings}
use shitposter.Scum.Tag.{Tag}
use shitposter.Scum.Dictionary.{Dictionary, Action}
use shitposter.Scum.Dictionary.Registered.{IsRegistered, Built, Built-IsRegistered}
use shitposter.Scum.Utf8.{Unicode}
use shitposter.Scum.Token.{Token}
use shitposter.Scum.Plan.{ActionResult}
use shitposter.Scum.Actions.{run_action}
use shitposter.Scum.Tokenizer.{
  Loop, flush, emit, after_action, step_at, step, loop, initial, finish, tokenize,
}
use shitposter.Scum.Tokenizer.Context.{IsGood, Outcome, Uncounted}
use shitposter.Scum.Tokenizer.Acting.{site, byte, tag_here, here, run_action-IsGood}
use shitposter.Scum.Tokenizer.Tiling.{
  Tiles, Tiles-snoc, tags_in, attributes_in, text_len, texts_in, Totals, flush-Tiles, flush-Totals,
  emit-Totals, emit-tokens,
}

-- What holds before each round.
record LoopInv (d : Dictionary) (input : Bytes) (l : Loop) : Type 0 where
  same_dictionary : l.ac.dictionary ≡ d
  same_input : l.ac.input ≡ input
  behind : l.text_start ≤ l.i
  inside : l.i ≤ length input
  tiles : Tiles 0 l.out.tokens l.text_start
  totals : Totals d l.out l.ac.state

skipped-LoopInv :
    (d : Dictionary) (input : Bytes) (l : Loop) (b : ℕ) (t : Tag) (r : ActionResult)
    → LoopInv d input l
    → IsGood (site l.ac l.i) b t r
    → Uncounted l.ac.state r.left.state
    → LoopInv d input (record l { ac = r.left; i = l.i + r.stride })
skipped-LoopInv d input l b t r v g same = record {
  same_dictionary = g.same_dictionary ∙ v.same_dictionary;
  same_input = g.same_input ∙ v.same_input;
  behind = ground (arith, v.behind);
  inside = ground (arith, g.stays, v.same_input);
  tiles = v.tiles;
  totals = ground (arith, v.totals);
}

emitted-LoopInv :
    (d : Dictionary) (input : Bytes) (l : Loop) (r : ActionResult)
    → LoopInv d input l
    → IsGood (site l.ac l.i) (byte l.ac l.i) (tag_here l.ac l.i) r
    → Outcome (site l.ac l.i) (byte l.ac l.i) (tag_here l.ac l.i) r false
    → LoopInv d input (record {
      out = emit (flush l.out l.text_start l.i) r.left r.token;
      ac = r.left;
      i = l.i + r.stride;
      text_start = l.i + r.stride;
    })
emitted-LoopInv d input l r v g (same, em, counted) = record {
  same_dictionary = g.same_dictionary ∙ v.same_dictionary;
  same_input = g.same_input ∙ v.same_input;
  behind = omega arith;
  inside = ground (arith, g.stays, v.same_input);
  tiles = rw emit-tokens (
      subst (λ w. Tiles 0 ((flush l.out l.text_start l.i).tokens ++ r.token ∷ []) (l.i + w)) em.wide
        (Tiles-snoc 0 l.i (flush l.out l.text_start l.i).tokens r.token
          (flush-Tiles l.out l.text_start l.i v.behind v.tiles) em.here
          (omega (arith, em.wide, g.moves))));
  totals =
      subst (λ x. Totals x (emit (flush l.out l.text_start l.i) r.left r.token) r.left.state)
        v.same_dictionary
        (emit-Totals (site l.ac l.i) (byte l.ac l.i) (flush l.out l.text_start l.i) r.left r.token
          r.stride em same counted
          (subst (λ x. Totals x (flush l.out l.text_start l.i) l.ac.state) (sym v.same_dictionary)
            (flush-Totals d l.out l.ac.state l.text_start l.i v.totals)));
}

after_action-LoopInv :
    (d : Dictionary) (input : Bytes) (l : Loop) (r : ActionResult)
    → LoopInv d input l
    → IsGood (site l.ac l.i) (byte l.ac l.i) (tag_here l.ac l.i) r
    → LoopInv d input (after_action l r)
unfolding after_action
after_action-LoopInv d input l r v g = by_skip r.skip refl
  where
    by_skip : (b : Bool) → r.skip ≡ b → LoopInv d input (after_action l r)
    by_skip true s = rw s (
        skipped-LoopInv d input l (byte l.ac l.i) (tag_here l.ac l.i) r v g
          (subst (Outcome (site l.ac l.i) (byte l.ac l.i) (tag_here l.ac l.i) r) s g.outcome))
    by_skip false s = rw s (
        emitted-LoopInv d input l r v g
          (subst (Outcome (site l.ac l.i) (byte l.ac l.i) (tag_here l.ac l.i) r) s g.outcome))

after_action-i : (l : Loop) (r : ActionResult) → (after_action l r).i ≡ l.i + r.stride
unfolding after_action
after_action-i l r = ground arith

module _ (u : Unicode) {d : Dictionary} (built : IsRegistered d) (input : Bytes) where
  step_at-LoopInv :
      (l : Loop) (o : Option Action)
      → LoopInv d input l
      → l.i < length input
      → l.ac.dictionary.actions (byte l.ac l.i) ≡ o
      → LoopInv d input (step_at u l o) × (l.i < (step_at u l o).i)
  unfolding step_at
  step_at-LoopInv l none v more at = (
    record {
      same_dictionary = v.same_dictionary;
      same_input = v.same_input;
      behind = omega (arith, v.behind);
      inside = omega arith;
      tiles = v.tiles;
      totals = v.totals;
    },
    omega arith,
  )
  step_at-LoopInv l (some act) v more at =
      let good =
        run_action-IsGood l.ac l.i (ground (arith, v.same_input)) u act
          (subst IsRegistered (sym v.same_dictionary) built) at in
      let r = run_action u act (here l.ac l.i) in
      (after_action-LoopInv d input l r v good, omega (arith, after_action-i l r, good.moves))

  step-LoopInv :
      (l : Loop)
      → LoopInv d input l
      → l.i < length input
      → LoopInv d input (step u l) × (l.i < (step u l).i)
  unfolding step
  step-LoopInv l v more = step_at-LoopInv l _ v more refl

  loop-LoopInv :
      (fuel : ℕ) (l : Loop)
      → LoopInv d input l
      → length input ≤ fuel + l.i
      → LoopInv d input (loop u fuel l) × (length input ≤ (loop u fuel l).i)
  unfolding loop
  loop-LoopInv zero l v enough = (v, omega arith)
  loop-LoopInv (suc fuel) l v enough = elim (Bool-cases (ltb l.i (length l.ac.input))) [
    | inl more ↦
        let next = step-LoopInv l v (ground (arith, more, v.same_input)) in
        rw more (loop-LoopInv fuel (step u l) next.0 (omega (arith, next.1)))
    | inr done ↦ rw done (v, ground (arith, done, v.same_input))
  ]

  initial-LoopInv : (warns : Warnings) → LoopInv d input (initial d input warns)
  initial-LoopInv warns = ground arith

  final : Warnings → Loop
  final warns = loop u (length input) (initial d input warns)

  final-LoopInv :
      (warns : Warnings) → LoopInv d input (final warns) × (length input ≤ (final warns).i)
  unfolding final
  final-LoopInv warns =
      loop-LoopInv (length input) (initial d input warns) (initial-LoopInv warns) (omega arith)

  finished :
      (l : Loop) → LoopInv d input l → length input ≤ l.i → Tiles 0 (finish l).tokens (length input)
  unfolding finish
  finished l v ended =
      rw v.same_input
        (flush-Tiles l.out l.text_start (length input) (omega (arith, v.behind, v.inside)) v.tiles)

  pub tokens-tile : (warns : Warnings) → Tiles 0 (tokenize u d input warns).0.tokens (length input)
  unfolding tokenize final
  tokens-tile warns = let (v, ended) = final-LoopInv warns in finished _ v ended

  finished-Totals : (l : Loop) → LoopInv d input l → Totals d (finish l) l.ac.state
  unfolding finish
  finished-Totals l v =
      let t = flush-Totals d l.out l.ac.state l.text_start (length l.ac.input) v.totals in
      record {
        tags = t.tags;
        attributes = t.attributes;
        bytes = t.bytes;
        texts = t.texts;
        by_kind = t.by_kind;
      }

-- The bytes of the input that a token stands for.
abbrev pub raw : Bytes → Token → Bytes
raw input k = slice input k.pos (k.pos + k.width)

abbrev pub raw_all : Bytes → List Token → Bytes
raw_all input [] = []
raw_all input (k ∷ ks) = raw input k ++ raw_all input ks

raw_all-Tiles :
    (input : Bytes) (from : ℕ) (ks : List Token)
    → Tiles from ks (length input)
    → raw_all input ks ≡ drop from input
raw_all-Tiles input from [] e = rw e (sym (drop_all input))
  where
    drop_all : (xs : Bytes) → drop (length xs) xs ≡ []
    drop_all [] = refl
    drop_all (x ∷ xs) = drop_all xs
raw_all-Tiles input from (k ∷ ks) (p, w, tiles) =
    let width : k.pos + k.width - k.pos ≡ k.width = omega arith in
    rw (width, p, raw_all-Tiles input (from + k.width) ks tiles, ← drop-drop from k.width input)
      (take-append-drop k.width (drop from input))

-- In every dictionary that can be built, the tokens of an input cover it from end to end: each starts
-- where the one before it ended, none is empty, and their bytes put together are the input.
pub tokenize-covers :
    (u : Unicode) {d : Dictionary} (input : Bytes) (warns : Warnings)
    → Built d
    → Tiles 0 (tokenize u d input warns).0.tokens (length input)
      × (raw_all input (tokenize u d input warns).0.tokens ≡ input)
tokenize-covers u {d} input warns b =
    let tiles = tokens-tile u (Built-IsRegistered b) input warns in
    (tiles, raw_all-Tiles input 0 (tokenize u d input warns).0.tokens tiles)

-- In every dictionary that can be built, the counters of the output agree with its tokens: the
-- numbers of tag and attribute tokens, the number and the bytes of the texts that they carry; and no
-- more tags are counted by kind than in total.
pub tokenize-counters :
    (u : Unicode) {d : Dictionary} (input : Bytes) (warns : Warnings)
    → Built d
    → let out = (tokenize u d input warns).0 in
      (out.tags_total ≡ tags_in out.tokens)
      × (out.attributes ≡ attributes_in out.tokens)
      × (out.text_byte_len ≡ text_len d out.tokens)
      × (out.text_tokens ≡ texts_in d out.tokens)
      × (out.universal_tags + out.open_tags + out.close_tags ≤ out.tags_total)
unfolding tokenize final
tokenize-counters u {d} input warns b =
    let r = Built-IsRegistered b in
    let l = final u r input warns in
    let t = finished-Totals u r input l (final-LoopInv u r input warns).0 in
    unfold finish in (t.tags, t.attributes, t.bytes, t.texts, t.by_kind)
