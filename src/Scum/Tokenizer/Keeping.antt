-- ===== src/Scum/Tokenizer/Keeping.antt =====
-- The invariant of the context through the steps that warn, skip, count and emit.
use shitposter.Prelude.{ℕ, refl, inl, inr, Bool, true, false, List, ◌∷◌, arith, if◌then◌else◌}
use shitposter.Scum.Tag.{Tag, id}
use shitposter.Scum.Utf8.{Unicode}
use shitposter.Scum.Token.{ActionContext}
use shitposter.Scum.Warnings.{Warnings}
use shitposter.Scum.Steps.{
  Step, skip_as_text, warn_close_tag_after_start, warn_invalid_sequence, warn_open_tag_before_eol,
  warn_tag_key_too_long, warn_tag_payload_too_long, warn_unclosed_tag, count_tag, count_close_tag,
  count_open_tag, count_universal_tag, step_skip_close_tag_after_start,
  step_skip_open_tag_before_eol, step_skip_invalid_trigger_tag, step_skip_unclosed_open_tag,
  step_emit_entire_tag_token, step_infra_word_check,
}
use shitposter.Scum.Plan.{ActionResult, run}
use shitposter.Scum.Tokenizer.Context.{
  Site, IsGood, Inv, Keeps, Counts, Skipped, SkipsOr, Skips, IsPlan, fall, keep, count, skip, emit,
}

module _ (e : Site) (t : Tag) where
  -- Only the warnings change.
  with_warns :
      (k : Bool) (c : ActionContext) (w : Warnings)
      → Inv e t k c
      → Inv e t k (record c { warns = w })
  with_warns k c w v = record {
    same_tag = v.same_tag;
    same_dictionary = v.same_dictionary;
    same_input = v.same_input;
    same_idx = v.same_idx;
    width_pos = v.width_pos;
    width_fits = v.width_fits;
    raw_start = v.raw_start;
    raw_pos = v.raw_pos;
    raw_fits = v.raw_fits;
    inner_from = v.inner_from;
    inner_order = v.inner_order;
    inner_to = v.inner_to;
    total = v.total;
    attrs = v.attrs;
    kinds_le = v.kinds_le;
    kinds_same = v.kinds_same;
  }

  warns_or_not :
      (b k : Bool) (c : ActionContext) (w : Warnings)
      → Inv e t k c
      → Inv e t k (if b then c else record c { warns = w })
  warns_or_not true k c w v = v
  warns_or_not false k c w v = with_warns k c w v

  pub warn_close_tag_after_start-Keeps : Keeps e t warn_close_tag_after_start
  unfolding warn_close_tag_after_start
  warn_close_tag_after_start-Keeps k c v = warns_or_not _ k c _ v

  pub warn_invalid_sequence-Keeps : Keeps e t warn_invalid_sequence
  unfolding warn_invalid_sequence
  warn_invalid_sequence-Keeps k c v = warns_or_not _ k c _ v

  pub warn_open_tag_before_eol-Keeps : Keeps e t warn_open_tag_before_eol
  unfolding warn_open_tag_before_eol
  warn_open_tag_before_eol-Keeps k c v = warns_or_not _ k c _ v

  pub warn_tag_key_too_long-Keeps : Keeps e t warn_tag_key_too_long
  unfolding warn_tag_key_too_long
  warn_tag_key_too_long-Keeps k c v = warns_or_not _ k c _ v

  pub warn_tag_payload_too_long-Keeps : Keeps e t warn_tag_payload_too_long
  unfolding warn_tag_payload_too_long
  warn_tag_payload_too_long-Keeps k c v = warns_or_not _ k c _ v

  pub warn_unclosed_tag-Keeps : Keeps e t warn_unclosed_tag
  unfolding warn_unclosed_tag
  warn_unclosed_tag-Keeps k c v = warns_or_not _ k c _ v

  pub count_tag-Counts : Counts e t count_tag
  unfolding count_tag
  count_tag-Counts c v = ground arith

  pub count_close_tag-Counts : Counts e t count_close_tag
  unfolding count_close_tag
  count_close_tag-Counts c v = ground arith

  pub count_open_tag-Counts : Counts e t count_open_tag
  unfolding count_open_tag
  count_open_tag-Counts c v = ground arith

  pub count_universal_tag-Counts : Counts e t count_universal_tag
  unfolding count_universal_tag
  count_universal_tag-Counts c v = ground arith

  -- A skip of the tag's own width, or of one byte.
  skip_if :
      (b : Bool) (c c' : ActionContext)
      → Inv e t false c
      → Skipped e t c'
      → SkipsOr e t (if b then (false, c) else (true, c'))
  skip_if true c c' v s = inl (refl, v)
  skip_if false c c' v s = inr (refl, s)

  width-Skipped :
      (c : ActionContext) → Inv e t false c → Skipped e t (skip_as_text c c.bounds.width).1
  width-Skipped c v = ground arith

  pub step_skip_close_tag_after_start-Skips : Skips e t step_skip_close_tag_after_start
  unfolding step_skip_close_tag_after_start
  step_skip_close_tag_after_start-Skips c v = skip_if _ c _ v (width-Skipped c v)

  pub step_skip_open_tag_before_eol-Skips : Skips e t step_skip_open_tag_before_eol
  unfolding step_skip_open_tag_before_eol
  step_skip_open_tag_before_eol-Skips c v = skip_if _ c _ v (width-Skipped c v)

  pub step_skip_invalid_trigger_tag-Skips : Skips e t step_skip_invalid_trigger_tag
  unfolding step_skip_invalid_trigger_tag
  step_skip_invalid_trigger_tag-Skips c v = skip_if _ c _ v (width-Skipped c v)

  pub step_skip_unclosed_open_tag-Skips : Skips e t step_skip_unclosed_open_tag
  unfolding step_skip_unclosed_open_tag
  step_skip_unclosed_open_tag-Skips c v = skip_if _ c _ v (width-Skipped c v)

  pub step_infra_word_check-Skips : (u : Unicode) → Skips e t (step_infra_word_check u)
  unfolding step_infra_word_check
  step_infra_word_check-Skips u c v = skip_if _ c _ v (ground arith)

  emit-IsGood :
      (c : ActionContext) (steps : List Step)
      → Inv e t true c
      → IsGood e (id t) t (run (step_emit_entire_tag_token ∷ steps) c)
  unfolding run step_emit_entire_tag_token
  emit-IsGood c steps v = ground arith

  Skipped-IsGood :
      (b : ℕ) (c : ActionContext)
      → Skipped e t c
      → IsGood e b t (record { token = c.token; stride = c.stride; skip = c.skip; left = c })
  Skipped-IsGood b c s = record {
    same_dictionary = s.same_dictionary;
    same_input = s.same_input;
    moves = s.moves;
    stays = s.stays;
    outcome = rw s.skips s.uncounted;
  }

  after_skip :
      (r : Bool × ActionContext) (rest : ActionResult)
      → SkipsOr e t r
      → (Inv e t false r.1 → IsGood e (id t) t rest)
      → IsGood e (id t) t (
          if r.0
          then record { token = r.1.token; stride = r.1.stride; skip = r.1.skip; left = r.1 }
          else rest)
  after_skip (handled, c) rest (inl (off, v)) ih = rw off (ih v)
  after_skip (handled, c) rest (inr (on, s)) ih = rw on (Skipped-IsGood (id t) c s)

  -- Run from the invariant, such a plan ends in a good result.
  pub run-IsGood :
      (k : Bool) {steps : List Step} (c : ActionContext)
      → IsPlan e t k steps
      → Inv e t k c
      → IsGood e (id t) t (run steps c)
  unfolding run
  run-IsGood false c fall v = ground arith
  run-IsGood k c (keep {m = m} h p) v = run-IsGood k (m c) p (h k c v)
  run-IsGood false c (count {m = m} h p) v = run-IsGood true (m c) p (h c v)
  run-IsGood false c (skip {s = s} {steps = steps} h p) v =
      after_skip (s c) (run steps (s c).1) (h c v) (run-IsGood false (s c).1 p)
  run-IsGood true c (emit {steps = steps}) v = emit-IsGood c steps v
