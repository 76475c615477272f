-- ===== src/Scum/Steps.antt =====
-- The steps that warn, skip, count and emit: scum/warn_*.go, scum/step_*.go and the counters of
-- scum/create_action.go. A step returns whether it handled the case, with the context it left.
use shitposter.Prelude.{
  ℕ, ◌+◌, ◌-◌, Bool, true, false, not, ◌&&◌, ◌||◌, ltb, leb, ◌==◌, if◌then◌else◌, length, get_or,
  take, drop,
}
use shitposter.Scum.Issue.{
  unexpected_eol, unexpected_symbol, unclosed_tag, misplaced_closing_tag, tag_key_too_long,
  tag_payload_too_long,
}
use shitposter.Scum.Warnings.{Warning, warning, add}
use shitposter.Scum.Tag.{id, is_opening, is_closing, max_tag_len, is_ascii_alphanum, is_ascii_punct}
use shitposter.Scum.Dictionary.{is_special}
use shitposter.Scum.Utf8.{Unicode, decode_rune, decode_last_rune}
use shitposter.Scum.Token.{tag, no_span, no_token, ActionContext}

abbrev pub Mutator : Type 0
Mutator = ActionContext → ActionContext

abbrev pub Step : Type 0
Step = ActionContext → Bool × ActionContext

-- A mutator as a step, which never handles the case.
abbrev pub mutate_with : Mutator → Step
mutate_with m ctx = (false, m ctx)

abbrev pub warn : ActionContext → Warning → ActionContext
warn ctx item = record ctx { warns = add ctx.warns item }

unfoldable pub warn_close_tag_after_start : Mutator
warn_close_tag_after_start ctx =
    if not (ctx.idx == 0) || not (is_closing ctx.tag)
    then ctx
    else warn ctx (record (warning misplaced_closing_tag ctx.idx) { tag_id = id ctx.tag })

unfoldable pub warn_invalid_sequence : Mutator
warn_invalid_sequence ctx =
    let w = ctx.bounds.width in
    let i = ctx.idx in
    if ctx.bounds.seq_valid || leb max_tag_len w
    then ctx
    else warn ctx (record (warning unexpected_symbol (i + w)) {
      tag_id = id ctx.tag;
      expected = get_or ctx.tag.seq.bytes w 0;
      got = get_or ctx.input (i + w - 1) 0;
    })

unfoldable pub warn_open_tag_before_eol : Mutator
warn_open_tag_before_eol ctx =
    let n = length ctx.input in
    if ltb (ctx.idx + ctx.bounds.width) n || not (is_opening ctx.tag)
    then ctx
    else warn ctx (record (warning unexpected_eol n) { tag_id = id ctx.tag })

unfoldable pub warn_tag_key_too_long : Mutator
warn_tag_key_too_long ctx =
    if not ctx.bounds.key_len_limit_reached
    then ctx
    else warn ctx (warning tag_key_too_long ctx.idx)

unfoldable pub warn_tag_payload_too_long : Mutator
warn_tag_payload_too_long ctx =
    if not ctx.bounds.payload_limit_reached
    then ctx
    else warn ctx (warning tag_payload_too_long ctx.idx)

unfoldable pub warn_unclosed_tag : Mutator
warn_unclosed_tag ctx =
    if ctx.bounds.closed || is_closing ctx.tag || ctx.bounds.payload_limit_reached
    then ctx
    else warn ctx (record (warning unclosed_tag ctx.idx) {
      tag_id = id ctx.tag;
      close_tag_id = ctx.tag.close_id;
    })

unfoldable pub count_tag : Mutator
count_tag ctx = record ctx { state = record ctx.state { tags_total = ctx.state.tags_total + 1 } }

unfoldable pub count_close_tag : Mutator
unfolding count_tag
count_close_tag ctx =
    let c = count_tag ctx in
    record c { state = record c.state { close_tags = c.state.close_tags + 1 } }

unfoldable pub count_open_tag : Mutator
unfolding count_tag
count_open_tag ctx =
    let c = count_tag ctx in
    record c { state = record c.state { open_tags = c.state.open_tags + 1 } }

unfoldable pub count_universal_tag : Mutator
unfolding count_tag
count_universal_tag ctx =
    let c = count_tag ctx in
    record c { state = record c.state { universal_tags = c.state.universal_tags + 1 } }

-- `Token{}`, a stride and `Skip = true`: the bytes are plain text.
abbrev pub skip_as_text : ActionContext → ℕ → Bool × ActionContext
skip_as_text ctx stride = (true, record ctx { token = no_token; stride = stride; skip = true })

unfoldable pub step_skip_close_tag_after_start : Step
step_skip_close_tag_after_start ctx =
    if not (ctx.idx == 0) || not (is_closing ctx.tag)
    then (false, ctx)
    else skip_as_text ctx ctx.bounds.width

unfoldable pub step_skip_open_tag_before_eol : Step
step_skip_open_tag_before_eol ctx =
    if ltb (ctx.idx + ctx.bounds.width) (length ctx.input)
    then (false, ctx)
    else skip_as_text ctx ctx.bounds.width

unfoldable pub step_skip_invalid_trigger_tag : Step
step_skip_invalid_trigger_tag ctx =
    if ctx.bounds.seq_valid || leb max_tag_len ctx.bounds.width
    then (false, ctx)
    else skip_as_text ctx ctx.bounds.width

unfoldable pub step_skip_unclosed_open_tag : Step
step_skip_unclosed_open_tag ctx =
    if ctx.bounds.closed then (false, ctx) else skip_as_text ctx ctx.bounds.width

unfoldable pub step_emit_entire_tag_token : Step
step_emit_entire_tag_token ctx =
    let w = ctx.bounds.raw.end - ctx.bounds.raw.start in
    (
      true,
      record ctx {
        token = record {
          kind = tag;
          trigger = id ctx.tag;
          pos = ctx.idx;
          width = w;
          payload = ctx.bounds.inner;
          attr_key = no_span;
        };
        stride = w;
        skip = false;
      },
    )

-- The Infra-Word rule: the trigger between two parts of a word is plain text.
module _ (u : Unicode) where
  is_word_rune : ℕ → Bool
  is_word_rune r = u.is_letter r || u.is_number r || u.is_punct r

  is_word_byte : ActionContext → ℕ → Bool
  is_word_byte ctx b =
      b == id ctx.tag
      || (not (is_special ctx.dictionary b) && (is_ascii_alphanum b || is_ascii_punct b))

  left_is_word_part : ActionContext → Bool
  left_is_word_part ctx =
      let i = ctx.idx in
      let b = get_or ctx.input (i - 1) 0 in
      if not (ltb 0 i)
      then false
      else if ltb b 128
      then is_word_byte ctx b
      else is_word_rune (decode_last_rune (take i ctx.input)).value

  right_is_word_part : ActionContext → Bool
  right_is_word_part ctx =
      let i = ctx.idx in
      let b = get_or ctx.input (i + 1) 0 in
      if not (ltb (i + 1) (length ctx.input))
      then false
      else if ltb b 128
      then is_word_byte ctx b
      else is_word_rune (decode_rune (drop (i + 1) ctx.input)).value

  unfoldable pub step_infra_word_check : Step
  unfolding is_word_rune is_word_byte left_is_word_part right_is_word_part
  step_infra_word_check ctx =
      if not (left_is_word_part ctx) || not (right_is_word_part ctx)
      then (false, ctx)
      else (true, record ctx { stride = 1; skip = true })
