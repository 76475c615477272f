-- ===== src/Scum/Plan.antt =====
-- scum/plan.go and scum/create_action.go: the steps of a tag, chosen by its length, kind, greed and
-- rule. Each builder returns the steps that the source's function adds to the plan, in order.
use shitposter.Prelude.{ℕ, Bool, true, List, [], ◌∷◌, ◌++◌, ltb, ◌==◌, if◌then◌else◌}
use shitposter.Scum.Tag.{
  Tag, is_universal, is_opening, is_closing, non_greedy, greedy, grasping, rule_infra_word,
  rule_tag_vs_content,
}
use shitposter.Scum.Utf8.{Unicode}
use shitposter.Scum.Token.{Token, no_token, ActionContext}
use shitposter.Scum.Checks.{
  prepare_single_char_tag, check_multi_char_tag_seq, check_close_tag, check_tag_vs_content,
}
use shitposter.Scum.Steps.{
  Step, mutate_with, warn_close_tag_after_start, warn_invalid_sequence, warn_open_tag_before_eol,
  warn_tag_key_too_long, warn_tag_payload_too_long, warn_unclosed_tag, count_tag, count_close_tag,
  count_open_tag, count_universal_tag, step_skip_close_tag_after_start,
  step_skip_open_tag_before_eol, step_skip_invalid_trigger_tag, step_skip_unclosed_open_tag,
  step_emit_entire_tag_token, step_infra_word_check,
}

pub record ActionResult : Type 0 where
  pub token : Token
  pub stride : ℕ
  pub skip : Bool
  pub left : ActionContext

abbrev pub Plan : Type 0
Plan = List Step

-- `Plan.Run`: the first step that handles the case decides.
unfoldable pub run : Plan → ActionContext → ActionResult
run [] ctx = record { token = no_token; stride = 1; skip = true; left = ctx }
run (s ∷ steps) ctx =
    let (handled, ctx') = s ctx in
    let rest = run steps ctx' in
    if handled
    then record { token = ctx'.token; stride = ctx'.stride; skip = ctx'.skip; left = ctx' }
    else rest

unfoldable pub closing_plan : Plan
closing_plan =
    mutate_with warn_close_tag_after_start
    ∷ step_skip_close_tag_after_start
    ∷ mutate_with count_close_tag
    ∷ step_emit_entire_tag_token
    ∷ []

-- The counter of a tag that is not greedy; a tag of neither kind is not counted.
unfoldable pub count_plan : Tag → Plan
count_plan t =
    if is_universal t
    then mutate_with count_universal_tag ∷ []
    else if is_opening t
    then mutate_with count_open_tag ∷ []
    else []

unfoldable pub add_close_tag_check : Tag → Plan
add_close_tag_check t =
    (if t.rule == rule_tag_vs_content
      then mutate_with check_tag_vs_content ∷ mutate_with warn_tag_key_too_long ∷ []
      else mutate_with check_close_tag ∷ [])
    ++ mutate_with warn_tag_payload_too_long ∷ []

unfoldable pub single_char_greedy_plan : Tag → Plan
single_char_greedy_plan t =
    add_close_tag_check t
    ++ mutate_with warn_unclosed_tag
      ∷ step_skip_unclosed_open_tag
      ∷ mutate_with count_tag
      ∷ step_emit_entire_tag_token
      ∷ []

unfoldable pub single_char_grasping_plan : Tag → Plan
single_char_grasping_plan t =
    add_close_tag_check t
    ++ mutate_with warn_unclosed_tag ∷ mutate_with count_tag ∷ step_emit_entire_tag_token ∷ []

unfoldable pub multi_char_universal_plan : Tag → Plan
multi_char_universal_plan t =
    (if ltb non_greedy t.greed
      then mutate_with check_close_tag
        ∷ mutate_with warn_unclosed_tag
        ∷ mutate_with warn_tag_payload_too_long
        ∷ (if t.greed == greedy then step_skip_unclosed_open_tag ∷ [] else [])
      else [])
    ++ ((if t.greed == non_greedy then count_plan t else mutate_with count_tag ∷ [])
        ++ step_emit_entire_tag_token ∷ [])

unfoldable pub multi_char_opening_plan : Tag → Plan
multi_char_opening_plan t =
    mutate_with warn_open_tag_before_eol
    ∷ step_skip_open_tag_before_eol
    ∷ multi_char_universal_plan t

unfoldable pub multi_char_plan : Tag → Plan
multi_char_plan t =
    mutate_with check_multi_char_tag_seq
    ∷ mutate_with warn_invalid_sequence
    ∷ step_skip_invalid_trigger_tag
    ∷ (if is_universal t
        then multi_char_universal_plan t
        else if is_opening t
        then multi_char_opening_plan t
        else if is_closing t
        then closing_plan
        else [])

module _ (u : Unicode) where
  unfoldable pub single_char_non_greedy_plan : Tag → Plan
  single_char_non_greedy_plan t =
      (if t.rule == rule_infra_word then step_infra_word_check u ∷ [] else [])
      ++ (count_plan t ++ step_emit_entire_tag_token ∷ [])

  unfoldable pub single_char_universal_plan : Tag → Plan
  single_char_universal_plan t =
      if t.greed == non_greedy
      then single_char_non_greedy_plan t
      else if t.greed == greedy
      then single_char_greedy_plan t
      else if t.greed == grasping
      then single_char_grasping_plan t
      else []

  unfoldable pub single_char_opening_plan : Tag → Plan
  single_char_opening_plan t =
      mutate_with warn_open_tag_before_eol
      ∷ step_skip_open_tag_before_eol
      ∷ single_char_universal_plan t

  unfoldable pub single_char_plan : Tag → Plan
  single_char_plan t =
      mutate_with prepare_single_char_tag
      ∷ (if is_universal t
          then single_char_universal_plan t
          else if is_opening t
          then single_char_opening_plan t
          else if is_closing t
          then closing_plan
          else [])

  unfoldable pub create_action : Tag → Plan
  create_action t = if t.seq.len == 1 then single_char_plan t else multi_char_plan t
