-- ===== src/Scum/Actions.antt =====
-- `ActAttribute` of scum/set_attribute_signature.go, `ActEscape` of scum/set_escape_trigger.go, and
-- the call of an action, by its name in the dictionary.
use shitposter.Prelude.{
  ℕ, suc, ◌+◌, ◌-◌, min, Bool, true, false, not, ◌&&◌, Option, none, some, [], ◌∷◌, ltb, ◌==◌,
  if◌then◌else◌, Bytes, length, get_or, drop, slice,
}
use Prim.Native.Nat.{◌%◌}
use mathlib.Core.Option
use shitposter.Scum.Issue.{
  Issue, unexpected_eol, attr_key_too_long, attr_payload_too_long, unclosed_attr_payload,
  empty_attr_payload, redundant_escape,
}
use shitposter.Scum.Warnings.{warning}
use shitposter.Scum.Search.{index_byte}
use shitposter.Scum.Dictionary.{Action, tag_action, act_attribute, act_escape, is_some}
use shitposter.Scum.Utf8.{Unicode, Rune, rune_error, decode_rune}
use shitposter.Scum.Token.{attribute_kv, attribute_flag, new_span, no_span, no_token, ActionContext}
use shitposter.Scum.Steps.{warn}
use shitposter.Scum.Plan.{ActionResult, run, create_action}

unfoldable pub skip_with_warn : ActionContext → ℕ → ℕ → Issue → ActionResult
skip_with_warn ac stride p issue = record {
  token = no_token;
  stride = stride;
  skip = true;
  left = warn ac (warning issue p);
}

-- `findPayloadEndWithEscape`, over the bytes of the window: `j` is the index of the first.
unfoldable pub find_payload_end_with_escape : Bytes → ℕ → Bool → ℕ → ℕ → Option ℕ
find_payload_end_with_escape [] j escaped payload_end esc = none
find_payload_end_with_escape (c ∷ cs) j escaped payload_end esc =
    let rest = find_payload_end_with_escape cs (suc j) (not escaped && c == esc) payload_end esc in
    if escaped then rest else if c == esc then rest else if c == payload_end then some j else rest

-- `findPayloadEnd`
unfoldable pub find_payload_end : Bytes → ℕ → ℕ → Option ℕ
find_payload_end window start payload_end =
    Option.map (λ rel. start + rel) (index_byte window payload_end)

unfoldable pub emit_attribute : ActionContext → ℕ → ℕ → ℕ → ActionResult
emit_attribute ac payload_start_idx start_idx payload_end_idx =
    let i = ac.idx in
    let width = payload_end_idx - i + 1 in
    let is_flag = payload_start_idx - i - 1 == 0 in
    record {
      token = record {
        kind = if is_flag then attribute_flag else attribute_kv;
        trigger = ac.trigger;
        pos = i;
        width = width;
        payload = new_span start_idx (payload_end_idx - start_idx);
        attr_key = if is_flag then no_span else new_span (i + 1) (payload_start_idx - i - 1);
      };
      stride = width;
      skip = false;
      left = record ac { state = record ac.state { attributes = ac.state.attributes + 1 } };
    }

-- Steps 6 to 9: the payload from `start_idx` ends at the index found, if any.
unfoldable pub attribute_end : ActionContext → ℕ → ℕ → ℕ → Option ℕ → ActionResult
unfolding emit_attribute skip_with_warn
attribute_end ac payload_start_idx start_idx scan_end none =
    let n = length ac.input in
    if ltb scan_end n
    then skip_with_warn ac 1 ac.idx attr_payload_too_long
    else skip_with_warn ac 1 n unclosed_attr_payload
attribute_end ac payload_start_idx start_idx scan_end (some payload_end_idx) =
    if payload_end_idx == start_idx
    then skip_with_warn ac 1 start_idx empty_attr_payload
    else emit_attribute ac payload_start_idx start_idx payload_end_idx

-- Steps 3 to 5: the payload start was searched for up to `scan_end`.
unfoldable pub attribute_start : ActionContext → ℕ → Option ℕ → ActionResult
unfolding attribute_end
attribute_start ac scan_end none =
    let n = length ac.input in
    if ltb scan_end n
    then skip_with_warn ac 1 ac.idx attr_key_too_long
    else skip_with_warn ac 1 n unexpected_eol
attribute_start ac scan_end (some rel) =
    let n = length ac.input in
    let d = ac.dictionary in
    let payload_start_idx = ac.idx + 1 + rel in
    let start_idx = payload_start_idx + 1 in
    let scan_end' = min (start_idx + d.limits.max_attr_payload_len + 1) n in
    let window = slice ac.input start_idx scan_end' in
    let payload_end_idx =
      if not (d.escape_trigger == 0)
      then find_payload_end_with_escape window start_idx false d.attr_payload_end d.escape_trigger
      else find_payload_end window start_idx d.attr_payload_end in
    if payload_start_idx + 1 == n
    then skip_with_warn ac 1 payload_start_idx unexpected_eol
    else attribute_end ac payload_start_idx start_idx scan_end' payload_end_idx

unfoldable pub run_attribute : ActionContext → ActionResult
unfolding attribute_start
run_attribute ac =
    let i = ac.idx in
    let n = length ac.input in
    let scan_end = min (i + 1 + ac.dictionary.limits.max_attr_key_len + 1) n in
    if i + 1 == n
    then skip_with_warn ac 1 i unexpected_eol
    else attribute_start ac scan_end
        (index_byte (slice ac.input (i + 1) scan_end) ac.dictionary.attr_payload_start)

-- `extractNextRune`: the flag tells whether the text starts with a valid code point.
unfoldable pub extract_next_rune : Bytes → Rune × Bool
extract_next_rune s =
    let b = get_or s 0 0 in
    let r = decode_rune s in
    if ltb b 128
    then (record { value = b; width = 1 }, true)
    else (r, not (r.value == rune_error && r.width == 1))

-- The code point at index `j`.
unfoldable pub next_rune : Bytes → ℕ → Rune × Bool
unfolding extract_next_rune
next_rune input j =
    let b = get_or input j 0 in
    if ltb 127 b then extract_next_rune (drop j input) else (record { value = b; width = 1 }, true)

abbrev pub skip_escaped : ActionContext → ℕ → ActionResult
skip_escaped ac next_width = record {
  token = no_token;
  stride = 1 + next_width;
  skip = true;
  left = ac;
}

unfoldable pub run_escape : ActionContext → ActionResult
unfolding skip_with_warn next_rune
run_escape ac =
    let i = ac.idx in
    let next_byte = get_or ac.input (i + 1) 0 in
    let (next, valid) = next_rune ac.input (i + 1) in
    if i + 1 == length ac.input
    then skip_with_warn ac 1 i unexpected_eol
    else if not (is_some (ac.dictionary.actions next_byte))
    then skip_escaped
        (warn ac
          (record (warning redundant_escape i) { got = if valid then next.value % 256 else 0 }))
        next.width
    else skip_escaped ac 1

unfoldable pub run_action : Unicode → Action → ActionContext → ActionResult
run_action u (tag_action t) ac = run (create_action u t) ac
run_action u act_attribute ac = run_attribute ac
run_action u act_escape ac = run_escape ac
