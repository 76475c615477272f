-- ===== src/Scum/Tokenizer/Acting.antt =====
-- The results of the actions of a registered dictionary.
use mathlib.Core.Option
use shitposter.Prelude.{
  ℕ, suc, ◌+◌, ◌-◌, ◌≤◌, ◌<◌, min, ◌≡◌, refl, sym, subst, inl, inr, Bool, true, false, Option, none,
  some, [], ◌∷◌, arith, not, ◌&&◌, Bool-cases, if◌then◌else◌, Bytes, length, ltb, ◌==◌, get_or,
  drop, slice, length-slice-le, length-drop, drop-cons,
}
use shitposter.Scum.Issue.{
  Issue, redundant_escape, unexpected_eol, attr_key_too_long, attr_payload_too_long,
  unclosed_attr_payload, empty_attr_payload,
}
use Prim.Native.Nat.{◌%◌}
use shitposter.Scum.Warnings.{Warnings, warning, add}
use shitposter.Scum.Steps.{warn}
use shitposter.Scum.Search.{index_byte}
use shitposter.Scum.Search.Occurrence.{index_byte-some}
use shitposter.Scum.Tag.{Tag, id}
use shitposter.Scum.Dictionary.{Action, tag_action, act_attribute, act_escape, is_some}
use shitposter.Scum.Dictionary.Registered.{IsSequence, IsRegistered}
use shitposter.Scum.Utf8.{Unicode, decode_rune-width}
use shitposter.Scum.Token.{ActionContext, reset}
use shitposter.Scum.Plan.{ActionResult, run, create_action}
use shitposter.Scum.Actions.{
  skip_with_warn, next_rune, find_payload_end_with_escape, find_payload_end, emit_attribute,
  attribute_end, attribute_start, run_attribute, extract_next_rune, skip_escaped, run_escape,
  run_action,
}
use shitposter.Scum.Tokenizer.Context.{Site, IsGood, Inv}
use shitposter.Scum.Tokenizer.Keeping.{run-IsGood}
use shitposter.Scum.Tokenizer.Plans.{create_action-IsPlan}

-- The index found lies in the window that starts at `start`.
abbrev InWindow : Bytes → ℕ → Option ℕ → Type 0
InWindow window start none = Unit
InWindow window start (some j) = (start ≤ j) × (j < start + length window)

find_payload_end-InWindow :
    (window : Bytes) (start b : ℕ) → InWindow window start (find_payload_end window start b)
unfolding find_payload_end
find_payload_end-InWindow window start b = inside (index_byte window b) refl
  where
    inside :
        (o : Option ℕ)
        → index_byte window b ≡ o
        → InWindow window start (Option.map (λ rel. start + rel) o)
    inside none e = tt
    inside (some k) e =
        let f = index_byte-some window b [] k e in (omega arith, omega (arith, f.inside))

with_escape-InWindow :
    (window : Bytes) (j : ℕ) (escaped : Bool) (payload_end esc : ℕ)
    → (o : Option ℕ) → find_payload_end_with_escape window j escaped payload_end esc ≡ o
    → InWindow window j o
unfolding find_payload_end_with_escape
with_escape-InWindow window j escaped payload_end esc none e = tt
with_escape-InWindow [] j escaped payload_end esc (some k) e = absurd (cc e)
with_escape-InWindow (c ∷ cs) j escaped payload_end esc (some k) e =
    let ih = with_escape-InWindow cs (suc j) (not escaped && c == esc) payload_end esc (some k) in
    ground (arith, ih)

extracted :
    (b : ℕ) (rest : Bytes) (j n : ℕ)
    → j + length (b ∷ rest) ≤ n
    → (1 ≤ (extract_next_rune (b ∷ rest)).0.width)
      × (j + (extract_next_rune (b ∷ rest)).0.width ≤ n)
unfolding extract_next_rune
extracted b rest j n room = ground (arith, decode_rune-width b rest)

-- The code point at an index inside the input ends inside it.
next_rune-width :
    (input : Bytes) (j : ℕ)
    → j < length input
    → (1 ≤ (next_rune input j).0.width) × (j + (next_rune input j).0.width ≤ length input)
unfolding next_rune
next_rune-width input j more =
    let cut = drop-cons input j 0 more in
    elim (Bool-cases (ltb 127 (get_or input j 0))) [
      | inl high ↦
          rw (high, cut)
            (extracted (get_or input j 0) (drop (suc j) input) j (length input)
              (omega (arith, more, length-drop (suc j) input)))
      | inr low ↦ rw low (omega arith, omega arith)
    ]

module _ (ac : ActionContext) (i : ℕ) where
  abbrev pub byte : ℕ
  byte = get_or ac.input i 0

  abbrev pub tag_here : Tag
  tag_here = ac.dictionary.tags byte

  abbrev pub site : Site
  site = record { dictionary = ac.dictionary; input = ac.input; i = i; before = ac.state }

  abbrev pub here : ActionContext
  here = reset ac byte i

  if-IsGood :
      (b : Bool) (x y : ActionResult)
      → (b ≡ true → IsGood site byte tag_here x)
      → (b ≡ false → IsGood site byte tag_here y)
      → IsGood site byte tag_here (if b then x else y)
  if-IsGood true x y hx hy = hx refl
  if-IsGood false x y hx hy = hy refl

  module _ (inside : i < length ac.input) where
    skip_with_warn-IsGood :
        (p : ℕ) (issue : Issue) → IsGood site byte tag_here (skip_with_warn here 1 p issue)
    unfolding skip_with_warn
    skip_with_warn-IsGood p issue = ground arith

    emit_attribute-IsGood :
        (start_at start end : ℕ)
        → i < start_at
        → start_at < start
        → start ≤ end
        → end < length ac.input
        → IsGood site byte tag_here (emit_attribute here start_at start end)
    unfolding emit_attribute
    emit_attribute-IsGood start_at start end h₁ h₂ h₃ h₄ =
        elim (Bool-cases (start_at - i - 1 == 0)) [
          | inl flag ↦ rw flag (ground arith)
          | inr key ↦ rw key (ground arith)
        ]

    attribute_end-IsGood :
        (start_at start scan_end : ℕ) (o : Option ℕ)
        → i < start_at
        → start_at < start
        → scan_end ≤ length ac.input
        → InWindow (slice ac.input start scan_end) start o
        → IsGood site byte tag_here (attribute_end here start_at start scan_end o)
    unfolding attribute_end
    attribute_end-IsGood start_at start scan_end none h₁ h₂ h₃ w =
        if-IsGood (ltb scan_end (length ac.input)) (skip_with_warn here 1 i attr_payload_too_long)
          (skip_with_warn here 1 (length ac.input) unclosed_attr_payload)
          (λ _. skip_with_warn-IsGood i attr_payload_too_long)
          (λ _. skip_with_warn-IsGood (length ac.input) unclosed_attr_payload)
    attribute_end-IsGood start_at start scan_end (some end) h₁ h₂ h₃ w =
        if-IsGood (end == start) (skip_with_warn here 1 start empty_attr_payload)
          (emit_attribute here start_at start end)
          (λ _. skip_with_warn-IsGood start empty_attr_payload)
          (λ _.
            emit_attribute-IsGood start_at start end h₁ h₂ w.0
              (omega (arith, w.1, length-slice-le ac.input start scan_end)))

    payload_window :
        (escaping : Bool) (window : Bytes) (start payload_end esc : ℕ)
        → InWindow window start (
            if escaping
            then find_payload_end_with_escape window start false payload_end esc
            else find_payload_end window start payload_end)
    payload_window true window start payload_end esc =
        with_escape-InWindow window start false payload_end esc _ refl
    payload_window false window start payload_end esc =
        find_payload_end-InWindow window start payload_end

    attribute_start-IsGood :
        (scan_end : ℕ) (o : Option ℕ) → IsGood site byte tag_here (attribute_start here scan_end o)
    unfolding attribute_start
    attribute_start-IsGood scan_end none =
        if-IsGood (ltb scan_end (length ac.input)) (skip_with_warn here 1 i attr_key_too_long)
          (skip_with_warn here 1 (length ac.input) unexpected_eol)
          (λ _. skip_with_warn-IsGood i attr_key_too_long)
          (λ _. skip_with_warn-IsGood (length ac.input) unexpected_eol)
    attribute_start-IsGood scan_end (some rel) =
        let d = ac.dictionary in
        let at = i + 1 + rel in
        let start = at + 1 in
        let to = min (start + d.limits.max_attr_payload_len + 1) (length ac.input) in
        let window = slice ac.input start to in
        let escaping = not (d.escape_trigger == 0) in
        let end =
          if escaping
          then find_payload_end_with_escape window start false d.attr_payload_end d.escape_trigger
          else find_payload_end window start d.attr_payload_end in
        if-IsGood (at + 1 == length ac.input) (skip_with_warn here 1 at unexpected_eol)
          (attribute_end here at start to end) (λ _. skip_with_warn-IsGood at unexpected_eol)
          (λ _.
            attribute_end-IsGood at start to end (omega arith) (omega arith) (omega arith)
              (payload_window escaping window start d.attr_payload_end d.escape_trigger))

    run_attribute-IsGood : IsGood site byte tag_here (run_attribute here)
    unfolding run_attribute
    run_attribute-IsGood =
        let scan_end = min (i + 1 + ac.dictionary.limits.max_attr_key_len + 1) (length ac.input) in
        let found = index_byte (slice ac.input (i + 1) scan_end) ac.dictionary.attr_payload_start in
        if-IsGood (i + 1 == length ac.input) (skip_with_warn here 1 i unexpected_eol)
          (attribute_start here scan_end found) (λ _. skip_with_warn-IsGood i unexpected_eol)
          (λ _. attribute_start-IsGood scan_end found)

    skip_escaped-IsGood :
        (w : Warnings) (width : ℕ)
        → 1 ≤ width
        → i + 1 + width ≤ length ac.input
        → IsGood site byte tag_here (skip_escaped (record here { warns = w }) width)
    skip_escaped-IsGood w width pos fits = ground arith

    run_escape-IsGood : IsGood site byte tag_here (run_escape here)
    unfolding run_escape
    run_escape-IsGood =
        let next = next_rune ac.input (i + 1) in
        let next_byte = get_or ac.input (i + 1) 0 in
        let item = record (warning redundant_escape i) {
          got = if next.1 then next.0.value % 256 else 0;
        } in
        let fits = next_rune-width ac.input (i + 1) in
        if-IsGood (i + 1 == length ac.input) (skip_with_warn here 1 i unexpected_eol) _
          (λ _. skip_with_warn-IsGood i unexpected_eol)
          (λ more.
            let later : i + 1 < length ac.input = ground (arith, more) in
            if-IsGood (not (is_some (ac.dictionary.actions next_byte)))
              (skip_escaped (warn here item) next.0.width) (skip_escaped here 1)
              (λ _.
                skip_escaped-IsGood (add ac.warns item) next.0.width (fits later).0 (fits later).1)
              (λ _. skip_escaped-IsGood ac.warns 1 (omega arith) (omega arith)))

    initial-Inv : Inv site (ac.dictionary.tags byte) false here
    initial-Inv = ground arith

    pub run_action-IsGood :
        (u : Unicode) (act : Action)
        → IsRegistered ac.dictionary
        → ac.dictionary.actions byte ≡ some act
        → IsGood site byte tag_here (run_action u act here)
    unfolding run_action
    run_action-IsGood u (tag_action t) r at =
        let (same, first, there) = r.action_of byte t at in
        let q : IsSequence t.seq =
          subst (λ (x : Tag). IsSequence x.seq) same
            (r.tag_or_none byte (λ z. there (subst (λ (x : Tag). x.seq.len ≡ 0) same z))) in
        let plan = create_action-IsPlan site t r inside u q (sym first) in
        let result = run (create_action u t) here in
        let good : IsGood site (id t) t result =
          run-IsGood site t false here plan (subst (λ x. Inv site x false here) same initial-Inv) in
        subst (λ x. IsGood site byte x result) (sym same)
          (subst (λ b. IsGood site b t result) first good)
    run_action-IsGood u act_attribute r at = run_attribute-IsGood
    run_action-IsGood u act_escape r at = run_escape-IsGood
