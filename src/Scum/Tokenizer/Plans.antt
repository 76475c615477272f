-- ===== src/Scum/Tokenizer/Plans.antt =====
-- Where the plan that `CreateAction` builds for a registered tag counts and emits.
use shitposter.Prelude.{
  ◌<◌, ◌≡◌, refl, ◌⊎◌, inl, inr, Bool, true, false, List, [], ◌∷◌, ◌++◌, arith, Bool-cases,
  if◌then◌else◌, length, ltb, ◌==◌, get_or,
}
use shitposter.Scum.Tag.{
  Tag, id, is_universal, is_opening, non_greedy, greedy, grasping, rule_infra_word,
  rule_tag_vs_content,
}
use shitposter.Scum.Dictionary.Registered.{IsSequence, IsRegistered}
use shitposter.Scum.Utf8.{Unicode}
use shitposter.Scum.Steps.{
  Step, mutate_with, count_tag, step_emit_entire_tag_token, step_skip_unclosed_open_tag,
}
use shitposter.Scum.Plan.{
  closing_plan, count_plan, add_close_tag_check, single_char_greedy_plan, single_char_grasping_plan,
  multi_char_universal_plan, multi_char_opening_plan, multi_char_plan, single_char_non_greedy_plan,
  single_char_universal_plan, single_char_opening_plan, single_char_plan, create_action,
}
use shitposter.Scum.Tokenizer.Context.{Site, IsPlan, fall, keep, count, skip, emit}
use shitposter.Scum.Tokenizer.Keeping.{
  warn_close_tag_after_start-Keeps, warn_invalid_sequence-Keeps, warn_open_tag_before_eol-Keeps,
  warn_tag_key_too_long-Keeps, warn_tag_payload_too_long-Keeps, warn_unclosed_tag-Keeps,
  count_tag-Counts, count_close_tag-Counts, count_open_tag-Counts, count_universal_tag-Counts,
  step_skip_close_tag_after_start-Skips, step_skip_open_tag_before_eol-Skips,
  step_skip_invalid_trigger_tag-Skips, step_skip_unclosed_open_tag-Skips,
  step_infra_word_check-Skips,
}
use shitposter.Scum.Tokenizer.Checking.{
  prepare_single_char_tag-Keeps, check_multi_char_tag_seq-Keeps, check_close_tag-Keeps,
  check_tag_vs_content-Keeps,
}

module _ (e : Site) (t : Tag) where
  if-IsPlan :
      (b k : Bool) {x y : List Step}
      → (b ≡ true → IsPlan e t k x)
      → (b ≡ false → IsPlan e t k y)
      → IsPlan e t k (if b then x else y)
  if-IsPlan true k hx hy = hx refl
  if-IsPlan false k hx hy = hy refl

  closing_plan-IsPlan : IsPlan e t false closing_plan
  unfolding closing_plan
  closing_plan-IsPlan =
      keep (warn_close_tag_after_start-Keeps e t)
        (skip (step_skip_close_tag_after_start-Skips e t) (count (count_close_tag-Counts e t) emit))

  abbrev Opens : Type 0
  Opens = (is_universal t ≡ true) ⊎ (is_opening t ≡ true)

  counted : Opens → IsPlan e t false (count_plan t ++ step_emit_entire_tag_token ∷ [])
  unfolding count_plan
  counted o = elim (Bool-cases (is_universal t)) [
    | inl uni ↦ rw uni (count (count_universal_tag-Counts e t) emit)
    | inr not_uni ↦
        let opens : is_opening t ≡ true = ground (arith, o) in
        rw (not_uni, opens) (count (count_open_tag-Counts e t) emit)
  ]

  count_tag-IsPlan : IsPlan e t false (mutate_with count_tag ∷ step_emit_entire_tag_token ∷ [])
  count_tag-IsPlan = count (count_tag-Counts e t) emit

  single_char_non_greedy_plan-IsPlan :
      (u : Unicode) → Opens → IsPlan e t false (single_char_non_greedy_plan u t)
  unfolding single_char_non_greedy_plan
  single_char_non_greedy_plan-IsPlan u o = elim (Bool-cases (t.rule == rule_infra_word)) [
    | inl ruled ↦ rw ruled (skip (step_infra_word_check-Skips e t u) (counted o))
    | inr free ↦ rw free (counted o)
  ]

  module _ (r : IsRegistered e.dictionary) (inside : e.i < length e.input) where
    close_check :
        (rest : List Step)
        → IsPlan e t false rest
        → IsPlan e t false (add_close_tag_check t ++ rest)
    unfolding add_close_tag_check
    close_check rest p =
        let last = keep (warn_tag_payload_too_long-Keeps e t) p in
        elim (Bool-cases (t.rule == rule_tag_vs_content)) [
          | inl ruled ↦ rw ruled (
              keep (check_tag_vs_content-Keeps e t inside)
                (keep (warn_tag_key_too_long-Keeps e t) last))
          | inr free ↦ rw free (keep (check_close_tag-Keeps e t r) last)
        ]

    single_char_greedy_plan-IsPlan : IsPlan e t false (single_char_greedy_plan t)
    unfolding single_char_greedy_plan
    single_char_greedy_plan-IsPlan = close_check _ (
        keep (warn_unclosed_tag-Keeps e t)
          (skip (step_skip_unclosed_open_tag-Skips e t) count_tag-IsPlan))

    single_char_grasping_plan-IsPlan : IsPlan e t false (single_char_grasping_plan t)
    unfolding single_char_grasping_plan
    single_char_grasping_plan-IsPlan =
        close_check _ (keep (warn_unclosed_tag-Keeps e t) count_tag-IsPlan)

    single_char_universal_plan-IsPlan :
        (u : Unicode) → Opens → IsPlan e t false (single_char_universal_plan u t)
    unfolding single_char_universal_plan
    single_char_universal_plan-IsPlan u o =
        if-IsPlan (t.greed == non_greedy) false
          {y = if t.greed == greedy
            then single_char_greedy_plan t
            else if t.greed == grasping
            then single_char_grasping_plan t
            else []}
          (λ _. single_char_non_greedy_plan-IsPlan u o)
          (λ _.
            if-IsPlan (t.greed == greedy) false
              {y = if t.greed == grasping then single_char_grasping_plan t else []}
              (λ _. single_char_greedy_plan-IsPlan)
              (λ _.
                if-IsPlan (t.greed == grasping) false (λ _. single_char_grasping_plan-IsPlan)
                  (λ _. fall)))

    single_char_plan-IsPlan : (u : Unicode) → IsPlan e t false (single_char_plan u t)
    unfolding single_char_plan single_char_opening_plan
    single_char_plan-IsPlan u = keep (prepare_single_char_tag-Keeps e t) (
        if-IsPlan _ false (λ uni. single_char_universal_plan-IsPlan u (inl uni))
          (λ _.
            if-IsPlan _ false
              (λ opens. keep (warn_open_tag_before_eol-Keeps e t) (
                skip (step_skip_open_tag_before_eol-Skips e t)
                  (single_char_universal_plan-IsPlan u (inr opens))))
              (λ _. if-IsPlan _ false (λ _. closing_plan-IsPlan) (λ _. fall))))

    then_skip :
        (b : Bool)
        → IsPlan e t false (
            (if b then step_skip_unclosed_open_tag ∷ [] else [])
            ++ (mutate_with count_tag ∷ step_emit_entire_tag_token ∷ []))
    then_skip true = skip (step_skip_unclosed_open_tag-Skips e t) count_tag-IsPlan
    then_skip false = count_tag-IsPlan

    multi_char_universal_plan-IsPlan : Opens → IsPlan e t false (multi_char_universal_plan t)
    unfolding multi_char_universal_plan
    multi_char_universal_plan-IsPlan o = elim (Bool-cases (t.greed == non_greedy)) [
      | inl zero_greed ↦
          let no_greed : ltb non_greedy t.greed ≡ false = ground arith in
          rw (zero_greed, no_greed) (counted o)
      | inr some_greed ↦
          let more : ltb non_greedy t.greed ≡ true = ground arith in
          rw (some_greed, more)
            (keep (check_close_tag-Keeps e t r) (
              keep (warn_unclosed_tag-Keeps e t)
                (keep (warn_tag_payload_too_long-Keeps e t) (then_skip (t.greed == greedy)))))
    ]

    multi_char_plan-IsPlan :
        IsSequence t.seq → get_or e.input e.i 0 ≡ id t → IsPlan e t false (multi_char_plan t)
    unfolding multi_char_plan multi_char_opening_plan
    multi_char_plan-IsPlan q first = keep (check_multi_char_tag_seq-Keeps e t q first inside) (
        keep (warn_invalid_sequence-Keeps e t) (
          skip (step_skip_invalid_trigger_tag-Skips e t) (
            if-IsPlan _ false (λ uni. multi_char_universal_plan-IsPlan (inl uni))
              (λ _.
                if-IsPlan _ false
                  (λ opens. keep (warn_open_tag_before_eol-Keeps e t) (
                    skip (step_skip_open_tag_before_eol-Skips e t)
                      (multi_char_universal_plan-IsPlan (inr opens))))
                  (λ _. if-IsPlan _ false (λ _. closing_plan-IsPlan) (λ _. fall))))))

    pub create_action-IsPlan :
        (u : Unicode)
        → IsSequence t.seq
        → get_or e.input e.i 0 ≡ id t
        → IsPlan e t false (create_action u t)
    unfolding create_action
    create_action-IsPlan u q first =
        if-IsPlan _ false (λ _. single_char_plan-IsPlan u) (λ _. multi_char_plan-IsPlan q first)
