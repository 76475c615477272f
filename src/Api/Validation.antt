-- ===== src/Api/Validation.antt =====
-- api/validation_utils.go: the validators of a field. The functions of Go's library that they ask are
-- a parameter: trimming, decoding to runes, the classes of runes, and the parsers of addresses and URLs.
use text.Mathlib.Text.{◌==◌ as text_eq}
use shitposter.Prelude.{
  ℕ, Bool, true, false, not, ◌&&◌, length, String, List, [], ◌∷◌, ◌++◌, ltb, if◌then◌else◌,
}
use shitposter.Prelude.Int.{ℤ, leb_ℤ}
use shitposter.Api.Vomit.{Issue}

pub record Texts : Type 0 where
  pub trim_space : String → String
  pub runes : String → List ℕ
  pub is_email : String → Bool
  pub is_request_uri : String → Bool
  pub is_digit : ℕ → Bool
  pub is_letter : ℕ → Bool

abbrev pub rune_count : Texts → String → ℕ
rune_count t s = length (t.runes s)

-- The issues so far to the issues with the validator's, and whether the others are asked.
abbrev pub Validator : Type 0 → Type 0
Validator A = A → String → List Issue → List Issue × Bool

-- An issue where the test is true; the other validators are asked in any case.
abbrev pub complains : Bool → String → String → List Issue → List Issue × Bool
complains bad field label issues =
    if bad
    then (issues ++ record { field_name = field; tag = label } ∷ [], true)
    else (issues, true)

abbrev pub str_required : Texts → Validator String
str_required t v field issues =
    if text_eq (t.trim_space v) ""
    then (issues ++ record { field_name = field; tag = "required" } ∷ [], false)
    else (issues, true)

abbrev pub str_email : Texts → Validator String
str_email t v field issues = complains (not (t.is_email v)) field "email" issues

abbrev pub str_url : Texts → Validator String
str_url t v field issues = complains (not (t.is_request_uri v)) field "url" issues

abbrev pub str_min : Texts → ℕ → Validator String
str_min t n v field issues = complains (ltb (rune_count t (t.trim_space v)) n) field "min" issues

abbrev pub str_max : Texts → ℕ → Validator String
str_max t n v field issues = complains (ltb n (rune_count t (t.trim_space v))) field "max" issues

abbrev pub is_alphanumeric : Texts → List ℕ → Bool
is_alphanumeric t [] = true
is_alphanumeric t (r ∷ rs) =
    if not (t.is_digit r) && not (t.is_letter r) then false else is_alphanumeric t rs

abbrev pub str_alphanum : Texts → Validator String
str_alphanum t v field issues =
    complains (not (is_alphanumeric t (t.runes (t.trim_space v)))) field "alphanum" issues

abbrev pub num_min : ℤ → Validator ℤ
num_min n v field issues = complains (not (leb_ℤ n v)) field "min" issues

abbrev pub num_max : ℤ → Validator ℤ
num_max n v field issues = complains (not (leb_ℤ v n)) field "max" issues

abbrev pub proceed : List Issue × Bool → (List Issue → List Issue) → List Issue
proceed (issues, go) later = if go then later issues else issues

-- `validate`
unfoldable pub validate : {A : Type 0} → List Issue → A → String → List (Validator A) → List Issue
validate issues v field [] = issues
validate issues v field (fn ∷ fns) =
    proceed (fn v field issues) (λ found. validate found v field fns)
