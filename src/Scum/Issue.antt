-- ===== src/Scum/Issue.antt =====
-- scum/issues.go and the part of scum/config_error.go that a caller can test: the issue kind.
-- The text of a `ConfigError` is for people and is left out.
use mathlib.Core.Path.{◌≡◌, refl}
use shitposter.Prelude.{Bool, true, false, if◌then◌else◌}

pub data Issue : Type 0 where
  unexpected_eol unexpected_symbol unclosed_tag misplaced_closing_tag : Issue
  invalid_greed_level invalid_rule ambiguous_tag_type : Issue
  invalid_tag_name_len invalid_tag_seq_len duplicate_tag_id invalid_tag_seq : Issue
  rule_inapplicable redundant_escape unprintable_char warnings_truncated : Issue
  invalid_warnings_policy negative_warnings_cap empty_attr_payload : Issue
  unclosed_attr_payload attr_key_too_long attr_payload_too_long : Issue
  invalid_attr_symbol negative_limit tag_key_too_long tag_payload_too_long : Issue
  open_close_tag_mismatch duplicate_nested_tag max_nodes_exceeded : Issue
  max_attributes_exceeded max_parse_depth_exceeded : Issue

-- A Go result `(A, error)` whose error is a `*ConfigError`, or a run-time panic.
pub data Result {ℓ} (A : Type ℓ) : Type ℓ where
  ok : A → Result A
  config_error : Issue → Result A
  panics : Result A

infixl 5 ◌>>=◌ ◌>>◌
abbrev pub ◌>>=◌ {ℓ κ} : {A : Type ℓ} {B : Type κ} → Result A → (A → Result B) → Result B
ok a >>= f = f a
config_error e >>= f = config_error e
panics >>= f = panics

abbrev pub ◌>>◌ {ℓ} : {B : Type ℓ} → Result (Unit {0}) → Result B → Result B
m >> k = m >>= λ _. k

-- A bind that succeeds has two parts that do.
pub >>=-elim {ℓ κ} :
    {A B : Type ℓ} {P : Type κ} (m : Result A) (f : A → Result B) {b : B}
    → (m >>= f) ≡ ok b
    → ((a : A) → m ≡ ok a → f a ≡ ok b → P)
    → P
>>=-elim (ok a) f h k = k a refl h
>>=-elim (config_error e) f h k = absurd (cc h)
>>=-elim panics f h k = absurd (cc h)

-- A test that guards against an error has failed where there is a result.
pub guard-elim {ℓ} :
    {A : Type ℓ} (c : Bool) (e : Issue) {r : Result A} {a : A}
    → (if c then config_error e else r) ≡ ok a
    → (c ≡ false) × (r ≡ ok a)
guard-elim true e h = absurd (cc h)
guard-elim false e h = (refl, h)

pub ok-injective {ℓ} : {A : Type ℓ} {a b : A} → ok a ≡ ok b → a ≡ b
ok-injective h = cc

abbrev pub IsNoPanic {ℓ} : {A : Type ℓ} → Result A → Type 0
IsNoPanic panics = ⊥
IsNoPanic _ = Unit
