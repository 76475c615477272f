-- ===== src/Sml/Eater.antt =====
-- sml/eater.go: the dictionary of the markup and the construction of its parser.
use shitposter.Prelude.{
  ℕ, String, arith, ◌≡◌, refl, Option, some, none, [], ◌∷◌, ◌==◌, if◌then◌else◌,
}
use shitposter.Prelude.Int.{ℤ, pos}
use shitposter.Scum.Issue.{Result, IsNoPanic, ok, config_error, panics, ◌>>=◌}
use shitposter.Scum.Warnings.{Warnings, new_warnings, new_warnings-IsNoPanic}
use shitposter.Scum.Tag.{
  check_tag_name, new_tag_sequence, check_tag_consistency, non_greedy, rule_na, rule_infra_word,
  Tag, no_tag,
}
use shitposter.Scum.Dictionary.{
  GivenLimits, Dictionary, Action, tag_action, act_attribute, act_escape, new_dictionary, add_tag,
  add_universal_tag, set_attribute_signature, set_escape_trigger,
}
use shitposter.Scum.Dictionary.Registered.{Built, fresh, tagged, universal, attributed, escaped}

abbrev pub no_limits : GivenLimits
no_limits = record {
  max_attr_key_len = pos 0;
  max_attr_payload_len = pos 0;
  max_payload_len = pos 0;
  max_key_len = pos 0;
  max_nodes = pos 0;
  max_attributes = pos 0;
  max_parse_depth = pos 0;
}

pub record Eater : Type 0 where
  pub dict : Dictionary
  pub warning_overflow_policy : ℤ
  pub warn_cap : ℤ

-- An error that the source answers with a panic.
unfoldable pub must {ℓ} : {A : Type ℓ} → Result A → Result A
must (ok a) = ok a
must (config_error _) = panics
must panics = panics

-- The registrations of `NewEater`, in their order.
unfoldable pub register_all : Dictionary → Result Dictionary
unfolding must
register_all d = do
  d ← must (add_universal_tag d "BOLD" (b'$' ∷ []) non_greedy rule_na)
  d ← must (add_universal_tag d "ITALIC" (b'*' ∷ []) non_greedy rule_na)
  d ← must (add_universal_tag d "UNDERLINE" (b'_' ∷ []) non_greedy rule_infra_word)
  d ← must (add_tag d "LINK" (b'[' ∷ []) non_greedy rule_na 0 b']')
  d ← must (add_tag d "LINK" (b']' ∷ []) non_greedy rule_na b'[' 0)
  d ← must (set_attribute_signature d b'!' b'{' b'}')
  must (set_escape_trigger d b'\\')

-- `NewEater`; an error of the arguments comes back without its wrapper.
unfoldable pub new_eater : ℤ → ℤ → Result Eater
unfolding register_all must
new_eater warn_pol warn_cap = do
  d ← must (new_dictionary no_limits)
  _ ← new_warnings warn_pol warn_cap
  d ← register_all d
  ok (record { dict = d; warning_overflow_policy = warn_pol; warn_cap = warn_cap })

abbrev value_of : Result Dictionary → Dictionary
value_of (ok d) = d
value_of _ = record {
  limits = record {
    max_attr_key_len = 0;
    max_attr_payload_len = 0;
    max_payload_len = 0;
    max_key_len = 0;
    max_nodes = 0;
    max_attributes = 0;
    max_parse_depth = 0;
  };
  actions = λ _. none;
  tags = λ _. no_tag;
  attr_trigger = 0;
  attr_payload_start = 0;
  attr_payload_end = 0;
  escape_trigger = 0;
}

unfoldable pub sml_dictionary : Dictionary
unfolding register_all new_dictionary
sml_dictionary = value_of (do d ← new_dictionary no_limits; register_all d)

pub sml_dictionary-Built : Built sml_dictionary
unfolding register_all must new_dictionary add_tag add_universal_tag set_attribute_signature
    set_escape_trigger check_tag_name new_tag_sequence check_tag_consistency sml_dictionary
sml_dictionary-Built =
    escaped b'\\'
      (attributed b'!' b'{' b'}'
        (tagged "LINK" (b']' ∷ []) non_greedy rule_na b'[' 0
          (tagged "LINK" (b'[' ∷ []) non_greedy rule_na 0 b']'
            (universal "UNDERLINE" (b'_' ∷ []) non_greedy rule_infra_word
              (universal "ITALIC" (b'*' ∷ []) non_greedy rule_na
                (universal "BOLD" (b'$' ∷ []) non_greedy rule_na (fresh no_limits refl) refl) refl)
              refl)
            refl)
          refl)
        refl)
      refl

-- The markup as it is documented, one byte a tag. "_" keeps to the bounds of words; the default limits
-- of the parser's package hold.
abbrev letter : String → ℕ → ℕ → ℕ → ℕ → Tag
letter label b rule open_id close_id = record {
  name = label;
  greed = 0;
  seq = record { bytes = b ∷ 0 ∷ 0 ∷ 0 ∷ []; len = 1 };
  rule = rule;
  open_id = open_id;
  close_id = close_id;
}

abbrev pub markup_tag : ℕ → Option Tag
markup_tag b =
    if b == b']'
    then some (letter "LINK" b']' 0 b'[' 0)
    else if b == b'['
    then some (letter "LINK" b'[' 0 0 b']')
    else if b == b'_'
    then some (letter "UNDERLINE" b'_' 1 b'_' b'_')
    else if b == b'*'
    then some (letter "ITALIC" b'*' 0 b'*' b'*')
    else if b == b'$'
    then some (letter "BOLD" b'$' 0 b'$' b'$')
    else none

abbrev pub or_no_tag : Option Tag → Tag
or_no_tag none = no_tag
or_no_tag (some t) = t

abbrev pub markup_action : ℕ → Option Action
markup_action b =
    if b == b'\\'
    then some act_escape
    else if b == b'!'
    then some act_attribute
    else acts (markup_tag b)
  where
    acts : Option Tag → Option Action
    acts none = none
    acts (some t) = some (tag_action t)

-- A parser of posts: at every byte the documented tag, or none, and the action that goes with it; the
-- signature of an attribute is !name{payload}, and a backslash escapes.
pub record IsPostEater (warn_pol warn_cap : ℤ) (e : Eater) : Type 0 where
  pub tags : (b : ℕ) → e.dict.tags b ≡ or_no_tag (markup_tag b)
  pub actions : (b : ℕ) → e.dict.actions b ≡ markup_action b
  pub attribute :
      (e.dict.attr_trigger ≡ b'!')
      × (e.dict.attr_payload_start ≡ b'{')
      × (e.dict.attr_payload_end ≡ b'}')
  pub escape : e.dict.escape_trigger ≡ b'\\'
  pub lengths :
      (e.dict.limits.max_attr_key_len ≡ 128)
      × (e.dict.limits.max_attr_payload_len ≡ 512)
      × (e.dict.limits.max_payload_len ≡ 1024)
      × (e.dict.limits.max_key_len ≡ 128)
  pub policy : e.warning_overflow_policy ≡ warn_pol
  pub cap : e.warn_cap ≡ warn_cap

-- What becomes of the check of the arguments.
abbrev pub Follows : ℤ → ℤ → Result Warnings → Result Eater → Type 0
Follows warn_pol warn_cap (ok _) (ok e) = IsPostEater warn_pol warn_cap e
Follows warn_pol warn_cap (config_error i) (config_error j) = i ≡ j
Follows warn_pol warn_cap _ _ = ⊥

new_eater-registered :
    (warn_pol warn_cap : ℤ)
    → new_eater warn_pol warn_cap ≡ (
        new_warnings warn_pol warn_cap >>= λ _.
        ok (record {
          dict = sml_dictionary;
          warning_overflow_policy = warn_pol;
          warn_cap = warn_cap;
        }))
unfolding new_eater register_all must new_dictionary add_tag add_universal_tag
    set_attribute_signature set_escape_trigger check_tag_name new_tag_sequence check_tag_consistency
    sml_dictionary
new_eater-registered warn_pol warn_cap = refl

sml_dictionary-IsPostEater :
    (warn_pol warn_cap : ℤ)
    → IsPostEater warn_pol warn_cap
        (record { dict = sml_dictionary; warning_overflow_policy = warn_pol; warn_cap = warn_cap })
unfolding register_all must new_dictionary add_tag add_universal_tag set_attribute_signature
    set_escape_trigger check_tag_name new_tag_sequence check_tag_consistency sml_dictionary
sml_dictionary-IsPostEater warn_pol warn_cap = record {
  tags = λ b. ground arith;
  actions = λ b. ground arith;
  attribute = (refl, refl, refl);
  escape = refl;
  lengths = (refl, refl, refl, refl);
  policy = refl;
  cap = refl;
}

-- The construction of the parser fails exactly as the check of its two arguments does; where that
-- succeeds no registration panics, and the parser has at every byte the tag and the action of the
-- documented markup, its attribute and escape bytes, the default limits on lengths, and the arguments.
pub new_eater-new_warnings :
    (warn_pol warn_cap : ℤ)
    → Follows warn_pol warn_cap (new_warnings warn_pol warn_cap) (new_eater warn_pol warn_cap)
new_eater-new_warnings warn_pol warn_cap =
    rw (new_eater-registered warn_pol warn_cap)
      (by_check (new_warnings warn_pol warn_cap) (new_warnings-IsNoPanic warn_pol warn_cap))
  where
    by_check :
        (r : Result Warnings)
        → IsNoPanic r
        → Follows warn_pol warn_cap r (
            r >>= λ _. ok (record {
              dict = sml_dictionary;
              warning_overflow_policy = warn_pol;
              warn_cap = warn_cap;
            }))
    by_check (ok w) h = sml_dictionary-IsPostEater warn_pol warn_cap
    by_check (config_error i) h = refl
    by_check panics h = absurd h
