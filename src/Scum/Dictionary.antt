-- ===== src/Scum/Dictionary.antt =====
-- scum/dictionary.go, scum/limits.go, scum/add_tag.go, scum/add_universal_tag.go and the registration
-- halves of scum/set_attribute_signature.go and scum/set_escape_trigger.go.
-- The arrays of 256 entries are functions of the byte. An action is a closure over its tag in the
-- source; here it is named by what it closes over, and `run_action` in Tokenizer runs it.
pub mod Registered
pub mod Exclusive
use shitposter.Prelude.{
  ℕ, zero, suc, Bool, true, false, not, ◌&&◌, ◌||◌, Option, none, some, String, List, [], ◌∷◌, ◌==◌,
  if◌then◌else◌, Bytes, get_or,
}
use shitposter.Prelude.Int.{ℤ, pos, negsuc}
use shitposter.Scum.Issue.{
  duplicate_tag_id, unprintable_char, invalid_attr_symbol, negative_limit, Result, ok, config_error,
  panics, ◌>>=◌, ◌>>◌,
}
use shitposter.Scum.Tag.{
  Tag, no_tag, id, seq_id, is_ascii_printable, new_tag_sequence, check_tag_name,
  check_tag_consistency,
}

-- What the caller hands over: any integers.
pub record GivenLimits : Type 0 where
  pub max_attr_key_len : ℤ
  pub max_attr_payload_len : ℤ
  pub max_payload_len : ℤ
  pub max_key_len : ℤ
  pub max_nodes : ℤ
  pub max_attributes : ℤ
  pub max_parse_depth : ℤ

-- Limits that are not negative.
pub record Limits : Type 0 where
  pub max_attr_key_len : ℕ
  pub max_attr_payload_len : ℕ
  pub max_payload_len : ℕ
  pub max_key_len : ℕ
  pub max_nodes : ℕ
  pub max_attributes : ℕ
  pub max_parse_depth : ℕ

checked : ℤ → Result ℕ
checked (pos n) = ok n
checked (negsuc _) = config_error negative_limit

pub validate : GivenLimits → Result Limits
unfolding checked
validate l = do
  a ← checked l.max_attr_key_len
  b ← checked l.max_attr_payload_len
  c ← checked l.max_payload_len
  d ← checked l.max_key_len
  e ← checked l.max_nodes
  f ← checked l.max_attributes
  g ← checked l.max_parse_depth
  ok (record {
    max_attr_key_len = a;
    max_attr_payload_len = b;
    max_payload_len = c;
    max_key_len = d;
    max_nodes = e;
    max_attributes = f;
    max_parse_depth = g;
  })

pub data Action : Type 0 where
  tag_action : Tag → Action
  act_attribute : Action
  act_escape : Action

pub record Dictionary : Type 0 where
  pub limits : Limits
  pub actions : ℕ → Option Action
  pub tags : ℕ → Tag
  pub attr_trigger : ℕ
  pub attr_payload_start : ℕ
  pub attr_payload_end : ℕ
  pub escape_trigger : ℕ

abbrev pub update {ℓ} : {A : Type ℓ} → (ℕ → A) → ℕ → A → ℕ → A
update f k v j = if j == k then v else f j

abbrev pub is_some {ℓ} : {A : Type ℓ} → Option A → Bool
is_some none = false
is_some (some _) = true

-- `Dictionary.Tag`: the entry, and whether a tag is registered there.
unfoldable pub lookup_tag : Dictionary → ℕ → Tag × Bool
lookup_tag d i = let t = d.tags i in (t, not (t.seq.len == 0))

unfoldable pub is_special : Dictionary → ℕ → Bool
is_special d c =
    if c == 0
    then false
    else if c == d.attr_trigger
        || c == d.attr_payload_start
        || c == d.attr_payload_end
        || c == d.escape_trigger
    then true
    else is_some (d.actions c)

or_default : ℕ → ℕ → ℕ
or_default v default = if v == 0 then default else v

unfoldable pub new_dictionary : GivenLimits → Result Dictionary
unfolding validate or_default
new_dictionary given = do
  l ← validate given
  ok (record {
    limits = record l {
      max_attr_key_len = or_default l.max_attr_key_len 128;
      max_attr_payload_len = or_default l.max_attr_payload_len 512;
      max_payload_len = or_default l.max_payload_len 1024;
      max_key_len = or_default l.max_key_len 128;
    };
    actions = λ _. none;
    tags = λ _. no_tag;
    attr_trigger = 0;
    attr_payload_start = 0;
    attr_payload_end = 0;
    escape_trigger = 0;
  })

unfoldable pub add_tag : Dictionary → String → Bytes → ℕ → ℕ → ℕ → ℕ → Result Dictionary
add_tag d name seq greed rule open_id close_id = do
  check_tag_name name
  ts ← new_tag_sequence seq
  if not (id (d.tags (seq_id ts)) == 0) then config_error duplicate_tag_id else do
    let first = get_or seq 0 0
    check_tag_consistency (ts.len == 1) (open_id == first && close_id == first) rule greed
    let t : Tag = record {
      name = name;
      greed = greed;
      seq = ts;
      rule = rule;
      open_id = open_id;
      close_id = close_id;
    }
    ok (record d {
      tags = update d.tags (seq_id ts) t;
      actions = update d.actions (seq_id ts) (some (tag_action t));
    })

-- `seq[0]` of an empty slice panics.
unfoldable pub add_universal_tag : Dictionary → String → Bytes → ℕ → ℕ → Result Dictionary
add_universal_tag d name [] greed rule = panics
add_universal_tag d name (first ∷ rest) greed rule =
    add_tag d name (first ∷ rest) greed rule first first

unfoldable pub set_attribute_signature : Dictionary → ℕ → ℕ → ℕ → Result Dictionary
unfolding is_ascii_printable
set_attribute_signature d trigger payload_start payload_end =
    if is_some (d.actions trigger)
    then config_error duplicate_tag_id
    else if trigger == payload_start || trigger == payload_end
    then config_error invalid_attr_symbol
    else if not (
        is_ascii_printable trigger
        && (is_ascii_printable payload_start && is_ascii_printable payload_end))
    then config_error unprintable_char
    else ok (record d {
      attr_trigger = trigger;
      attr_payload_start = payload_start;
      attr_payload_end = payload_end;
      actions = update d.actions trigger (some act_attribute);
    })

unfoldable pub set_escape_trigger : Dictionary → ℕ → Result Dictionary
unfolding is_ascii_printable
set_escape_trigger d c =
    if not (is_ascii_printable c)
    then config_error unprintable_char
    else if is_some (d.actions c)
    then config_error duplicate_tag_id
    else ok (record d { escape_trigger = c; actions = update d.actions c (some act_escape) })
