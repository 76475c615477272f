-- ===== src/Scum/Codenames.antt =====
-- The codenames of scum/serializable_warning.go and the issues that they stand for.
use shitposter.Prelude.{
  ◌≡◌, refl, ap, ◌∙◌, Option, none, some, List, [], ◌∷◌, if◌then◌else◌, String,
}
use text.Mathlib.Text.{◌==◌ as text_eq}
use shitposter.Scum.Issue.{Issue}
use shitposter.Scum.Dictionary.{Dictionary}
use shitposter.Scum.Warnings.{Warning}
use shitposter.Scum.Serialization.{SerializableWarning, codename_of, serializer_of, serialize}

-- The names of the issues, in the order of their codes, as callers know them. Only the issue of an
-- invalid policy has none.
abbrev names : List (String × Issue)
names =
    ("UNEXPECTED_EOL", Issue.unexpected_eol)
    ∷ ("UNEXPECTED_SYMBOL", Issue.unexpected_symbol)
    ∷ ("UNCLOSED_TAG", Issue.unclosed_tag)
    ∷ ("MISPLACED_CLOSING_TAG", Issue.misplaced_closing_tag)
    ∷ ("INVALID_GREED_LEVEL", Issue.invalid_greed_level)
    ∷ ("INVALID_RULE", Issue.invalid_rule)
    ∷ ("AMBIGUOUS_TAG_TYPE", Issue.ambiguous_tag_type)
    ∷ ("INVALID_TAG_NAME_LEN", Issue.invalid_tag_name_len)
    ∷ ("INVALID_TAG_SEQ_LEN", Issue.invalid_tag_seq_len)
    ∷ ("DUPLICATE_TAG_ID", Issue.duplicate_tag_id)
    ∷ ("INVALID_TAG_SEQ", Issue.invalid_tag_seq)
    ∷ ("RULE_INAPPLICABLE", Issue.rule_inapplicable)
    ∷ ("REDUNDANT_ESCAPE", Issue.redundant_escape)
    ∷ ("UNPRINTABLE_CHAR", Issue.unprintable_char)
    ∷ ("WARNINGS_TRUNCATED", Issue.warnings_truncated)
    ∷ ("", Issue.invalid_warnings_policy)
    ∷ ("NEGATIVE_WARNINGS_CAP", Issue.negative_warnings_cap)
    ∷ ("EMPTY_ATTR_PAYLOAD", Issue.empty_attr_payload)
    ∷ ("UNCLOSED_ATTR_PAYLOAD", Issue.unclosed_attr_payload)
    ∷ ("ATTR_KEY_TOO_LONG", Issue.attr_key_too_long)
    ∷ ("ATTR_PAYLOAD_TOO_LONG", Issue.attr_payload_too_long)
    ∷ ("INVALID_ATTR_SYMBOL", Issue.invalid_attr_symbol)
    ∷ ("NEGATIVE_LIMIT", Issue.negative_limit)
    ∷ ("TAG_KEY_TOO_LONG", Issue.tag_key_too_long)
    ∷ ("TAG_PAYLOAD_TOO_LONG", Issue.tag_payload_too_long)
    ∷ ("OPEN_CLOSE_TAG_MISMATCH", Issue.open_close_tag_mismatch)
    ∷ ("DUPLICATE_NESTED_TAG", Issue.duplicate_nested_tag)
    ∷ ("MAX_NODES_EXCEEDED", Issue.max_nodes_exceeded)
    ∷ ("MAX_ATTRIBUTES_EXCEEDED", Issue.max_attributes_exceeded)
    ∷ ("MAX_PARSE_DEPTH_EXCEEDED", Issue.max_parse_depth_exceeded)
    ∷ []

abbrev first_named : List (String × Issue) → String → Option Issue
first_named [] s = none
first_named ((name, i) ∷ rest) s = if text_eq name s then some i else first_named rest s

-- The issue that has that name.
abbrev pub issue_named : String → Option Issue
issue_named s = first_named names s

-- What a serialized warning says of the warning.
pub record Tells (w : Warning) (s : SerializableWarning) : Type 0 where
  pub code : s.code ≡ w.issue
  pub codename : s.codename ≡ codename_of w.issue
  pub byte_idx : s.byte_idx ≡ w.pos
  pub symbol_idx : s.symbol_idx ≡ 0

serializer-Tells : (i : Issue) (w : Warning) (d : Dictionary) → Tells w (serializer_of i w d)
serializer-Tells Issue.unexpected_eol w d = record {
  code = refl;
  codename = refl;
  byte_idx = refl;
  symbol_idx = refl;
}
serializer-Tells Issue.unexpected_symbol w d = record {
  code = refl;
  codename = refl;
  byte_idx = refl;
  symbol_idx = refl;
}
serializer-Tells Issue.unclosed_tag w d = record {
  code = refl;
  codename = refl;
  byte_idx = refl;
  symbol_idx = refl;
}
serializer-Tells Issue.misplaced_closing_tag w d = record {
  code = refl;
  codename = refl;
  byte_idx = refl;
  symbol_idx = refl;
}
serializer-Tells Issue.invalid_greed_level w d = record {
  code = refl;
  codename = refl;
  byte_idx = refl;
  symbol_idx = refl;
}
serializer-Tells Issue.invalid_rule w d = record {
  code = refl;
  codename = refl;
  byte_idx = refl;
  symbol_idx = refl;
}
serializer-Tells Issue.ambiguous_tag_type w d = record {
  code = refl;
  codename = refl;
  byte_idx = refl;
  symbol_idx = refl;
}
serializer-Tells Issue.invalid_tag_name_len w d = record {
  code = refl;
  codename = refl;
  byte_idx = refl;
  symbol_idx = refl;
}
serializer-Tells Issue.invalid_tag_seq_len w d = record {
  code = refl;
  codename = refl;
  byte_idx = refl;
  symbol_idx = refl;
}
serializer-Tells Issue.duplicate_tag_id w d = record {
  code = refl;
  codename = refl;
  byte_idx = refl;
  symbol_idx = refl;
}
serializer-Tells Issue.invalid_tag_seq w d = record {
  code = refl;
  codename = refl;
  byte_idx = refl;
  symbol_idx = refl;
}
serializer-Tells Issue.rule_inapplicable w d = record {
  code = refl;
  codename = refl;
  byte_idx = refl;
  symbol_idx = refl;
}
serializer-Tells Issue.redundant_escape w d = record {
  code = refl;
  codename = refl;
  byte_idx = refl;
  symbol_idx = refl;
}
serializer-Tells Issue.unprintable_char w d = record {
  code = refl;
  codename = refl;
  byte_idx = refl;
  symbol_idx = refl;
}
serializer-Tells Issue.warnings_truncated w d = record {
  code = refl;
  codename = refl;
  byte_idx = refl;
  symbol_idx = refl;
}
serializer-Tells Issue.invalid_warnings_policy w d = record {
  code = refl;
  codename = refl;
  byte_idx = refl;
  symbol_idx = refl;
}
serializer-Tells Issue.negative_warnings_cap w d = record {
  code = refl;
  codename = refl;
  byte_idx = refl;
  symbol_idx = refl;
}
serializer-Tells Issue.empty_attr_payload w d = record {
  code = refl;
  codename = refl;
  byte_idx = refl;
  symbol_idx = refl;
}
serializer-Tells Issue.unclosed_attr_payload w d = record {
  code = refl;
  codename = refl;
  byte_idx = refl;
  symbol_idx = refl;
}
serializer-Tells Issue.attr_key_too_long w d = record {
  code = refl;
  codename = refl;
  byte_idx = refl;
  symbol_idx = refl;
}
serializer-Tells Issue.attr_payload_too_long w d = record {
  code = refl;
  codename = refl;
  byte_idx = refl;
  symbol_idx = refl;
}
serializer-Tells Issue.invalid_attr_symbol w d = record {
  code = refl;
  codename = refl;
  byte_idx = refl;
  symbol_idx = refl;
}
serializer-Tells Issue.negative_limit w d = record {
  code = refl;
  codename = refl;
  byte_idx = refl;
  symbol_idx = refl;
}
serializer-Tells Issue.tag_key_too_long w d = record {
  code = refl;
  codename = refl;
  byte_idx = refl;
  symbol_idx = refl;
}
serializer-Tells Issue.tag_payload_too_long w d = record {
  code = refl;
  codename = refl;
  byte_idx = refl;
  symbol_idx = refl;
}
serializer-Tells Issue.open_close_tag_mismatch w d = record {
  code = refl;
  codename = refl;
  byte_idx = refl;
  symbol_idx = refl;
}
serializer-Tells Issue.duplicate_nested_tag w d = record {
  code = refl;
  codename = refl;
  byte_idx = refl;
  symbol_idx = refl;
}
serializer-Tells Issue.max_nodes_exceeded w d = record {
  code = refl;
  codename = refl;
  byte_idx = refl;
  symbol_idx = refl;
}
serializer-Tells Issue.max_attributes_exceeded w d = record {
  code = refl;
  codename = refl;
  byte_idx = refl;
  symbol_idx = refl;
}
serializer-Tells Issue.max_parse_depth_exceeded w d = record {
  code = refl;
  codename = refl;
  byte_idx = refl;
  symbol_idx = refl;
}

issue_named-codename_of : (i : Issue) → issue_named (codename_of i) ≡ some i
issue_named-codename_of Issue.unexpected_eol = refl
issue_named-codename_of Issue.unexpected_symbol = refl
issue_named-codename_of Issue.unclosed_tag = refl
issue_named-codename_of Issue.misplaced_closing_tag = refl
issue_named-codename_of Issue.invalid_greed_level = refl
issue_named-codename_of Issue.invalid_rule = refl
issue_named-codename_of Issue.ambiguous_tag_type = refl
issue_named-codename_of Issue.invalid_tag_name_len = refl
issue_named-codename_of Issue.invalid_tag_seq_len = refl
issue_named-codename_of Issue.duplicate_tag_id = refl
issue_named-codename_of Issue.invalid_tag_seq = refl
issue_named-codename_of Issue.rule_inapplicable = refl
issue_named-codename_of Issue.redundant_escape = refl
issue_named-codename_of Issue.unprintable_char = refl
issue_named-codename_of Issue.warnings_truncated = refl
issue_named-codename_of Issue.invalid_warnings_policy = refl
issue_named-codename_of Issue.negative_warnings_cap = refl
issue_named-codename_of Issue.empty_attr_payload = refl
issue_named-codename_of Issue.unclosed_attr_payload = refl
issue_named-codename_of Issue.attr_key_too_long = refl
issue_named-codename_of Issue.attr_payload_too_long = refl
issue_named-codename_of Issue.invalid_attr_symbol = refl
issue_named-codename_of Issue.negative_limit = refl
issue_named-codename_of Issue.tag_key_too_long = refl
issue_named-codename_of Issue.tag_payload_too_long = refl
issue_named-codename_of Issue.open_close_tag_mismatch = refl
issue_named-codename_of Issue.duplicate_nested_tag = refl
issue_named-codename_of Issue.max_nodes_exceeded = refl
issue_named-codename_of Issue.max_attributes_exceeded = refl
issue_named-codename_of Issue.max_parse_depth_exceeded = refl

-- The codename of a serialized warning stands in the table of names beside the issue of the warning and
-- beside no issue before it, whichever serializer made it; the code and the position are the warning's,
-- and the index of a symbol is zero.
pub issue_named-serialize :
    (w : Warning) (d : Dictionary)
    → (issue_named (serialize w d).codename ≡ some w.issue) × Tells w (serialize w d)
unfolding serialize
issue_named-serialize w d =
    let v = serializer-Tells w.issue w d in
    (ap issue_named v.codename ∙ issue_named-codename_of w.issue, v)
