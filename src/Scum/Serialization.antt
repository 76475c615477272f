-- ===== src/Scum/Serialization.antt =====
-- scum/serializable_warning.go: warnings as the API shows them. A description is the list of the
-- pieces that the source puts together.
use shitposter.Prelude.{ℕ, not, List, [], ◌∷◌, ◌++◌, ◌==◌, length, if◌then◌else◌, String}
use shitposter.Scum.Issue.{Issue}
use shitposter.Scum.Dictionary.{Dictionary}
use shitposter.Scum.Warnings.{Warning, Warnings}

-- A text, `string(b)` for a byte, or `strconv.Itoa(n)`.
pub data Piece : Type 0 where
  words : String → Piece
  symbol : ℕ → Piece
  decimal : ℕ → Piece

pub record SerializableWarning : Type 0 where
  pub code : Issue
  pub codename : String
  pub byte_idx : ℕ
  pub symbol_idx : ℕ
  pub description : List Piece

-- `mapIssueToCodename`; the issue of an invalid policy has no entry.
abbrev pub codename_of : Issue → String
codename_of Issue.ambiguous_tag_type = "AMBIGUOUS_TAG_TYPE"
codename_of Issue.attr_key_too_long = "ATTR_KEY_TOO_LONG"
codename_of Issue.attr_payload_too_long = "ATTR_PAYLOAD_TOO_LONG"
codename_of Issue.duplicate_nested_tag = "DUPLICATE_NESTED_TAG"
codename_of Issue.duplicate_tag_id = "DUPLICATE_TAG_ID"
codename_of Issue.empty_attr_payload = "EMPTY_ATTR_PAYLOAD"
codename_of Issue.invalid_attr_symbol = "INVALID_ATTR_SYMBOL"
codename_of Issue.invalid_greed_level = "INVALID_GREED_LEVEL"
codename_of Issue.invalid_tag_seq = "INVALID_TAG_SEQ"
codename_of Issue.invalid_tag_seq_len = "INVALID_TAG_SEQ_LEN"
codename_of Issue.misplaced_closing_tag = "MISPLACED_CLOSING_TAG"
codename_of Issue.negative_limit = "NEGATIVE_LIMIT"
codename_of Issue.negative_warnings_cap = "NEGATIVE_WARNINGS_CAP"
codename_of Issue.open_close_tag_mismatch = "OPEN_CLOSE_TAG_MISMATCH"
codename_of Issue.redundant_escape = "REDUNDANT_ESCAPE"
codename_of Issue.rule_inapplicable = "RULE_INAPPLICABLE"
codename_of Issue.tag_key_too_long = "TAG_KEY_TOO_LONG"
codename_of Issue.tag_payload_too_long = "TAG_PAYLOAD_TOO_LONG"
codename_of Issue.unexpected_eol = "UNEXPECTED_EOL"
codename_of Issue.unexpected_symbol = "UNEXPECTED_SYMBOL"
codename_of Issue.unclosed_attr_payload = "UNCLOSED_ATTR_PAYLOAD"
codename_of Issue.unclosed_tag = "UNCLOSED_TAG"
codename_of Issue.unprintable_char = "UNPRINTABLE_CHAR"
codename_of Issue.warnings_truncated = "WARNINGS_TRUNCATED"
codename_of Issue.invalid_rule = "INVALID_RULE"
codename_of Issue.invalid_tag_name_len = "INVALID_TAG_NAME_LEN"
codename_of Issue.max_nodes_exceeded = "MAX_NODES_EXCEEDED"
codename_of Issue.max_attributes_exceeded = "MAX_ATTRIBUTES_EXCEEDED"
codename_of Issue.max_parse_depth_exceeded = "MAX_PARSE_DEPTH_EXCEEDED"
codename_of Issue.invalid_warnings_policy = ""

abbrev described : Warning → List Piece → SerializableWarning
described w pieces = record {
  code = w.issue;
  codename = codename_of w.issue;
  byte_idx = w.pos;
  symbol_idx = 0;
  description = pieces;
}

abbrev name_of : Dictionary → ℕ → Piece
name_of d i = words (d.tags i).name

abbrev serialize_generic : Warning → Dictionary → SerializableWarning
serialize_generic w d = described w []

abbrev serialize_warnings_truncated : Warning → Dictionary → SerializableWarning
serialize_warnings_truncated w d =
    described w (words "too many warnings; further warnings suppressed" ∷ [])

abbrev serialize_max_nodes_exceeded : Warning → Dictionary → SerializableWarning
serialize_max_nodes_exceeded w d =
    described w (words "maximum AST node count reached; further nodes were omitted." ∷ [])

abbrev serialize_max_attributes_exceeded : Warning → Dictionary → SerializableWarning
serialize_max_attributes_exceeded w d =
    described w (words "maximum AST attribute count reached; further attributes were omitted." ∷ [])

abbrev serialize_max_parse_depth_exceeded : Warning → Dictionary → SerializableWarning
serialize_max_parse_depth_exceeded w d =
    described w
      (words "maximum parse depth reached; further nested tag structure was omitted." ∷ [])

abbrev serialize_unclosed_tag : Warning → Dictionary → SerializableWarning
serialize_unclosed_tag w d = described w (
    words "unclosed tag with name "
    ∷ name_of d w.tag_id
    ∷ words ": expected closing tag with name "
    ∷ name_of d w.close_tag_id
    ∷ words "."
    ∷ [])

abbrev serialize_tag_payload_too_long : Warning → Dictionary → SerializableWarning
serialize_tag_payload_too_long w d = described w (words "tag payload's length limit reached." ∷ [])

abbrev serialize_tag_key_too_long : Warning → Dictionary → SerializableWarning
serialize_tag_key_too_long w d =
    described w (words "tag's opening/closing sequence length limit reached." ∷ [])

abbrev serialize_unexpected_eol : Warning → Dictionary → SerializableWarning
serialize_unexpected_eol w d = described w (
    if not (w.tag_id == 0)
    then words "opening tag with name "
      ∷ name_of d w.tag_id
      ∷ words " was found at the very end of the input and will be treated as plain text."
      ∷ []
    else words "redundant escape symbol found at the very end of the input." ∷ [])

abbrev serialize_unexpected_symbol : Warning → Dictionary → SerializableWarning
serialize_unexpected_symbol w d = described w (
    words "unexpected symbol while processing the tag with name "
    ∷ name_of d w.tag_id
    ∷ words ": expected to get "
    ∷ symbol w.expected
    ∷ words ", but got "
    ∷ symbol w.got
    ∷ words "."
    ∷ [])

abbrev serialize_misplaced_closing_tag : Warning → Dictionary → SerializableWarning
serialize_misplaced_closing_tag w d = described w (
    if not (w.tag_id == 0)
    then if w.expected == 0
      then words "closing tag with name "
        ∷ name_of d w.tag_id
        ∷ words " found at the very start of the input and will be treated as plain text."
        ∷ []
      else words "closing tag with name "
        ∷ name_of d w.tag_id
        ∷ words " expected to have an opening counterpart with name "
        ∷ name_of d (d.tags w.tag_id).open_id
        ∷ words " which is missing in the input."
        ∷ []
    else words "misplaced closing tag." ∷ [])

abbrev serialize_redundant_escape : Warning → Dictionary → SerializableWarning
serialize_redundant_escape w d = described w (
    words "redundant escape symbol found at index "
    ∷ decimal w.pos
    ∷ words ", before non-special "
    ∷ (if not (w.got == 0) then symbol w.got else words "invalid UTF-8 sequence")
    ∷ words "."
    ∷ [])

abbrev serialize_open_close_tag_mismatch : Warning → Dictionary → SerializableWarning
serialize_open_close_tag_mismatch w d = described w (
    words "closing tag with name "
    ∷ name_of d w.tag_id
    ∷ words " cannot match with opening tag with name "
    ∷ name_of d w.expected
    ∷ words "."
    ∷ [])

abbrev serialize_duplicate_nested_tag : Warning → Dictionary → SerializableWarning
serialize_duplicate_nested_tag w d = described w (
    words "tag with name "
    ∷ name_of d w.tag_id
    ∷ words " is a descendant of the tag with the same name."
    ∷ [])

-- The table of serializers; what has no entry is serialized generically.
abbrev pub serializer_of : Issue → Warning → Dictionary → SerializableWarning
serializer_of Issue.unexpected_eol = serialize_unexpected_eol
serializer_of Issue.unexpected_symbol = serialize_unexpected_symbol
serializer_of Issue.unclosed_tag = serialize_unclosed_tag
serializer_of Issue.misplaced_closing_tag = serialize_misplaced_closing_tag
serializer_of Issue.redundant_escape = serialize_redundant_escape
serializer_of Issue.warnings_truncated = serialize_warnings_truncated
serializer_of Issue.tag_key_too_long = serialize_tag_key_too_long
serializer_of Issue.tag_payload_too_long = serialize_tag_payload_too_long
serializer_of Issue.open_close_tag_mismatch = serialize_open_close_tag_mismatch
serializer_of Issue.duplicate_nested_tag = serialize_duplicate_nested_tag
serializer_of Issue.max_nodes_exceeded = serialize_max_nodes_exceeded
serializer_of Issue.max_attributes_exceeded = serialize_max_attributes_exceeded
serializer_of Issue.max_parse_depth_exceeded = serialize_max_parse_depth_exceeded
serializer_of _ = serialize_generic

unfoldable pub serialize : Warning → Dictionary → SerializableWarning
serialize w d = serializer_of w.issue w d

abbrev pub warn_count : Warnings → ℕ
warn_count w = length w.list

abbrev pub append_all :
    List SerializableWarning → List Warning → Dictionary → List SerializableWarning
append_all target [] d = target
append_all target (w ∷ ws) d = append_all (target ++ serialize w d ∷ []) ws d

-- `SerializeAll`
unfoldable pub serialize_all :
    Warnings → List SerializableWarning → Dictionary → List SerializableWarning
serialize_all w target d = append_all target w.list d
