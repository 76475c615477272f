-- ===== src/Sml/Link.antt =====
-- sml/link.go: which attributes of a link are kept. What it takes of Go's packages strings, net/url and
-- unicode/utf8 is a parameter; of the issues of sml/syntax_issue.go the codes are kept.
use shitposter.Prelude.{
  ℕ, zero, suc, ◌-◌, Bool, true, false, ◌||◌, Option, none, some, List, [], ◌∷◌, ◌++◌, ltb, ◌==◌,
  if◌then◌else◌, Bytes, length, get_or, set, bytes_eq, has_prefix, contains_any,
}

pub data Issue : Type 0 where
  internal config unknown_node_type unknown_tag : Issue
  attribute_not_allowed attribute_invalid_payload : Issue

-- strings.ToLower, strings.TrimSpace, utf8.RuneCountInString, and url.Parse, of which the scheme is read.
pub record Strings : Type 0 where
  pub to_lower : Bytes → Bytes
  pub trim_space : Bytes → Bytes
  pub rune_count : Bytes → ℕ
  pub parse : Bytes → Option Bytes

pub record SerializableAttribute : Type 0 where
  pub name : Bytes
  pub payload : Bytes
  pub is_flag : Bool

-- What a check finds: something, or the issue that it adds.
pub data Checked (A : Type 0) : Type 0 where
  accepted : A → Checked A
  refused : Issue → Checked A

infixl 5 ◌>>=◌
abbrev pub ◌>>=◌ : {A B : Type 0} → Checked A → (A → Checked B) → Checked B
accepted a >>= f = f a
refused e >>= f = refused e

abbrev pub max_title_length : ℕ
max_title_length = 65

-- "href", "target", "title", "rel", "_blank", "_self", "noopener noreferrer"
abbrev pub href : Bytes
href = 104 ∷ 114 ∷ 101 ∷ 102 ∷ []

abbrev pub target : Bytes
target = 116 ∷ 97 ∷ 114 ∷ 103 ∷ 101 ∷ 116 ∷ []

abbrev pub title : Bytes
title = 116 ∷ 105 ∷ 116 ∷ 108 ∷ 101 ∷ []

abbrev pub rel : Bytes
rel = 114 ∷ 101 ∷ 108 ∷ []

abbrev pub blank : Bytes
blank = 95 ∷ 98 ∷ 108 ∷ 97 ∷ 110 ∷ 107 ∷ []

abbrev pub self : Bytes
self = 95 ∷ 115 ∷ 101 ∷ 108 ∷ 102 ∷ []

abbrev pub no_opener : Bytes
no_opener =
    110 ∷ 111 ∷ 111 ∷ 112 ∷ 101 ∷ 110 ∷ 101 ∷ 114 ∷ 32 ∷ 110 ∷ 111 ∷ 114 ∷ 101 ∷ 102 ∷ 101 ∷ 114
    ∷ 114 ∷ 101 ∷ 114 ∷ []

-- "http", "https", "mailto"
abbrev pub is_allowed_scheme : Bytes → Bool
is_allowed_scheme s =
    bytes_eq s (104 ∷ 116 ∷ 116 ∷ 112 ∷ [])
    || bytes_eq s (104 ∷ 116 ∷ 116 ∷ 112 ∷ 115 ∷ [])
    || bytes_eq s (109 ∷ 97 ∷ 105 ∷ 108 ∷ 116 ∷ 111 ∷ [])

-- `basicLinkCheck`
abbrev pub basic_link_check : Strings → SerializableAttribute → Checked Bytes
basic_link_check s a =
    if a.is_flag
    then refused attribute_invalid_payload
    else if bytes_eq (s.trim_space a.payload) []
    then refused attribute_invalid_payload
    else if contains_any (s.trim_space a.payload) (0 ∷ 13 ∷ 10 ∷ 9 ∷ [])
    then refused attribute_invalid_payload
    else accepted (s.trim_space a.payload)

abbrev pub check_scheme : Strings → Bytes → Bytes → Checked Unit
check_scheme s payload scheme =
    if bytes_eq (s.to_lower scheme) []
    then if has_prefix payload (47 ∷ 47 ∷ [])
      then refused attribute_invalid_payload
      else accepted tt
    else if is_allowed_scheme (s.to_lower scheme)
    then accepted tt
    else refused attribute_invalid_payload

abbrev pub check_parsed : Strings → Bytes → Option Bytes → Checked Unit
check_parsed s payload none = refused attribute_invalid_payload
check_parsed s payload (some scheme) = check_scheme s payload scheme

-- `validateHref`
abbrev pub validate_href : Strings → SerializableAttribute → Checked Unit
validate_href s a = basic_link_check s a >>= λ payload. check_parsed s payload (s.parse payload)

abbrev pub rel_attribute : SerializableAttribute
rel_attribute = record { name = rel; payload = no_opener; is_flag = false }

-- The attribute that goes with a target, if there is one.
abbrev pub check_target : Bytes → Checked (Option SerializableAttribute)
check_target payload =
    if bytes_eq payload blank
    then accepted (some rel_attribute)
    else if bytes_eq payload self
    then accepted none
    else refused attribute_invalid_payload

-- `validateTarget`
abbrev pub validate_target :
    Strings → SerializableAttribute → Checked (Option SerializableAttribute)
validate_target s a = basic_link_check s a >>= check_target

abbrev pub check_title : Strings → Bytes → Checked Unit
check_title s payload =
    if ltb max_title_length (s.rune_count payload)
    then refused attribute_invalid_payload
    else accepted tt

-- `validateTitle`
abbrev pub validate_title : Strings → SerializableAttribute → Checked Unit
validate_title s a = basic_link_check s a >>= check_title s

-- `attrName`
abbrev pub attr_name : Strings → SerializableAttribute → Bytes
attr_name s a = if a.is_flag then s.to_lower a.payload else s.to_lower a.name

-- The attributes as the loop finds them, and the allowed ones, which are written over their front; a
-- write beyond them goes elsewhere.
pub record LinkState : Type 0 where
  pub attributes : List SerializableAttribute
  pub allowed : List SerializableAttribute
  pub issues : List Issue
  pub has_href : Bool
  pub has_target : Bool
  pub has_title : Bool
  pub count : ℕ

abbrev pub no_attribute : SerializableAttribute
no_attribute = record { name = []; payload = []; is_flag = false }

abbrev pub allow : SerializableAttribute → LinkState → LinkState
allow a st = record st {
  attributes = set st.attributes (length st.allowed) a;
  allowed = st.allowed ++ a ∷ [];
}

abbrev pub with_issue : Issue → LinkState → LinkState
with_issue e st = record st { issues = st.issues ++ e ∷ [] }

abbrev pub keep_href : Checked Unit → SerializableAttribute → LinkState → LinkState
keep_href (accepted _) a st = record (allow a st) { has_href = true; count = st.count - 1 }
keep_href (refused e) a st = with_issue e st

abbrev pub allow_also : Option SerializableAttribute → LinkState → LinkState
allow_also none st = st
allow_also (some a) st = allow a st

abbrev pub keep_target :
    Checked (Option SerializableAttribute) → SerializableAttribute → LinkState → LinkState
keep_target (accepted o) a st = record (allow_also o (allow a st)) {
  has_target = true;
  count = st.count - 1;
}
keep_target (refused e) a st = with_issue e st

abbrev pub keep_title : Checked Unit → SerializableAttribute → LinkState → LinkState
keep_title (accepted _) a st = record (allow a st) { has_title = true; count = st.count - 1 }
keep_title (refused e) a st = with_issue e st

-- One round, at the attribute that stands there now.
abbrev pub link_round : Strings → SerializableAttribute → LinkState → LinkState
link_round s a st =
    if bytes_eq (attr_name s a) href
    then if st.has_href then st else keep_href (validate_href s a) a st
    else if bytes_eq (attr_name s a) target
    then if st.has_target then st else keep_target (validate_target s a) a st
    else if bytes_eq (attr_name s a) title
    then if st.has_title then st else keep_title (validate_title s a) a st
    else st

abbrev pub link_rounds : Strings → ℕ → ℕ → LinkState → LinkState
link_rounds s zero i st = st
link_rounds s (suc n) i st =
    let rest = link_rounds s n (suc i) (link_round s (get_or st.attributes i no_attribute) st) in
    if st.count == 0 then st else rest

abbrev pub link_start : List SerializableAttribute → List Issue → LinkState
link_start attributes issues = record {
  attributes = attributes;
  allowed = [];
  issues = issues;
  has_href = false;
  has_target = false;
  has_title = false;
  count = 3;
}

-- The loop of `normalizeLink`
unfoldable pub link_attributes : Strings → List SerializableAttribute → List Issue → LinkState
link_attributes s attributes issues =
    link_rounds s (length attributes) 0 (link_start attributes issues)
