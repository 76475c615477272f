-- ===== src/Sml/SafeLinks.antt =====
-- The attributes that sml/link.go lets through.
use shitposter.Prelude.{
  ◌≤◌, ◌≡◌, refl, arith, Bool, true, false, Option, none, some, [], ◌∷◌, ltb, if◌then◌else◌, Bytes,
  bytes_eq, has_prefix, contains_any, ◌⊎◌, inl, inr,
}
use shitposter.Sml.Link.{
  Issue, Strings, SerializableAttribute, Checked, accepted, refused, max_title_length, href, target,
  title, blank, self, is_allowed_scheme, basic_link_check, check_parsed, validate_href,
  rel_attribute, check_target, validate_target, check_title, validate_title, attr_name, ◌>>=◌,
}

-- A value that, once trimmed, is not empty and holds no NUL, CR, LF or TAB.
pub record IsPlain (s : Strings) (a : SerializableAttribute) : Type 0 where
  pub valued : a.is_flag ≡ false
  pub filled : bytes_eq (s.trim_space a.payload) [] ≡ false
  pub printable : contains_any (s.trim_space a.payload) (0 ∷ 13 ∷ 10 ∷ 9 ∷ []) ≡ false

-- A reference whose scheme is http, https or mailto, or that has none and does not start with "//".
pub record IsReference (s : Strings) (a : SerializableAttribute) : Type 0 where
  pub named : bytes_eq (attr_name s a) href ≡ true
  pub plain : IsPlain s a
  pub scheme : Bytes
  pub parsed : s.parse (s.trim_space a.payload) ≡ some scheme
  pub safe :
      ((bytes_eq (s.to_lower scheme) [] ≡ true)
        × (has_prefix (s.trim_space a.payload) (47 ∷ 47 ∷ []) ≡ false))
      ⊎ (is_allowed_scheme (s.to_lower scheme) ≡ true)

pub record IsTarget (s : Strings) (a : SerializableAttribute) : Type 0 where
  pub named : bytes_eq (attr_name s a) target ≡ true
  pub plain : IsPlain s a
  pub known :
      (bytes_eq (s.trim_space a.payload) blank ≡ true)
      ⊎ (bytes_eq (s.trim_space a.payload) self ≡ true)

pub record IsTitle (s : Strings) (a : SerializableAttribute) : Type 0 where
  pub named : bytes_eq (attr_name s a) title ≡ true
  pub plain : IsPlain s a
  pub short : s.rune_count (s.trim_space a.payload) ≤ max_title_length

abbrev pub IsSafe : Strings → SerializableAttribute → Type 0
IsSafe s a = IsReference s a ⊎ (IsTarget s a ⊎ (IsTitle s a ⊎ (a ≡ rel_attribute)))

-- What follows from an accepted check.
check-elim :
    {A : Type 0} (P : A → Type 0) (s : Strings) (a : SerializableAttribute) (f : Bytes → Checked A)
    {x : A}
    → (basic_link_check s a >>= f) ≡ accepted x
    → (IsPlain s a → f (s.trim_space a.payload) ≡ accepted x → P x)
    → P x
check-elim {A = A} P s a f {x} e k =
    by_tests a.is_flag (bytes_eq (s.trim_space a.payload) [])
      (contains_any (s.trim_space a.payload) (0 ∷ 13 ∷ 10 ∷ 9 ∷ [])) refl refl refl e
  where
    by_tests :
        (b c d : Bool)
        → a.is_flag ≡ b
        → bytes_eq (s.trim_space a.payload) [] ≡ c
        → contains_any (s.trim_space a.payload) (0 ∷ 13 ∷ 10 ∷ 9 ∷ []) ≡ d
        → ((if b
              then refused Issue.attribute_invalid_payload
              else if c
              then refused Issue.attribute_invalid_payload
              else if d
              then refused Issue.attribute_invalid_payload
              else accepted (s.trim_space a.payload))
            >>= f)
          ≡ accepted x
        → P x
    by_tests true c d p q r h = absurd (cc h)
    by_tests false true d p q r h = absurd (cc h)
    by_tests false false true p q r h = absurd (cc h)
    by_tests false false false p q r h = k (record { valued = p; filled = q; printable = r }) h

parsed-elim :
    (s : Strings) (payload : Bytes) (o : Option Bytes)
    → check_parsed s payload o ≡ accepted tt
    → (scheme : Bytes) × (o ≡ some scheme)
      × (((bytes_eq (s.to_lower scheme) [] ≡ true) × (has_prefix payload (47 ∷ 47 ∷ []) ≡ false))
          ⊎ (is_allowed_scheme (s.to_lower scheme) ≡ true))
parsed-elim s payload none e = absurd (cc e)
parsed-elim s payload (some scheme) e = (
  scheme,
  refl,
  by_tests (bytes_eq (s.to_lower scheme) []) (has_prefix payload (47 ∷ 47 ∷ []))
      (is_allowed_scheme (s.to_lower scheme)) e,
)
  where
    by_tests :
        (b c d : Bool)
        → (if b
            then (if c then refused Issue.attribute_invalid_payload else accepted tt)
            else if d
            then accepted tt
            else refused Issue.attribute_invalid_payload)
          ≡ accepted tt
        → ((b ≡ true) × (c ≡ false)) ⊎ (d ≡ true)
    by_tests true true d h = absurd (cc h)
    by_tests true false d h = inl (refl, refl)
    by_tests false c true h = inr refl
    by_tests false c false h = absurd (cc h)

pub href-IsSafe :
    (s : Strings) (a : SerializableAttribute)
    → bytes_eq (attr_name s a) href ≡ true
    → validate_href s a ≡ accepted tt
    → IsSafe s a
href-IsSafe s a named e =
    check-elim (λ _. IsSafe s a) s a (λ payload. check_parsed s payload (s.parse payload)) e
      (λ plain h.
        let (scheme, parsed, safe) = parsed-elim s (s.trim_space a.payload) _ h in
        inl
          (record { named = named; plain = plain; scheme = scheme; parsed = parsed; safe = safe }))

-- A target that is accepted, and the attribute that goes with it.
pub target-IsSafe :
    (s : Strings) (a : SerializableAttribute) (o : Option SerializableAttribute)
    → bytes_eq (attr_name s a) target ≡ true
    → validate_target s a ≡ accepted o
    → IsSafe s a × ((o ≡ none) ⊎ (o ≡ some rel_attribute))
target-IsSafe s a o named e =
    check-elim (λ x. IsSafe s a × ((x ≡ none) ⊎ (x ≡ some rel_attribute))) s a check_target e
      (λ plain h.
        let (known, which) =
          by_tests (bytes_eq (s.trim_space a.payload) blank)
            (bytes_eq (s.trim_space a.payload) self) h in
        (inr (inl (record { named = named; plain = plain; known = known })), which))
  where
    by_tests :
        (b c : Bool)
        → (if b
            then accepted (some rel_attribute)
            else if c
            then accepted none
            else refused Issue.attribute_invalid_payload)
          ≡ accepted o
        → ((b ≡ true) ⊎ (c ≡ true)) × ((o ≡ none) ⊎ (o ≡ some rel_attribute))
    by_tests true c h = (inl refl, inr (cc h))
    by_tests false true h = (inr refl, inl (cc h))
    by_tests false false h = absurd (cc h)

pub title-IsSafe :
    (s : Strings) (a : SerializableAttribute)
    → bytes_eq (attr_name s a) title ≡ true
    → validate_title s a ≡ accepted tt
    → IsSafe s a
title-IsSafe s a named e =
    check-elim (λ _. IsSafe s a) s a (check_title s) e
      (λ plain h. inr (
        inr (
          inl (record {
            named = named;
            plain = plain;
            short = by_test (ltb max_title_length (s.rune_count (s.trim_space a.payload))) refl h;
          }))))
  where
    by_test :
        (b : Bool)
        → ltb max_title_length (s.rune_count (s.trim_space a.payload)) ≡ b
        → (if b then refused Issue.attribute_invalid_payload else accepted tt) ≡ accepted tt
        → s.rune_count (s.trim_space a.payload) ≤ max_title_length
    by_test true p h = absurd (cc h)
    by_test false p h = ground (arith, p)
