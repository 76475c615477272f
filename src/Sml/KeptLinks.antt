-- ===== src/Sml/KeptLinks.antt =====
-- The attributes that the loop of sml/link.go keeps.
use shitposter.Prelude.{
  ℕ, zero, suc, ◌+◌, ◌≤◌, ◌≡◌, refl, ap, arith, Bool, true, false, Option, none, some, List, [],
  ◌∷◌, ◌++◌, ◌==◌, if◌then◌else◌, length, get_or, bytes_eq, All, All-append, ◌⊎◌, inl, inr,
  length-append,
}
use shitposter.Sml.Link.{
  Issue, Strings, SerializableAttribute, Checked, accepted, refused, href, target, title,
  validate_href, rel_attribute, validate_target, validate_title, attr_name, LinkState, no_attribute,
  keep_href, keep_target, keep_title, link_round, link_rounds, link_start, link_attributes,
}
use shitposter.Sml.SafeLinks.{IsSafe, href-IsSafe, target-IsSafe, title-IsSafe}

abbrev bit : Bool → ℕ
bit true = 1
bit false = 0

-- What holds of a state of the loop: what it allows is safe, and it counts down as it allows.
record IsKept (s : Strings) (st : LinkState) : Type 0 where
  safe : All (IsSafe s) st.allowed
  few : length st.allowed + st.count ≤ 3 + bit st.has_target

added :
    (s : Strings) (st : LinkState) (a : SerializableAttribute)
    → All (IsSafe s) st.allowed
    → IsSafe s a
    → All (IsSafe s) (st.allowed ++ a ∷ [])
added s st a h p = All-append (IsSafe s) st.allowed (a ∷ []) h (p, tt)

link_round-IsKept :
    (s : Strings) (a : SerializableAttribute) (st : LinkState)
    → (st.count == 0) ≡ false
    → IsKept s st
    → IsKept s (link_round s a st)
link_round-IsKept s a st more v =
    by_name (bytes_eq (attr_name s a) href) (bytes_eq (attr_name s a) target)
      (bytes_eq (attr_name s a) title) refl refl refl
  where
    some_left : 1 ≤ st.count
    some_left = ground (arith, more)

    by_href :
        (c : Checked Unit)
        → validate_href s a ≡ c
        → bytes_eq (attr_name s a) href ≡ true
        → IsKept s (keep_href c a st)
    by_href (accepted _) e named = record {
      safe = added s st a v.safe (href-IsSafe s a named e);
      few = omega (arith, v.few, length-append st.allowed (a ∷ []), some_left);
    }
    by_href (refused x) e named = record { safe = v.safe; few = v.few }

    by_target :
        (c : Checked (Option SerializableAttribute))
        → validate_target s a ≡ c
        → bytes_eq (attr_name s a) target ≡ true
        → st.has_target ≡ false
        → IsKept s (keep_target c a st)
    by_target (accepted none) e named once = record {
      safe = added s st a v.safe (target-IsSafe s a none named e).0;
      few = omega (arith, v.few, length-append st.allowed (a ∷ []), some_left, ap bit once);
    }
    by_target (accepted (some r)) e named once =
        let (safe, which) = target-IsSafe s a (some r) named e in
        record {
          safe =
              All-append (IsSafe s) (st.allowed ++ a ∷ []) (r ∷ []) (added s st a v.safe safe)
                (is_rel which, tt);
          few = omega (
            arith,
            v.few,
            length-append (st.allowed ++ a ∷ []) (r ∷ []),
            length-append st.allowed (a ∷ []),
            some_left,
            ap bit once,
          );
        }
      where
        is_rel : (some r ≡ none) ⊎ (some r ≡ some rel_attribute) → IsSafe s r
        is_rel (inl h) = absurd (cc h)
        is_rel (inr h) = inr (inr (inr (cc h)))
    by_target (refused x) e named once = record { safe = v.safe; few = v.few }

    by_title :
        (c : Checked Unit)
        → validate_title s a ≡ c
        → bytes_eq (attr_name s a) title ≡ true
        → IsKept s (keep_title c a st)
    by_title (accepted _) e named = record {
      safe = added s st a v.safe (title-IsSafe s a named e);
      few = omega (arith, v.few, length-append st.allowed (a ∷ []), some_left);
    }
    by_title (refused x) e named = record { safe = v.safe; few = v.few }

    by_once :
        (b : Bool) (next : LinkState)
        → (b ≡ false → IsKept s next)
        → IsKept s (if b then st else next)
    by_once true next k = v
    by_once false next k = k refl

    by_name :
        (b c d : Bool)
        → bytes_eq (attr_name s a) href ≡ b
        → bytes_eq (attr_name s a) target ≡ c
        → bytes_eq (attr_name s a) title ≡ d
        → IsKept s (
            if b
            then (if st.has_href then st else keep_href (validate_href s a) a st)
            else if c
            then (if st.has_target then st else keep_target (validate_target s a) a st)
            else if d
            then (if st.has_title then st else keep_title (validate_title s a) a st)
            else st)
    by_name true c d p q r = by_once st.has_href _ (λ _. by_href (validate_href s a) refl p)
    by_name false true d p q r =
        by_once st.has_target _ (λ once. by_target (validate_target s a) refl q once)
    by_name false false true p q r =
        by_once st.has_title _ (λ _. by_title (validate_title s a) refl r)
    by_name false false false p q r = v

link_rounds-IsKept :
    (s : Strings) (n i : ℕ) (st : LinkState) → IsKept s st → IsKept s (link_rounds s n i st)
link_rounds-IsKept s zero i st v = v
link_rounds-IsKept s (suc n) i st v = by_test (st.count == 0) refl (λ more.
    link_rounds-IsKept s n (suc i) (link_round s (get_or st.attributes i no_attribute) st)
      (link_round-IsKept s (get_or st.attributes i no_attribute) st more v))
  where
    by_test :
        (b : Bool)
        → (st.count == 0) ≡ b
        → ((st.count == 0) ≡ false
            → IsKept s
                (link_rounds s n (suc i) (link_round s (get_or st.attributes i no_attribute) st)))
        → IsKept s (
            if b
            then st
            else link_rounds s n (suc i) (link_round s (get_or st.attributes i no_attribute) st))
    by_test true e k = v
    by_test false e k = k e

-- Of the attributes of a link at most four are kept. With the white space around its value trimmed, each
-- is a reference whose scheme is http, https or mailto, or that has no scheme and does not start with
-- "//"; or a target that is "_blank" or "_self"; or a title of at most 65 runes; and the trimmed value is
-- not empty and holds no NUL, CR, LF or TAB. Or it is the rel attribute that goes with a target. Of the
-- white space itself, with which the value is kept, nothing is said.
pub link_attributes-IsSafe :
    (s : Strings) (attributes : List SerializableAttribute) (issues : List Issue)
    → All (IsSafe s) (link_attributes s attributes issues).allowed
      × (length (link_attributes s attributes issues).allowed ≤ 4)
unfolding link_attributes
link_attributes-IsSafe s attributes issues =
    let v =
      link_rounds-IsKept s (length attributes) 0 (link_start attributes issues)
        (record { safe = tt; few = omega arith }) in
    (v.safe, omega (arith, v.few, bit_le (link_attributes s attributes issues).has_target))
  where
    bit_le : (b : Bool) → bit b ≤ 1
    bit_le true = omega arith
    bit_le false = omega arith
