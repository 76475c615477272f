-- ===== src/Scum/Dictionary/Registered.antt =====
-- The dictionaries that the package's own functions build.
use shitposter.Prelude.{
  ◌≢◌, ℕ, zero, suc, ◌-◌, ◌≤◌, ◌≡◌, refl, sym, ap, subst, inl, inr, false, not, ◌||◌, ◌&&◌, some,
  [], ◌∷◌, ◌++◌, arith, ltb, ◌==◌, Bytes, String, length, length-append, replicate, get_or,
  Bool-cases,
}
use shitposter.Scum.Issue.{ok, >>=-elim, guard-elim, ok-injective}
use shitposter.Scum.Tag.{
  Tag, TagSequence, id, seq_id, copy_printable, is_ascii_printable, new_tag_sequence,
  check_tag_name, check_tag_consistency,
}
use shitposter.Scum.Dictionary.{
  validate, Dictionary, Action, tag_action, act_attribute, act_escape, is_some, update,
  new_dictionary, GivenLimits, add_tag, set_attribute_signature, set_escape_trigger,
  add_universal_tag,
}

-- A sequence of one to four bytes, in an array of four.
pub record IsSequence (s : TagSequence) : Type 0 where
  pub full : length s.bytes ≡ 4
  pub not_empty : 1 ≤ s.len
  pub fits : s.len ≤ 4

pub record IsRegistered (d : Dictionary) : Type 0 where
  -- the table holds sequences, or nothing
  pub tag_or_none : (b : ℕ) → (d.tags b).seq.len ≢ 0 → IsSequence (d.tags b).seq
  -- the action at a byte closes over the tag at that byte, whose first byte it is
  pub action_of :
      (b : ℕ) (t : Tag)
      → d.actions b ≡ some (tag_action t)
      → (d.tags b ≡ t) × (id t ≡ b) × (t.seq.len ≢ 0)

copy_printable-length :
    (src : Bytes) {r : Bytes}
    → copy_printable src ≡ ok r
    → (length r ≡ length src) × (get_or r 0 0 ≡ get_or src 0 0)
unfolding copy_printable
copy_printable-length [] e = ground arith
copy_printable-length (b ∷ bs) e =
    >>=-elim (copy_printable bs) (λ r. ok (b ∷ r)) (guard-elim (not (is_ascii_printable b)) _ e).1
      λ r copied later. ground (arith, copy_printable-length bs copied, later)

pub length-replicate : (n : ℕ) → length (replicate {A = ℕ} n 0) ≡ n
length-replicate zero = refl
length-replicate (suc n) = ap suc (length-replicate n)

padded :
    (r : Bytes) {m : ℕ} {s : TagSequence}
    → length r ≡ m
    → 1 ≤ m
    → ltb 4 m ≡ false
    → ok (record { bytes = r ++ replicate (4 - m) 0; len = m }) ≡ ok s
    → IsSequence s × (s.len ≡ m)
padded r {m} e pos small made =
    ground (arith, length-append r (replicate (4 - m) 0), length-replicate (4 - m), made)

pub new_tag_sequence-IsSequence :
    (src : Bytes) {s : TagSequence}
    → new_tag_sequence src ≡ ok s
    → IsSequence s × (s.len ≡ length src)
unfolding new_tag_sequence
new_tag_sequence-IsSequence [] e = absurd (cc e)
new_tag_sequence-IsSequence (b ∷ bs) e =
    let long = guard-elim (ltb 4 (suc (length bs))) _ e in
    let some_byte = guard-elim (suc (length bs) == 0) _ long.1 in
    >>=-elim (copy_printable (b ∷ bs)) _ some_byte.1 λ r copied later.
      padded r (copy_printable-length (b ∷ bs) copied).0 (omega arith) long.0 later

abbrev pub built : String → ℕ → ℕ → ℕ → ℕ → TagSequence → Tag
built name greed rule open_id close_id ts = record {
  name = name;
  greed = greed;
  seq = ts;
  rule = rule;
  open_id = open_id;
  close_id = close_id;
}

abbrev pub with_tag : Dictionary → Tag → Dictionary
with_tag d t = record d {
  tags = update d.tags (id t) t;
  actions = update d.actions (id t) (some (tag_action t));
}

pub add_tag-elim {κ} :
    {P : Type κ} (d : Dictionary) (name : String) (seq : Bytes) (greed rule open_id close_id : ℕ)
    {d' : Dictionary}
    → add_tag d name seq greed rule open_id close_id ≡ ok d'
    → ((ts : TagSequence)
        → IsSequence ts
        → with_tag d (built name greed rule open_id close_id ts) ≡ d'
        → P)
    → P
unfolding add_tag
add_tag-elim d name seq greed rule open_id close_id e k =
    >>=-elim (check_tag_name name) _ e λ _ _ named.
      >>=-elim (new_tag_sequence seq) _ named λ ts made free.
        >>=-elim (check_tag_consistency _ _ rule greed) _
          (guard-elim (not (id (d.tags (seq_id ts)) == 0)) _ free).1
          λ _ _ later. k ts (new_tag_sequence-IsSequence seq made).0 (ok-injective later)

with_tag-IsRegistered :
    (d : Dictionary) (t : Tag) → IsRegistered d → IsSequence t.seq → IsRegistered (with_tag d t)
with_tag-IsRegistered d t r s = record {
  tag_or_none = λ b ne. elim (Bool-cases (b == id t)) [
    | inl same ↦ rw same s
    | inr other ↦ rw other (r.tag_or_none b (rw other at ne))
  ];
  action_of = λ b t' e. elim (Bool-cases (b == id t)) [
    | inl same ↦ ground (arith, s.not_empty)
    | inr other ↦ rw other (r.action_of b t' (rw other at e))
  ];
}

add_tag-IsRegistered :
    (d : Dictionary) (name : String) (seq : Bytes) (greed rule open_id close_id : ℕ)
    {d' : Dictionary}
    → add_tag d name seq greed rule open_id close_id ≡ ok d'
    → IsRegistered d
    → IsRegistered d'
add_tag-IsRegistered d name seq greed rule open_id close_id e r =
    add_tag-elim d name seq greed rule open_id close_id e λ ts s made.
      rw made at (with_tag-IsRegistered d (built name greed rule open_id close_id ts) r s)

-- An attribute or escape action at a byte leaves the tags' actions at the others.
with_action-IsRegistered :
    (d d' : Dictionary) (b : ℕ) (act : Action)
    → ((t : Tag) → act ≢ tag_action t)
    → d'.tags ≡ d.tags
    → d'.actions ≡ update d.actions b (some act)
    → IsRegistered d
    → IsRegistered d'
with_action-IsRegistered d d' b act no_tag_act same acts r = record {
  tag_or_none = rw same r.tag_or_none;
  action_of =
      rw (same, acts)
        λ j t e. elim (Bool-cases (j == b)) [
          | inl here ↦ absurd (no_tag_act t (cc (rw here at e)))
          | inr other ↦ r.action_of j t (rw other at e)
        ];
}

-- The dictionaries that a program can build: a new one, and what each registration makes of one.
pub data Built : Dictionary → Type 0 where
  fresh : {d : Dictionary} (l : GivenLimits) → new_dictionary l ≡ ok d → Built d
  tagged :
      {d d' : Dictionary} (name : String) (seq : Bytes) (greed rule open_id close_id : ℕ)
      → Built d
      → add_tag d name seq greed rule open_id close_id ≡ ok d'
      → Built d'
  universal :
      {d d' : Dictionary} (name : String) (seq : Bytes) (greed rule : ℕ)
      → Built d
      → add_universal_tag d name seq greed rule ≡ ok d'
      → Built d'
  attributed :
      {d d' : Dictionary} (trigger payload_start payload_end : ℕ)
      → Built d
      → set_attribute_signature d trigger payload_start payload_end ≡ ok d'
      → Built d'
  escaped : {d d' : Dictionary} (c : ℕ) → Built d → set_escape_trigger d c ≡ ok d' → Built d'

new_dictionary-IsRegistered :
    (l : GivenLimits) {d : Dictionary} → new_dictionary l ≡ ok d → IsRegistered d
unfolding new_dictionary
new_dictionary-IsRegistered l e = >>=-elim (validate l) _ e λ _ _ made.
    subst IsRegistered (ok-injective made)
      (record { tag_or_none = λ b ne. absurd (ne refl); action_of = λ b t e. absurd (cc e) })

set_attribute_signature-IsRegistered :
    (d : Dictionary) (trigger payload_start payload_end : ℕ) {d' : Dictionary}
    → set_attribute_signature d trigger payload_start payload_end ≡ ok d'
    → IsRegistered d
    → IsRegistered d'
unfolding set_attribute_signature
set_attribute_signature-IsRegistered d trigger payload_start payload_end {d'} e r =
    let free = guard-elim (is_some (d.actions trigger)) _ e in
    let apart = guard-elim (trigger == payload_start || trigger == payload_end) _ free.1 in
    let printable =
      guard-elim
        (not (
          is_ascii_printable trigger
          && (is_ascii_printable payload_start && is_ascii_printable payload_end)))
        _ apart.1 in
    with_action-IsRegistered d d' trigger act_attribute (λ t. cc)
      (ap (λ (x : Dictionary). x.tags) (sym (ok-injective printable.1)))
      (ap (λ (x : Dictionary). x.actions) (sym (ok-injective printable.1))) r

set_escape_trigger-IsRegistered :
    (d : Dictionary) (c : ℕ) {d' : Dictionary}
    → set_escape_trigger d c ≡ ok d'
    → IsRegistered d
    → IsRegistered d'
unfolding set_escape_trigger
set_escape_trigger-IsRegistered d c {d'} e r =
    let printable = guard-elim (not (is_ascii_printable c)) _ e in
    let free = guard-elim (is_some (d.actions c)) _ printable.1 in
    with_action-IsRegistered d d' c act_escape (λ t. cc)
      (ap (λ (x : Dictionary). x.tags) (sym (ok-injective free.1)))
      (ap (λ (x : Dictionary). x.actions) (sym (ok-injective free.1))) r

universal-IsRegistered :
    (d : Dictionary) (name : String) (seq : Bytes) (greed rule : ℕ) {d' : Dictionary}
    → add_universal_tag d name seq greed rule ≡ ok d'
    → IsRegistered d
    → IsRegistered d'
unfolding add_universal_tag
universal-IsRegistered d name [] greed rule e r = absurd (cc e)
universal-IsRegistered d name (b ∷ bs) greed rule e r =
    add_tag-IsRegistered d name (b ∷ bs) greed rule b b e r

-- In every dictionary that the registrations can build, each entry of the tag table is empty or
-- holds a sequence of one to four bytes, and the tag action at a byte closes over the tag that the
-- table holds there, whose sequence starts with that byte.
pub Built-IsRegistered : {d : Dictionary} → Built d → IsRegistered d
Built-IsRegistered (fresh l e) = new_dictionary-IsRegistered l e
Built-IsRegistered (tagged {d} name seq greed rule open_id close_id b e) =
    add_tag-IsRegistered d name seq greed rule open_id close_id e (Built-IsRegistered b)
Built-IsRegistered (universal {d} name seq greed rule b e) =
    universal-IsRegistered d name seq greed rule e (Built-IsRegistered b)
Built-IsRegistered (attributed {d} trigger payload_start payload_end b e) =
    set_attribute_signature-IsRegistered d trigger payload_start payload_end e
      (Built-IsRegistered b)
Built-IsRegistered (escaped {d} c b e) =
    set_escape_trigger-IsRegistered d c e (Built-IsRegistered b)
