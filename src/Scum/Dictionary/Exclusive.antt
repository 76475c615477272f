-- ===== src/Scum/Dictionary/Exclusive.antt =====
-- What a registration changes, and what it refuses (scum/add_tag.go).
use shitposter.Prelude.{
  ℕ, suc, ◌≤◌, ◌≡◌, ◌≢◌, sym, ap, subst, ◌∙◌, not, ◌&&◌, some, [], ◌∷◌, ◌++◌, arith, ltb, leb, ◌==◌,
  Bytes, String, length, replicate, ◌-◌, All,
}
use shitposter.Scum.Issue.{ok, >>=-elim, guard-elim, ok-injective}
use shitposter.Scum.Tag.{
  TagSequence, id, seq_id, copy_printable, is_ascii_printable, new_tag_sequence, check_tag_name,
  check_tag_consistency,
}
use shitposter.Scum.Dictionary.Registered.{built, with_tag}
use shitposter.Scum.Dictionary.{Dictionary, tag_action, add_tag}

copied-printable :
    (bs : Bytes) {r : Bytes}
    → copy_printable bs ≡ ok r
    → (r ≡ bs) × All (λ b. (32 ≤ b) × (b ≤ 126)) bs
unfolding copy_printable is_ascii_printable
copied-printable [] e = (sym (ok-injective e), tt)
copied-printable (b ∷ bs) e =
    let free = guard-elim (not (leb 32 b && leb b 126)) _ e in
    >>=-elim (copy_printable bs) (λ r. ok (b ∷ r)) free.1
      λ r copied later.
        let (same, printable) = copied-printable bs copied in
        (
          sym (ok-injective later) ∙ ap (λ xs. b ∷ xs) same,
          ((ground (arith, free.0), ground (arith, free.0)), printable),
        )

-- The bytes of a sequence, filled up to four.
abbrev pub sequence_of : Bytes → TagSequence
sequence_of bs = record { bytes = bs ++ replicate (4 - length bs) 0; len = length bs }

sequence-printable :
    (b : ℕ) (bs : Bytes) {s : TagSequence}
    → new_tag_sequence (b ∷ bs) ≡ ok s
    → (s ≡ sequence_of (b ∷ bs)) × All (λ c. (32 ≤ c) × (c ≤ 126)) (b ∷ bs)
unfolding new_tag_sequence
sequence-printable b bs e =
    let long = guard-elim (ltb 4 (suc (length bs))) _ e in
    let some_byte = guard-elim (suc (length bs) == 0) _ long.1 in
    >>=-elim (copy_printable (b ∷ bs)) _ some_byte.1 λ r copied later.
      let (same, printable) = copied-printable (b ∷ bs) copied in
      (
        sym (ok-injective later)
            ∙ ap
                (λ xs. record {
                  bytes = xs ++ replicate (4 - suc (length bs)) 0;
                  len = suc (length bs);
                })
                same,
        printable,
      )

-- The tag of a registration stands, with every field as given, at the first byte of its sequence.
pub record Registers (d d' : Dictionary) (name : String) (b : ℕ) (bs : Bytes)
    (greed rule open_id close_id : ℕ) : Type 0 where
  pub was_free : id (d.tags b) ≡ 0
  pub name_kept : (d'.tags b).name ≡ name
  pub greed_kept : (d'.tags b).greed ≡ greed
  pub rule_kept : (d'.tags b).rule ≡ rule
  pub opens : (d'.tags b).open_id ≡ open_id
  pub closes : (d'.tags b).close_id ≡ close_id
  pub sequence : (d'.tags b).seq ≡ sequence_of (b ∷ bs)
  pub acts : d'.actions b ≡ some (tag_action (d'.tags b))
  pub printable : All (λ c. (32 ≤ c) × (c ≤ 126)) (b ∷ bs)
  pub others : (j : ℕ) → j ≢ b → (d'.tags j ≡ d.tags j) × (d'.actions j ≡ d.actions j)

with_tag-Registers :
    (d : Dictionary) (name : String) (b : ℕ) (bs : Bytes) (greed rule open_id close_id : ℕ)
    → id (d.tags b) ≡ 0
    → All (λ c. (32 ≤ c) × (c ≤ 126)) (b ∷ bs)
    → Registers d
        (with_tag d (built name greed rule open_id close_id (sequence_of (b ∷ bs))))
        name
        b
        bs
        greed
        rule
        open_id
        close_id
with_tag-Registers d name b bs greed rule open_id close_id free p = record {
  was_free = free;
  name_kept = ground arith;
  greed_kept = ground arith;
  rule_kept = ground arith;
  opens = ground arith;
  closes = ground arith;
  sequence = ground arith;
  acts = ground arith;
  printable = p;
  others = λ j ne. ground arith;
}

-- A registration of a tag takes the first byte of its sequence, which held no tag before, and all the
-- bytes of the sequence are printable: the table then holds there the tag with the given name, greed,
-- rule and partners and the given sequence, the byte's action is that of this tag, and the entries and
-- the actions of the other bytes are as they were.
pub add_tag-Registers :
    (d : Dictionary) (name : String) (b : ℕ) (bs : Bytes) (greed rule open_id close_id : ℕ)
    {d' : Dictionary}
    → add_tag d name (b ∷ bs) greed rule open_id close_id ≡ ok d'
    → Registers d d' name b bs greed rule open_id close_id
unfolding add_tag
add_tag-Registers d name b bs greed rule open_id close_id e =
    >>=-elim (check_tag_name name) _ e λ _ _ named.
      >>=-elim (new_tag_sequence (b ∷ bs)) _ named λ ts made free.
        let guarded = guard-elim (not (id (d.tags (seq_id ts)) == 0)) _ free in
        let (same, printable) = sequence-printable b bs made in
        >>=-elim (check_tag_consistency _ _ rule greed) _ guarded.1 λ _ _ later.
          subst (λ x. Registers d x name b bs greed rule open_id close_id)
            (ap (λ s. with_tag d (built name greed rule open_id close_id s)) (sym same)
              ∙ ok-injective later)
            (with_tag-Registers d name b bs greed rule open_id close_id
              (ap (λ s. id (d.tags (seq_id s))) (sym same) ∙ ground (arith, guarded.0)) printable)

-- Once a tag is registered, no other registration takes its first byte: from the dictionary that
-- holds it, adding a tag whose sequence starts with that byte does not succeed, whatever its other
-- bytes, name, greed, rule and partners.
pub add_tag-add_tag :
    (d : Dictionary) (name name' : String) (b : ℕ) (bs bs' : Bytes)
    (greed rule open_id close_id greed' rule' open_id' close_id' : ℕ) {d' d'' : Dictionary}
    → add_tag d name (b ∷ bs) greed rule open_id close_id ≡ ok d'
    → add_tag d' name' (b ∷ bs') greed' rule' open_id' close_id' ≢ ok d''
add_tag-add_tag d name name' b bs bs' greed rule open_id close_id greed' rule' open_id' close_id'
      {d'} e e' =
    let first = add_tag-Registers d name b bs greed rule open_id close_id e in
    let second = add_tag-Registers d' name' b bs' greed' rule' open_id' close_id' e' in
    omega (arith, ap (λ s. seq_id s) first.sequence, first.printable.0.0, second.was_free)
