-- ===== src/Scum/Tag.antt =====
-- scum/tag.go, scum/tag_sequence.go, scum/consts.go, and the checks of scum/utils.go on a tag.
-- `Greed` and `Rule` are unsigned numbers of which only some are named, as in the source. A name is
-- valid UTF-8, and its characters are counted by `count`.
use Prim.Native.String.{String, count}
use shitposter.Prelude.{
  ℕ, ◌-◌, Bool, not, ◌&&◌, ◌||◌, List, [], ◌∷◌, ◌++◌, ltb, leb, ◌==◌, if◌then◌else◌, Bytes, length,
  replicate, get_or,
}
use shitposter.Scum.Issue.{
  invalid_greed_level, invalid_rule, invalid_tag_name_len, invalid_tag_seq_len, rule_inapplicable,
  unprintable_char, Result, ok, config_error, ◌>>=◌,
}

abbrev pub max_tag_len : ℕ
max_tag_len = 4

abbrev pub max_tag_name_len : ℕ
max_tag_name_len = 20

abbrev pub non_greedy : ℕ
non_greedy = 0

abbrev pub greedy : ℕ
greedy = 1

abbrev pub grasping : ℕ
grasping = 2

abbrev pub rule_na : ℕ
rule_na = 0

abbrev pub rule_infra_word : ℕ
rule_infra_word = 1

abbrev pub rule_tag_vs_content : ℕ
rule_tag_vs_content = 2

-- `bytes` is the array of four bytes, zeros behind the first `len`.
pub record TagSequence : Type 0 where
  pub bytes : Bytes
  pub len : ℕ

pub record Tag : Type 0 where
  pub name : String
  pub greed : ℕ
  pub seq : TagSequence
  pub rule : ℕ
  pub open_id : ℕ
  pub close_id : ℕ

abbrev pub seq_id : TagSequence → ℕ
seq_id s = get_or s.bytes 0 0

abbrev pub id : Tag → ℕ
id t = seq_id t.seq

-- The zero value, which the table of a dictionary holds where no tag is registered.
abbrev pub no_tag : Tag
no_tag = record {
  name = "";
  greed = 0;
  seq = record { bytes = replicate 4 0; len = 0 };
  rule = 0;
  open_id = 0;
  close_id = 0;
}

unfoldable pub is_universal : Tag → Bool
is_universal t = t.close_id == id t && t.open_id == id t

unfoldable pub is_opening : Tag → Bool
is_opening t = not (t.close_id == 0) && t.open_id == 0

unfoldable pub is_closing : Tag → Bool
is_closing t = not (t.open_id == 0) && t.close_id == 0

unfoldable pub is_ascii_printable : ℕ → Bool
is_ascii_printable b = leb 32 b && leb b 126

-- The loop that copies the bytes stops at the first one that is not printable.
unfoldable pub copy_printable : Bytes → Result Bytes
unfolding is_ascii_printable
copy_printable [] = ok []
copy_printable (b ∷ bs) =
    let rest = copy_printable bs in
    if not (is_ascii_printable b) then config_error unprintable_char else (do r ← rest; ok (b ∷ r))

unfoldable pub new_tag_sequence : Bytes → Result TagSequence
unfolding copy_printable
new_tag_sequence src =
    let n = length src in
    if ltb max_tag_len n
    then config_error invalid_tag_seq_len
    else if n == 0
    then config_error invalid_tag_seq_len
    else (do
      copied ← copy_printable src
      ok (record { bytes = copied ++ replicate (max_tag_len - n) 0; len = n }))

-- `NewTag`, with its options as functions.
pub new_tag : Bytes → String → ℕ → ℕ → List (Tag → Tag) → Result Tag
new_tag seq name open_id close_id opts = do
  s ← new_tag_sequence seq
  ok (
      apply opts (record {
        name = name;
        greed = 0;
        seq = s;
        rule = 0;
        open_id = open_id;
        close_id = close_id;
      }))
  where
    apply : List (Tag → Tag) → Tag → Tag
    apply [] t = t
    apply (dec ∷ decs) t = apply decs (dec t)

abbrev pub with_greed : ℕ → Tag → Tag
with_greed g t = record t { greed = g }

abbrev pub with_rule : ℕ → Tag → Tag
with_rule r t = record t { rule = r }

unfoldable pub check_tag_name : String → Result (Unit {0})
check_tag_name name =
    let name_len = count name in
    if name_len == 0
    then config_error invalid_tag_name_len
    else if ltb max_tag_name_len name_len
    then config_error invalid_tag_name_len
    else ok tt

-- The switch behind the general checks.
check_rule : ℕ → ℕ → Result (Unit {0})
check_rule rule greed =
    if rule == rule_na
    then ok tt
    else if rule == rule_infra_word
    then (if not (greed == non_greedy) then config_error invalid_rule else ok tt)
    else if rule == rule_tag_vs_content
    then (if greed == non_greedy then config_error invalid_rule else ok tt)
    else config_error invalid_rule

unfoldable pub check_tag_consistency : Bool → Bool → ℕ → ℕ → Result (Unit {0})
unfolding check_rule
check_tag_consistency is_single is_univ rule greed =
    if ltb rule_tag_vs_content rule
    then config_error invalid_rule
    else if ltb grasping greed
    then config_error invalid_greed_level
    else if not (rule == rule_na) && not (is_single && is_univ)
    then config_error rule_inapplicable
    else check_rule rule greed

unfoldable pub is_ascii_punct : ℕ → Bool
is_ascii_punct b =
    (leb 33 b && leb b 47)
    || (leb 58 b && leb b 64)
    || (leb 91 b && leb b 96)
    || (leb 123 b && leb b 126)

unfoldable pub is_ascii_alphanum : ℕ → Bool
is_ascii_alphanum b =
    (leb b'0' b && leb b b'9') || (leb b'A' b && leb b b'Z') || (leb b'a' b && leb b b'z')
