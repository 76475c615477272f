-- ===== src/Db/Tallies.antt =====
-- The counters of a comment against the votes for it.
use shitposter.Prelude.{
  ℕ, suc, ◌+◌, ◌≤◌, ◌<◌, ◌≡◌, ◌≢◌, refl, ap, arith, Bool, true, false, ◌&&◌, some, List, [], ◌∷◌,
  All, ◌==◌, if◌then◌else◌, Bool-cases, ◌⊎◌, inl, inr,
}
use shitposter.Prelude.Int.{ℤ, pos, negsuc, ◌+ℤ◌, ◌==ℤ◌}
use shitposter.Db.Tables.{Config, Comment, CommentVote}
use shitposter.Db.Queries.{find_by, count_by, update_first, remove_by, has_id, is_live}
use shitposter.Db.VoteQueries.{is_vote_of, revoted}
use shitposter.Db.Vote.{delta}
use shitposter.Db.Threads.{IsThreaded}

-- The votes for a comment on one side: `pos 1` is up, `negsuc 0` is down.
abbrev pub is_vote_for : ℤ → ℕ → CommentVote → Bool
is_vote_for side i v = (v.comment_id == i) && (v.vote ==ℤ side)

abbrev pub tally : ℤ → ℕ → List CommentVote → ℕ
tally side i vs = count_by (is_vote_for side i) vs

abbrev pub bit : Bool → ℕ
bit true = 1
bit false = 0

abbrev pub IsTallied : List CommentVote → Comment → Type 0
IsTallied vs c =
    (c.upvotes ≡ pos (tally (pos 1) c.id vs)) × (c.downvotes ≡ pos (tally (negsuc 0) c.id vs))

-- The vote is for a comment that exists.
abbrev pub Stands : List Comment → CommentVote → Type 0
Stands cs v = (c : Comment) × (find_by (has_id v.comment_id) cs ≡ some c)

-- Votes for a comment do not count for another.
pub tally-remove_other :
    (side : ℤ) (i j : ℕ) (vs : List CommentVote)
    → j ≢ i
    → tally side j (remove_by (λ v. v.comment_id == i) vs) ≡ tally side j vs
tally-remove_other side i j [] ne = refl
tally-remove_other side i j (v ∷ vs) ne =
    by_tests (tally-remove_other side i j vs ne) (Bool-cases (v.comment_id == i))
      (Bool-cases (v.comment_id == j))
  where
    by_tests :
        tally side j (remove_by (λ v. v.comment_id == i) vs) ≡ tally side j vs
        → ((v.comment_id == i) ≡ true) ⊎ ((v.comment_id == i) ≡ false)
        → ((v.comment_id == j) ≡ true) ⊎ ((v.comment_id == j) ≡ false)
        → tally side j (remove_by (λ v. v.comment_id == i) (v ∷ vs)) ≡ tally side j (v ∷ vs)
    by_tests ih a b = grind (arith, ih, ne, a, b)

replaced :
    (x y : Bool) (n : ℕ) → (if x then suc n else n) + bit y ≡ (if y then suc n else n) + bit x
replaced x y n = ground arith

unchanged :
    (x : Bool) (m n k l : ℕ)
    → m + k ≡ n + l
    → (if x then suc m else m) + k ≡ (if x then suc n else n) + l
unchanged true m n k l h = omega (arith, h)
unchanged false m n k l h = h

-- A vote that is given in place of an old one.
pub tally-update_first :
    (side vote : ℤ) (u i j now : ℕ) (old : CommentVote) (vs : List CommentVote)
    → find_by (is_vote_of u i) vs ≡ some old
    → tally side j (update_first (is_vote_of u i) (revoted vote now) vs)
        + bit ((i == j) && (old.vote ==ℤ side))
      ≡ tally side j vs + bit ((i == j) && (vote ==ℤ side))
tally-update_first side vote u i j now old [] e = absurd (cc e)
tally-update_first side vote u i j now old (v ∷ vs) e =
    by_test (is_vote_of u i v) refl e (tally-update_first side vote u i j now old vs)
  where
    by_test :
        (b : Bool)
        → is_vote_of u i v ≡ b
        → (if b then some v else find_by (is_vote_of u i) vs) ≡ some old
        → (find_by (is_vote_of u i) vs ≡ some old
            → tally side j (update_first (is_vote_of u i) (revoted vote now) vs)
                + bit ((i == j) && (old.vote ==ℤ side))
              ≡ tally side j vs + bit ((i == j) && (vote ==ℤ side)))
        → tally side j (
              if b
              then revoted vote now v ∷ vs
              else v ∷ update_first (is_vote_of u i) (revoted vote now) vs)
            + bit ((i == j) && (old.vote ==ℤ side))
          ≡ tally side j (v ∷ vs) + bit ((i == j) && (vote ==ℤ side))
    by_test true here e ih =
        let same : v ≡ old = cc e in
        let target : v.comment_id ≡ i = ground (arith, here) in
        let voted : v.vote ≡ old.vote = ap (λ x. x.vote) same in
        rw (target, voted)
          (replaced ((i == j) && (vote ==ℤ side)) ((i == j) && (old.vote ==ℤ side))
            (tally side j vs))
    by_test false here e ih = unchanged (is_vote_for side j v) _ _ _ _ (ih e)

-- The counters follow a vote.
pub pos-delta :
    (a b : ℕ) (side new_vote old_vote : ℤ)
    → b + bit (old_vote ==ℤ side) ≡ a + bit (new_vote ==ℤ side)
    → pos a +ℤ delta side new_vote old_vote ≡ pos b
unfolding ◌+ℤ◌
pos-delta a b side n o e = by_bits (n ==ℤ side) (o ==ℤ side) e
  where
    by_bits :
        (x y : Bool)
        → b + bit y ≡ a + bit x
        → pos a +ℤ ((if x then pos 1 else pos 0) +ℤ (if y then negsuc 0 else pos 0)) ≡ pos b
    by_bits x y h = ground (arith, h)

-- Under an identifier that is not below the bound no row is found.
older_ids :
    (cfg : Config) (n i : ℕ) (cs : List Comment)
    → IsThreaded cfg n cs
    → n ≤ i
    → All (λ d. d.id < i) cs
older_ids cfg n i [] h le = tt
older_ids cfg n i (d ∷ ds) (lt, hangs, h) le =
    (omega (arith, lt, le), older_ids cfg d.id i ds h (omega (arith, lt, le)))

find-older :
    (i : ℕ) (t : Comment → Bool) (c : Comment) (cs : List Comment)
    → ((d : Comment) → t d ≡ true → d.id ≡ i)
    → All (λ d. d.id < i) cs
    → find_by t cs ≢ some c
find-older i t c [] own older e = cc e
find-older i t c (d ∷ ds) own (lt, older) e = by_test (t d) refl e (find-older i t c ds own older)
  where
    by_test :
        (b : Bool)
        → t d ≡ b
        → (if b then some d else find_by t ds) ≡ some c
        → find_by t ds ≢ some c
        → ⊥
    by_test true here e no_more = omega (arith, lt, own d here)
    by_test false here e no_more = no_more e

-- Identifiers are not used twice: where a live comment is found, every row with its identifier is live.
pub live_rows :
    (cfg : Config) (n i : ℕ) (c : Comment) (cs : List Comment)
    → IsThreaded cfg n cs
    → find_by (is_live i) cs ≡ some c
    → All (λ d. d.id ≡ i → d.is_deleted ≡ false) cs
live_rows cfg n i c [] h e = tt
live_rows cfg n i c (d ∷ ds) (lt, hangs, h) e =
    by_tests (Bool-cases (d.id == i)) (Bool-cases d.is_deleted)
      (λ later. live_rows cfg d.id i c ds h later)
  where
    live_id : (x : Comment) → is_live i x ≡ true → x.id ≡ i
    live_id x here = ground (arith, here)

    older_live :
        (xs : List Comment) → All (λ x. x.id < i) xs → All (λ x. x.id ≡ i → x.is_deleted ≡ false) xs
    older_live [] older = tt
    older_live (x ∷ xs) (less, older) =
        ((λ same. absurd (omega (arith, less, same))), older_live xs older)

    by_tests :
        ((d.id == i) ≡ true) ⊎ ((d.id == i) ≡ false)
        → (d.is_deleted ≡ true) ⊎ (d.is_deleted ≡ false)
        → (find_by (is_live i) ds ≡ some c → All (λ x. x.id ≡ i → x.is_deleted ≡ false) ds)
        → (d.id ≡ i → d.is_deleted ≡ false) × All (λ x. x.id ≡ i → x.is_deleted ≡ false) ds
    by_tests (inl same) (inr alive) ih =
        ((λ _. alive), older_live ds (older_ids cfg d.id i ds h (ground (arith, same))))
    by_tests (inl same) (inl dead) ih = absurd (
        find-older i (is_live i) c ds live_id (older_ids cfg d.id i ds h (ground (arith, same)))
          (rw (same, dead) at e))
    by_tests (inr other) _ ih = ((λ same. absurd (ground (arith, same, other))), ih (rw other at e))

-- Votes that stand for older comments are not for a new one.
pub tally-fresh :
    (cfg : Config) (side : ℤ) (n m : ℕ) (cs : List Comment) (vs : List CommentVote)
    → IsThreaded cfg n cs
    → n ≤ m
    → All (Stands cs) vs
    → tally side m vs ≡ 0
tally-fresh cfg side n m cs [] h le stand = refl
tally-fresh cfg side n m cs (v ∷ vs) h le ((c, found), stand) =
    by_test (Bool-cases (v.comment_id == m)) (tally-fresh cfg side n m cs vs h le stand)
  where
    own : (x : Comment) → has_id v.comment_id x ≡ true → x.id ≡ v.comment_id
    own x here = ground (arith, here)

    by_test :
        ((v.comment_id == m) ≡ true) ⊎ ((v.comment_id == m) ≡ false)
        → tally side m vs ≡ 0
        → tally side m (v ∷ vs) ≡ 0
    by_test (inl same) ih =
        let here : v.comment_id ≡ m = ground (arith, same) in
        absurd (
          find-older v.comment_id (has_id v.comment_id) c cs own
            (older_ids cfg n v.comment_id cs h (omega (arith, le, here))) found)
    by_test (inr other) ih = rw other ih
