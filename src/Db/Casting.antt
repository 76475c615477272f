-- ===== src/Db/Casting.antt =====
-- What votes do to the counters: db/sqlc/tx_vote_comment.go.
use shitposter.Prelude.{
  ℕ, suc, ◌+◌, ◌≡◌, ◌≢◌, refl, sym, ap, subst, ◌∙◌, arith, Bool, true, false, ◌&&◌, Option, none,
  some, List, [], ◌∷◌, All, ◌==◌, if◌then◌else◌, inl, inr,
}
use shitposter.Prelude.Int.{ℤ, pos, negsuc, ◌+ℤ◌, ◌==ℤ◌}
use shitposter.Db.Tables.{Config, Comment, CommentVote, Db}
use shitposter.Db.Queries.{find_by, is_some, has_id, is_live, with_deltas}
use shitposter.Db.VoteQueries.{is_vote_of, revoted}
use shitposter.Db.Vote.{VoteCommentTxParams, delta}
use shitposter.Db.Votes.{Voted, Cast}
use shitposter.Db.Threads.{Keeps, update_by-IsThreaded}
use shitposter.Db.Tallies.{tally, bit, IsTallied, Stands, tally-update_first, pos-delta, live_rows}
use shitposter.Db.Sound.{All-update_by, All-update_first, IsSoundIf, Stands-update_by}

with_deltas-Keeps : (up down : ℤ) (now : ℕ) → Keeps (with_deltas up down now)
with_deltas-Keeps up down now = record {
  id = λ c. refl;
  user_id = λ c. refl;
  post_id = λ c. refl;
  parent_id = λ c. refl;
  depth = λ c. refl;
}

-- Casting a vote changes each tally by what it adds and what it takes back.
Cast-tally :
    (arg : VoteCommentTxParams) (db : Db) (original : ℤ) (after : List CommentVote) (side : ℤ)
    (j : ℕ)
    → pos 0 ==ℤ side ≡ false
    → Cast arg db original after
    → tally side j after + bit ((arg.comment_id == j) && (original ==ℤ side))
      ≡ tally side j db.tables.votes + bit ((arg.comment_id == j) && (arg.vote ==ℤ side))
Cast-tally arg db original after side j real (inl (old, found, same, e)) =
    rw (e, same)
      (tally-update_first side arg.vote arg.user_id arg.comment_id j db.now old db.tables.votes
        found)
Cast-tally arg db original after side j real (inr (missing, there, same, e)) =
    rw (e, same, real)
      (by_bits ((arg.comment_id == j) && (arg.vote ==ℤ side)) (arg.comment_id == j)
        (tally side j db.tables.votes))
  where
    by_bits : (x y : Bool) (n : ℕ) → (if x then suc n else n) + bit (y && false) ≡ n + bit x
    by_bits x y n = ground arith

Cast-Stands :
    (arg : VoteCommentTxParams) (db : Db) (original : ℤ) (after : List CommentVote)
    → Cast arg db original after
    → All (Stands db.tables.comments) db.tables.votes
    → All (Stands db.tables.comments) after
Cast-Stands arg db original after (inl (old, found, same, e)) h = rw e (
    All-update_first (is_vote_of arg.user_id arg.comment_id) (revoted arg.vote db.now)
      db.tables.votes (λ w stands. stands) (λ w stands. stands) h)
Cast-Stands arg db original after (inr (missing, there, same, e)) h =
    rw e (by_found (find_by (has_id arg.comment_id) db.tables.comments) refl there, h)
  where
    by_found :
        (o : Option Comment)
        → find_by (has_id arg.comment_id) db.tables.comments ≡ o
        → is_some o ≡ true
        → (c : Comment) × (find_by (has_id arg.comment_id) db.tables.comments ≡ some c)
    by_found (some c) e _ = (c, e)
    by_found none e h = absurd (cc h)

-- A vote moves the counters of its comment as it moves the tallies.
moved :
    (arg : VoteCommentTxParams) (db : Db) (original : ℤ) (after : List CommentVote) (side n : ℤ)
    (j : ℕ)
    → pos 0 ==ℤ side ≡ false
    → Cast arg db original after
    → n ≡ pos (tally side j db.tables.votes)
    → arg.comment_id ≡ j
    → n +ℤ delta side arg.vote original ≡ pos (tally side j after)
moved arg db original after side n j real cast e here = rw e (
    pos-delta (tally side j db.tables.votes) (tally side j after) side arg.vote original
      (subst Balanced (test here) (Cast-tally arg db original after side j real cast)))
  where
    Balanced : Bool → Type 0
    Balanced b =
        tally side j after + bit (b && (original ==ℤ side))
        ≡ tally side j db.tables.votes + bit (b && (arg.vote ==ℤ side))

    test : arg.comment_id ≡ j → (arg.comment_id == j) ≡ true
    test h = ground (arith, h)

unmoved :
    (arg : VoteCommentTxParams) (db : Db) (original : ℤ) (after : List CommentVote) (side n : ℤ)
    (j : ℕ)
    → pos 0 ==ℤ side ≡ false
    → Cast arg db original after
    → n ≡ pos (tally side j db.tables.votes)
    → arg.comment_id ≢ j
    → n ≡ pos (tally side j after)
unmoved arg db original after side n j real cast e other =
    e
    ∙ ap pos (
        omega
          (arith, subst Balanced (test other) (Cast-tally arg db original after side j real cast)))
  where
    Balanced : Bool → Type 0
    Balanced b =
        tally side j after + bit (b && (original ==ℤ side))
        ≡ tally side j db.tables.votes + bit (b && (arg.vote ==ℤ side))

    test : arg.comment_id ≢ j → (arg.comment_id == j) ≡ false
    test h = ground (arith, h)

All-both :
    {A : Type 0} (P Q : A → Type 0) (xs : List A) → All P xs → All Q xs → All (λ x. P x × Q x) xs
All-both P Q [] h k = tt
All-both P Q (x ∷ xs) (p, h) (q, k) = ((p, q), All-both P Q xs h k)

pub Voted-IsSound :
    (K : Type 0) (cfg : Config) (arg : VoteCommentTxParams) (db after : Db)
    → Voted arg db after
    → IsSoundIf K cfg db
    → IsSoundIf K cfg after
Voted-IsSound K cfg arg db after v s = record {
  threaded =
      rw (v.tables, v.sequence)
        (update_by-IsThreaded cfg db.comment_seq (is_live arg.comment_id) deltas db.tables.comments
          keeps s.threaded);
  stands = rw v.tables (
      Stands-update_by (is_live arg.comment_id) deltas db.tables.comments after.tables.votes keeps
        (Cast-Stands arg db v.original after.tables.votes v.cast s.stands));
  tallied = λ k. rw v.tables (
      All-update_by (is_live arg.comment_id) deltas db.tables.comments hit miss (
        All-both (IsTallied db.tables.votes) (λ d. d.id ≡ arg.comment_id → d.is_deleted ≡ false)
          db.tables.comments (s.tallied k)
          (live_rows cfg db.comment_seq arg.comment_id v.target db.tables.comments s.threaded
            v.alive)));
}
  where
    deltas : Comment → Comment
    deltas =
        with_deltas (delta (pos 1) arg.vote v.original) (delta (negsuc 0) arg.vote v.original)
          db.now

    keeps : Keeps deltas
    keeps =
        with_deltas-Keeps (delta (pos 1) arg.vote v.original) (delta (negsuc 0) arg.vote v.original)
          db.now

    Live : Comment → Type 0
    Live c = IsTallied db.tables.votes c × (c.id ≡ arg.comment_id → c.is_deleted ≡ false)

    hit :
        (c : Comment)
        → is_live arg.comment_id c ≡ true
        → Live c
        → IsTallied after.tables.votes (deltas c)
    hit c here ((up, down), alive) =
        let same : arg.comment_id ≡ c.id = ground (arith, here) in
        (
          moved arg db v.original after.tables.votes (pos 1) c.upvotes c.id refl v.cast up same,
          moved arg db v.original after.tables.votes (negsuc 0) c.downvotes c.id refl v.cast down
              same,
        )

    miss :
        (c : Comment) → is_live arg.comment_id c ≡ false → Live c → IsTallied after.tables.votes c
    miss c other ((up, down), alive) =
        let ne : arg.comment_id ≢ c.id = λ e. not_live e (alive (sym e)) in
        (
          unmoved arg db v.original after.tables.votes (pos 1) c.upvotes c.id refl v.cast up ne,
          unmoved arg db v.original after.tables.votes (negsuc 0) c.downvotes c.id refl v.cast down
              ne,
        )
      where
        not_live : arg.comment_id ≡ c.id → c.is_deleted ≡ false → ⊥
        not_live e alive = ground (arith, e, alive, other)
