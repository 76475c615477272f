-- ===== src/Db/Votes.antt =====
-- What a vote that succeeds has done.
use shitposter.Prelude.{
  ◌≡◌, refl, ◌∙◌, ap, arith, true, false, not, Option, none, some, List, ◌∷◌, ◌⊎◌, inl, inr,
}
use shitposter.Prelude.Int.{ℤ, pos, negsuc, ◌==ℤ◌}
use shitposter.Db.Error.{DriverError}
use shitposter.Db.Tables.{Comment, CommentVote, Tables, Db}
use shitposter.Db.VoteQueries.{
  UpsertCommentVoteRow, is_vote_of, new_vote, revoted, upsert_comment_vote, upsert_found,
  vote_checks, vote_checked,
}
use shitposter.Db.Queries.{
  find_by, exists_by, update_by, update_first, has_id, is_live, with_deltas,
  update_comment_popularity, returning,
}
use shitposter.Db.Vote.{
  VoteCommentTxParams, delta, is_vote, after_upsert, vote_body, vote_comment_tx,
}
use shitposter.Db.Tx.{
  Ensures, with_ahead, query-Ensures, last_query-Ensures, if-Ensures, weaken-Ensures,
}
use shitposter.Db.Atomic.{AllOrNothing, AllOrNothing-Ensures, exec_tx-ensured}

-- The votes with that of the user given or changed; `original` is what it was before.
abbrev pub Cast : VoteCommentTxParams → Db → ℤ → List CommentVote → Type 0
Cast arg db original after =
    ((old : CommentVote) × (find_by (is_vote_of arg.user_id arg.comment_id) db.tables.votes
        ≡ some old)
      × (original ≡ old.vote)
      × (after
          ≡ update_first (is_vote_of arg.user_id arg.comment_id) (revoted arg.vote db.now)
              db.tables.votes))
    ⊎ ((find_by (is_vote_of arg.user_id arg.comment_id) db.tables.votes ≡ none)
        × (exists_by (has_id arg.comment_id) db.tables.comments ≡ true)
        × (original ≡ pos 0)
        × (after ≡ new_vote arg.user_id arg.comment_id arg.vote db ∷ db.tables.votes))

record Upserted (arg : VoteCommentTxParams) (db : Db) (row : UpsertCommentVoteRow) (mid : Db)
    : Type 0 where
  cast : Cast arg db row.original_vote mid.tables.votes
  tables : mid.tables ≡ record db.tables { votes = mid.tables.votes }
  sequence : mid.comment_seq ≡ db.comment_seq
  now : mid.now ≡ db.now

-- A vote that succeeds is one up or down that differs from the user's vote so far, for a comment that
-- is not deleted, whose counters it moves by what it adds and what it takes back.
pub record Voted (arg : VoteCommentTxParams) (db after : Db) : Type 0 where
  pub original : ℤ
  pub valid : is_vote arg.vote ≡ true
  pub new : original ==ℤ arg.vote ≡ false
  pub cast : Cast arg db original after.tables.votes
  pub target : Comment
  pub alive : find_by (is_live arg.comment_id) db.tables.comments ≡ some target
  pub tables : after.tables ≡ record db.tables {
    comments =
        update_by
          (is_live arg.comment_id)
          (with_deltas
            (delta (pos 1) arg.vote original)
            (delta (negsuc 0) arg.vote original)
            db.now)
          db.tables.comments;
    votes = after.tables.votes;
  }
  pub sequence : after.comment_seq ≡ db.comment_seq

upsert-Upserted :
    (arg : VoteCommentTxParams) (db : Db) (sky : List (Option DriverError))
    → Ensures
        (Upserted arg db)
        (upsert_comment_vote arg.user_id arg.comment_id arg.vote (with_ahead sky db))
upsert-Upserted arg db sky =
    by_found (find_by (is_vote_of arg.user_id arg.comment_id) db.tables.votes) refl
  where
    by_checks :
        (o : Option DriverError)
        → find_by (is_vote_of arg.user_id arg.comment_id) db.tables.votes ≡ none
        → (o ≡ none → exists_by (has_id arg.comment_id) db.tables.comments ≡ true)
        → Ensures
            (Upserted arg db)
            (vote_checked o arg.user_id arg.comment_id arg.vote (with_ahead sky db))
    by_checks (some e) missing h = tt
    by_checks none missing h = record {
      cast = inr (missing, h refl, refl, refl);
      tables = refl;
      sequence = refl;
      now = refl;
    }

    by_found :
        (o : Option CommentVote)
        → find_by (is_vote_of arg.user_id arg.comment_id) db.tables.votes ≡ o
        → Ensures
            (Upserted arg db)
            (upsert_found arg.user_id arg.comment_id arg.vote o (with_ahead sky db))
    by_found (some v) e = record {
      cast = inl (v, e, refl, refl);
      tables = refl;
      sequence = refl;
      now = refl;
    }
    by_found none e =
        by_checks (vote_checks arg.user_id arg.comment_id db.tables) e
          (λ passed. ground (arith, passed))

popularity-Voted :
    (arg : VoteCommentTxParams) (db : Db) (row : UpsertCommentVoteRow) (mid : Db)
    → is_vote arg.vote ≡ true
    → row.original_vote ==ℤ arg.vote ≡ false
    → Upserted arg db row mid
    → (sky : List (Option DriverError))
    → Ensures
        (λ c. Voted arg db)
        (update_comment_popularity arg.comment_id
          (delta (pos 1) arg.vote row.original_vote)
          (delta (negsuc 0) arg.vote row.original_vote)
          (with_ahead sky mid))
popularity-Voted arg db row mid valid new v sky =
    by_found (find_by (is_live arg.comment_id) mid.tables.comments) refl
  where
    by_found :
        (o : Option Comment)
        → find_by (is_live arg.comment_id) mid.tables.comments ≡ o
        → Ensures
            (λ c. Voted arg db)
            (returning o
              (is_live arg.comment_id)
              (with_deltas
                (delta (pos 1) arg.vote row.original_vote)
                (delta (negsuc 0) arg.vote row.original_vote)
                mid.now)
              (with_ahead sky mid))
    by_found none e = tt
    by_found (some c) e =
        let same : mid.tables.comments ≡ db.tables.comments = ap (λ t. t.comments) v.tables in
        record {
          original = row.original_vote;
          valid = valid;
          new = new;
          cast = v.cast;
          target = c;
          alive = rw same at e;
          tables =
              ap
                (λ (t : Tables). record t {
                  comments =
                      update_by (is_live arg.comment_id)
                        (with_deltas (delta (pos 1) arg.vote row.original_vote)
                          (delta (negsuc 0) arg.vote row.original_vote) mid.now)
                        t.comments;
                })
                v.tables
              ∙ rw v.now refl;
          sequence = v.sequence;
        }

body-Voted : (arg : VoteCommentTxParams) (db : Db) → Ensures (λ c. Voted arg db) (vote_body arg db)
body-Voted arg db =
    if-Ensures (λ c. Voted arg db) (not (is_vote arg.vote)) _ _ db (λ _. tt)
      (λ valid.
        query-Ensures (Upserted arg db) (λ c. Voted arg db)
          (upsert_comment_vote arg.user_id arg.comment_id arg.vote) _ (after_upsert arg) db
          (upsert-Upserted arg db)
          (λ row mid v.
            if-Ensures (λ c. Voted arg db) (row.original_vote ==ℤ arg.vote) _ _ mid (λ _. tt)
              (λ new.
                last_query-Ensures (λ c. Voted arg db)
                  (update_comment_popularity arg.comment_id
                    (delta (pos 1) arg.vote row.original_vote)
                    (delta (negsuc 0) arg.vote row.original_vote))
                  _ mid (popularity-Voted arg db row mid (ground (arith, valid)) new v))))

-- The same of a vote that is applied although its commit fails; any other failure changes no table.
pub vote_comment_tx-AllOrNothing :
    (arg : VoteCommentTxParams) (db : Db)
    → AllOrNothing (λ (c : Comment). Voted arg db) db.tables (vote_comment_tx arg db)
unfolding vote_comment_tx
vote_comment_tx-AllOrNothing arg db =
    exec_tx-ensured (λ c. Voted arg db) (vote_body arg) db
      (λ sky.
        weaken-Ensures (λ c. Voted arg db) (vote_body arg (with_ahead sky db))
          (λ c mid v. record {
            original = v.original;
            valid = v.valid;
            new = v.new;
            cast = v.cast;
            target = v.target;
            alive = v.alive;
            tables = v.tables;
            sequence = v.sequence;
          })
          (body-Voted arg (with_ahead sky db)))
      (λ c mid sky v. record {
        original = v.original;
        valid = v.valid;
        new = v.new;
        cast = v.cast;
        target = v.target;
        alive = v.alive;
        tables = v.tables;
        sequence = v.sequence;
      })

-- A vote that succeeds is up or down and differs from the user's vote so far. The user's vote for the
-- comment is changed, or stored where there was none, and the counters of the comment, which is not
-- deleted, move by what the vote adds and what it takes back.
pub vote_comment_tx-Voted :
    (arg : VoteCommentTxParams) (db : Db) → Ensures (λ c. Voted arg db) (vote_comment_tx arg db)
vote_comment_tx-Voted arg db =
    AllOrNothing-Ensures (λ (c : Comment). Voted arg db) db.tables (vote_comment_tx arg db)
      (vote_comment_tx-AllOrNothing arg db)
