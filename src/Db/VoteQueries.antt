-- ===== src/Db/VoteQueries.antt =====
-- The statement on votes: db/sqlc/comment_vote.sql.go with upsert_comment_vote of db/migration/000009.
use shitposter.Prelude.{ℕ, suc, Bool, not, ◌&&◌, Option, none, some, List, ◌∷◌, ◌==◌, if◌then◌else◌}
use shitposter.Prelude.Int.{ℤ, pos}
use shitposter.Db.Error.{DriverError, pg_error, foreign_key_violation}
use shitposter.Db.Tables.{CommentVote, Tables, Db}
use shitposter.Db.Monad.{M, pure, fail}
use shitposter.Db.Queries.{exists_by, has_id, has_user, find_by, update_first}

pub record UpsertCommentVoteRow : Type 0 where
  pub vote_row : CommentVote
  pub original_vote : ℤ

abbrev pub is_vote_of : ℕ → ℕ → CommentVote → Bool
is_vote_of user_id comment_id v = (v.user_id == user_id) && (v.comment_id == comment_id)

abbrev pub next_vote_id : Db → Db
next_vote_id db = record db { vote_seq = suc db.vote_seq }

abbrev pub with_votes : (List CommentVote → List CommentVote) → Db → Db
with_votes f db = record db { tables = record db.tables { votes = f db.tables.votes } }

abbrev pub revoted : ℤ → ℕ → CommentVote → CommentVote
revoted vote now v = record v { vote = vote; last_modified_at = now }

abbrev pub new_vote : ℕ → ℕ → ℤ → Db → CommentVote
new_vote user_id comment_id vote db = record {
  id = db.vote_seq;
  user_id = user_id;
  comment_id = comment_id;
  vote = vote;
  created_at = db.now;
  last_modified_at = db.now;
}

abbrev pub vote_checks : ℕ → ℕ → Tables → Option DriverError
vote_checks user_id comment_id t =
    if not (exists_by (has_user user_id) t.users)
    then some (pg_error foreign_key_violation "comment_votes_user_id_fkey")
    else if not (exists_by (has_id comment_id) t.comments)
    then some (pg_error foreign_key_violation "comment_votes_comment_id_fkey")
    else none

abbrev pub vote_checked : Option DriverError → ℕ → ℕ → ℤ → M DriverError UpsertCommentVoteRow
vote_checked (some e) user_id comment_id vote db = fail e (next_vote_id db)
vote_checked none user_id comment_id vote db =
    pure (record { vote_row = new_vote user_id comment_id vote db; original_vote = pos 0 })
      (with_votes (λ vs. new_vote user_id comment_id vote db ∷ vs) (next_vote_id db))

abbrev pub upsert_found : ℕ → ℕ → ℤ → Option CommentVote → M DriverError UpsertCommentVoteRow
upsert_found user_id comment_id vote (some v) db =
    pure (record { vote_row = revoted vote db.now v; original_vote = v.vote })
      (with_votes (update_first (is_vote_of user_id comment_id) (revoted vote db.now))
        (next_vote_id db))
upsert_found user_id comment_id vote none db =
    vote_checked (vote_checks user_id comment_id db.tables) user_id comment_id vote db

-- `upsertCommentVote`
abbrev pub upsert_comment_vote : ℕ → ℕ → ℤ → M DriverError UpsertCommentVoteRow
upsert_comment_vote user_id comment_id vote db =
    upsert_found user_id comment_id vote (find_by (is_vote_of user_id comment_id) db.tables.votes)
      db
