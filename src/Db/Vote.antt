-- ===== src/Db/Vote.antt =====
-- db/sqlc/tx_vote_comment.go: a user votes a comment up or down.
use shitposter.Prelude.{ℕ, Bool, not, ◌||◌, [], ◌∷◌, if◌then◌else◌, String}
use shitposter.Prelude.Int.{ℤ, pos, negsuc, ◌+ℤ◌, ◌==ℤ◌}
use shitposter.Db.Error.{
  OpError, OpDetails, DriverError, Error, number, invalid, conflict, deleted, Entity, new_op_error,
  no_rows, with_entity_id, with_field, no_details, sql_error,
}
use shitposter.Db.Tables.{Comment}
use shitposter.Db.Monad.{M, fail, ◌>>=◌, or_else, statement}
use shitposter.Db.VoteQueries.{UpsertCommentVoteRow, upsert_comment_vote}
use shitposter.Db.Queries.{update_comment_popularity}
use shitposter.Db.Tx.{exec_tx}

pub record VoteCommentTxParams : Type 0 where
  pub user_id : ℕ
  pub comment_id : ℕ
  pub vote : ℤ

abbrev op_vote_comment : String
op_vote_comment = "vote-comment"

abbrev vote_details : VoteCommentTxParams → OpDetails
vote_details arg = record no_details {
  user_id = number arg.user_id;
  comment_id = number arg.comment_id;
  entity = Entity.comment_vote;
}

abbrev popularity_error : VoteCommentTxParams → DriverError → OpError
popularity_error arg no_rows =
    new_op_error op_vote_comment deleted Entity.comment
      (with_entity_id (number arg.comment_id) ∷ [])
popularity_error arg e = sql_error op_vote_comment (vote_details arg) e

-- What a vote adds to the counter of the votes that equal `side`.
abbrev pub counted : ℤ → ℤ → ℤ
counted side vote = if vote ==ℤ side then pos 1 else pos 0

abbrev pub uncounted : ℤ → ℤ → ℤ
uncounted side vote = if vote ==ℤ side then negsuc 0 else pos 0

-- upDelta and downDelta, by the new vote and the old one
abbrev pub delta : ℤ → ℤ → ℤ → ℤ
delta side new_vote old_vote = counted side new_vote +ℤ uncounted side old_vote

abbrev pub after_upsert : VoteCommentTxParams → UpsertCommentVoteRow → M OpError Comment
after_upsert arg row =
    if row.original_vote ==ℤ arg.vote
    then fail (
        new_op_error op_vote_comment conflict Entity.comment_vote
          (with_field "vote" ∷ with_entity_id (number row.vote_row.id) ∷ []))
    else or_else
        (statement (
          update_comment_popularity arg.comment_id (delta (pos 1) arg.vote row.original_vote)
            (delta (negsuc 0) arg.vote row.original_vote)))
        (popularity_error arg)

abbrev pub is_vote : ℤ → Bool
is_vote v = (v ==ℤ negsuc 0) || (v ==ℤ pos 1)

abbrev pub vote_body : VoteCommentTxParams → M OpError Comment
vote_body arg =
    if not (is_vote arg.vote)
    then fail (new_op_error op_vote_comment invalid Entity.comment_vote (with_field "vote" ∷ []))
    else (do
      row ←
          or_else (statement (upsert_comment_vote arg.user_id arg.comment_id arg.vote))
            (sql_error op_vote_comment (vote_details arg))
      after_upsert arg row)

-- `VoteCommentTx`
unfoldable pub vote_comment_tx : VoteCommentTxParams → M Error Comment
vote_comment_tx arg = exec_tx (vote_body arg)
