-- ===== src/Db/Insert.antt =====
-- db/sqlc/tx_insert_comment.go: a new comment, a root or a reply to another one.
use shitposter.Prelude.{ℕ, ◌+◌, not, Option, none, some, [], ◌∷◌, leb, ◌==◌, if◌then◌else◌, String}
use shitposter.Prelude.Int.{ℤ}
use shitposter.Db.Error.{
  OpError, OpDetails, DriverError, Error, Ident, absent, number, not_found, relation, deleted,
  constraint, Entity, new_op_error, no_rows, with_entity_id, with_user, with_related, with_field,
  no_details, sql_error,
}
use shitposter.Db.Tables.{Config, Comment}
use shitposter.Db.Monad.{M, pure, fail, ◌>>=◌, or_else, statement}
use shitposter.Db.Queries.{
  CreateCommentParams, create_comment, get_comment_with_lock, get_root_comment_count_for_user,
}
use shitposter.Db.Tx.{exec_tx}

pub record InsertCommentTxParams : Type 0 where
  pub user_id : ℕ
  pub post_id : ℕ
  pub body : String
  pub parent_id : Option ℕ
  pub upvotes : ℤ
  pub downvotes : ℤ

abbrev op_insert_comment : String
op_insert_comment = "insert-comment"

abbrev insert_details : InsertCommentTxParams → Ident → OpDetails
insert_details arg i = record no_details {
  user_id = number arg.user_id;
  post_id = number arg.post_id;
  comment_id = i;
  entity = Entity.comment;
}

-- What becomes of an error while the parent is read.
abbrev pub parent_error : InsertCommentTxParams → ℕ → DriverError → OpError
parent_error arg i no_rows =
    new_op_error op_insert_comment not_found Entity.comment
      (with_related Entity.comment (number i) ∷ [])
parent_error arg i e = sql_error op_insert_comment (insert_details arg (number i)) e

-- The depth of a reply to that comment, where it may be replied to.
abbrev pub reply_depth : Config → InsertCommentTxParams → ℕ → Comment → M OpError ℕ
reply_depth cfg arg i parent =
    if not (parent.post_id == arg.post_id)
    then fail (
        new_op_error op_insert_comment relation Entity.comment
          (with_related Entity.comment (number i) ∷ with_field "post_id" ∷ []))
    else if parent.is_deleted
    then fail (
        new_op_error op_insert_comment deleted Entity.comment
          (with_entity_id (number parent.id) ∷ []))
    else if leb cfg.comment_max_nesting_depth (parent.depth + 1)
    then fail (
        new_op_error op_insert_comment constraint Entity.comment
          (with_entity_id (number parent.id) ∷ []))
    else if parent.user_id == arg.user_id
    then fail (
        new_op_error op_insert_comment constraint Entity.comment
          (with_user (number arg.user_id) ∷ []))
    else pure (parent.depth + 1)

abbrev pub root_depth : Config → InsertCommentTxParams → ℕ → M OpError ℕ
root_depth cfg arg count =
    if leb cfg.comment_max_root_count_per_user count
    then fail (
        new_op_error op_insert_comment constraint Entity.comment
          (with_user (number arg.user_id) ∷ with_related Entity.post (number arg.post_id) ∷ []))
    else pure 0

abbrev pub depth_for : Config → InsertCommentTxParams → Option ℕ → M OpError ℕ
depth_for cfg arg (some i) = do
  parent ← or_else (statement (get_comment_with_lock i)) (parent_error arg i)
  reply_depth cfg arg i parent
depth_for cfg arg none = do
  count ←
      or_else (statement (get_root_comment_count_for_user arg.post_id arg.user_id))
        (sql_error op_insert_comment (insert_details arg absent))
  root_depth cfg arg count

abbrev pub create_params : InsertCommentTxParams → ℕ → CreateCommentParams
create_params arg depth = record {
  user_id = arg.user_id;
  post_id = arg.post_id;
  body = arg.body;
  parent_id = arg.parent_id;
  depth = depth;
  upvotes = arg.upvotes;
  downvotes = arg.downvotes;
}

-- `arg.ParentID.Int64`
abbrev parent_ident : Option ℕ → Ident
parent_ident none = number 0
parent_ident (some i) = number i

abbrev pub insert_row : InsertCommentTxParams → ℕ → M OpError Comment
insert_row arg depth =
    or_else (statement (create_comment (create_params arg depth)))
      (sql_error op_insert_comment (insert_details arg (parent_ident arg.parent_id)))

abbrev pub insert_body : Config → InsertCommentTxParams → M OpError Comment
insert_body cfg arg = do depth ← depth_for cfg arg arg.parent_id; insert_row arg depth

-- `InsertCommentTx`
unfoldable pub insert_comment_tx : Config → InsertCommentTxParams → M Error Comment
insert_comment_tx cfg arg = exec_tx (insert_body cfg arg)
