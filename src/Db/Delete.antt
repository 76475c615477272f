-- ===== src/Db/Delete.antt =====
-- db/sqlc/tx_delete_comment.go and db/sqlc/update_comment.go: an author removes or rewrites a comment.
use shitposter.Prelude.{ℕ, Bool, true, not, ◌||◌, [], ◌∷◌, ◌==◌, if◌then◌else◌, String}
use shitposter.Db.Error.{
  OpError, OpDetails, DriverError, Error, op_error, number, internal, permission, relation, deleted,
  corrupted, Entity, new_op_error, not_found_error, no_rows, with_entity_id, with_user,
  with_related, with_field, no_details, sql_error,
}
use shitposter.Db.Tables.{Comment}
use shitposter.Db.Monad.{M, pure, fail, ◌>>=◌, or_else, statement}
use shitposter.Db.Queries.{
  DeleteCommentIfLeafRow, UpdateCommentRow, delete_comment_if_leaf, soft_delete_comment,
  update_comment_body,
}
use shitposter.Db.Tx.{exec_tx}

pub record DeleteCommentTxParams : Type 0 where
  pub comment_id : ℕ
  pub user_id : ℕ
  pub post_id : ℕ

pub record DeleteCommentTxResult : Type 0 where
  pub id : ℕ
  pub user_id : ℕ
  pub post_id : ℕ
  pub is_deleted : Bool
  pub deleted_at : ℕ
  pub has_children : Bool
  pub deleted_ok : Bool
  pub success : Bool

abbrev op_delete_comment : String
op_delete_comment = "delete-comment"

abbrev delete_details : DeleteCommentTxParams → OpDetails
delete_details arg = record no_details {
  user_id = number arg.user_id;
  post_id = number arg.post_id;
  comment_id = number arg.comment_id;
  entity = Entity.comment;
}

abbrev delete_error : DeleteCommentTxParams → DriverError → OpError
delete_error arg no_rows = not_found_error op_delete_comment Entity.comment (number arg.comment_id)
delete_error arg e = sql_error op_delete_comment (delete_details arg) e

-- The row that a soft deletion answers with.
abbrev pub softly : Comment → DeleteCommentIfLeafRow
softly c = record {
  id = c.id;
  user_id = c.user_id;
  post_id = c.post_id;
  is_deleted = c.is_deleted;
  deleted_at = c.deleted_at;
  has_children = true;
  deleted_ok = true;
}

-- What follows the attempt to delete a leaf.
abbrev pub after_leaf :
    DeleteCommentTxParams → DeleteCommentIfLeafRow → M OpError DeleteCommentIfLeafRow
after_leaf arg row =
    if not (row.user_id == arg.user_id)
    then fail (
        new_op_error op_delete_comment permission Entity.comment (
          with_related Entity.user (number arg.user_id)
          ∷ with_user (number arg.user_id)
          ∷ with_entity_id (number arg.comment_id)
          ∷ with_field "user_id"
          ∷ []))
    else if not (row.post_id == arg.post_id)
    then fail (
        new_op_error op_delete_comment relation Entity.comment (
          with_related Entity.post (number arg.post_id)
          ∷ with_entity_id (number arg.comment_id)
          ∷ with_field "post_id"
          ∷ []))
    else if row.deleted_ok || row.is_deleted
    then pure row
    else if row.has_children
    then (do
      c ←
          or_else (statement (soft_delete_comment arg.comment_id))
            (sql_error op_delete_comment (delete_details arg))
      pure (softly c))
    else fail (new_op_error op_delete_comment corrupted Entity.comment [])

abbrev pub delete_result : DeleteCommentIfLeafRow → DeleteCommentTxResult
delete_result row = record {
  id = row.id;
  user_id = row.user_id;
  post_id = row.post_id;
  is_deleted = row.is_deleted;
  deleted_at = row.deleted_at;
  has_children = row.has_children;
  deleted_ok = row.deleted_ok;
  success = row.deleted_ok || row.is_deleted;
}

abbrev pub delete_body : DeleteCommentTxParams → M OpError DeleteCommentIfLeafRow
delete_body arg = do
  row ←
      or_else (statement (delete_comment_if_leaf arg.comment_id arg.user_id arg.post_id))
        (delete_error arg)
  after_leaf arg row

-- `DeleteCommentTx`
unfoldable pub delete_comment_tx : DeleteCommentTxParams → M Error DeleteCommentTxResult
delete_comment_tx arg = do row ← exec_tx (delete_body arg); pure (delete_result row)

pub record UpdateCommentParams : Type 0 where
  pub user_id : ℕ
  pub post_id : ℕ
  pub comment_id : ℕ
  pub body : String

pub record UpdateCommentResult : Type 0 where
  pub id : ℕ
  pub body : String
  pub last_modified_at : ℕ

abbrev op_update_comment : String
op_update_comment = "update-comment"

abbrev update_details : UpdateCommentParams → OpDetails
update_details arg = record no_details {
  user_id = number arg.user_id;
  post_id = number arg.post_id;
  comment_id = number arg.comment_id;
  entity = Entity.comment;
}

abbrev pub update_error : UpdateCommentParams → DriverError → Error
update_error arg no_rows =
    op_error (not_found_error op_update_comment Entity.comment (number arg.comment_id))
update_error arg e = op_error (sql_error op_update_comment (update_details arg) e)

abbrev pub after_update : UpdateCommentParams → UpdateCommentRow → M Error UpdateCommentResult
after_update arg row =
    if row.updated
    then pure (record { id = row.id; body = row.body; last_modified_at = row.last_modified_at })
    else if not (row.user_id == arg.user_id)
    then fail (
        op_error (
          new_op_error op_update_comment permission Entity.comment
            (with_entity_id (number arg.comment_id) ∷ with_user (number arg.user_id) ∷ [])))
    else if row.is_deleted
    then fail (
        op_error (
          new_op_error op_update_comment deleted Entity.comment
            (with_entity_id (number arg.comment_id) ∷ [])))
    else if not (row.post_id == arg.post_id)
    then fail (
        op_error (
          new_op_error op_update_comment relation Entity.comment (
            with_entity_id (number arg.comment_id)
            ∷ with_related Entity.post (number arg.post_id)
            ∷ [])))
    else fail (
        op_error (
          new_op_error op_update_comment internal Entity.comment
            (with_entity_id (number arg.comment_id) ∷ [])))

-- `UpdateComment`: one statement, outside of any transaction of the store's.
unfoldable pub update_comment : UpdateCommentParams → M Error UpdateCommentResult
update_comment arg = do
  row ←
      or_else (statement (update_comment_body arg.comment_id arg.user_id arg.post_id arg.body))
        (update_error arg)
  after_update arg row
