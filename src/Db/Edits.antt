-- ===== src/Db/Edits.antt =====
-- What rewriting a comment does, whether it succeeds or fails.
use shitposter.Prelude.{
  ◌≡◌, refl, arith, Bool, true, false, not, ◌&&◌, Option, none, some, List, [], ◌∷◌, ◌==◌,
  if◌then◌else◌,
}
use shitposter.Db.Error.{DriverError, Error}
use shitposter.Db.Tables.{Comment, Db}
use shitposter.Db.Monad.{
  fail, M, Outcome, done, failed, pure, statement, continue, relabel, by_weather,
}
use shitposter.Db.Queries.{
  has_nul, bad_text, UpdateCommentRow, find_by, update_by, has_id, with_body, with_comments,
  update_comment_body, update_found, update_row,
}
use shitposter.Db.Delete.{
  UpdateCommentParams, UpdateCommentResult, update_error, after_update, update_comment,
}
use shitposter.Db.Threads.{find-has_id}
use shitposter.Db.Tx.{with_ahead}

-- A comment that is rewritten is not deleted, is rewritten by its author and under its post.
pub record Edited (arg : UpdateCommentParams) (db after : Db) : Type 0 where
  pub target : Comment
  pub found : find_by (has_id arg.comment_id) db.tables.comments ≡ some target
  pub author : target.user_id ≡ arg.user_id
  pub post : target.post_id ≡ arg.post_id
  pub alive : target.is_deleted ≡ false
  pub tables : after.tables ≡ record db.tables {
    comments = update_by (has_id arg.comment_id) (with_body arg.body db.now) db.tables.comments;
  }
  pub sequence : after.comment_seq ≡ db.comment_seq

abbrev pub EditsOrFails : UpdateCommentParams → Db → Outcome Error UpdateCommentResult × Db → Type 0
EditsOrFails arg db (done r, after) =
    (r.id ≡ arg.comment_id) × (r.body ≡ arg.body) × Edited arg db after
EditsOrFails arg db (failed e, after) =
    (after.tables ≡ db.tables) × (after.comment_seq ≡ db.comment_seq)

-- A row that was not updated always ends in an error.
refused :
    (arg : UpdateCommentParams) (db mid : Db) (row : UpdateCommentRow)
    → row.updated ≡ false
    → mid.tables ≡ db.tables
    → mid.comment_seq ≡ db.comment_seq
    → EditsOrFails arg db (after_update arg row mid)
refused arg db mid row e t s = rw e (
    by_if (not (row.user_id == arg.user_id)) _ _ (t, s)
      (by_if row.is_deleted _ _ (t, s)
        (by_if (not (row.post_id == arg.post_id)) _ _ (t, s) (t, s))))
  where
    by_if :
        (b : Bool) (x y : M Error UpdateCommentResult)
        → EditsOrFails arg db (x mid)
        → EditsOrFails arg db (y mid)
        → EditsOrFails arg db ((if b then x else y) mid)
    by_if true x y h k = h
    by_if false x y h k = k

-- An update rewrites one live comment of the caller's, or it fails and changes nothing.
pub update_comment-EditsOrFails :
    (arg : UpdateCommentParams) (db : Db) → EditsOrFails arg db (update_comment arg db)
unfolding update_comment statement
update_comment-EditsOrFails arg db = by_ahead db.ahead
  where
    Goal : Outcome DriverError UpdateCommentRow × Db → Type 0
    Goal r = EditsOrFails arg db (continue (relabel (update_error arg) r) (after_update arg))

    query : M DriverError UpdateCommentRow
    query = update_comment_body arg.comment_id arg.user_id arg.post_id arg.body

    by_test :
        (sky : List (Option DriverError)) (c : Comment) (b : Bool)
        → find_by (has_id arg.comment_id) db.tables.comments ≡ some c
        → ((c.user_id == arg.user_id) && (c.post_id == arg.post_id) && not c.is_deleted) ≡ b
        → Goal (
            if b
            then pure (update_row (with_body arg.body db.now c) true) (
                with_comments
                  (update_by (has_id arg.comment_id) (with_body arg.body db.now))
                  (with_ahead sky db))
            else pure (update_row c false) (with_ahead sky db))
    by_test sky c true found may = (
      find-has_id arg.comment_id c db.tables.comments found,
      refl,
      record {
        target = c;
        found = found;
        author = ground (arith, may);
        post = ground (arith, may);
        alive = ground (arith, may);
        tables = refl;
        sequence = refl;
      },
    )
    by_test sky c false found may_not =
        refused arg db (with_ahead sky db) (update_row c false) refl refl refl

    by_found :
        (sky : List (Option DriverError)) (o : Option Comment)
        → find_by (has_id arg.comment_id) db.tables.comments ≡ o
        → Goal (update_found arg.comment_id arg.user_id arg.post_id arg.body o (with_ahead sky db))
    by_found sky none e = (refl, refl)
    by_found sky (some c) e = by_test sky c _ e refl

    by_text :
        (sky : List (Option DriverError)) (b : Bool)
        → Goal (
            (if b then fail bad_text else (λ d.
                update_found arg.comment_id arg.user_id arg.post_id arg.body
                  (find_by (has_id arg.comment_id) d.tables.comments)
                  d))
              (with_ahead sky db))
    by_text sky true = (refl, refl)
    by_text sky false = by_found sky _ refl

    by_ahead : (sky : List (Option DriverError)) → Goal (by_weather sky query db)
    by_ahead [] = by_text db.ahead (has_nul arg.body)
    by_ahead (none ∷ later) = by_text later (has_nul arg.body)
    by_ahead (some x ∷ later) = (refl, refl)
