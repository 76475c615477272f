-- ===== src/Db/Deletion.antt =====
-- What a deletion of db/sqlc/tx_delete_comment.go does, through its transaction.
use shitposter.Prelude.{
  ◌≡◌, refl, ◌∙◌, sym, arith, true, false, not, ◌||◌, Option, none, some, List, ◌==◌, Bool-cases,
  ◌⊎◌, inl, inr,
}
use shitposter.Db.Error.{DriverError}
use shitposter.Db.Tables.{Comment, Db}
use shitposter.Db.Monad.{pure}
use shitposter.Db.Queries.{
  DeleteCommentIfLeafRow, find_by, has_id, as_deleted, delete_comment_if_leaf, soft_delete_comment,
  returning,
}
use shitposter.Db.Delete.{
  DeleteCommentTxParams, DeleteCommentTxResult, after_leaf, delete_body, softly, delete_comment_tx,
  delete_result,
}
use shitposter.Db.Tx.{exec_tx, Ensures, with_ahead, query-Ensures, if-Ensures, weaken-Ensures}
use shitposter.Db.Atomic.{AllOrNothing, AllOrNothing-Ensures, exec_tx-ensured, then-AllOrNothing}
use shitposter.Db.Deletes.{Gone, Marked, Deleted, Tried, leaf-Tried}

abbrev RowDeleted : DeleteCommentTxParams → Db → DeleteCommentIfLeafRow → Db → Type 0
RowDeleted arg db row after = Deleted arg db (row.deleted_ok || row.is_deleted) after

soft-Deleted :
    (arg : DeleteCommentTxParams) (db : Db) (row : DeleteCommentIfLeafRow) (mid : Db)
    → (sky : List (Option DriverError)) → (v : Tried arg db row mid) → row.user_id ≡ arg.user_id
    → row.post_id ≡ arg.post_id
    → row.is_deleted ≡ false
    → row.deleted_ok ≡ false
    → row.has_children ≡ true
    → Ensures
        (λ c. RowDeleted arg db (softly c))
        (soft_delete_comment arg.comment_id (with_ahead sky mid))
soft-Deleted arg db row mid sky v author post alive here children =
    by_found (find_by (has_id arg.comment_id) mid.tables.comments)
  where
    same_tables : mid.tables ≡ db.tables
    same_tables = by_how v.how
      where
        by_how :
            ((row.deleted_ok ≡ true) × Gone arg.comment_id v.target db mid.tables)
              ⊎ ((row.deleted_ok ≡ false) × (mid.tables ≡ db.tables))
            → mid.tables ≡ db.tables
        by_how (inl (gone, _)) = absurd (cc (gone, here))
        by_how (inr (_, same)) = same

    by_found :
        (o : Option Comment)
        → Ensures
            (λ c. RowDeleted arg db (softly c))
            (returning o (has_id arg.comment_id) (as_deleted mid.now) (with_ahead sky mid))
    by_found none = tt
    by_found (some c) = record {
      target = v.target;
      found = v.found;
      author = sym v.user_id ∙ author;
      post = sym v.post_id ∙ post;
      how =
          inr (
            inl
              (sym v.is_deleted ∙ alive, sym v.children ∙ children, rw (same_tables, v.now) refl));
      reported = refl;
      sequence = v.sequence;
    }

after_leaf-Deleted :
    (arg : DeleteCommentTxParams) (db : Db) (row : DeleteCommentIfLeafRow) (mid : Db)
    → Tried arg db row mid
    → Ensures (RowDeleted arg db) (after_leaf arg row mid)
after_leaf-Deleted arg db row mid v =
    if-Ensures P (not (row.user_id == arg.user_id)) _ _ mid (λ _. tt)
      (λ author.
        if-Ensures P (not (row.post_id == arg.post_id)) _ _ mid (λ _. tt)
          (λ post.
            if-Ensures P (row.deleted_ok || row.is_deleted) _ _ mid
              (λ ended.
                finished (ground (arith, author)) (ground (arith, post)) ended v.how
                  (Bool-cases row.is_deleted))
              (λ going.
                if-Ensures P row.has_children _ _ mid
                  (λ children.
                    query-Ensures (λ c. RowDeleted arg db (softly c)) P
                      (soft_delete_comment arg.comment_id) _ (λ c. pure (softly c)) mid
                      (λ sky.
                        soft-Deleted arg db row mid sky v (ground (arith, author))
                          (ground (arith, post)) (ground (arith, going)) (ground (arith, going))
                          children)
                      (λ c after w. w))
                  (λ _. tt))))
  where
    P : DeleteCommentIfLeafRow → Db → Type 0
    P = RowDeleted arg db

    finished :
        row.user_id ≡ arg.user_id
        → row.post_id ≡ arg.post_id
        → (row.deleted_ok || row.is_deleted) ≡ true
        → ((row.deleted_ok ≡ true) × Gone arg.comment_id v.target db mid.tables)
          ⊎ ((row.deleted_ok ≡ false) × (mid.tables ≡ db.tables))
        → (row.is_deleted ≡ true) ⊎ (row.is_deleted ≡ false)
        → RowDeleted arg db row mid
    finished author post ended how dead = record {
      target = v.target;
      found = v.found;
      author = sym v.user_id ∙ author;
      post = sym v.post_id ∙ post;
      how = by_how how dead;
      reported = ended;
      sequence = v.sequence;
    }
      where
        by_how :
            ((row.deleted_ok ≡ true) × Gone arg.comment_id v.target db mid.tables)
              ⊎ ((row.deleted_ok ≡ false) × (mid.tables ≡ db.tables))
            → (row.is_deleted ≡ true) ⊎ (row.is_deleted ≡ false)
            → Gone arg.comment_id v.target db mid.tables
              ⊎ (Marked arg.comment_id v.target db mid.tables
                  ⊎ ((v.target.is_deleted ≡ true) × (mid.tables ≡ db.tables)))
        by_how (inl (_, gone)) _ = inl gone
        by_how (inr (_, same)) (inl dead) = inr (inr (sym v.is_deleted ∙ dead, same))
        by_how (inr (here, same)) (inr alive) = absurd (ground (arith, ended, here, alive))

-- The same of a deletion that is applied although its commit fails; any other failure changes no table.
pub delete_comment_tx-AllOrNothing :
    (arg : DeleteCommentTxParams) (db : Db)
    → AllOrNothing
        (λ (r : DeleteCommentTxResult). Deleted arg db r.success)
        db.tables
        (delete_comment_tx arg db)
unfolding delete_comment_tx
delete_comment_tx-AllOrNothing arg db =
    then-AllOrNothing {P = RowDeleted arg db}
      (λ (r : DeleteCommentTxResult). Deleted arg db r.success) delete_result db.tables
      (exec_tx (delete_body arg) db) (λ row mid v. v)
      (exec_tx-ensured (RowDeleted arg db) (delete_body arg) db
        (λ sky.
          weaken-Ensures (RowDeleted arg db) (delete_body arg (with_ahead sky db))
            (λ row mid v. record {
              target = v.target;
              found = v.found;
              author = v.author;
              post = v.post;
              how = v.how;
              reported = v.reported;
              sequence = v.sequence;
            })
            (body-Deleted (with_ahead sky db)))
        (λ row mid sky v. record {
          target = v.target;
          found = v.found;
          author = v.author;
          post = v.post;
          how = v.how;
          reported = v.reported;
          sequence = v.sequence;
        }))
  where
    body-Deleted : (d : Db) → Ensures (RowDeleted arg d) (delete_body arg d)
    body-Deleted d =
        query-Ensures (Tried arg d) (RowDeleted arg d)
          (delete_comment_if_leaf arg.comment_id arg.user_id arg.post_id) _ (after_leaf arg) d
          (leaf-Tried arg d) (after_leaf-Deleted arg d)

-- A deletion that succeeds was asked for by the comment's author, under its post, and it reports
-- success. A comment that nothing replies to is gone with the votes for it, one with replies stays
-- as a mark, and one that is deleted already stays as it is.
pub delete_comment_tx-Deleted :
    (arg : DeleteCommentTxParams) (db : Db)
    → Ensures (λ (r : DeleteCommentTxResult). Deleted arg db r.success) (delete_comment_tx arg db)
delete_comment_tx-Deleted arg db =
    AllOrNothing-Ensures (λ (r : DeleteCommentTxResult). Deleted arg db r.success) db.tables
      (delete_comment_tx arg db) (delete_comment_tx-AllOrNothing arg db)
