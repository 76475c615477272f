-- ===== src/Db/Deletes.antt =====
-- What a deletion that succeeds has done.
use shitposter.Prelude.{
  ℕ, ◌≡◌, refl, arith, Bool, true, false, not, ◌&&◌, Option, none, some, List, ◌==◌, if◌then◌else◌,
  ◌⊎◌, inl, inr,
}
use shitposter.Db.Error.{DriverError}
use shitposter.Db.Tables.{Comment, Tables, Db}
use shitposter.Db.Monad.{pure}
use shitposter.Db.Queries.{
  DeleteCommentIfLeafRow, find_by, exists_by, update_by, remove_by, has_id, replies_to, as_deleted,
  delete_comment_if_leaf, delete_found, leaf_row, without_comment,
}
use shitposter.Db.Delete.{DeleteCommentTxParams}
use shitposter.Db.Tx.{Ensures, with_ahead}

-- The tables without the comment and its votes, and with the comment marked as deleted.
abbrev pub removed : ℕ → Tables → Tables
removed i t = record t {
  comments = remove_by (has_id i) t.comments;
  votes = remove_by (λ v. v.comment_id == i) t.votes;
}

abbrev pub softened : ℕ → ℕ → Tables → Tables
softened i now t = record t { comments = update_by (has_id i) (as_deleted now) t.comments }

-- How a comment is deleted: it goes with its votes where nothing replies to it, it stays as a mark
-- where something does, and nothing happens where it is deleted already.
abbrev pub Gone : ℕ → Comment → Db → Tables → Type 0
Gone i target db after =
    (target.is_deleted ≡ false)
    × (exists_by (replies_to i) db.tables.comments ≡ false)
    × (after ≡ removed i db.tables)

abbrev pub Marked : ℕ → Comment → Db → Tables → Type 0
Marked i target db after =
    (target.is_deleted ≡ false)
    × (exists_by (replies_to i) db.tables.comments ≡ true)
    × (after ≡ softened i db.now db.tables)

pub record Deleted (arg : DeleteCommentTxParams) (db : Db) (success : Bool) (after : Db)
    : Type 0 where
  pub target : Comment
  pub found : find_by (has_id arg.comment_id) db.tables.comments ≡ some target
  pub author : target.user_id ≡ arg.user_id
  pub post : target.post_id ≡ arg.post_id
  pub how :
      Gone arg.comment_id target db after.tables
      ⊎ (Marked arg.comment_id target db after.tables
          ⊎ ((target.is_deleted ≡ true) × (after.tables ≡ db.tables)))
  pub reported : success ≡ true
  pub sequence : after.comment_seq ≡ db.comment_seq

-- What the attempt to delete a leaf has done.
pub record Tried (arg : DeleteCommentTxParams) (db : Db) (row : DeleteCommentIfLeafRow) (mid : Db)
    : Type 0 where
  pub target : Comment
  pub found : find_by (has_id arg.comment_id) db.tables.comments ≡ some target
  pub user_id : row.user_id ≡ target.user_id
  pub post_id : row.post_id ≡ target.post_id
  pub is_deleted : row.is_deleted ≡ target.is_deleted
  pub children : row.has_children ≡ exists_by (replies_to arg.comment_id) db.tables.comments
  pub how :
      ((row.deleted_ok ≡ true) × Gone arg.comment_id target db mid.tables)
      ⊎ ((row.deleted_ok ≡ false) × (mid.tables ≡ db.tables))
  pub sequence : mid.comment_seq ≡ db.comment_seq
  pub now : mid.now ≡ db.now

pub leaf-Tried :
    (arg : DeleteCommentTxParams) (db : Db) (sky : List (Option DriverError))
    → Ensures
        (Tried arg db)
        (delete_comment_if_leaf arg.comment_id arg.user_id arg.post_id (with_ahead sky db))
leaf-Tried arg db sky = by_found (find_by (has_id arg.comment_id) db.tables.comments) refl
  where
    by_found :
        (o : Option Comment)
        → find_by (has_id arg.comment_id) db.tables.comments ≡ o
        → Ensures
            (Tried arg db)
            (delete_found arg.comment_id arg.user_id arg.post_id o (with_ahead sky db))
    by_found none e = tt
    by_found (some c) e =
        by_test
          ((c.user_id == arg.user_id)
            && (c.post_id == arg.post_id)
            && not c.is_deleted
            && not children)
          refl
      where
        children : Bool
        children = exists_by (replies_to arg.comment_id) db.tables.comments

        by_test :
            (b : Bool)
            → ((c.user_id == arg.user_id)
                && (c.post_id == arg.post_id)
                && not c.is_deleted
                && not children)
              ≡ b
            → Ensures (Tried arg db) (
                if b
                then pure {E = DriverError}
                    (leaf_row c children true)
                    (without_comment arg.comment_id (with_ahead sky db))
                else pure (leaf_row c children false) (with_ahead sky db))
        by_test true may = record {
          target = c;
          found = e;
          user_id = refl;
          post_id = refl;
          is_deleted = refl;
          children = refl;
          how = inl (refl, (ground (arith, may), ground (arith, may), refl));
          sequence = refl;
          now = refl;
        }
        by_test false may_not = record {
          target = c;
          found = e;
          user_id = refl;
          post_id = refl;
          is_deleted = refl;
          children = refl;
          how = inr (refl, refl);
          sequence = refl;
          now = refl;
        }
