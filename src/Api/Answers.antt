-- ===== src/Api/Answers.antt =====
-- What the handlers of api/delete_comment.go and api/delete_user.go answer, and what they leave behind.
use shitposter.Prelude.{
  ℕ, ◌≡◌, refl, arith, true, false, Option, none, some, List, [], ◌==◌, if◌then◌else◌, ◌⊎◌, inl,
  inr, Bool-cases, Option-cases,
}
use shitposter.Db.Error.{
  Error, Kind, op_error, driver, rolled_back_badly, internal, not_found, invalid, permission,
  relation, conflict, deleted, corrupted, constraint, security,
}
use shitposter.Db.Tables.{Comment, Tables, Db}
use shitposter.Db.Monad.{Outcome, done, failed, statement}
use shitposter.Db.Queries.{find_by, exists_by, has_id, replies_to}
use shitposter.Db.Tx.{exec_tx, with_ahead}
use shitposter.Db.Atomic.{AllOrNothing}
use shitposter.Db.Delete.{DeleteCommentTxResult, delete_comment_tx}
use shitposter.Db.Deletes.{Deleted}
use shitposter.Db.Deletion.{delete_comment_tx-AllOrNothing}
use shitposter.Db.Users.{SoftDeleteUserTxResult, soft_delete_user_tx}
use shitposter.Db.Farewell.{SoftDeleted, soft_delete_user_tx-AllOrNothing}
use shitposter.Api.Resource.{op_kind_to_http_status, new_resource_error}
use shitposter.Api.Requests.{
  Response, no_content, DeleteCommentRequest, status_code, answered, delete_by, delete_comment,
  delete_user,
}

-- The comment as the caller sees it: what stands in the way of its deletion, in the order of the checks.
abbrev pub verdict : ℕ → ℕ → Option Comment → ℕ
verdict user post none = 404
verdict user post (some c) =
    if c.user_id == user then if c.post_id == post then 204 else 400 else 403

abbrev pub deletion_status : ℕ → Option ℕ → Option ℕ → List Comment → ℕ
deletion_status user none _ comments = 400
deletion_status user (some post) none comments = 400
deletion_status user (some post) (some i) comments = verdict user post (find_by (has_id i) comments)

found-status :
    (user post i : ℕ) (db : Db)
    → (find_by (has_id i) db.tables.comments ≡ none)
      ⊎ ((c : Comment) × (find_by (has_id i) db.tables.comments ≡ some c))
    → status_code (delete_by user (some post) (some i) (with_ahead [] db)).0
      ≡ verdict user post (find_by (has_id i) db.tables.comments)
unfolding delete_comment_tx exec_tx statement answered new_resource_error op_kind_to_http_status
found-status user post i db (inl missing) = rw missing refl
found-status user post i db (inr (c, found)) =
    by_tests (Bool-cases (c.user_id == user)) (Bool-cases (c.post_id == post))
      (Bool-cases c.is_deleted) (Bool-cases (exists_by (replies_to i) db.tables.comments))
  where
    Goal : Type 0
    Goal =
        status_code (delete_by user (some post) (some i) (with_ahead [] db)).0
        ≡ verdict user post (find_by (has_id i) db.tables.comments)

    by_tests :
        ((c.user_id == user) ≡ true) ⊎ ((c.user_id == user) ≡ false)
        → ((c.post_id == post) ≡ true) ⊎ ((c.post_id == post) ≡ false)
        → (c.is_deleted ≡ true) ⊎ (c.is_deleted ≡ false)
        → (exists_by (replies_to i) db.tables.comments ≡ true)
          ⊎ (exists_by (replies_to i) db.tables.comments ≡ false)
        → Goal
    by_tests (inl u) (inl p) (inl d) _ = rw (found, u, p, d, u, p) refl
    by_tests (inl u) (inl p) (inr d) (inl r) = rw (found, u, p, d, r, u, p, found) refl
    by_tests (inl u) (inl p) (inr d) (inr r) = rw (found, u, p, d, r, u, p) refl
    by_tests (inl u) (inr p) _ _ = rw (found, u, p, u, p) refl
    by_tests (inr u) _ _ _ = rw (found, u, u) refl

-- On a connection that holds a request to delete a comment is answered 400 on a path value that is no
-- number, 404 where there is no such comment, 403 where it is another user's, 400 where it stands under
-- another post, and 204 otherwise.
pub delete_comment-deletion_status :
    (req : DeleteCommentRequest) (db : Db)
    → status_code (delete_comment req (with_ahead [] db)).0
      ≡ deletion_status req.user_id req.post_id req.comment_id db.tables.comments
unfolding delete_comment
delete_comment-deletion_status req db = by_path req.post_id req.comment_id
  where
    by_path :
        (post comment : Option ℕ)
        → status_code (delete_by req.user_id post comment (with_ahead [] db)).0
          ≡ deletion_status req.user_id post comment db.tables.comments
    by_path none comment = refl
    by_path (some post) none = refl
    by_path (some post) (some i) =
        found-status req.user_id post i db (Option-cases (find_by (has_id i) db.tables.comments))

-- An answer 204 after which `P` holds; or an error, with the tables as before or, where the commit failed
-- and was applied all the same, a status 500 after which `P` holds.
abbrev pub Answers : (Db → Type 0) → Tables → Response × Db → Type 0
Answers P before (r, after) =
    ((status_code r ≡ 204) × P after)
    ⊎ (¬ (status_code r ≡ 204)
        × ((after.tables ≡ before) ⊎ ((status_code r ≡ 500) × (after.applied ≡ true) × P after)))

kind-is_error : (k : Kind) → ¬ (op_kind_to_http_status k ≡ 204)
unfolding op_kind_to_http_status
kind-is_error internal = omega arith
kind-is_error not_found = omega arith
kind-is_error invalid = omega arith
kind-is_error permission = omega arith
kind-is_error relation = omega arith
kind-is_error conflict = omega arith
kind-is_error deleted = omega arith
kind-is_error corrupted = omega arith
kind-is_error constraint = omega arith
kind-is_error security = omega arith

-- No error of the store is answered as a success.
error-is_error : (e : Error) → ¬ ((new_resource_error e).status ≡ 204)
unfolding new_resource_error
error-is_error (op_error e) = kind-is_error e.kind
error-is_error (driver e) = omega arith
error-is_error rolled_back_badly = omega arith

answered-Answers :
    {A : Type 0} (P : A → Db → Type 0) (before : Tables) (r : Outcome Error A × Db)
    → AllOrNothing P before r
    → Answers (λ db. (a : A) × P a db) before (answered (λ _. no_content) r)
unfolding answered new_resource_error
answered-Answers P before (done a, db) p = inl (refl, (a, p))
answered-Answers P before (failed e, db) (inl same) = inr (error-is_error e, inl same)
answered-Answers P before (failed e, db) (inr ((x, is_driver), lost, p)) =
    inr (error-is_error e, inr (rw is_driver refl, lost, p))

-- What a request to delete a comment leaves behind.
abbrev pub Deletes : ℕ → Option ℕ → Option ℕ → Db → Response × Db → Type 0
Deletes user none _ db r = Answers (λ after. ⊥) db.tables r
Deletes user (some post) none db r = Answers (λ after. ⊥) db.tables r
Deletes user (some post) (some i) db r =
    Answers
      (λ after.
        (result : DeleteCommentTxResult) × Deleted
          (record { comment_id = i; user_id = user; post_id = post }) db result.success after)
      db.tables r

-- However the connection behaves, a request to delete a comment that is answered 204 has deleted the
-- comment that the path names, as its author, or found it deleted. Any other answer leaves every table
-- as it was, but for a 500 after a commit that failed and was applied all the same, which has done it.
pub delete_comment-Deletes :
    (req : DeleteCommentRequest) (db : Db)
    → Deletes req.user_id req.post_id req.comment_id db (delete_comment req db)
unfolding delete_comment
delete_comment-Deletes req db = by_path req.post_id req.comment_id
  where
    by_path :
        (post comment : Option ℕ)
        → Deletes req.user_id post comment db (delete_by req.user_id post comment db)
    by_path none comment = inr (omega arith, inl refl)
    by_path (some post) none = inr (omega arith, inl refl)
    by_path (some post) (some i) =
        answered-Answers
          (λ (result : DeleteCommentTxResult).
            Deleted (record { comment_id = i; user_id = req.user_id; post_id = post }) db
              result.success)
          db.tables _ (delete_comment_tx-AllOrNothing _ db)

-- However the connection behaves, a request to delete the caller's account that is answered 204 has
-- marked the user as deleted, or found it marked, and removed the user's sessions and credentials. Any
-- other answer leaves every table as it was, but for a 500 after a commit that failed and was applied all
-- the same, which has done it.
pub delete_user-SoftDeleted :
    (user : ℕ) (db : Db)
    → Answers
        (λ after. (result : SoftDeleteUserTxResult) × SoftDeleted user db result after)
        db.tables
        (delete_user user db)
unfolding delete_user soft_delete_user_tx
delete_user-SoftDeleted user db =
    answered-Answers (SoftDeleted user db) db.tables _ (soft_delete_user_tx-AllOrNothing user db)
