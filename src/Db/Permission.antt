-- ===== src/Db/Permission.antt =====
-- When a deletion (db/sqlc/tx_delete_comment.go), a vote (db/sqlc/tx_vote_comment.go) and a sign-in
-- (db/sqlc/record_credential_use.go) are granted.
use shitposter.Prelude.{
  ◌≡◌, refl, sym, ap, ◌∙◌, arith, Bool, true, false, not, ◌&&◌, ◌||◌, Option, none, some, [], ◌==◌,
  Bool-cases, Option-cases, ◌⊎◌, inl, inr, Bytes,
}
use shitposter.Prelude.Int.{ℤ, pos, ◌==ℤ◌, leb_ℤ}
use shitposter.Db.Tables.{Comment, CommentVote, WebauthnCredential, Db}
use shitposter.Db.Monad.{statement}
use shitposter.Db.Queries.{find_by, exists_by, has_id, has_user, is_live, replies_to}
use shitposter.Db.VoteQueries.{is_vote_of}
use shitposter.Db.Vote.{VoteCommentTxParams, is_vote, vote_comment_tx}
use shitposter.Db.Tx.{exec_tx, with_ahead}
use shitposter.Db.Admission.{is_done}
use shitposter.Db.Delete.{DeleteCommentTxParams, delete_comment_tx}
use shitposter.Db.Credentials.{record_credential_use, has_credential_id, is_suspicious}

abbrev pub is_own : DeleteCommentTxParams → Option Comment → Bool
is_own arg none = false
is_own arg (some c) = (c.user_id == arg.user_id) && (c.post_id == arg.post_id)

-- On a connection that holds a deletion is done exactly where the comment exists, is the caller's, and
-- stands under the given post, whether it has replies or is deleted already.
pub delete_comment_tx-is_own :
    (arg : DeleteCommentTxParams) (db : Db)
    → is_done (delete_comment_tx arg (with_ahead [] db)).0
      ≡ is_own arg (find_by (has_id arg.comment_id) db.tables.comments)
unfolding delete_comment_tx exec_tx statement
delete_comment_tx-is_own arg db =
    elim (Option-cases (find_by (has_id arg.comment_id) db.tables.comments)) [
      | inl missing ↦ rw missing refl
      | inr (c, found) ↦
          by_tests c found (Bool-cases (c.user_id == arg.user_id))
            (Bool-cases (c.post_id == arg.post_id)) (Bool-cases c.is_deleted)
            (Bool-cases (exists_by (replies_to arg.comment_id) db.tables.comments))
    ]
  where
    by_tests :
        (c : Comment)
        → find_by (has_id arg.comment_id) db.tables.comments ≡ some c
        → ((c.user_id == arg.user_id) ≡ true) ⊎ ((c.user_id == arg.user_id) ≡ false)
        → ((c.post_id == arg.post_id) ≡ true) ⊎ ((c.post_id == arg.post_id) ≡ false)
        → (c.is_deleted ≡ true) ⊎ (c.is_deleted ≡ false)
        → (exists_by (replies_to arg.comment_id) db.tables.comments ≡ true)
          ⊎ (exists_by (replies_to arg.comment_id) db.tables.comments ≡ false)
        → is_done (delete_comment_tx arg (with_ahead [] db)).0
          ≡ is_own arg (find_by (has_id arg.comment_id) db.tables.comments)
    by_tests c found (inl u) (inl p) (inl d) _ = rw (found, u, p, d, u, p) refl
    by_tests c found (inl u) (inl p) (inr d) (inl r) = rw (found, u, p, d, r, u, p, found) refl
    by_tests c found (inl u) (inl p) (inr d) (inr r) = rw (found, u, p, d, r, u, p) refl
    by_tests c found (inl u) (inr p) _ _ = rw (found, u, p, u, p) refl
    by_tests c found (inr u) _ _ _ = rw (found, u, u) refl

abbrev pub may_vote : VoteCommentTxParams → Db → Bool
may_vote arg db =
    is_vote arg.vote
    && differs arg.vote (find_by (is_vote_of arg.user_id arg.comment_id) db.tables.votes)
    && knows arg db (find_by (is_vote_of arg.user_id arg.comment_id) db.tables.votes)
    && exists_by (is_live arg.comment_id) db.tables.comments
  where
    differs : ℤ → Option CommentVote → Bool
    differs vote none = true
    differs vote (some v) = not (v.vote ==ℤ vote)

    knows : VoteCommentTxParams → Db → Option CommentVote → Bool
    knows arg db none =
        exists_by (has_user arg.user_id) db.tables.users
        && exists_by (has_id arg.comment_id) db.tables.comments
    knows arg db (some v) = true

zero_differs : (v : ℤ) → is_vote v ≡ true → pos 0 ==ℤ v ≡ false
zero_differs v h = ground (arith, h)

-- On a connection that holds a vote is taken exactly where it is up or down, differs from the user's
-- vote so far, comes from a user who exists or voted before, and is for a comment that is not deleted.
pub vote_comment_tx-may_vote :
    (arg : VoteCommentTxParams) (db : Db)
    → is_done (vote_comment_tx arg (with_ahead [] db)).0 ≡ may_vote arg db
unfolding vote_comment_tx exec_tx statement
vote_comment_tx-may_vote arg db =
    by_tests (Bool-cases (is_vote arg.vote))
      (Option-cases (find_by (is_vote_of arg.user_id arg.comment_id) db.tables.votes))
      (Option-cases (find_by (is_live arg.comment_id) db.tables.comments))
      (Bool-cases (exists_by (has_user arg.user_id) db.tables.users))
      (Bool-cases (exists_by (has_id arg.comment_id) db.tables.comments))
  where
    Goal : Type 0
    Goal = is_done (vote_comment_tx arg (with_ahead [] db)).0 ≡ may_vote arg db

    by_tests :
        (is_vote arg.vote ≡ true) ⊎ (is_vote arg.vote ≡ false)
        → (find_by (is_vote_of arg.user_id arg.comment_id) db.tables.votes ≡ none)
          ⊎ ((v : CommentVote) × (find_by (is_vote_of arg.user_id arg.comment_id) db.tables.votes
                ≡ some v))
        → (find_by (is_live arg.comment_id) db.tables.comments ≡ none)
          ⊎ ((c : Comment) × (find_by (is_live arg.comment_id) db.tables.comments ≡ some c))
        → (exists_by (has_user arg.user_id) db.tables.users ≡ true)
          ⊎ (exists_by (has_user arg.user_id) db.tables.users ≡ false)
        → (exists_by (has_id arg.comment_id) db.tables.comments ≡ true)
          ⊎ (exists_by (has_id arg.comment_id) db.tables.comments ≡ false)
        → Goal
    by_tests (inr bad) _ _ _ _ = rw bad refl
    by_tests (inl ok) (inl fresh) (inl dead) (inl u) (inl i) =
        rw (ok, fresh, u, i, zero_differs arg.vote ok, dead) refl
    by_tests (inl ok) (inl fresh) (inr (c, alive)) (inl u) (inl i) =
        rw (ok, fresh, u, i, zero_differs arg.vote ok, alive) refl
    by_tests (inl ok) (inl fresh) live (inl u) (inr i) = rw (ok, fresh, u, i) refl
    by_tests (inl ok) (inl fresh) live (inr u) _ = rw (ok, fresh, u) refl
    by_tests (inl ok) (inr (v, old)) live _ _ = by_old v old (Bool-cases (v.vote ==ℤ arg.vote)) live
      where
        by_old :
            (v : CommentVote)
            → find_by (is_vote_of arg.user_id arg.comment_id) db.tables.votes ≡ some v
            → ((v.vote ==ℤ arg.vote) ≡ true) ⊎ ((v.vote ==ℤ arg.vote) ≡ false)
            → (find_by (is_live arg.comment_id) db.tables.comments ≡ none)
              ⊎ ((c : Comment) × (find_by (is_live arg.comment_id) db.tables.comments ≡ some c))
            → Goal
        by_old v old (inl again) _ = rw (ok, old, again) refl
        by_old v old (inr new) (inl dead) = rw (ok, old, new, dead) refl
        by_old v old (inr new) (inr (c, alive)) = rw (ok, old, new, alive) refl

-- A counter that moves on, or that the authenticator does not keep.
abbrev pub is_trusted : ℤ → Option WebauthnCredential → Bool
is_trusted count none = false
is_trusted count (some c) =
    not (leb_ℤ count c.sign_count) || (count ==ℤ pos 0 && c.sign_count ==ℤ pos 0)

agrees :
    (n m : ℤ) (b : Bool)
    → is_suspicious n m ≡ b
    → not b ≡ (not (leb_ℤ n m) || (n ==ℤ pos 0 && m ==ℤ pos 0))
agrees n m b e = sym (ap not e) ∙ by_tests (leb_ℤ n m) (n ==ℤ pos 0) (m ==ℤ pos 0)
  where
    by_tests : (x y z : Bool) → not (x && (not y || not z)) ≡ (not x || (y && z))
    by_tests x y z = ground arith

-- On a connection that holds a sign-in is accepted exactly where the passkey is known and its counter
-- is above the stored one, or both are zero.
pub record_credential_use-is_trusted :
    (i : Bytes) (count : ℤ) (db : Db)
    → is_done (record_credential_use i count (with_ahead [] db)).0
      ≡ is_trusted count (find_by (has_credential_id i) db.tables.credentials)
unfolding record_credential_use statement
record_credential_use-is_trusted i count db =
    elim (Option-cases (find_by (has_credential_id i) db.tables.credentials)) [
      | inl missing ↦ rw missing refl
      | inr (c, found) ↦ by_suspicion c found (Bool-cases (is_suspicious count c.sign_count))
    ]
  where
    by_suspicion :
        (c : WebauthnCredential)
        → find_by (has_credential_id i) db.tables.credentials ≡ some c
        → (is_suspicious count c.sign_count ≡ true) ⊎ (is_suspicious count c.sign_count ≡ false)
        → is_done (record_credential_use i count (with_ahead [] db)).0
          ≡ is_trusted count (find_by (has_credential_id i) db.tables.credentials)
    by_suspicion c found (inl bad) = rw (found, bad) (agrees count c.sign_count true bad)
    by_suspicion c found (inr good) = rw (found, good) (agrees count c.sign_count false good)
