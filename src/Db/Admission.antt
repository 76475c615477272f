-- ===== src/Db/Admission.antt =====
-- When a new comment is taken.
use shitposter.Prelude.{
  ℕ, ◌+◌, ◌≡◌, refl, ap, ◌∙◌, arith, Bool, true, false, not, ◌&&◌, Option, none, some, List, [],
  Bool-cases, inl, inr, ltb, leb, ◌==◌, if◌then◌else◌,
}
use shitposter.Db.Error.{DriverError, OpError}
use shitposter.Db.Tables.{Config, Comment, Tables, Db}
use shitposter.Db.Monad.{Outcome, done, failed, M, pure, fail, statement, continue, relabel}
use shitposter.Db.Queries.{
  find_by, count_by, exists_by, is_some, has_id, has_user, is_root_of, replied_already, has_nul,
  is_bigint, parent_exists, create_checks, create_checked, first_row,
}
use shitposter.Db.Tx.{exec_tx, with_ahead, ended}
use shitposter.Db.Insert.{
  InsertCommentTxParams, insert_row, insert_comment_tx, create_params, depth_for, reply_depth,
  parent_error,
}

abbrev pub is_done : {E A : Type 0} → Outcome E A → Bool
is_done (done a) = true
is_done (failed e) = false

abbrev pub may_answer : Config → InsertCommentTxParams → Option Comment → Bool
may_answer cfg arg none = false
may_answer cfg arg (some p) =
    (p.post_id == arg.post_id)
    && not p.is_deleted
    && ltb (p.depth + 1) cfg.comment_max_nesting_depth
    && not (p.user_id == arg.user_id)

abbrev pub may_hang : Config → InsertCommentTxParams → List Comment → Option ℕ → Bool
may_hang cfg arg cs none =
    ltb (count_by (is_root_of arg.post_id arg.user_id) cs) cfg.comment_max_root_count_per_user
may_hang cfg arg cs (some i) = may_answer cfg arg (find_by (has_id i) cs)

abbrev pub may_create : InsertCommentTxParams → Tables → Bool
may_create arg t =
    not (has_nul arg.body)
    && is_bigint arg.upvotes arg.downvotes
    && not (replied_already arg.user_id arg.parent_id t.comments)
    && exists_by (has_user arg.user_id) t.users
    && exists_by (λ p. p == arg.post_id) t.posts

-- What the store promises of new comments: a root within the limit, or a reply to another user's live
-- comment under the same post that leaves room for it and that the user has not replied to; by a user
-- and to a post that exist, with a text without NUL and counters whose difference is a BIGINT.
abbrev pub may_insert : Config → InsertCommentTxParams → Tables → Bool
may_insert cfg arg t = may_hang cfg arg t.comments arg.parent_id && may_create arg t

module _ (arg : InsertCommentTxParams) (db : Db) where
  -- Whether the transaction is done once the depth is known, on a connection that holds.
  abbrev goes_on : M OpError ℕ → Bool
  goes_on m = is_done (ended db.tables (continue (m (with_ahead [] db)) (insert_row arg))).0

  goes_on-if :
      (b : Bool) (e : OpError) (m : M OpError ℕ)
      → goes_on (if b then fail e else m) ≡ (not b && goes_on m)
  unfolding statement
  goes_on-if true e m = refl
  goes_on-if false e m = refl

  goes_on-pure :
      (depth : ℕ)
      → parent_exists arg.parent_id db.tables.comments ≡ true
      → goes_on (pure depth) ≡ may_create arg db.tables
  unfolding statement
  goes_on-pure depth known = elim (Bool-cases (has_nul arg.body)) [
    | inl nul ↦ rw nul refl
    | inr free ↦
        rw free
          (by_checks _ (create_checks (create_params arg depth) db.tables) ∙ ground (arith, known))
  ]
    where
      by_checks :
          (g : DriverError → OpError) (o : Option DriverError)
          → is_done
              (ended db.tables
                (relabel g (create_checked o (create_params arg depth) (with_ahead [] db)))).0
            ≡ not (is_some o)
      by_checks g none = refl
      by_checks g (some e) = refl

reply_tests :
    (post dead : Bool) (n depth : ℕ) (other rest : Bool)
    → (not (not post) && (not dead && (not (leb n depth) && (other && rest))))
      ≡ ((post && not dead && ltb depth n && other) && rest)
reply_tests post dead n depth other rest = ground arith

root_tests : (n count : ℕ) (rest : Bool) → (not (leb n count) && rest) ≡ (ltb count n && rest)
root_tests n count rest = ground arith

-- On a connection that holds a new comment is taken exactly where the store promises it.
pub insert_comment_tx-may_insert :
    (cfg : Config) (arg : InsertCommentTxParams) (db : Db)
    → is_done (insert_comment_tx cfg arg (with_ahead [] db)).0 ≡ may_insert cfg arg db.tables
unfolding insert_comment_tx exec_tx statement
insert_comment_tx-may_insert cfg arg db = by_parent arg.parent_id refl
  where
    spec : Option ℕ → Bool
    spec o = may_hang cfg arg db.tables.comments o && may_create arg db.tables

    by_found :
        (i : ℕ) (o : Option Comment)
        → arg.parent_id ≡ some i
        → find_by (has_id i) db.tables.comments ≡ o
        → is_done
            (ended db.tables (
              continue
                (continue
                  (relabel (parent_error arg i) (first_row o (with_ahead [] db)))
                  (reply_depth cfg arg i))
                (insert_row arg))).0
          ≡ (may_answer cfg arg o && may_create arg db.tables)
    by_found i none e found = refl
    by_found i (some p) e found =
        let exists : parent_exists arg.parent_id db.tables.comments ≡ true = rw (e, found) refl in
        goes_on-if arg db (not (p.post_id == arg.post_id)) _ _
        ∙ ap (λ x. not (not (p.post_id == arg.post_id)) && x)
            (goes_on-if arg db p.is_deleted _ _
              ∙ ap (λ x. not p.is_deleted && x)
                  (goes_on-if arg db (leb cfg.comment_max_nesting_depth (p.depth + 1)) _ _
                    ∙ ap (λ x. not (leb cfg.comment_max_nesting_depth (p.depth + 1)) && x)
                        (goes_on-if arg db (p.user_id == arg.user_id) _ _
                          ∙ ap (λ x. not (p.user_id == arg.user_id) && x)
                              (goes_on-pure arg db (p.depth + 1) exists))))
        ∙ reply_tests (p.post_id == arg.post_id) p.is_deleted cfg.comment_max_nesting_depth
            (p.depth + 1) (not (p.user_id == arg.user_id)) (may_create arg db.tables)

    by_parent :
        (o : Option ℕ)
        → arg.parent_id ≡ o
        → is_done
            (ended db.tables (continue (depth_for cfg arg o (with_ahead [] db)) (insert_row arg))).0
          ≡ spec o
    by_parent none e =
        goes_on-if arg db
          (leb cfg.comment_max_root_count_per_user
            (count_by (is_root_of arg.post_id arg.user_id) db.tables.comments))
          _ _
        ∙ ap
            (λ x.
              not (
                leb cfg.comment_max_root_count_per_user
                  (count_by (is_root_of arg.post_id arg.user_id) db.tables.comments))
              && x)
            (goes_on-pure arg db 0 (rw e refl))
        ∙ root_tests cfg.comment_max_root_count_per_user
            (count_by (is_root_of arg.post_id arg.user_id) db.tables.comments)
            (may_create arg db.tables)
    by_parent (some i) e = by_found i (find_by (has_id i) db.tables.comments) e refl
