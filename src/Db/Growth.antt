-- ===== src/Db/Growth.antt =====
-- The sequence of comment identifiers through the bodies of the transactions.
use shitposter.Prelude.{ℕ, ◌+◌, ◌≤◌, arith, Bool, not, ◌||◌, Option, none, some, ◌==◌, leb}
use shitposter.Prelude.Int.{ℤ, pos, negsuc, ◌==ℤ◌}
use shitposter.Db.Error.{DriverError}
use shitposter.Db.Tables.{Config, Comment, CommentVote, Db}
use shitposter.Db.Queries.{
  CreateCommentParams, DeleteCommentIfLeafRow, find_by, has_id, is_live, first_row,
  get_comment_with_lock, get_root_comment_count_for_user, create_comment, create_checks, has_nul,
  bad_text, create_checked, delete_comment_if_leaf, delete_found, soft_delete_comment, returning,
  as_deleted, with_deltas, update_comment_popularity,
}
use shitposter.Db.VoteQueries.{
  UpsertCommentVoteRow, is_vote_of, upsert_comment_vote, upsert_found, vote_checks, vote_checked,
}
use shitposter.Db.Monad.{fail}
use shitposter.Db.Grows.{Grows, bind-Grows, query-Grows, if-Grows}
use shitposter.Db.Insert.{InsertCommentTxParams, insert_body, depth_for, reply_depth, create_params}
use shitposter.Db.Delete.{DeleteCommentTxParams, delete_body, after_leaf}
use shitposter.Db.Vote.{VoteCommentTxParams, vote_body, is_vote, delta}

-- The rows that a statement gives or changes leave the sequence alone, or move it on.
returning-Grows :
    (o : Option Comment) (t : Comment → Bool) (f : Comment → Comment) → Grows (returning o t f)
returning-Grows none t f db = omega arith
returning-Grows (some c) t f db = omega arith

first_row-Grows : {A : Type 0} (o : Option A) → Grows (first_row o)
first_row-Grows none db = omega arith
first_row-Grows (some a) db = omega arith

create-Grows : (arg : CreateCommentParams) → Grows (create_comment arg)
create-Grows arg db =
    if-Grows (has_nul arg.body) (fail bad_text)
      (λ d. create_checked (create_checks arg d.tables) arg d) (λ d. omega arith)
      (λ d. by_checks d (create_checks arg d.tables)) db
  where
    by_checks :
        (d : Db) (o : Option DriverError) → d.comment_seq ≤ (create_checked o arg d).1.comment_seq
    by_checks d none = omega arith
    by_checks d (some e) = omega arith

delete_found-Grows : (i u p : ℕ) (o : Option Comment) → Grows (delete_found i u p o)
delete_found-Grows i u p none db = omega arith
delete_found-Grows i u p (some c) db = ground arith

upsert_found-Grows : (u i : ℕ) (v : ℤ) (o : Option CommentVote) → Grows (upsert_found u i v o)
upsert_found-Grows u i v (some w) db = omega arith
upsert_found-Grows u i v none db = by_checks (vote_checks u i db.tables)
  where
    by_checks : (o : Option DriverError) → db.comment_seq ≤ (vote_checked o u i v db).1.comment_seq
    by_checks none = omega arith
    by_checks (some e) = omega arith

reply_depth-Grows :
    (cfg : Config) (arg : InsertCommentTxParams) (i : ℕ) (c : Comment)
    → Grows (reply_depth cfg arg i c)
reply_depth-Grows cfg arg i c db =
    if-Grows (not (c.post_id == arg.post_id)) _ _ still
      (if-Grows c.is_deleted _ _ still (
        if-Grows (leb cfg.comment_max_nesting_depth (c.depth + 1)) _ _ still
          (if-Grows (c.user_id == arg.user_id) _ _ still still)))
      db
  where
    still : (d : Db) → d.comment_seq ≤ d.comment_seq
    still d = omega arith

depth_for-Grows :
    (cfg : Config) (arg : InsertCommentTxParams) (o : Option ℕ) → Grows (depth_for cfg arg o)
depth_for-Grows cfg arg (some i) =
    bind-Grows _ _
      (query-Grows (get_comment_with_lock i) _
        (λ db. first_row-Grows (find_by (has_id i) db.tables.comments) db))
      (reply_depth-Grows cfg arg i)
depth_for-Grows cfg arg none =
    bind-Grows _ _
      (query-Grows (get_root_comment_count_for_user arg.post_id arg.user_id) _ (λ db. omega arith))
      (λ n.
        if-Grows (leb cfg.comment_max_root_count_per_user n) _ _ (λ db. omega arith)
          (λ db. omega arith))

pub insert_body-Grows : (cfg : Config) (arg : InsertCommentTxParams) → Grows (insert_body cfg arg)
insert_body-Grows cfg arg = bind-Grows _ _ (depth_for-Grows cfg arg arg.parent_id) (λ depth.
    query-Grows (create_comment (create_params arg depth)) _
      (create-Grows (create_params arg depth)))

pub delete_body-Grows : (arg : DeleteCommentTxParams) → Grows (delete_body arg)
delete_body-Grows arg =
    bind-Grows _ _
      (query-Grows (delete_comment_if_leaf arg.comment_id arg.user_id arg.post_id) _ (λ db.
        delete_found-Grows arg.comment_id arg.user_id arg.post_id
          (find_by (has_id arg.comment_id) db.tables.comments) db))
      after_leaf-Grows
  where
    still : (d : Db) → d.comment_seq ≤ d.comment_seq
    still d = omega arith

    after_leaf-Grows : (row : DeleteCommentIfLeafRow) → Grows (after_leaf arg row)
    after_leaf-Grows row = if-Grows (not (row.user_id == arg.user_id)) _ _ still (
        if-Grows (not (row.post_id == arg.post_id)) _ _ still (
          if-Grows (row.deleted_ok || row.is_deleted) _ _ still (
            if-Grows row.has_children _ _
              (bind-Grows _ _
                (query-Grows (soft_delete_comment arg.comment_id) _ (λ db.
                  returning-Grows (find_by (has_id arg.comment_id) db.tables.comments)
                    (has_id arg.comment_id) (as_deleted db.now) db))
                (λ c. still))
              still)))

pub vote_body-Grows : (arg : VoteCommentTxParams) → Grows (vote_body arg)
vote_body-Grows arg = if-Grows (not (is_vote arg.vote)) _ _ still (
    bind-Grows _ _
      (query-Grows (upsert_comment_vote arg.user_id arg.comment_id arg.vote) _ (λ db.
        upsert_found-Grows arg.user_id arg.comment_id arg.vote
          (find_by (is_vote_of arg.user_id arg.comment_id) db.tables.votes) db))
      (λ (row : UpsertCommentVoteRow). if-Grows (row.original_vote ==ℤ arg.vote) _ _ still (
        query-Grows
          (update_comment_popularity arg.comment_id (delta (pos 1) arg.vote row.original_vote)
            (delta (negsuc 0) arg.vote row.original_vote))
          _
          (λ db.
            returning-Grows (find_by (is_live arg.comment_id) db.tables.comments)
              (is_live arg.comment_id)
              (with_deltas (delta (pos 1) arg.vote row.original_vote)
                (delta (negsuc 0) arg.vote row.original_vote) db.now)
              db))))
  where
    still : (d : Db) → d.comment_seq ≤ d.comment_seq
    still d = omega arith
