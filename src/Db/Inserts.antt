-- ===== src/Db/Inserts.antt =====
-- What an insertion that succeeds has done: db/sqlc/tx_insert_comment.go.
use shitposter.Prelude.{
  ℕ, suc, ◌+◌, ◌≡◌, ◌≢◌, ◌<◌, refl, arith, Bool, true, false, not, Option, none, some, List, ◌∷◌,
  leb, ◌==◌, if◌then◌else◌,
}
use shitposter.Db.Error.{DriverError, pg_error, unique_violation}
use shitposter.Db.Tables.{Config, Comment, Tables, Db}
use shitposter.Db.Monad.{fail}
use shitposter.Db.Queries.{
  has_nul, is_bigint, bad_text, CreateCommentParams, find_by, count_by, has_id, is_root_of,
  replied_already, create_comment, create_checks, create_checked, get_comment_with_lock,
  get_root_comment_count_for_user, new_comment,
}
use shitposter.Db.Tx.{
  Ensures, IsSame, with_ahead, query-Ensures, last_query-Ensures, bind-Ensures, if-Ensures,
  first_row-Ensures, with_ahead-IsSame, weaken-Ensures,
}
use shitposter.Db.Atomic.{AllOrNothing, AllOrNothing-Ensures, exec_tx-ensured}
use shitposter.Db.Insert.{
  InsertCommentTxParams, reply_depth, root_depth, depth_for, create_params, insert_body,
  insert_comment_tx,
}

-- The comment that the new one answers: it stands under the same post, is not deleted, is someone
-- else's, and leaves room for one more level.
pub record Answers (cfg : Config) (c parent : Comment) : Type 0 where
  pub same_post : parent.post_id ≡ c.post_id
  pub below : c.depth ≡ parent.depth + 1
  pub alive : parent.is_deleted ≡ false
  pub within : c.depth < cfg.comment_max_nesting_depth
  pub other_user : parent.user_id ≢ c.user_id

-- Where a comment may be put among others.
abbrev pub Attached : Config → List Comment → Comment → Option ℕ → Type 0
Attached cfg cs c none =
    (c.depth ≡ 0)
    × (count_by (is_root_of c.post_id c.user_id) cs < cfg.comment_max_root_count_per_user)
Attached cfg cs c (some i) =
    (parent : Comment) × (find_by (has_id i) cs ≡ some parent) × Answers cfg c parent

-- What a transaction that returns this comment has done.
pub record Inserted (cfg : Config) (arg : InsertCommentTxParams) (db : Db) (c : Comment)
    (after : Db) : Type 0 where
  pub row : (depth : ℕ) × (c ≡ new_comment (create_params arg depth) db)
  pub attached : Attached cfg db.tables.comments c arg.parent_id
  pub first_reply : replied_already arg.user_id arg.parent_id db.tables.comments ≡ false
  pub tables : after.tables ≡ record db.tables { comments = c ∷ db.tables.comments }
  pub sequences : (after.comment_seq ≡ suc db.comment_seq) × (after.vote_seq ≡ db.vote_seq)

abbrev DepthFits : Config → InsertCommentTxParams → Db → Option ℕ → ℕ → Db → Type 0
DepthFits cfg arg db none depth mid =
    IsSame db mid
    × (depth ≡ 0)
    × (count_by (is_root_of arg.post_id arg.user_id) db.tables.comments
        < cfg.comment_max_root_count_per_user)
DepthFits cfg arg db (some i) depth mid =
    IsSame db mid
    × (parent : Comment) × (find_by (has_id i) db.tables.comments ≡ some parent)
    × Answers cfg (new_comment (create_params arg depth) db) parent

reply_depth-Ensures :
    (cfg : Config) (arg : InsertCommentTxParams) (i : ℕ) (parent : Comment) (db mid : Db)
    → IsSame db mid
    → find_by (has_id i) db.tables.comments ≡ some parent
    → Ensures (DepthFits cfg arg db (some i)) (reply_depth cfg arg i parent mid)
reply_depth-Ensures cfg arg i parent db mid same h =
    let P = DepthFits cfg arg db (some i) in
    if-Ensures P (not (parent.post_id == arg.post_id)) _ _ mid (λ _. tt)
      (λ post.
        if-Ensures P parent.is_deleted _ _ mid (λ _. tt)
          (λ alive.
            if-Ensures P (leb cfg.comment_max_nesting_depth (parent.depth + 1)) _ _ mid (λ _. tt)
              (λ room.
                if-Ensures P (parent.user_id == arg.user_id) _ _ mid (λ _. tt)
                  (λ other. (
                    same,
                    parent,
                    h,
                    record {
                      same_post = ground arith;
                      below = refl;
                      alive = alive;
                      within = ground arith;
                      other_user = ground arith;
                    },
                  )))))

root_depth-Ensures :
    (cfg : Config) (arg : InsertCommentTxParams) (n : ℕ) (db mid : Db)
    → IsSame db mid
    → n ≡ count_by (is_root_of arg.post_id arg.user_id) db.tables.comments
    → Ensures (DepthFits cfg arg db none) (root_depth cfg arg n mid)
root_depth-Ensures cfg arg n db mid same h = ground arith

depth_for-Ensures :
    (cfg : Config) (arg : InsertCommentTxParams) (o : Option ℕ) (db : Db)
    → Ensures (DepthFits cfg arg db o) (depth_for cfg arg o db)
depth_for-Ensures cfg arg none db =
    query-Ensures
      (λ n mid.
        IsSame db mid × (n ≡ count_by (is_root_of arg.post_id arg.user_id) db.tables.comments))
      (DepthFits cfg arg db none) (get_root_comment_count_for_user arg.post_id arg.user_id) _
      (root_depth cfg arg) db (λ sky. (with_ahead-IsSame sky db, refl))
      (λ n mid (same, h). root_depth-Ensures cfg arg n db mid same h)
depth_for-Ensures cfg arg (some i) db =
    query-Ensures (λ c mid. IsSame db mid × (find_by (has_id i) db.tables.comments ≡ some c))
      (DepthFits cfg arg db (some i)) (get_comment_with_lock i) _ (reply_depth cfg arg i) db
      (λ sky.
        first_row-Ensures
          (λ c mid. IsSame db mid × (find_by (has_id i) db.tables.comments ≡ some c))
          (find_by (has_id i) db.tables.comments) (with_ahead sky db)
          (λ c e. (with_ahead-IsSame sky db, e)))
      (λ c mid (same, h). reply_depth-Ensures cfg arg i c db mid same h)

fits-Attached :
    (cfg : Config) (arg : InsertCommentTxParams) (depth : ℕ) (db mid : Db) (o : Option ℕ)
    → DepthFits cfg arg db o depth mid
    → IsSame db mid × Attached cfg db.tables.comments (new_comment (create_params arg depth) mid) o
fits-Attached cfg arg depth db mid none (same, zero_depth, few) = (same, (zero_depth, few))
fits-Attached cfg arg depth db mid (some i) (same, parent, h, v) = (
  same,
  (
    parent,
    h,
    record {
      same_post = v.same_post;
      below = v.below;
      alive = v.alive;
      within = v.within;
      other_user = v.other_user;
    },
  ),
)

checks-first_reply :
    (arg : CreateCommentParams) (t : Tables)
    → create_checks arg t ≡ none
    → replied_already arg.user_id arg.parent_id t.comments ≡ false
checks-first_reply arg t h =
    by_found (replied_already arg.user_id arg.parent_id t.comments) _
      (by_range (is_bigint arg.upvotes arg.downvotes) _ h)
  where
    by_range :
        (b : Bool) (o : Option DriverError)
        → (if not b then some (pg_error "22003" "") else o) ≡ none
        → o ≡ none
    by_range true o e = e
    by_range false o e = absurd (cc e)

    by_found :
        (b : Bool)
        → (o : Option DriverError)
        → (if b then some (pg_error unique_violation "uniq_reply_per_user_parent") else o) ≡ none
        → b ≡ false
    by_found true o e = absurd (cc e)
    by_found false o e = refl

create_comment-Ensures :
    (cfg : Config) (arg : InsertCommentTxParams) (depth : ℕ) (db mid : Db)
    → DepthFits cfg arg db arg.parent_id depth mid
    → (sky : List (Option DriverError))
    → Ensures (Inserted cfg arg db) (create_comment (create_params arg depth) (with_ahead sky mid))
create_comment-Ensures cfg arg depth db mid fits sky =
    if-Ensures (Inserted cfg arg db) (has_nul arg.body) (fail bad_text)
      (λ d. create_checked (create_checks params d.tables) params d) (with_ahead sky mid)
      (λ nul. tt)
      (λ free.
        by_checks (create_checks params mid.tables)
          (λ passed. checks-first_reply params mid.tables passed))
  where
    params : CreateCommentParams
    params = create_params arg depth

    by_checks :
        (o : Option DriverError)
        → (o ≡ none → replied_already arg.user_id arg.parent_id mid.tables.comments ≡ false)
        → Ensures (Inserted cfg arg db) (create_checked o params (with_ahead sky mid))
    by_checks (some e) h = tt
    by_checks none h =
        let (same, attached) = fits-Attached cfg arg depth db mid arg.parent_id fits in
        record {
          row = (depth, rw (same.now, same.comment_seq) refl);
          attached = attached;
          first_reply = rw same.tables at h refl;
          tables = rw same.tables refl;
          sequences = (rw same.comment_seq refl, same.vote_seq);
        }

insert_body-Ensures :
    (cfg : Config) (arg : InsertCommentTxParams) (db : Db)
    → Ensures (Inserted cfg arg db) (insert_body cfg arg db)
insert_body-Ensures cfg arg db =
    bind-Ensures (DepthFits cfg arg db arg.parent_id) (Inserted cfg arg db)
      (depth_for cfg arg arg.parent_id) _ db (depth_for-Ensures cfg arg arg.parent_id db)
      (λ depth mid fits.
        last_query-Ensures (Inserted cfg arg db) (create_comment (create_params arg depth)) _ mid
          (create_comment-Ensures cfg arg depth db mid fits))

-- The same of an insertion that is applied although its commit fails; any other failure changes no table.
pub insert_comment_tx-AllOrNothing :
    (cfg : Config) (arg : InsertCommentTxParams) (db : Db)
    → AllOrNothing (Inserted cfg arg db) db.tables (insert_comment_tx cfg arg db)
unfolding insert_comment_tx
insert_comment_tx-AllOrNothing cfg arg db =
    exec_tx-ensured (Inserted cfg arg db) (insert_body cfg arg) db
      (λ sky.
        weaken-Ensures (Inserted cfg arg db) (insert_body cfg arg (with_ahead sky db))
          (λ c mid v. record {
            row = v.row;
            attached = v.attached;
            first_reply = v.first_reply;
            tables = v.tables;
            sequences = v.sequences;
          })
          (insert_body-Ensures cfg arg (with_ahead sky db)))
      (λ c mid sky v. record {
        row = v.row;
        attached = v.attached;
        first_reply = v.first_reply;
        tables = v.tables;
        sequences = v.sequences;
      })

-- An insertion that succeeds has added one row, the comment that it returns, with the given fields. A
-- root is at depth zero and its author had fewer roots under the post than the limit; a reply is one
-- level below another user's live comment of the same post, within the limit of the depth, and the
-- first of its author's that is not deleted.
pub insert_comment_tx-Inserted :
    (cfg : Config) (arg : InsertCommentTxParams) (db : Db)
    → Ensures (Inserted cfg arg db) (insert_comment_tx cfg arg db)
insert_comment_tx-Inserted cfg arg db =
    AllOrNothing-Ensures (Inserted cfg arg db) db.tables (insert_comment_tx cfg arg db)
      (insert_comment_tx-AllOrNothing cfg arg db)
