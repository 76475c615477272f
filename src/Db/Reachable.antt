-- ===== src/Db/Reachable.antt =====
-- The store through any run of calls, those that fail included.
use shitposter.Prelude.{
  ℕ, ◌≤◌, ◌≡◌, refl, arith, Bool, true, Option, List, [], inl, inr, ◌⊎◌, String,
}
use shitposter.Prelude.Int.{pos}
use shitposter.Db.Error.{DriverError, Error}
use shitposter.Db.Tables.{Config, Db}
use shitposter.Db.Monad.{Outcome, done, failed, pure}
use shitposter.Db.Queries.{count_by, has_id, is_root_of, as_deleted, with_body}
use shitposter.Db.Tx.{exec_tx}
use shitposter.Db.Atomic.{AllOrNothing, weaken-AllOrNothing}
use shitposter.Db.Grows.{bind-Grows, exec_tx-Grows}
use shitposter.Db.Insert.{InsertCommentTxParams, insert_body, insert_comment_tx}
use shitposter.Db.Inserts.{insert_comment_tx-AllOrNothing}
use shitposter.Db.Delete.{
  DeleteCommentTxParams, UpdateCommentParams, delete_body, delete_comment_tx, delete_result,
  update_comment, UpdateCommentResult,
}
use shitposter.Db.Deletes.{Deleted, Gone, Marked}
use shitposter.Db.Deletion.{delete_comment_tx-AllOrNothing}
use shitposter.Db.Vote.{VoteCommentTxParams, vote_body, vote_comment_tx}
use shitposter.Db.Votes.{vote_comment_tx-AllOrNothing}
use shitposter.Db.Edits.{EditsOrFails, update_comment-EditsOrFails}
use shitposter.Db.Threads.{as_deleted-Keeps, Keeps}
use shitposter.Db.Pruning.{IsThreaded-few_roots}
use shitposter.Db.Sound.{
  IsSound, IsSoundIf, same-IsSound, update-IsSound, Inserted-IsSound, removed-IsSound,
}
use shitposter.Db.Casting.{Voted-IsSound}
use shitposter.Db.Growth.{insert_body-Grows, delete_body-Grows, vote_body-Grows}

-- One call of the store on comments, whatever it returns; `Admits` says which insertions are made. Time
-- passes and the connection changes in between.
pub data Step (cfg : Config) (Admits : InsertCommentTxParams → Type 0) (db : Db) : Db → Type 0 where
  inserts :
      (arg : InsertCommentTxParams)
      → Admits arg
      → Step cfg Admits db (insert_comment_tx cfg arg db).1
  deletes : (arg : DeleteCommentTxParams) → Step cfg Admits db (delete_comment_tx arg db).1
  votes : (arg : VoteCommentTxParams) → Step cfg Admits db (vote_comment_tx arg db).1
  updates : (arg : UpdateCommentParams) → Step cfg Admits db (update_comment arg db).1
  waits :
      (now : ℕ) (sky : List (Option DriverError)) (applied : Bool)
      → Step cfg Admits db (record db { now = now; ahead = sky; applied = applied })

pub data Steps (cfg : Config) (Admits : InsertCommentTxParams → Type 0) (db : Db)
    : Db → Type 0 where
  no_call : Steps cfg Admits db db
  and_then :
      {mid last : Db}
      → Steps cfg Admits db mid
      → Step cfg Admits mid last
      → Steps cfg Admits db last

-- Every insertion, and those that give the new comment no votes, as the API does.
abbrev pub AnyInsertion : InsertCommentTxParams → Type 0
AnyInsertion arg = Unit

abbrev pub StartsAtZero : InsertCommentTxParams → Type 0
StartsAtZero arg = (arg.upvotes ≡ pos 0) × (arg.downvotes ≡ pos 0)

-- A call that succeeds, or whose commit is applied unheard, leaves sound tables, or the tables stay.
call-IsSound :
    {A : Type 0} (K : Type 0) (cfg : Config) (db : Db) (r : Outcome Error A × Db)
    → AllOrNothing (λ (a : A) after. IsSoundIf K cfg after) db.tables r
    → db.comment_seq ≤ r.1.comment_seq
    → IsSoundIf K cfg db
    → IsSoundIf K cfg r.1
call-IsSound K cfg db (done a, after) h le s = h
call-IsSound K cfg db (failed e, after) (inl same) le s = same-IsSound K cfg db after same le s
call-IsSound K cfg db (failed e, after) (inr (x, lost, (a, h))) le s = h

Deleted-IsSound :
    (K : Type 0) (cfg : Config) (arg : DeleteCommentTxParams) (db : Db) (ok : Bool) (after : Db)
    → Deleted arg db ok after
    → IsSoundIf K cfg db
    → IsSoundIf K cfg after
Deleted-IsSound K cfg arg db ok after v s = by_how v.how
  where
    by_how :
        Gone arg.comment_id v.target db after.tables
          ⊎ (Marked arg.comment_id v.target db after.tables
              ⊎ ((v.target.is_deleted ≡ true) × (after.tables ≡ db.tables)))
        → IsSoundIf K cfg after
    by_how (inl (alive, leaf, e)) =
        removed-IsSound K cfg arg.comment_id db after leaf e v.sequence s
    by_how (inr (inl (alive, parent, e))) =
        update-IsSound K cfg db after (has_id arg.comment_id) (as_deleted db.now)
          (as_deleted-Keeps db.now) (λ c. (refl, refl)) e v.sequence s
    by_how (inr (inr (dead, e))) = same-IsSound K cfg db after e (omega (arith, v.sequence)) s

with_body-Keeps : (body : String) (now : ℕ) → Keeps (with_body body now)
with_body-Keeps body now = record {
  id = λ c. refl;
  user_id = λ c. refl;
  post_id = λ c. refl;
  parent_id = λ c. refl;
  depth = λ c. refl;
}

edits-IsSound :
    (K : Type 0) (cfg : Config) (arg : UpdateCommentParams) (db : Db)
    (r : Outcome Error UpdateCommentResult × Db)
    → EditsOrFails arg db r
    → IsSoundIf K cfg db
    → IsSoundIf K cfg r.1
edits-IsSound K cfg arg db (done a, after) (_, _, v) s =
    update-IsSound K cfg db after (has_id arg.comment_id) (with_body arg.body db.now)
      (with_body-Keeps arg.body db.now) (λ c. (refl, refl)) v.tables v.sequence s
edits-IsSound K cfg arg db (failed e, after) (same, sequence) s =
    same-IsSound K cfg db after same (omega (arith, sequence)) s

-- Every call of the store keeps the tables sound, whether it succeeds or fails; for the counters a new
-- comment has to start without votes.
step-IsSound :
    (K : Type 0) (Admits : InsertCommentTxParams → Type 0) (cfg : Config) (db after : Db)
    → ((arg : InsertCommentTxParams) → Admits arg → K → StartsAtZero arg)
    → Step cfg Admits db after
    → IsSoundIf K cfg db
    → IsSoundIf K cfg after
unfolding insert_comment_tx delete_comment_tx vote_comment_tx
step-IsSound K Admits cfg db _ unvoted (inserts arg admitted) s =
    call-IsSound K cfg db (insert_comment_tx cfg arg db)
      (weaken-AllOrNothing (λ c after. IsSoundIf K cfg after) db.tables
        (insert_comment_tx cfg arg db)
        (λ c after v. Inserted-IsSound K cfg arg db after c (unvoted arg admitted) v s)
        (insert_comment_tx-AllOrNothing cfg arg db))
      (exec_tx-Grows (insert_body cfg arg) (insert_body-Grows cfg arg) db) s
step-IsSound K Admits cfg db _ unvoted (deletes arg) s =
    call-IsSound K cfg db (delete_comment_tx arg db)
      (weaken-AllOrNothing (λ r after. IsSoundIf K cfg after) db.tables (delete_comment_tx arg db)
        (λ r after v. Deleted-IsSound K cfg arg db r.success after v s)
        (delete_comment_tx-AllOrNothing arg db))
      (bind-Grows (exec_tx (delete_body arg)) (λ row. pure (delete_result row))
        (exec_tx-Grows (delete_body arg) (delete_body-Grows arg)) (λ row d. omega arith) db)
      s
step-IsSound K Admits cfg db _ unvoted (votes arg) s =
    call-IsSound K cfg db (vote_comment_tx arg db)
      (weaken-AllOrNothing (λ c after. IsSoundIf K cfg after) db.tables (vote_comment_tx arg db)
        (λ c after v. Voted-IsSound K cfg arg db after v s) (vote_comment_tx-AllOrNothing arg db))
      (exec_tx-Grows (vote_body arg) (vote_body-Grows arg) db) s
step-IsSound K Admits cfg db _ unvoted (updates arg) s =
    edits-IsSound K cfg arg db (update_comment arg db) (update_comment-EditsOrFails arg db) s
step-IsSound K Admits cfg db _ unvoted (waits now sky applied) s =
    same-IsSound K cfg db (record db { now = now; ahead = sky; applied = applied }) refl
      (omega arith) s

steps-IsSoundIf :
    (K : Type 0) (Admits : InsertCommentTxParams → Type 0) (cfg : Config) (db last : Db)
    → ((arg : InsertCommentTxParams) → Admits arg → K → StartsAtZero arg)
    → db.tables.comments ≡ []
    → db.tables.votes ≡ []
    → Steps cfg Admits db last
    → IsSoundIf K cfg last
steps-IsSoundIf K Admits cfg db _ unvoted no_comments no_votes no_call = record {
  threaded = rw no_comments tt;
  stands = rw no_votes tt;
  tallied = λ k. rw no_comments tt;
}
steps-IsSoundIf K Admits cfg db _ unvoted no_comments no_votes
      (and_then {mid = mid} {last = last} steps step) =
    step-IsSound K Admits cfg mid last unvoted step
      (steps-IsSoundIf K Admits cfg db mid unvoted no_comments no_votes steps)

-- From a store without comments and votes, after any run of calls, failed ones and lost commits included,
-- whose insertions start at no votes: every comment hangs in a thread that keeps to the limits, every
-- vote is for a comment that exists, and the counters of every comment are the numbers of the votes.
pub steps-IsSound :
    (cfg : Config) (db last : Db)
    → db.tables.comments ≡ []
    → db.tables.votes ≡ []
    → Steps cfg StartsAtZero db last
    → IsSound cfg last
steps-IsSound cfg db last no_comments no_votes steps =
    steps-IsSoundIf Unit StartsAtZero cfg db last (λ arg unvoted k. unvoted) no_comments no_votes
      steps

-- From a store without comments and votes, after any run of calls, failed ones and lost commits included
-- and insertions with any counters, no user has more root comments under a post than the limit.
pub steps-few_roots :
    (cfg : Config) (db last : Db) (post_id user_id : ℕ)
    → db.tables.comments ≡ []
    → db.tables.votes ≡ []
    → Steps cfg AnyInsertion db last
    → count_by (is_root_of post_id user_id) last.tables.comments
      ≤ cfg.comment_max_root_count_per_user
steps-few_roots cfg db last post_id user_id no_comments no_votes steps =
    IsThreaded-few_roots cfg last.comment_seq post_id user_id last.tables.comments (
      IsSoundIf.threaded (
        steps-IsSoundIf ⊥ AnyInsertion cfg db last (λ arg any k. absurd k) no_comments no_votes
          steps))
