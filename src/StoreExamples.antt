-- ===== src/StoreExamples.antt =====
-- The theorems on the store of db/ and on serialized warnings, at concrete tables and warnings.
use package.text.Mathlib.Text.{◌==◌ as text_eq}
use shitposter.Prelude.{
  not, ◌&&◌, ltb, ◌==◌, if◌then◌else◌, ℕ, ◌≤◌, ◌≡◌, refl, true, false, Option, none, some, [], ◌∷◌,
  length, map,
}
use shitposter.Prelude.Int.{pos, ◌+ℤ◌}
use shitposter.Db.Monad.{statement}
use shitposter.Db.Tables.{text, Config, Comment, User, Db}
use shitposter.Db.Error.{other}
use shitposter.Db.Permission.{
  is_own, may_vote, is_trusted, delete_comment_tx-is_own, vote_comment_tx-may_vote,
  record_credential_use-is_trusted,
}
use shitposter.Db.Queries.{find_by, has_id, count_by, is_root_of}
use shitposter.Db.Tx.{exec_tx, Ensures, with_ahead}
use shitposter.Db.Atomic.{AllOrNothing, Left, exec_tx-AllOrNothing}
use shitposter.Db.Insert.{InsertCommentTxParams, insert_comment_tx, insert_body}
use shitposter.Db.Inserts.{Inserted, insert_comment_tx-Inserted}
use shitposter.Db.Admission.{is_done, may_insert, insert_comment_tx-may_insert}
use shitposter.Db.Delete.{
  DeleteCommentTxParams, DeleteCommentTxResult, UpdateCommentParams, delete_comment_tx,
  update_comment,
}
use shitposter.Db.Deletes.{Deleted}
use shitposter.Db.Deletion.{delete_comment_tx-Deleted}
use shitposter.Db.Vote.{VoteCommentTxParams, vote_comment_tx}
use shitposter.Db.Votes.{Voted, vote_comment_tx-Voted}
use shitposter.Db.Edits.{EditsOrFails, update_comment-EditsOrFails}
use shitposter.Db.Sound.{IsSound}
use shitposter.Db.Reachable.{
  Steps, StartsAtZero, no_call, and_then, inserts, votes, steps-IsSound, steps-few_roots,
}
use shitposter.Db.Users.{SoftDeleteUserTxResult, soft_delete_user_tx}
use shitposter.Db.Credentials.{has_credential_id, record_credential_use}
use shitposter.Db.Farewell.{SoftDeleted, soft_delete_user_tx-SoftDeleted}
use shitposter.Db.Counters.{RecordsOrFails, record_credential_use-RecordsOrFails}
use shitposter.Api.Validation.{Texts}
use shitposter.Api.Json.{json, value}
use shitposter.Api.Requests.{
  DeleteCommentRequest, CreateCommentRequest, status_code, delete_comment, delete_user,
}
use shitposter.Api.Welcome.{is_welcome}
use shitposter.Api.Answers.{
  Answers, Deletes, deletion_status, delete_comment-deletion_status, delete_comment-Deletes,
  delete_user-SoftDeleted,
}
use shitposter.Scum.Issue.{misplaced_closing_tag}
use shitposter.Scum.Warnings.{Warning, warning}
use shitposter.Scum.Serialization.{serialize}
use shitposter.Scum.Codenames.{Tells, issue_named, issue_named-serialize}
use shitposter.Sml.Eater.{sml_dictionary}

abbrev limits : Config
limits = record { comment_max_nesting_depth = 3; comment_max_root_count_per_user = 2 }

abbrev user : ℕ → User
user i = record {
  id = i;
  username = text "user";
  email = text "user@example.com";
  display_name = "User";
  profile_img_url = none;
  is_deleted = false;
  deleted_at = 0;
  last_modified_at = 0;
  archived_username = text "user";
  archived_email = text "user@example.com";
}

-- Two users and a post, and no comment yet.
abbrev fresh : Db
fresh = record {
  tables = record {
    users = user 1 ∷ user 2 ∷ [];
    posts = 5 ∷ [];
    comments = [];
    votes = [];
    sessions = [];
    credentials = [];
  };
  comment_seq = 7;
  vote_seq = 1;
  now = 100;
  ahead = [];
  applied = false;
}

abbrev post_comment : ℕ → Option ℕ → InsertCommentTxParams
post_comment author parent = record {
  user_id = author;
  post_id = 5;
  body = "text";
  parent_id = parent;
  upvotes = pos 0;
  downvotes = pos 0;
}

abbrev upvote : VoteCommentTxParams
upvote = record { user_id = 2; comment_id = 7; vote = pos 1 }

-- The first user's comment, then the second user's reply and vote.
abbrev with_root : Db
with_root = (insert_comment_tx limits (post_comment 1 none) fresh).1

abbrev with_reply : Db
with_reply = (insert_comment_tx limits (post_comment 2 (some 7)) with_root).1

abbrev with_vote : Db
with_vote = (vote_comment_tx upvote with_reply).1

abbrev three_calls : Steps limits StartsAtZero fresh with_vote
three_calls =
    and_then
      (and_then (and_then no_call (inserts (post_comment 1 none) (refl, refl)))
        (inserts (post_comment 2 (some 7)) (refl, refl)))
      (votes upvote)

steps-IsSound_example : IsSound limits with_vote
steps-IsSound_example = steps-IsSound limits fresh with_vote refl refl three_calls

-- A comment that starts with votes.
abbrev praised : InsertCommentTxParams
praised = record (post_comment 1 none) { upvotes = pos 5 }

steps-few_roots_example :
    count_by (is_root_of 5 1) (insert_comment_tx limits praised fresh).1.tables.comments ≤ 2
steps-few_roots_example =
    steps-few_roots limits fresh (insert_comment_tx limits praised fresh).1 5 1 refl refl
      (and_then no_call (inserts praised tt))

insert_comment_tx-may_insert_example :
    is_done (insert_comment_tx limits (post_comment 2 (some 7)) (with_ahead [] with_root)).0
    ≡ may_insert limits (post_comment 2 (some 7)) with_root.tables
insert_comment_tx-may_insert_example =
    insert_comment_tx-may_insert limits (post_comment 2 (some 7)) with_root

insert_comment_tx-Inserted_example :
    Ensures
      (Inserted limits (post_comment 2 (some 7)) with_root)
      (insert_comment_tx limits (post_comment 2 (some 7)) with_root)
insert_comment_tx-Inserted_example =
    insert_comment_tx-Inserted limits (post_comment 2 (some 7)) with_root

-- The commit fails, and is applied all the same.
abbrev lost_answer : Db
lost_answer = record with_root { ahead = none ∷ none ∷ none ∷ some other ∷ []; applied = true }

exec_tx-AllOrNothing_example :
    AllOrNothing
      (Left (insert_body limits (post_comment 1 none)) lost_answer)
      lost_answer.tables
      (exec_tx (insert_body limits (post_comment 1 none)) lost_answer)
exec_tx-AllOrNothing_example =
    exec_tx-AllOrNothing (insert_body limits (post_comment 1 none)) lost_answer

lost_answer_applies :
    (is_done (insert_comment_tx limits (post_comment 1 none) lost_answer).0 ≡ false)
    × (length (insert_comment_tx limits (post_comment 1 none) lost_answer).1.tables.comments ≡ 2)
unfolding insert_comment_tx exec_tx statement
lost_answer_applies = (refl, refl)

abbrev deletion : DeleteCommentTxParams
deletion = record { comment_id = 7; user_id = 1; post_id = 5 }

delete_comment_tx-Deleted_example :
    Ensures
      (λ (r : DeleteCommentTxResult). Deleted deletion with_reply r.success)
      (delete_comment_tx deletion with_reply)
delete_comment_tx-Deleted_example = delete_comment_tx-Deleted deletion with_reply

vote_comment_tx-Voted_example :
    Ensures (λ (c : Comment). Voted upvote with_reply) (vote_comment_tx upvote with_reply)
vote_comment_tx-Voted_example = vote_comment_tx-Voted upvote with_reply

delete_comment_tx-is_own_example :
    is_done (delete_comment_tx deletion (with_ahead [] with_reply)).0
    ≡ is_own deletion (find_by (has_id 7) with_reply.tables.comments)
delete_comment_tx-is_own_example = delete_comment_tx-is_own deletion with_reply

vote_comment_tx-may_vote_example :
    is_done (vote_comment_tx upvote (with_ahead [] with_reply)).0 ≡ may_vote upvote with_reply
vote_comment_tx-may_vote_example = vote_comment_tx-may_vote upvote with_reply

abbrev edit : UpdateCommentParams
edit = record { user_id = 1; post_id = 5; comment_id = 7; body = "better" }

update_comment-EditsOrFails_example : EditsOrFails edit with_reply (update_comment edit with_reply)
update_comment-EditsOrFails_example = update_comment-EditsOrFails edit with_reply

-- The three calls do what they should: two comments stand, the second one below the first, and the
-- first has one vote.
three_calls_run :
    (map (λ (c : Comment). c.depth) with_vote.tables.comments ≡ 1 ∷ 0 ∷ [])
    × (map (λ (c : Comment). c.upvotes) with_vote.tables.comments ≡ pos 0 ∷ pos 1 ∷ [])
    × (is_done (delete_comment_tx deletion with_vote).0 ≡ true)
unfolding insert_comment_tx vote_comment_tx delete_comment_tx exec_tx statement ◌+ℤ◌
three_calls_run = (refl, refl, refl)

-- The second user signs in with a passkey that has no counter, and leaves.
abbrev with_passkey : Db
with_passkey = record fresh {
  tables = record fresh.tables {
    sessions = record { id = 1 ∷ []; user_id = 2 } ∷ record { id = 2 ∷ []; user_id = 1 } ∷ [];
    credentials = record { id = 9 ∷ []; user_id = 2; sign_count = pos 0; last_used_at = none } ∷ [];
  };
}

record_credential_use-RecordsOrFails_example :
    RecordsOrFails
      (9 ∷ [])
      (pos 0)
      with_passkey
      (record_credential_use (9 ∷ []) (pos 0) with_passkey)
record_credential_use-RecordsOrFails_example =
    record_credential_use-RecordsOrFails (9 ∷ []) (pos 0) with_passkey

record_credential_use-is_trusted_example :
    is_done (record_credential_use (9 ∷ []) (pos 4) (with_ahead [] with_passkey)).0
    ≡ is_trusted (pos 4) (find_by (has_credential_id (9 ∷ [])) with_passkey.tables.credentials)
record_credential_use-is_trusted_example =
    record_credential_use-is_trusted (9 ∷ []) (pos 4) with_passkey

soft_delete_user_tx-SoftDeleted_example :
    Ensures (SoftDeleted 2 with_passkey) (soft_delete_user_tx 2 with_passkey)
soft_delete_user_tx-SoftDeleted_example = soft_delete_user_tx-SoftDeleted 2 with_passkey

leaves :
    (is_done (record_credential_use (9 ∷ []) (pos 0) with_passkey).0 ≡ true)
    × (is_done (soft_delete_user_tx 2 with_passkey).0 ≡ true)
unfolding record_credential_use soft_delete_user_tx exec_tx statement
leaves = (refl, refl)

abbrev request : DeleteCommentRequest
request = record { user_id = 1; post_id = some 5; comment_id = some 7 }

delete_comment-deletion_status_example :
    status_code (delete_comment request (with_ahead [] with_reply)).0
    ≡ deletion_status 1 (some 5) (some 7) with_reply.tables.comments
delete_comment-deletion_status_example = delete_comment-deletion_status request with_reply

delete_comment-Deletes_example :
    Deletes 1 (some 5) (some 7) with_reply (delete_comment request with_reply)
delete_comment-Deletes_example = delete_comment-Deletes request with_reply

delete_user-SoftDeleted_example :
    Answers
      (λ after. (result : SoftDeleteUserTxResult) × SoftDeleted 2 with_passkey result after)
      with_passkey.tables
      (delete_user 2 with_passkey)
delete_user-SoftDeleted_example = delete_user-SoftDeleted 2 with_passkey

-- The author, another user, another post, a comment that does not exist, and no number.
statuses :
    (deletion_status 1 (some 5) (some 7) with_reply.tables.comments ≡ 204)
    × (deletion_status 2 (some 5) (some 7) with_reply.tables.comments ≡ 403)
    × (deletion_status 1 (some 6) (some 7) with_reply.tables.comments ≡ 400)
    × (deletion_status 1 (some 5) (some 70) with_reply.tables.comments ≡ 404)
    × (deletion_status 1 none (some 7) with_reply.tables.comments ≡ 400)
unfolding insert_comment_tx exec_tx statement
statuses = (refl, refl, refl, refl, refl)

-- A library for which every text but the empty one reads "hi".
abbrev texts : Texts
texts = record {
  trim_space = λ s. s;
  runes = λ s. if text_eq s "" then [] else 104 ∷ 105 ∷ [];
  is_email = λ s. false;
  is_request_uri = λ s. false;
  is_digit = λ r. not (ltb r 48) && ltb r 58;
  is_letter = λ r. not (ltb r 97) && ltb r 123;
}

abbrev reply_request : CreateCommentRequest
reply_request = record {
  user_id = 2;
  post_id = some 5;
  body = record { content_type = json; first = value "hi"; ends = true };
  comment_id = record { provided = true; parsed = some 7 };
}

-- The reply is taken, but not a second time, and never with a blank text or a NUL.
welcomes :
    (is_welcome texts limits reply_request with_root.tables ≡ true)
    × (is_welcome texts limits reply_request with_reply.tables ≡ false)
    × (is_welcome texts limits
          (record reply_request {
            body = record { content_type = json; first = value ""; ends = true };
          })
          with_root.tables
        ≡ false)
    × (is_welcome texts limits
          (record reply_request {
            body = record { content_type = json; first = value "\0"; ends = true };
          })
          with_root.tables
        ≡ false)
unfolding insert_comment_tx exec_tx statement
welcomes = (refl, refl, refl, refl)

abbrev misplaced : Warning
misplaced = warning misplaced_closing_tag 4

issue_named-serialize_example :
    (issue_named (serialize misplaced sml_dictionary).codename ≡ some misplaced_closing_tag)
    × Tells misplaced (serialize misplaced sml_dictionary)
issue_named-serialize_example = issue_named-serialize misplaced sml_dictionary
