-- ===== src/Api/Requests.antt =====
-- api/create_comment.go, api/delete_comment.go and api/delete_user.go: handlers over the store, for a
-- caller that the middleware has let through. A path value is what `strconv.ParseInt` makes of it
-- (api/post_utils.go, api/comments_utils.go), and `none` where that fails, as it does on an empty
-- value.
use shitposter.Prelude.{
  ℕ, Bool, true, false, not, ◌&&◌, Option, none, some, [], ◌∷◌, String, if◌then◌else◌,
}
use shitposter.Db.Error.{Error}
use shitposter.Prelude.Int.{pos}
use shitposter.Db.Tables.{Comment, Config, Db}
use shitposter.Db.Monad.{Outcome, done, failed}
use shitposter.Db.Insert.{InsertCommentTxParams, insert_comment_tx}
use shitposter.Db.Delete.{delete_comment_tx}
use shitposter.Db.Users.{soft_delete_user_tx}
use shitposter.Api.Resource.{ResourceError, new_resource_error}
use shitposter.Api.Vomit.{Vomit, puke, barf, req_invalid_post_id, req_invalid_comment_id}
use shitposter.Api.Validation.{Texts, validate, str_required, str_max}
use shitposter.Api.Json.{Body, Ingested, target, spat, ingest_json_body}

pub data Response : Type 0 where
  no_content : Response
  ok : Comment → Response
  aborted : ResourceError → Response
  rejected : Vomit → Response

abbrev pub status_code : Response → ℕ
status_code no_content = 204
status_code (ok c) = 200
status_code (aborted e) = e.status
status_code (rejected v) = v.status

pub record DeleteCommentRequest : Type 0 where
  -- of the caller's token
  pub user_id : ℕ
  pub post_id : Option ℕ
  pub comment_id : Option ℕ

-- What the handlers do with the result of the store.
unfoldable pub answered : {A : Type 0} → (A → Response) → Outcome Error A × Db → Response × Db
answered good (done a, db) = (good a, db)
answered good (failed e, db) = (aborted (new_resource_error e), db)

abbrev pub delete_by : ℕ → Option ℕ → Option ℕ → Db → Response × Db
delete_by user none comment db = (rejected (puke req_invalid_post_id 400 []), db)
delete_by user (some post) none db = (rejected (puke req_invalid_comment_id 400 []), db)
delete_by user (some post) (some comment) db =
    answered (λ _. no_content)
      (delete_comment_tx (record { comment_id = comment; user_id = user; post_id = post }) db)

-- `deleteComment`
unfoldable pub delete_comment : DeleteCommentRequest → Db → Response × Db
delete_comment req db = delete_by req.user_id req.post_id req.comment_id db

-- `deleteUser`, of the caller
unfoldable pub delete_user : ℕ → Db → Response × Db
delete_user user db = answered (λ _. no_content) (soft_delete_user_tx user db)

-- The path value of the parent, which only a reply has.
pub record CommentIdDescriptor : Type 0 where
  pub provided : Bool
  pub parsed : Option ℕ

abbrev pub valid : Option ℕ → Bool
valid none = false
valid (some i) = true

-- The record has the text of the body as its only field.
pub record CreateCommentRequest : Type 0 where
  pub user_id : ℕ
  pub post_id : Option ℕ
  pub body : Body String
  pub comment_id : CommentIdDescriptor

abbrev pub insert_params : ℕ → ℕ → String → Option ℕ → InsertCommentTxParams
insert_params user post text parent = record {
  user_id = user;
  post_id = post;
  body = text;
  parent_id = parent;
  upvotes = pos 0;
  downvotes = pos 0;
}

-- `CreateCommentRequest.Validate`
abbrev pub validate_create : Texts → String → Option Vomit
validate_create t text = barf (validate [] text "body" (str_required t ∷ str_max t 500 ∷ []))

module _ (t : Texts) (cfg : Config) (user post : ℕ) (desc : CommentIdDescriptor) where
  abbrev pub create_valid : String → Option Vomit → Db → Response × Db
  create_valid text (some v) db = (rejected v, db)
  create_valid text none db =
      if not (valid desc.parsed) && desc.provided
      then (rejected (puke req_invalid_comment_id 400 []), db)
      else answered ok (insert_comment_tx cfg (insert_params user post text desc.parsed) db)

  abbrev pub create_with : Ingested String → Db → Response × Db
  create_with (spat v) db = (rejected v, db)
  create_with (target text) db = create_valid text (validate_create t text) db

abbrev pub create_by : Texts → Config → CreateCommentRequest → Option ℕ → Db → Response × Db
create_by t cfg req none db = (rejected (puke req_invalid_post_id 400 []), db)
create_by t cfg req (some post) db =
    create_with t cfg req.user_id post req.comment_id (ingest_json_body req.body) db

-- `createComment`
unfoldable pub create_comment : Texts → Config → CreateCommentRequest → Db → Response × Db
create_comment t cfg req db = create_by t cfg req req.post_id db
