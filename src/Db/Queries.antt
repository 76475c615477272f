-- ===== src/Db/Queries.antt =====
-- The statements on comments: the queries of db/sqlc/comment.sql.go with the functions they call,
-- delete_comment_leaf of db/migration/000011 and update_comment of db/migration/000004. Each is what
-- the statement does to the tables when the connection holds.
use Prim.Native.Char.{code}
use shitposter.Prelude.{
  ℕ, suc, ◌+◌, leb, Bool, true, false, not, ◌&&◌, ◌||◌, Option, none, some, List, [], ◌∷◌, ◌==◌,
  if◌then◌else◌, String,
}
use shitposter.Prelude.Int.{ℤ, pos_part, neg_part, ◌+ℤ◌}
use shitposter.Db.Error.{DriverError, no_rows, pg_error, foreign_key_violation, unique_violation}
use shitposter.Db.Tables.{Comment, User, Tables, Db}
use shitposter.Db.Monad.{M, pure, fail}

module _ {ℓ} {A : Type ℓ} where
  -- SELECT ... WHERE, UPDATE ... WHERE, DELETE ... WHERE and COUNT
  abbrev pub find_by : (A → Bool) → List A → Option A
  find_by t [] = none
  find_by t (x ∷ xs) = if t x then some x else find_by t xs

  abbrev pub update_by : (A → Bool) → (A → A) → List A → List A
  update_by t f [] = []
  update_by t f (x ∷ xs) = (if t x then f x else x) ∷ update_by t f xs

  abbrev pub update_first : (A → Bool) → (A → A) → List A → List A
  update_first t f [] = []
  update_first t f (x ∷ xs) = if t x then f x ∷ xs else x ∷ update_first t f xs

  abbrev pub remove_by : (A → Bool) → List A → List A
  remove_by t [] = []
  remove_by t (x ∷ xs) = if t x then remove_by t xs else x ∷ remove_by t xs

  abbrev pub count_by : (A → Bool) → List A → ℕ
  count_by t [] = 0
  count_by t (x ∷ xs) = if t x then suc (count_by t xs) else count_by t xs

abbrev pub is_some : {A : Type 0} → Option A → Bool
is_some none = false
is_some (some a) = true

abbrev pub exists_by : {A : Type 0} → (A → Bool) → List A → Bool
exists_by t xs = is_some (find_by t xs)

abbrev pub is_parent : ℕ → Option ℕ → Bool
is_parent i none = false
is_parent i (some p) = p == i

abbrev pub has_id : ℕ → Comment → Bool
has_id i c = c.id == i

abbrev pub replies_to : ℕ → Comment → Bool
replies_to i c = is_parent i c.parent_id

abbrev pub with_comments : (List Comment → List Comment) → Db → Db
with_comments f db = record db { tables = record db.tables { comments = f db.tables.comments } }

abbrev pub first_row : {A : Type 0} → Option A → M DriverError A
first_row none = fail no_rows
first_row (some a) = pure a

-- `getCommentWithLock`
abbrev pub get_comment_with_lock : ℕ → M DriverError Comment
get_comment_with_lock i db = first_row (find_by (has_id i) db.tables.comments) db

abbrev pub is_root : Option ℕ → Bool
is_root none = true
is_root (some p) = false

abbrev pub is_root_of : ℕ → ℕ → Comment → Bool
is_root_of post_id user_id c =
    (c.post_id == post_id) && (c.user_id == user_id) && is_root c.parent_id

-- `getRootCommentCountForUser`
abbrev pub get_root_comment_count_for_user : ℕ → ℕ → M DriverError ℕ
get_root_comment_count_for_user post_id user_id db =
    pure (count_by (is_root_of post_id user_id) db.tables.comments) db

pub record CreateCommentParams : Type 0 where
  pub user_id : ℕ
  pub post_id : ℕ
  pub body : String
  pub parent_id : Option ℕ
  pub depth : ℕ
  pub upvotes : ℤ
  pub downvotes : ℤ

abbrev pub has_user : ℕ → User → Bool
has_user i u = u.id == i

abbrev pub new_comment : CreateCommentParams → Db → Comment
new_comment arg db = record {
  id = db.comment_seq;
  user_id = arg.user_id;
  post_id = arg.post_id;
  parent_id = arg.parent_id;
  depth = arg.depth;
  upvotes = arg.upvotes;
  downvotes = arg.downvotes;
  body = arg.body;
  created_at = db.now;
  last_modified_at = db.now;
  is_deleted = false;
  deleted_at = 0;
}

-- uniq_reply_per_user_parent
abbrev same_reply : ℕ → ℕ → Comment → Bool
same_reply user_id i c = (c.user_id == user_id) && replies_to i c && not c.is_deleted

abbrev pub replied_already : ℕ → Option ℕ → List Comment → Bool
replied_already user_id none cs = false
replied_already user_id (some i) cs = exists_by (same_reply user_id i) cs

abbrev pub parent_exists : Option ℕ → List Comment → Bool
parent_exists none cs = true
parent_exists (some i) cs = exists_by (has_id i) cs

-- A text in the database holds no NUL.
abbrev pub has_nul : String → Bool
has_nul String.[] = false
has_nul (String.◌∷◌ c s) = (code c == 0) || has_nul s

-- The error of a text with a NUL, which is met before the statement runs.
abbrev pub bad_text : DriverError
bad_text = pg_error "22021" ""

-- `popularity BIGINT GENERATED ALWAYS AS (upvotes - downvotes)`
abbrev pub is_bigint : ℤ → ℤ → Bool
is_bigint up down =
    let above = pos_part up + neg_part down in
    let under = neg_part up + pos_part down in
    leb under (above + 9223372036854775808) && leb above (under + 9223372036854775807)

-- The popularity is computed with the row, the indices are looked up while it is stored, the foreign
-- keys when it stands.
abbrev pub create_checks : CreateCommentParams → Tables → Option DriverError
create_checks arg t =
    if not (is_bigint arg.upvotes arg.downvotes)
    then some (pg_error "22003" "")
    else if replied_already arg.user_id arg.parent_id t.comments
    then some (pg_error unique_violation "uniq_reply_per_user_parent")
    else if not (exists_by (has_user arg.user_id) t.users)
    then some (pg_error foreign_key_violation "comments_user_id_fkey")
    else if not (exists_by (λ p. p == arg.post_id) t.posts)
    then some (pg_error foreign_key_violation "comments_post_id_fkey")
    else if not (parent_exists arg.parent_id t.comments)
    then some (pg_error foreign_key_violation "comments_parent_id_fkey")
    else none

abbrev pub next_comment_id : Db → Db
next_comment_id db = record db { comment_seq = suc db.comment_seq }

abbrev pub create_checked : Option DriverError → CreateCommentParams → M DriverError Comment
create_checked (some e) arg db = fail e (next_comment_id db)
create_checked none arg db =
    pure (new_comment arg db) (with_comments (λ cs. new_comment arg db ∷ cs) (next_comment_id db))

-- `createComment`: the identifier is drawn before the row is checked.
abbrev pub create_comment : CreateCommentParams → M DriverError Comment
create_comment arg =
    if has_nul arg.body
    then fail bad_text
    else (λ db. create_checked (create_checks arg db.tables) arg db)

pub record DeleteCommentIfLeafRow : Type 0 where
  pub id : ℕ
  pub user_id : ℕ
  pub post_id : ℕ
  pub is_deleted : Bool
  pub deleted_at : ℕ
  pub has_children : Bool
  pub deleted_ok : Bool

abbrev pub leaf_row : Comment → Bool → Bool → DeleteCommentIfLeafRow
leaf_row c children ok = record {
  id = c.id;
  user_id = c.user_id;
  post_id = c.post_id;
  is_deleted = c.is_deleted;
  deleted_at = c.deleted_at;
  has_children = children;
  deleted_ok = ok;
}

-- DELETE FROM comments with the cascade to comment_votes
abbrev pub without_comment : ℕ → Db → Db
without_comment i db = record db {
  tables = record db.tables {
    comments = remove_by (has_id i) db.tables.comments;
    votes = remove_by (λ v. v.comment_id == i) db.tables.votes;
  };
}

abbrev pub delete_found : ℕ → ℕ → ℕ → Option Comment → M DriverError DeleteCommentIfLeafRow
delete_found comment_id user_id post_id none db = fail no_rows db
delete_found comment_id user_id post_id (some c) db =
    let children = exists_by (replies_to comment_id) db.tables.comments in
    if (c.user_id == user_id) && (c.post_id == post_id) && not c.is_deleted && not children
    then pure (leaf_row c children true) (without_comment comment_id db)
    else pure (leaf_row c children false) db

-- `deleteCommentIfLeaf`
abbrev pub delete_comment_if_leaf : ℕ → ℕ → ℕ → M DriverError DeleteCommentIfLeafRow
delete_comment_if_leaf comment_id user_id post_id db =
    delete_found comment_id user_id post_id (find_by (has_id comment_id) db.tables.comments) db

abbrev pub as_deleted : ℕ → Comment → Comment
as_deleted now c = record c {
  body = "[deleted]";
  is_deleted = true;
  deleted_at = now;
  last_modified_at = now;
}

abbrev pub returning :
    Option Comment → (Comment → Bool) → (Comment → Comment) → M DriverError Comment
returning none t f db = fail no_rows db
returning (some c) t f db = pure (f c) (with_comments (update_by t f) db)

-- UPDATE comments ... RETURNING
abbrev pub update_returning : (Comment → Bool) → (Comment → Comment) → M DriverError Comment
update_returning t f db = returning (find_by t db.tables.comments) t f db

-- `softDeleteComment`
abbrev pub soft_delete_comment : ℕ → M DriverError Comment
soft_delete_comment i db = update_returning (has_id i) (as_deleted db.now) db

abbrev pub is_live : ℕ → Comment → Bool
is_live i c = (c.id == i) && not c.is_deleted

abbrev pub with_deltas : ℤ → ℤ → ℕ → Comment → Comment
with_deltas up down now c = record c {
  upvotes = c.upvotes +ℤ up;
  downvotes = c.downvotes +ℤ down;
  last_modified_at = now;
}

-- `updateCommentPopularity`
abbrev pub update_comment_popularity : ℕ → ℤ → ℤ → M DriverError Comment
update_comment_popularity i up down db =
    update_returning (is_live i) (with_deltas up down db.now) db

pub record UpdateCommentRow : Type 0 where
  pub id : ℕ
  pub user_id : ℕ
  pub post_id : ℕ
  pub is_deleted : Bool
  pub body : String
  pub last_modified_at : ℕ
  pub updated : Bool

abbrev pub update_row : Comment → Bool → UpdateCommentRow
update_row c updated = record {
  id = c.id;
  user_id = c.user_id;
  post_id = c.post_id;
  is_deleted = c.is_deleted;
  body = c.body;
  last_modified_at = c.last_modified_at;
  updated = updated;
}

abbrev pub with_body : String → ℕ → Comment → Comment
with_body body now c = record c { body = body; last_modified_at = now }

abbrev pub update_found : ℕ → ℕ → ℕ → String → Option Comment → M DriverError UpdateCommentRow
update_found comment_id user_id post_id body none db = fail no_rows db
update_found comment_id user_id post_id body (some c) db =
    if (c.user_id == user_id) && (c.post_id == post_id) && not c.is_deleted
    then pure (update_row (with_body body db.now c) true)
        (with_comments (update_by (has_id comment_id) (with_body body db.now)) db)
    else pure (update_row c false) db

-- `updateComment`
abbrev pub update_comment_body : ℕ → ℕ → ℕ → String → M DriverError UpdateCommentRow
update_comment_body comment_id user_id post_id body = if has_nul body then fail bad_text else (λ db.
    update_found comment_id user_id post_id body (find_by (has_id comment_id) db.tables.comments)
      db)
