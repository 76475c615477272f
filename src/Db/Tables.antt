-- ===== src/Db/Tables.antt =====
-- The tables of db/migration/ and the rows of db/sqlc/models.go. An identifier is only compared, so
-- it is a natural number; a time is the number that a clock shows. Of posts, users, sessions and
-- credentials the columns are those that the modelled queries read or write.
use shitposter.Prelude.{ℕ, Bool, Option, List, String, Bytes}
use shitposter.Prelude.Int.{ℤ}
use shitposter.Db.Error.{DriverError}

pub record Comment : Type 0 where
  pub id : ℕ
  pub user_id : ℕ
  pub post_id : ℕ
  pub parent_id : Option ℕ
  pub depth : ℕ
  pub upvotes : ℤ
  pub downvotes : ℤ
  pub body : String
  pub created_at : ℕ
  pub last_modified_at : ℕ
  pub is_deleted : Bool
  pub deleted_at : ℕ

pub record CommentVote : Type 0 where
  pub id : ℕ
  pub user_id : ℕ
  pub comment_id : ℕ
  pub vote : ℤ
  pub created_at : ℕ
  pub last_modified_at : ℕ

-- A name or an address: a text, or what the database makes of the identifier of a deleted user.
pub data Label : Type 0 where
  text : String → Label
  deleted_user : ℕ → Label
  deleted_address : ℕ → Label

pub record User : Type 0 where
  pub id : ℕ
  pub username : Label
  pub email : Label
  pub display_name : String
  pub profile_img_url : Option String
  pub is_deleted : Bool
  pub deleted_at : ℕ
  pub last_modified_at : ℕ
  pub archived_username : Label
  pub archived_email : Label

pub record Session : Type 0 where
  pub id : Bytes
  pub user_id : ℕ

pub record WebauthnCredential : Type 0 where
  pub id : Bytes
  pub user_id : ℕ
  pub sign_count : ℤ
  pub last_used_at : Option ℕ

pub record Tables : Type 0 where
  pub users : List User
  pub posts : List ℕ
  pub comments : List Comment
  pub votes : List CommentVote
  pub sessions : List Session
  pub credentials : List WebauthnCredential

-- The tables, what lies outside of transactions (the sequences of identifiers and the clock), and
-- how the connection will behave: an error ahead makes the statement that meets it fail. A commit whose
-- answer is an error may have reached the server all the same, and be applied.
pub record Db : Type 0 where
  pub tables : Tables
  pub comment_seq : ℕ
  pub vote_seq : ℕ
  pub now : ℕ
  pub ahead : List (Option DriverError)
  pub applied : Bool

-- What the store reads of `util.Config`.
pub record Config : Type 0 where
  pub comment_max_nesting_depth : ℕ
  pub comment_max_root_count_per_user : ℕ
