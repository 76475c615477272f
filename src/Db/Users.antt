-- ===== src/Db/Users.antt =====
-- db/sqlc/tx_soft_delete_user.go, with soft_delete_user of db/migration/000008: a user is deleted.
use shitposter.Prelude.{
  ℕ, Bool, true, not, ◌&&◌, Option, none, some, List, [], ◌∷◌, ◌==◌, if◌then◌else◌, String,
}
use shitposter.Db.Error.{
  OpError, DriverError, Error, number, internal, Entity, new_op_error, not_found_error, no_rows,
  with_entity_id, no_details, sql_error,
}
use shitposter.Db.Tables.{
  User, Session, WebauthnCredential, Db, Label, deleted_user, deleted_address,
}
use shitposter.Db.Monad.{M, pure, fail, ◌>>=◌, ◌>>◌, or_else, statement}
use shitposter.Db.Queries.{find_by, update_by, remove_by, has_user}
use shitposter.Db.Tx.{exec_tx}

abbrev pub session_of : ℕ → Session → Bool
session_of i s = s.user_id == i

abbrev pub credential_of : ℕ → WebauthnCredential → Bool
credential_of i c = c.user_id == i

-- `deleteUserSessions`
abbrev pub delete_user_sessions : ℕ → M DriverError Unit
delete_user_sessions i db = pure tt (record db {
  tables = record db.tables { sessions = remove_by (session_of i) db.tables.sessions };
})

-- `deleteUserCredentials`
abbrev pub delete_user_credentials : ℕ → M DriverError Unit
delete_user_credentials i db = pure tt (record db {
  tables = record db.tables { credentials = remove_by (credential_of i) db.tables.credentials };
})

pub record SoftDeleteUserRow : Type 0 where
  pub id : ℕ
  pub username : Label
  pub display_name : String
  pub email : Label
  pub profile_img_url : Option String
  pub is_deleted : Bool
  pub deleted_at : ℕ
  pub last_modified_at : ℕ
  pub success : Bool

-- The columns of a user; the deletion went well, or was done before.
abbrev pub user_row : User → SoftDeleteUserRow
user_row u = record {
  id = u.id;
  username = u.username;
  display_name = u.display_name;
  email = u.email;
  profile_img_url = u.profile_img_url;
  is_deleted = u.is_deleted;
  deleted_at = u.deleted_at;
  last_modified_at = u.last_modified_at;
  success = true;
}

abbrev pub as_deleted_user : ℕ → User → User
as_deleted_user now u = record u {
  is_deleted = true;
  display_name = "[deleted]";
  deleted_at = now;
  last_modified_at = now;
  archived_username = u.username;
  archived_email = u.email;
  username = deleted_user u.id;
  email = deleted_address u.id;
  profile_img_url = none;
}

abbrev pub with_users : (List User → List User) → Db → Db
with_users f db = record db { tables = record db.tables { users = f db.tables.users } }

abbrev pub active_user : ℕ → User → Bool
active_user i u = (u.id == i) && not u.is_deleted

abbrev pub soft_delete_found : ℕ → Option User → M DriverError SoftDeleteUserRow
soft_delete_found i none db = fail no_rows db
soft_delete_found i (some u) db =
    if u.is_deleted
    then pure (user_row u) db
    else pure (user_row (as_deleted_user db.now u))
        (with_users (update_by (active_user i) (as_deleted_user db.now)) db)

-- `softDeleteUser`
abbrev pub soft_delete_user : ℕ → M DriverError SoftDeleteUserRow
soft_delete_user i db = soft_delete_found i (find_by (has_user i) db.tables.users) db

pub record SoftDeleteUserTxResult : Type 0 where
  pub id : ℕ
  pub display_name : String
  pub username : Label
  pub email : Label
  pub profile_img_url : Option String
  pub is_deleted : Bool
  pub deleted_at : ℕ
  pub last_modified_at : ℕ

abbrev pub op_soft_delete_user : String
op_soft_delete_user = "soft-delete-user"

abbrev pub soft_delete_error : ℕ → DriverError → OpError
soft_delete_error i no_rows = not_found_error op_soft_delete_user Entity.user (number i)
soft_delete_error i e =
    sql_error op_soft_delete_user
      (record no_details { entity = Entity.user; entity_id = number i; user_id = number i }) e

abbrev pub after_soft_delete : ℕ → SoftDeleteUserRow → M OpError SoftDeleteUserTxResult
after_soft_delete i row =
    if row.success
    then pure (record {
      id = row.id;
      display_name = row.display_name;
      username = row.username;
      email = row.email;
      profile_img_url = row.profile_img_url;
      is_deleted = row.is_deleted;
      deleted_at = row.deleted_at;
      last_modified_at = row.last_modified_at;
    })
    else fail
        (new_op_error op_soft_delete_user internal Entity.user (with_entity_id (number i) ∷ []))

abbrev pub owned_error : ℕ → Entity → DriverError → OpError
owned_error i entity e =
    sql_error op_soft_delete_user (record no_details { user_id = number i; entity = entity }) e

abbrev pub soft_delete_body : ℕ → M OpError SoftDeleteUserTxResult
soft_delete_body i = do
  or_else (statement (delete_user_sessions i)) (owned_error i Entity.session)
  or_else (statement (delete_user_credentials i)) (owned_error i Entity.webauthn_credential)
  row ← or_else (statement (soft_delete_user i)) (soft_delete_error i)
  after_soft_delete i row

-- `SoftDeleteUserTx`
unfoldable pub soft_delete_user_tx : ℕ → M Error SoftDeleteUserTxResult
soft_delete_user_tx i = exec_tx (soft_delete_body i)
