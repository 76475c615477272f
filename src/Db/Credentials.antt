-- ===== src/Db/Credentials.antt =====
-- db/sqlc/record_credential_use.go, with record_credential_use of db/migration/000010: the counter of
-- a passkey at a sign-in.
use shitposter.Prelude.{
  ℕ, Bool, true, false, not, ◌&&◌, ◌||◌, Option, none, some, [], ◌∷◌, if◌then◌else◌, String, Bytes,
  bytes_eq,
}
use shitposter.Prelude.Int.{ℤ, pos, negsuc, leb_ℤ, ◌==ℤ◌}
use shitposter.Db.Error.{
  DriverError, Error, op_error, hex, security, Entity, new_op_error, not_found_error,
  with_entity_id, no_details, sql_error,
}
use shitposter.Db.Tables.{WebauthnCredential}
use shitposter.Db.Monad.{M, pure, fail, ◌>>=◌, or_else, statement}
use shitposter.Db.Queries.{find_by, update_by}

abbrev pub has_credential_id : Bytes → WebauthnCredential → Bool
has_credential_id i c = bytes_eq c.id i

pub record RecordCredentialUseRow : Type 0 where
  pub cred_exists : Bool
  pub prev_count : ℤ
  pub suspicious : Bool

-- The policy: only 0 -> 0 may stand still.
abbrev pub is_suspicious : ℤ → ℤ → Bool
is_suspicious count stored = leb_ℤ count stored && (not (count ==ℤ pos 0) || not (stored ==ℤ pos 0))

abbrev pub used : Bool → ℤ → ℕ → WebauthnCredential → WebauthnCredential
used suspicious count now c = record c {
  sign_count = if suspicious then c.sign_count else count;
  last_used_at = if suspicious then c.last_used_at else some now;
}

abbrev pub record_use_found :
    Bytes → ℤ → Option WebauthnCredential → M DriverError RecordCredentialUseRow
record_use_found i count none db =
    pure (record { cred_exists = false; prev_count = negsuc 0; suspicious = false }) db
record_use_found i count (some c) db =
    let suspicious = is_suspicious count c.sign_count in
    pure (record { cred_exists = true; prev_count = c.sign_count; suspicious = suspicious })
      (record db {
        tables = record db.tables {
          credentials =
              update_by (has_credential_id i) (used suspicious count db.now) db.tables.credentials;
        };
      })

abbrev pub record_use : Bytes → ℤ → M DriverError RecordCredentialUseRow
record_use i count db =
    record_use_found i count (find_by (has_credential_id i) db.tables.credentials) db

abbrev pub op_record_credential_use : String
op_record_credential_use = "record-credential-use"

abbrev pub use_error : Bytes → DriverError → Error
use_error i e = op_error (
    sql_error op_record_credential_use
      (record no_details { entity = Entity.webauthn_credential; entity_id = hex i }) e)

abbrev pub after_use : Bytes → RecordCredentialUseRow → M Error Unit
after_use i row =
    if not row.cred_exists
    then fail
        (op_error (not_found_error op_record_credential_use Entity.webauthn_credential (hex i)))
    else if row.suspicious
    then fail (
        op_error (
          new_op_error op_record_credential_use security Entity.webauthn_credential
            (with_entity_id (hex i) ∷ [])))
    else pure tt

-- `RecordCredentialUse`
unfoldable pub record_credential_use : Bytes → ℤ → M Error Unit
record_credential_use i count = do
  row ← or_else (statement (record_use i count)) (use_error i)
  after_use i row
