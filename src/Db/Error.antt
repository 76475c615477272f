-- ===== src/Db/Error.antt =====
-- db/sqlc/error.go: the errors of the store. An identifier that the source prints into a field of
-- text is kept as it is, and an empty field is `absent`; the messages for people are left out. Of an
-- error of the driver the store reads whether it is `pgx.ErrNoRows`, or else the code and the
-- constraint of a `*pgconn.PgError`.
use text.Mathlib.Text.{◌==◌ as text_eq}
use shitposter.Prelude.{ℕ, String, List, [], ◌∷◌, ◌++◌, Bytes, if◌then◌else◌}

pub data Kind : Type 0 where
  internal not_found invalid permission relation : Kind
  conflict deleted corrupted constraint security : Kind

-- `Kind.String`
unfoldable pub kind_name : Kind → String
kind_name internal = "internal"
kind_name not_found = "not_found"
kind_name invalid = "invalid"
kind_name permission = "permission"
kind_name relation = "relation"
kind_name conflict = "conflict"
kind_name deleted = "deleted"
kind_name corrupted = "corrupted"
kind_name constraint = "constraint"
kind_name security = "security"

pub data Entity : Type 0 where
  no_entity post post_vote comment comment_vote user webauthn_credential session : Entity

pub data Ident : Type 0 where
  absent : Ident
  number : ℕ → Ident
  hex : Bytes → Ident

pub record OpError : Type 0 where
  pub op : String
  pub kind : Kind
  pub entity : Entity
  pub entity_id : Ident
  pub related_entity : Entity
  pub related_entity_id : Ident
  pub failing_field : String
  pub user_id : Ident

pub data DriverError : Type 0 where
  no_rows : DriverError
  -- a code and the name of a constraint
  pg_error : String → String → DriverError
  other : DriverError

-- What a method of the store returns: an `*OpError`, an error of the driver as it came, or the text
-- that `execTx` makes of two of them, in which neither can be found again.
pub data Error : Type 0 where
  op_error : OpError → Error
  driver : DriverError → Error
  rolled_back_badly : Error

abbrev pub with_entity_id : Ident → OpError → OpError
with_entity_id i e = record e { entity_id = i }

abbrev pub with_user : Ident → OpError → OpError
with_user i e = record e { user_id = i }

abbrev pub with_related : Entity → Ident → OpError → OpError
with_related r i e = record e { related_entity = r; related_entity_id = i }

abbrev pub with_field : String → OpError → OpError
with_field f e = record e { failing_field = f }

abbrev decorated : List (OpError → OpError) → OpError → OpError
decorated [] e = e
decorated (dec ∷ decs) e = decorated decs (dec e)

abbrev pub new_op_error : String → Kind → Entity → List (OpError → OpError) → OpError
new_op_error op kind entity opts = decorated opts (record {
  op = op;
  kind = kind;
  entity = entity;
  entity_id = absent;
  related_entity = no_entity;
  related_entity_id = absent;
  failing_field = "";
  user_id = absent;
})

abbrev pub not_found_error : String → Entity → Ident → OpError
not_found_error op entity i = new_op_error op not_found entity (with_entity_id i ∷ [])

pub record OpDetails : Type 0 where
  pub entity_id : Ident
  pub user_id : Ident
  pub post_id : Ident
  pub comment_id : Ident
  pub entity : Entity

abbrev pub no_details : OpDetails
no_details = record {
  entity_id = absent;
  user_id = absent;
  post_id = absent;
  comment_id = absent;
  entity = no_entity;
}

abbrev given : Ident → (Ident → OpError → OpError) → List (OpError → OpError)
given absent dec = []
given i dec = dec i ∷ []

abbrev pub decorators : OpDetails → List (OpError → OpError)
decorators det = given det.entity_id with_entity_id ++ given det.user_id with_user

unfoldable pub foreign_key_error : String → OpDetails → String → OpError
foreign_key_error op det name =
    if text_eq name "comments_post_id_fkey"
    then new_op_error op relation comment (with_related post det.post_id ∷ [])
    else if text_eq name "comment_votes_comment_id_fkey"
    then new_op_error op relation comment_vote (with_related comment det.comment_id ∷ [])
    else if text_eq name "comment_votes_user_id_fkey"
    then new_op_error op relation comment_vote (with_related user det.user_id ∷ [])
    else new_op_error op relation det.entity (decorators det)

unfoldable pub unique_error : String → OpDetails → String → OpError
unique_error op det name =
    if text_eq name "uniq_users_username_active"
    then new_op_error op conflict user (decorators det ++ with_field "username" ∷ [])
    else if text_eq name "uniq_users_email_active"
    then new_op_error op conflict user (decorators det ++ with_field "email" ∷ [])
    else new_op_error op conflict det.entity (decorators det)

abbrev pub foreign_key_violation : String
foreign_key_violation = "23503"

abbrev pub unique_violation : String
unique_violation = "23505"

-- `sqlError`
unfoldable pub sql_error : String → OpDetails → DriverError → OpError
unfolding foreign_key_error unique_error
sql_error op det (pg_error code name) =
    if text_eq code foreign_key_violation
    then foreign_key_error op det name
    else if text_eq code unique_violation
    then unique_error op det name
    else new_op_error op internal det.entity (decorators det)
sql_error op det _ = new_op_error op internal det.entity (decorators det)
