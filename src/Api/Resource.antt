-- ===== src/Api/Resource.antt =====
-- api/resource_error.go: what an error of the store becomes in a response. The text of the cause of an
-- `*OpError` is not built, so a message says whose text it is.
use shitposter.Prelude.{ℕ, String, Option, none, some}
use shitposter.Db.Error.{
  Error, OpError, Kind, op_error, internal, not_found, invalid, permission, relation, deleted,
  conflict, constraint, kind_name,
}

-- api/error.go
pub data ApiKind : Type 0 where
  auth payload resource : ApiKind

pub data Message : Type 0 where
  -- "an internal error occurred"
  internal_text : Message
  cause_of : OpError → Message
  told : String → Message

pub record ResourceError : Type 0 where
  pub kind : ApiKind
  pub reason : String
  pub status : ℕ
  pub error : Message
  pub op_err : Option OpError

unfoldable pub op_kind_to_http_status : Kind → ℕ
op_kind_to_http_status not_found = 404
op_kind_to_http_status relation = 400
op_kind_to_http_status deleted = 410
op_kind_to_http_status conflict = 409
op_kind_to_http_status permission = 403
op_kind_to_http_status constraint = 422
op_kind_to_http_status invalid = 400
op_kind_to_http_status _ = 500

abbrev pub not_found_resource_error : String → ResourceError
not_found_resource_error msg = record {
  kind = resource;
  reason = kind_name not_found;
  status = 404;
  error = told msg;
  op_err = none;
}

abbrev pub internal_resource_error : ResourceError
internal_resource_error = record {
  kind = resource;
  reason = kind_name internal;
  status = 500;
  error = internal_text;
  op_err = none;
}

abbrev message_of : Kind → OpError → Message
message_of internal e = internal_text
message_of _ e = cause_of e

-- `newResourceError`: only an `*OpError` is found in the error.
unfoldable pub new_resource_error : Error → ResourceError
new_resource_error (op_error e) = record {
  kind = resource;
  reason = kind_name e.kind;
  status = op_kind_to_http_status e.kind;
  error = message_of e.kind e;
  op_err = some e;
}
new_resource_error _ = internal_resource_error
