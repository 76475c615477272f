-- ===== src/Api/Json.antt =====
-- api/json_utils.go: the body of a request. What the decoder of Go's library finds in it is given, in
-- the classes that the code tells apart.
use shitposter.Prelude.{Bool, [], if◌then◌else◌}
use shitposter.Api.Vomit.{
  Vomit, puke, internal_err, req_body_too_large, req_json_syntax_error, req_malformed_json,
  req_empty_body, req_incorrect_content_type,
}

pub data ContentType : Type 0 where
  -- no header, one that begins with "application/json", another one
  unnamed json other_type : ContentType

pub data DecodeError : Type 0 where
  max_bytes syntax_error unmarshal_type unknown_field eof unexpected_eof other_error : DecodeError

pub data Decoded (A : Type 0) : Type 0 where
  value : A → Decoded A
  broken : DecodeError → Decoded A

pub record Body (A : Type 0) : Type 0 where
  pub content_type : ContentType
  pub first : Decoded A
  -- a second value is asked for and the body has ended
  pub ends : Bool

pub data Ingested (A : Type 0) : Type 0 where
  target : A → Ingested A
  spat : Vomit → Ingested A

abbrev pub decode_vomit : DecodeError → Vomit
decode_vomit max_bytes = puke req_body_too_large 413 []
decode_vomit syntax_error = puke req_json_syntax_error 400 []
decode_vomit unmarshal_type = puke req_malformed_json 400 []
decode_vomit unknown_field = puke req_malformed_json 400 []
decode_vomit eof = puke req_empty_body 400 []
decode_vomit unexpected_eof = puke req_malformed_json 400 []
decode_vomit other_error = puke internal_err 500 []

abbrev pub decode_all : {A : Type 0} → Decoded A → Bool → Ingested A
decode_all (broken e) ends = spat (decode_vomit e)
decode_all (value a) ends = if ends then target a else spat (puke req_malformed_json 400 [])

abbrev pub ingest_by : {A : Type 0} → ContentType → Decoded A → Bool → Ingested A
ingest_by other_type first ends = spat (puke req_incorrect_content_type 415 [])
ingest_by unnamed first ends = decode_all first ends
ingest_by json first ends = decode_all first ends

-- `ingestJSONBody`
unfoldable pub ingest_json_body : {A : Type 0} → Body A → Ingested A
ingest_json_body b = ingest_by b.content_type b.first b.ends
