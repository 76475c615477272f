-- ===== src/Api/Vomit.antt =====
-- api/vomit.go: what is wrong with a request. The texts of messages are left out.
use shitposter.Prelude.{ℕ, String, List, [], ◌∷◌, Option, none, some}
use shitposter.Api.Resource.{ApiKind, payload}

pub data Flavor : Type 0 where
  internal_err req_body_too_large req_json_syntax_error req_malformed_json req_empty_body : Flavor
  req_invalid_arguments req_invalid_post_id req_invalid_comment_id : Flavor
  req_incorrect_content_type req_missing_data : Flavor

pub record Issue : Type 0 where
  pub field_name : String
  pub tag : String

pub record Vomit : Type 0 where
  pub kind : ApiKind
  pub reason : Flavor
  pub status : ℕ
  pub issues : List Issue

abbrev pub puke : Flavor → ℕ → List Issue → Vomit
puke flavor code found = record { kind = payload; reason = flavor; status = code; issues = found }

-- `barf`, of api/validation_utils.go
abbrev pub barf : List Issue → Option Vomit
barf [] = none
barf (i ∷ issues) = some (puke req_invalid_arguments 400 (i ∷ issues))
