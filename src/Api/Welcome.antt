-- ===== src/Api/Welcome.antt =====
-- Which requests the handler of api/create_comment.go takes.
use text.Mathlib.Text.{◌==◌ as text_eq}
use shitposter.Prelude.{
  ℕ, Bool, true, false, not, ◌&&◌, ◌||◌, String, Option, none, some, ltb, ◌==◌,
}
use shitposter.Db.Error.{Error}
use shitposter.Db.Tables.{Config, Tables, Db}
use shitposter.Db.Admission.{may_insert}
use shitposter.Api.Validation.{Texts, rune_count}
use shitposter.Api.Json.{ContentType, unnamed, json, other_type, Decoded, value, broken, Body}
use shitposter.Api.Requests.{CommentIdDescriptor, CreateCommentRequest, insert_params, valid}

-- The text of a comment: something besides spaces, and at most 500 runes.
abbrev pub is_text : Texts → String → Bool
is_text t text =
    not (text_eq (t.trim_space text) "") && not (ltb 500 (rune_count t (t.trim_space text)))

abbrev pub has_json : ContentType → Bool
has_json unnamed = true
has_json json = true
has_json other_type = false

abbrev pub is_good_body : {A : Type 0} → (A → Bool) → Body A → Bool
is_good_body {A = A} test b = has_json b.content_type && b.ends && holds b.first
  where
    holds : Decoded A → Bool
    holds (value a) = test a
    holds (broken e) = false

abbrev pub is_good_parent : CommentIdDescriptor → Bool
is_good_parent desc = valid desc.parsed || not desc.provided

-- A number for the post, a content type that is left out or of JSON, a body that is one value of it, a parent that is a number or left out, a
-- text that is neither blank nor too long, and the store's consent.
abbrev pub is_welcome : Texts → Config → CreateCommentRequest → Tables → Bool
is_welcome t cfg req tables = under req.post_id
  where
    under : Option ℕ → Bool
    under none = false
    under (some post) =
        is_good_body
          (λ text.
            is_text t text
            && is_good_parent req.comment_id
            && may_insert cfg (insert_params req.user_id post text req.comment_id.parsed) tables)
          req.body

module _ (t : Texts) (cfg : Config) (user post : ℕ) (desc : CommentIdDescriptor) (db : Db) where
  abbrev consents : String → Bool
  consents text = may_insert cfg (insert_params user post text desc.parsed) db.tables
