-- ===== src/LinkExamples.antt =====
-- The theorems on the links and the HTML of sml/, at concrete attributes and trees.
use shitposter.Prelude.{
  ◌≤◌, ◌≡◌, refl, String, false, Option, none, some, List, [], ◌∷◌, ◌==◌, if◌then◌else◌, Bytes,
  length, All,
}
use shitposter.Sml.Link.{
  Issue, Strings, SerializableAttribute, href, target, title, blank, rel_attribute, link_attributes,
}
use shitposter.Sml.SafeLinks.{IsSafe}
use shitposter.Sml.KeptLinks.{link_attributes-IsSafe}
use shitposter.Sml.Render.{
  NodeFields, SerializableNode, node, no_nodes, and_nodes, normalize_render_tree, normalize_node,
  html,
}
use shitposter.Sml.CleanHtml.{Renders, html-Renders}

-- What stands before a colon.
abbrev scheme_in : Bytes → Option Bytes
scheme_in [] = none
scheme_in (b ∷ bs) =
    let rest = scheme_in bs in
    if b == 58 then some [] else elim rest [ none ↦ none | some s ↦ some (b ∷ s) ]

abbrev no_scheme : Option Bytes → Option Bytes
no_scheme none = some []
no_scheme (some s) = some s

-- Texts of small letters without spaces.
abbrev plain : Strings
plain = record {
  to_lower = λ bs. bs;
  trim_space = λ bs. bs;
  rune_count = length;
  parse = λ bs. no_scheme (scheme_in bs);
}

abbrev attribute : Bytes → Bytes → SerializableAttribute
attribute n p = record { name = n; payload = p; is_flag = false }

-- "http:a" and "js:a"
abbrev web : SerializableAttribute
web = attribute href (104 ∷ 116 ∷ 116 ∷ 112 ∷ 58 ∷ 97 ∷ [])

abbrev script : SerializableAttribute
script = attribute href (106 ∷ 115 ∷ 58 ∷ 97 ∷ [])

abbrev given : List SerializableAttribute
given = script ∷ web ∷ attribute target blank ∷ attribute title (97 ∷ []) ∷ []

link_attributes-IsSafe_example :
    All (IsSafe plain) (link_attributes plain given []).allowed
    × (length (link_attributes plain given []).allowed ≤ 4)
link_attributes-IsSafe_example = link_attributes-IsSafe plain given []

-- A script is refused; the reference and the target stay; and a target before the reference
-- overwrites the reference with its own second attribute.
links_kept :
    ((link_attributes plain given []).allowed
      ≡ web ∷ attribute target blank ∷ rel_attribute ∷ attribute title (97 ∷ []) ∷ [])
    × ((link_attributes plain (attribute target blank ∷ web ∷ []) []).allowed
        ≡ attribute target blank ∷ rel_attribute ∷ [])
unfolding link_attributes
links_kept = (refl, refl)

abbrev fields : String → String → List SerializableAttribute → Bytes → NodeFields
fields n t xs bs = record { name = n; node_type = t; attributes = xs; content = bs; id = 0 }

abbrev letter : List SerializableAttribute → SerializableNode
letter xs = node (fields "TEXT" "Text" xs (97 ∷ [])) no_nodes

abbrev post : SerializableNode
post = node (fields "ROOT" "Root" [] []) (
    and_nodes (node (fields "BOLD" "Tag" (web ∷ []) []) (and_nodes (letter []) no_nodes)) (
      and_nodes
        (node (fields "LINK" "Tag" (script ∷ web ∷ []) []) (and_nodes (letter (web ∷ [])) no_nodes))
        no_nodes))

abbrev clean_post : SerializableNode
clean_post = node (fields "ROOT" "Root" [] []) (
    and_nodes (node (fields "BOLD" "Tag" [] []) (and_nodes (letter []) no_nodes)) (
      and_nodes (node (fields "LINK" "Tag" (web ∷ []) []) (and_nodes (letter []) no_nodes))
        no_nodes))

html-Renders_example : Renders plain (html clean_post)
unfolding normalize_render_tree normalize_node link_attributes
html-Renders_example =
    html-Renders plain post clean_post []
      (Issue.attribute_not_allowed ∷ Issue.attribute_invalid_payload ∷ Issue.attribute_not_allowed
        ∷ [])
      refl
