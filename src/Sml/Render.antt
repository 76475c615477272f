-- ===== src/Sml/Render.antt =====
-- sml/normalize_render_tree.go and sml/html.go: the tree of a post is stripped of attributes that are
-- not allowed and written as HTML. What is written is a list of chunks: html.EscapeString is left to be
-- applied to a chunk that is marked as escaped.
use text.Mathlib.Text.{◌==◌ as text_eq}
use shitposter.Prelude.{
  ℕ, Bool, ◌||◌, Option, none, some, List, [], ◌∷◌, ◌++◌, String, Bytes, if◌then◌else◌,
}
use shitposter.Sml.Link.{
  Issue, attribute_not_allowed, Strings, SerializableAttribute, link_attributes,
}

-- The fields of a `scum.SerializableNode` but its children.
pub record NodeFields : Type 0 where
  pub name : String
  pub node_type : String
  pub attributes : List SerializableAttribute
  pub content : Bytes
  pub id : ℕ

mutual
  pub data SerializableNode : Type 0 where
    node : NodeFields → Nodes → SerializableNode

  pub data Nodes : Type 0 where
    no_nodes : Nodes
    and_nodes : SerializableNode → Nodes → Nodes

pub data Normalized (A : Type 0) : Type 0 where
  normalized : A → List Issue → Normalized A
  panics : Normalized A

abbrev pub not_allowed : List SerializableAttribute → List Issue
not_allowed [] = []
not_allowed (a ∷ rest) = attribute_not_allowed ∷ not_allowed rest

abbrev pub with_attributes : List SerializableAttribute → NodeFields → NodeFields
with_attributes xs f = record f { attributes = xs }

abbrev pub is_simple : String → Bool
is_simple n = text_eq n "BOLD" || text_eq n "ITALIC" || text_eq n "UNDERLINE"

abbrev pub with_children : NodeFields → Normalized Nodes → Normalized SerializableNode
with_children f panics = panics
with_children f (normalized cs issues) = normalized (node f cs) issues

abbrev pub then_node : SerializableNode → Normalized Nodes → Normalized Nodes
then_node n panics = panics
then_node n (normalized ns issues) = normalized (and_nodes n ns) issues

abbrev pub then_nodes :
    Normalized SerializableNode → (List Issue → Normalized Nodes) → Normalized Nodes
then_nodes panics f = panics
then_nodes (normalized n issues) f = then_node n (f issues)

-- `normalizeNode`, `normalizeTagNode`, `normalizeSimpleTag`, `normalizeText`, and the loops over children
unfoldable mutual
  pub normalize_node : Strings → SerializableNode → List Issue → Normalized SerializableNode
  normalize_node s (node f cs) issues =
      if text_eq f.node_type "Text"
      then normalized (node (with_attributes [] f) cs) (issues ++ not_allowed f.attributes)
      else if text_eq f.node_type "Tag"
      then if is_simple f.name
        then with_children (with_attributes [] f)
            (normalize_nodes s cs (issues ++ not_allowed f.attributes))
        else if text_eq f.name "LINK"
        then with_children (with_attributes (link_attributes s f.attributes issues).allowed f)
            (normalize_nodes s cs (link_attributes s f.attributes issues).issues)
        else panics
      else panics

  pub normalize_nodes : Strings → Nodes → List Issue → Normalized Nodes
  normalize_nodes s no_nodes issues = normalized no_nodes issues
  normalize_nodes s (and_nodes n ns) issues =
      then_nodes (normalize_node s n issues) (normalize_nodes s ns)

-- `normalizeRenderTree`, which leaves the root itself alone
unfoldable pub normalize_render_tree :
    Strings → SerializableNode → List Issue → Normalized SerializableNode
unfolding normalize_node
normalize_render_tree s (node f cs) issues = with_children f (normalize_nodes s cs issues)

pub data Chunk : Type 0 where
  markup : String → Chunk
  name : Bytes → Chunk
  escaped : Bytes → Chunk

abbrev pub render_attributes : List SerializableAttribute → List Chunk
render_attributes [] = []
render_attributes (a ∷ rest) =
    markup " "
    ∷ name a.name
    ∷ markup "=\""
    ∷ escaped a.payload
    ∷ markup "\""
    ∷ render_attributes rest

-- What stands around the children; a panic goes through.
abbrev pub around : List Chunk → List Chunk → Option (List Chunk) → Option (List Chunk)
around before after none = none
around before after (some xs) = some (before ++ (xs ++ after))

abbrev pub tag_around : String → String → Option (List Chunk) → Option (List Chunk)
tag_around start end xs =
    around (markup "<" ∷ markup start ∷ markup ">" ∷ [])
      (markup "</" ∷ markup end ∷ markup ">" ∷ []) xs

abbrev pub both : Option (List Chunk) → Option (List Chunk) → Option (List Chunk)
both none _ = none
both (some xs) none = none
both (some xs) (some ys) = some (xs ++ ys)

-- `renderNode` with `renderTagNode`, `renderTag`, `renderLink` and `renderTextNode`
unfoldable mutual
  pub render_node : SerializableNode → Option (List Chunk)
  render_node (node f cs) =
      if text_eq f.node_type "Tag"
      then if text_eq f.name "BOLD"
        then tag_around "strong" "strong" (render_nodes cs)
        else if text_eq f.name "ITALIC"
        then tag_around "em" "em" (render_nodes cs)
        else if text_eq f.name "UNDERLINE"
        then tag_around "span class=\"sml-internal-underline\"" "span" (render_nodes cs)
        else if text_eq f.name "LINK"
        then around (markup "<a" ∷ (render_attributes f.attributes ++ markup ">" ∷ []))
            (markup "</a>" ∷ []) (render_nodes cs)
        else none
      else if text_eq f.node_type "Text"
      then some (escaped f.content ∷ [])
      else none

  pub render_nodes : Nodes → Option (List Chunk)
  render_nodes no_nodes = some []
  render_nodes (and_nodes n ns) = both (render_node n) (render_nodes ns)

-- `Poop.HTML`
unfoldable pub html : SerializableNode → Option (List Chunk)
unfolding render_node
html (node f cs) = render_nodes cs
