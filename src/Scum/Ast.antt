-- ===== src/Scum/Ast.antt =====
-- scum/ast.go, scum/append_node.go and scum/append_attribute.go: the arena of nodes. An index -1 is
-- `none`. A write through a pointer into the arena is `modify`.
pub mod Ranges
use shitposter.Prelude.{
  ℕ, ◌+◌, Bool, true, false, Option, none, some, List, [], ◌∷◌, ◌++◌, ◌==◌, if◌then◌else◌, Bytes,
  length, get_or, modify, slice,
}
use shitposter.Scum.Token.{Span, no_span}

pub record Range : Type 0 where
  pub start : ℕ
  pub len : ℕ

pub data NodeType : Type 0 where
  root_node text_node tag_node : NodeType

pub record Attribute : Type 0 where
  pub name : Span
  pub payload : Span
  pub is_flag : Bool

pub record Node : Type 0 where
  pub kind : NodeType
  pub tag_id : ℕ
  pub span : Span
  pub first_child : Option ℕ
  pub last_child : Option ℕ
  pub next_sibling : Option ℕ
  pub child_count : ℕ
  pub attributes : Range

abbrev pub new_node : Node
new_node = record {
  kind = root_node;
  tag_id = 0;
  span = no_span;
  first_child = none;
  last_child = none;
  next_sibling = none;
  child_count = 0;
  attributes = record { start = 0; len = 0 };
}

pub record Ast : Type 0 where
  pub input : Bytes
  pub nodes : List Node
  pub attributes : List Attribute
  pub max_depth : ℕ
  pub text_byte_len : ℕ
  pub total_tag_nodes : ℕ
  pub total_text_nodes : ℕ

-- The last lines of `appendNode`, by the parent's first and last child.
unfoldable pub link_child : List Node → ℕ → ℕ → Option ℕ → Option ℕ → List Node
link_child nodes parent node_idx none last =
    modify nodes parent (λ n. record n { first_child = some node_idx; last_child = some node_idx })
link_child nodes parent node_idx (some _) none = nodes
link_child nodes parent node_idx (some _) (some last) =
    modify (modify nodes last (λ n. record n { next_sibling = some node_idx })) parent
      (λ n. record n { last_child = some node_idx })

-- The new node's index is the arena's length before.
unfoldable pub append_node : Ast → ℕ → Node → Ast
unfolding link_child
append_node ast parent_idx node =
    let node_idx = length ast.nodes in
    let counted =
      modify (ast.nodes ++ node ∷ []) parent_idx
        (λ n. record n { child_count = n.child_count + 1 }) in
    let parent = get_or counted parent_idx new_node in
    record ast {
      nodes = link_child counted parent_idx node_idx parent.first_child parent.last_child;
    }

-- One more attribute of a node, whose first is at `attr_idx`.
abbrev pub link_attribute : ℕ → Node → Node
link_attribute attr_idx n = record n {
  attributes = record {
    start = if n.attributes.len == 0 then attr_idx else n.attributes.start;
    len = n.attributes.len + 1;
  };
}

unfoldable pub append_attribute : Ast → ℕ → Attribute → Ast
append_attribute ast parent_idx attr = record ast {
  attributes = ast.attributes ++ attr ∷ [];
  nodes = modify ast.nodes parent_idx (link_attribute (length ast.attributes));
}

abbrev is_text : NodeType → Bool
is_text text_node = true
is_text _ = false

-- The loop of `AST.Text` (scum/text.go).
unfoldable pub text_of : Bytes → List Node → Bytes
text_of input [] = []
text_of input (n ∷ ns) =
    (if is_text n.kind then slice input n.span.start n.span.end else []) ++ text_of input ns

abbrev pub text : Ast → Bytes
text ast = text_of ast.input ast.nodes
