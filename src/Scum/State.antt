-- ===== src/Scum/State.antt =====
-- scum/parser_state.go and scum/parser_limits.go: the state of a parse, its stacks and its limits.
-- The three stacks are lists with their top first. The collector of warnings, a pointer in the source,
-- is a field of the state.
use shitposter.Prelude.{
  ℕ, ◌+◌, Bool, true, false, ◌&&◌, List, [], ◌∷◌, ltb, leb, if◌then◌else◌, length,
}
use shitposter.Scum.Issue.{max_nodes_exceeded, max_attributes_exceeded, max_parse_depth_exceeded}
use shitposter.Scum.Warnings.{Warning, warning, Warnings, add}
use shitposter.Scum.Dictionary.{Limits}
use shitposter.Scum.Ast.{Node, Ast, append_node}

pub record ParserState : Type 0 where
  pub ast : Ast
  pub limits : Limits
  pub breadcrumbs : List ℕ
  pub cum_width : List ℕ
  pub skip : ℕ → ℕ
  pub opened_tags : ℕ → Bool
  pub stack : List ℕ
  pub max_depth : ℕ
  pub last_node_idx : ℕ
  pub total_tag_nodes : ℕ
  pub text_nodes : ℕ
  pub warned_max_nodes : Bool
  pub warned_max_attributes : Bool
  pub warned_max_parse_depth : Bool
  pub warns : Warnings

-- The root is always there; for an empty stack the source would panic.
abbrev pub top : List ℕ → ℕ
top [] = 0
top (x ∷ xs) = x

abbrev pub rest : List ℕ → List ℕ
rest [] = []
rest (x ∷ xs) = xs

-- `peekStack`, whose 0 for an empty stack is in the source.
abbrev pub peek_stack : ParserState → ℕ
peek_stack s = top s.stack

abbrev pub add_top : ℕ → List ℕ → List ℕ
add_top w [] = []
add_top w (x ∷ xs) = (x + w) ∷ xs

abbrev pub increment_cum_width : ParserState → ℕ → ParserState
increment_cum_width s w = record s { cum_width = add_top w s.cum_width }

-- `popCumWidth`: the width of the closed tag, which is folded into its parent's.
abbrev pub folded : ℕ → List ℕ → List ℕ
folded w xs = add_top (top xs + w) (rest xs)

unfoldable pub warn : ParserState → Warning → ParserState
warn s item = record s { warns = add s.warns item }

-- `warnLimitOnce`, for the three limits.
unfoldable pub warn_max_nodes : ParserState → ℕ → ParserState
unfolding warn
warn_max_nodes s p =
    if s.warned_max_nodes
    then s
    else warn (record s { warned_max_nodes = true }) (warning max_nodes_exceeded p)

unfoldable pub warn_max_attributes : ParserState → ℕ → ParserState
unfolding warn
warn_max_attributes s p =
    if s.warned_max_attributes
    then s
    else warn (record s { warned_max_attributes = true }) (warning max_attributes_exceeded p)

unfoldable pub warn_max_parse_depth : ParserState → ℕ → ParserState
unfolding warn
warn_max_parse_depth s p =
    if s.warned_max_parse_depth
    then s
    else warn (record s { warned_max_parse_depth = true }) (warning max_parse_depth_exceeded p)

-- Whether a limit, if there is one, is reached.
abbrev pub reached : ℕ → ℕ → Bool
reached limit n = ltb 0 limit && leb limit n

-- `appendStateNode`: the flag tells whether the node was appended, at the arena's length before.
unfoldable pub append_state_node : ParserState → ℕ → Node → ℕ → ParserState × Bool
unfolding warn_max_nodes
append_state_node s parent_idx node p =
    if reached s.limits.max_nodes (length s.ast.nodes)
    then (warn_max_nodes s p, false)
    else (record s { ast = append_node s.ast parent_idx node }, true)
