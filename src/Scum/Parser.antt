-- ===== src/Scum/Parser.antt =====
-- scum/parse.go, scum/process_*.go, scum/close_tag.go and scum/append_greedy_node.go. The state of a
-- parse starts as `newParserState` makes it and `Reset` restores it; the capacities of the reused
-- slices are left out.
pub mod Stacks
pub mod Parallel
pub mod Closing
pub mod Tree
pub mod Indices
pub mod Widths
pub mod Growth
pub mod Tags
pub mod Counts
use shitposter.Prelude.{
  ℕ, zero, suc, ◌+◌, ◌-◌, max, Bool, true, false, not, ◌&&◌, ◌||◌, List, [], ◌∷◌, ltb, leb, ◌==◌,
  if◌then◌else◌, Bytes, length, get_or, modify,
}
use shitposter.Scum.Issue.{
  Issue, max_nodes_exceeded, max_attributes_exceeded, max_parse_depth_exceeded, unclosed_tag,
  misplaced_closing_tag, open_close_tag_mismatch, duplicate_nested_tag,
}
use shitposter.Scum.Warnings.{Warning, warning, Warnings, add}
use shitposter.Scum.Tag.{Tag, is_universal, is_opening, is_closing, non_greedy}
use shitposter.Scum.Dictionary.{Limits, Dictionary, update}
use shitposter.Scum.Utf8.{Unicode}
use shitposter.Scum.Token.{
  Span, new_span, TokenType, text, tag, attribute_kv, attribute_flag, Token,
}
use shitposter.Scum.Tokenizer.{TokenizerOutput, tokenize}
use shitposter.Scum.State.{
  ParserState, top, rest, peek_stack, add_top, increment_cum_width, folded, warn, warn_max_nodes,
  warn_max_attributes, warn_max_parse_depth, reached, append_state_node,
}
use shitposter.Scum.Ast.{
  NodeType, text_node, tag_node, Attribute, Node, new_node, Ast, append_node, append_attribute,
}

-- `processText`
unfoldable pub process_text : ParserState → Token → ParserState
process_text s tok =
    let node = record new_node { kind = text_node; span = tok.payload } in
    let idx = length s.ast.nodes in
    let (s', appended) = append_state_node s (top s.breadcrumbs) node tok.pos in
    increment_cum_width (if appended then record s' { last_node_idx = idx } else s') tok.width

abbrev is_flag : TokenType → Bool
is_flag attribute_flag = true
is_flag _ = false

-- `processAttribute`, with `canAppendAttribute`
unfoldable pub process_attribute : ParserState → Token → ParserState
unfolding warn_max_attributes
process_attribute s tok =
    if reached s.limits.max_attributes (length s.ast.attributes)
    then warn_max_attributes s tok.pos
    else record s {
      ast =
          append_attribute s.ast s.last_node_idx
            (record { name = tok.attr_key; payload = tok.payload; is_flag = is_flag tok.kind });
    }

abbrev pub set_end : ℕ → Node → Node
set_end width n = record n { span = record { start = n.span.start; end = n.span.start + width } }

-- `closeTag`
unfoldable pub close_tag : ParserState → Token → ParserState
close_tag s tok =
    let idx = top s.breadcrumbs in
    record s {
      breadcrumbs = rest s.breadcrumbs;
      last_node_idx = idx;
      ast = record s.ast { nodes = modify s.ast.nodes idx (set_end (top s.cum_width + tok.width)) };
      cum_width = folded tok.width s.cum_width;
      stack = rest s.stack;
      opened_tags = update s.opened_tags (top s.stack) false;
    }

abbrev pub increment : (ℕ → ℕ) → ℕ → ℕ → ℕ
increment f k = update f k (f k + 1)

-- An opening tag that a limit omits: its width counts, and its closing tag will be skipped.
unfoldable pub omit_opening : ParserState → Dictionary → Token → ParserState
omit_opening s d tok =
    let close_id = (d.tags tok.trigger).close_id in
    let s' = increment_cum_width s tok.width in
    if not (close_id == 0) then record s' { skip = increment s'.skip close_id } else s'

-- The three stacks grow by one.
unfoldable pub push_tag : ParserState → Token → ℕ → ParserState
push_tag s tok idx = record s {
  breadcrumbs = idx ∷ s.breadcrumbs;
  stack = tok.trigger ∷ s.stack;
  max_depth = max s.max_depth (length s.stack + 1);
  cum_width = tok.width ∷ s.cum_width;
  last_node_idx = idx;
  opened_tags = update s.opened_tags tok.trigger true;
  total_tag_nodes = s.total_tag_nodes + 1;
}

unfoldable pub open_node : ParserState → Dictionary → Token → ParserState
unfolding omit_opening push_tag
open_node s d tok =
    let node = record new_node {
      kind = tag_node;
      tag_id = tok.trigger;
      span = new_span tok.pos tok.width;
    } in
    let idx = length s.ast.nodes in
    let (s', appended) = append_state_node s (top s.breadcrumbs) node tok.pos in
    if appended then push_tag s' tok idx else omit_opening s' d tok

-- `processOpeningTag`, with `canPushParseDepth`
unfoldable pub process_opening_tag : ParserState → Dictionary → Token → ParserState
unfolding open_node warn_max_parse_depth
process_opening_tag s d tok =
    if s.opened_tags tok.trigger
    then record (warn s (record (warning duplicate_nested_tag tok.pos) { tag_id = tok.trigger })) {
      skip = increment s.skip (d.tags tok.trigger).close_id;
    }
    else if reached s.limits.max_parse_depth (length s.stack)
    then omit_opening (warn_max_parse_depth s tok.pos) d tok
    else open_node s d tok

unfoldable pub process_universal_tag : ParserState → Dictionary → Token → ParserState
process_universal_tag s d tok =
    if s.opened_tags tok.trigger && peek_stack s == tok.trigger
    then close_tag s tok
    else process_opening_tag s d tok

-- A closing tag that does not match becomes text.
unfoldable pub demote : ParserState → Token → ParserState
unfolding warn
demote s tok =
    let s' = warn s (record (warning open_close_tag_mismatch tok.pos) {
      tag_id = tok.trigger;
      expected = peek_stack s;
    }) in
    process_text
      (record s' {
        ast = record s'.ast { text_byte_len = s'.ast.text_byte_len + tok.width };
        text_nodes = s'.text_nodes + 1;
      })
      (record tok { kind = text; payload = new_span tok.pos tok.width })

unfoldable pub process_closing_tag : ParserState → Dictionary → Token → ParserState
unfolding demote
process_closing_tag s d tok =
    let stacked = peek_stack s in
    let t = d.tags tok.trigger in
    if stacked == 0
    then warn s (record (warning misplaced_closing_tag tok.pos) {
      tag_id = tok.trigger;
      expected = t.open_id;
    })
    else if not ((d.tags stacked).close_id == tok.trigger) && not (t.open_id == stacked)
    then demote s tok
    else close_tag s tok

-- `appendGreedyNode`: a tag node with its payload as a text child.
unfoldable pub greedy_payload : ParserState → Token → ℕ → ParserState
greedy_payload s tok parent_idx =
    let payload = record new_node { kind = text_node; span = tok.payload } in
    let idx = length s.ast.nodes in
    let (s', appended) = append_state_node s parent_idx payload tok.payload.start in
    record s' { last_node_idx = if appended then idx else parent_idx }

unfoldable pub append_greedy_node : ParserState → Token → ParserState
unfolding greedy_payload
append_greedy_node s tok =
    let node = record new_node {
      kind = tag_node;
      tag_id = tok.trigger;
      span = new_span tok.pos tok.width;
    } in
    let idx = length s.ast.nodes in
    let (s', appended) = append_state_node s (top s.breadcrumbs) node tok.pos in
    increment_cum_width (if appended then greedy_payload s' tok idx else s') tok.width

unfoldable pub process_tag : ParserState → Dictionary → Token → ParserState
process_tag s d tok =
    let t = d.tags tok.trigger in
    if ltb 0 (s.skip tok.trigger)
    then record s { skip = update s.skip tok.trigger (s.skip tok.trigger - 1) }
    else if ltb non_greedy t.greed
    then append_greedy_node s tok
    else if is_universal t
    then process_universal_tag s d tok
    else if is_opening t
    then process_opening_tag s d tok
    else if is_closing t
    then process_closing_tag s d tok
    else s

-- The switch of the loop in `ParseInto`.
unfoldable pub process_by : TokenType → ParserState → Dictionary → Token → ParserState
process_by text s d tok = process_text s tok
process_by attribute_flag s d tok = process_attribute s tok
process_by attribute_kv s d tok = process_attribute s tok
process_by tag s d tok = process_tag s d tok

unfoldable pub process : ParserState → Dictionary → Token → ParserState
unfolding process_by
process s d tok = process_by tok.kind s d tok

unfoldable pub process_all : ParserState → Dictionary → List Token → ParserState
process_all s d [] = s
process_all s d (tok ∷ toks) = process_all (process s d tok) d toks

-- One round of the third phase: the innermost open tag ends where its children do.
unfoldable pub force_close : ParserState → Dictionary → ParserState
unfolding warn
force_close s d =
    let idx = top s.breadcrumbs in
    let open_id = top s.stack in
    let nodes = modify s.ast.nodes idx (set_end (top s.cum_width)) in
    warn
      (record s {
        breadcrumbs = rest s.breadcrumbs;
        cum_width = folded 0 s.cum_width;
        ast = record s.ast { nodes = nodes };
        stack = rest s.stack;
        opened_tags = update s.opened_tags open_id false;
      })
      (record (warning unclosed_tag (get_or nodes idx new_node).span.start) {
        tag_id = open_id;
        close_tag_id = (d.tags open_id).close_id;
      })

-- `for len(breadcrumbs) > 1`: each round pops one.
unfoldable pub force_close_all : ℕ → ParserState → Dictionary → ParserState
unfolding force_close
force_close_all zero s d = s
force_close_all (suc fuel) s d =
    let more = force_close_all fuel (force_close s d) d in
    if ltb 1 (length s.breadcrumbs) then more else s

abbrev pub start : Dictionary → Bytes → Warnings → ParserState
start d input warns = record {
  ast = record {
    input = input;
    nodes = new_node ∷ [];
    attributes = [];
    max_depth = 0;
    text_byte_len = 0;
    total_tag_nodes = 0;
    total_text_nodes = 0;
  };
  limits = d.limits;
  breadcrumbs = 0 ∷ [];
  cum_width = 0 ∷ [];
  skip = λ _. 0;
  opened_tags = λ _. false;
  stack = [];
  max_depth = 1;
  last_node_idx = 0;
  total_tag_nodes = 0;
  text_nodes = 0;
  warned_max_nodes = false;
  warned_max_attributes = false;
  warned_max_parse_depth = false;
  warns = warns;
}

-- The root's span and the statistics.
unfoldable pub finalize : ParserState → TokenizerOutput → Ast
finalize s out = record s.ast {
  nodes =
      modify s.ast.nodes 0
        (λ n. record n { span = record { start = n.span.start; end = top s.cum_width } });
  max_depth = s.max_depth;
  text_byte_len = s.ast.text_byte_len + out.text_byte_len;
  total_text_nodes = s.text_nodes + out.text_tokens;
  total_tag_nodes = s.total_tag_nodes;
}

-- `ParseInto` behind the tokenizer. The warnings come back beside the tree.
unfoldable pub build : Dictionary → Bytes → TokenizerOutput → Warnings → Ast × Warnings
unfolding process_all force_close_all finalize
build d input out warns =
    let s = process_all (start d input warns) d out.tokens in
    let closed = force_close_all (length s.breadcrumbs) s d in (finalize closed out, closed.warns)

unfoldable pub parse : Unicode → Bytes → Dictionary → Warnings → Ast × Warnings
unfolding build
parse u input d warns = let (out, warns') = tokenize u d input warns in build d input out warns'
