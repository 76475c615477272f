-- ===== src/Examples.antt =====
-- Concrete posts, and the theorems at them.
use Prim.Native.Char.{code}
use shitposter.Scum.Checks.{prepare_single_char_tag}
use shitposter.Scum.Actions.{run_escape, run_attribute, find_payload_end_with_escape, run_action}
use shitposter.Scum.Steps.{
  step_skip_open_tag_before_eol, warn_open_tag_before_eol, count_open_tag, count_close_tag,
  warn_close_tag_after_start, count_universal_tag, step_skip_close_tag_after_start,
  step_emit_entire_tag_token,
}
use shitposter.Scum.Plan.{
  count_plan, single_char_opening_plan, single_char_plan, create_action, single_char_universal_plan,
  closing_plan, run, single_char_non_greedy_plan,
}
use shitposter.Prelude.{
  if◌then◌else◌, ltb, All, ℕ, ◌+◌, ◌≤◌, ◌≡◌, ◌≢◌, ◌⊎◌, refl, true, false, String, none, List, [],
  ◌∷◌, Bytes, length, arith,
}
use shitposter.Prelude.Int.{pos}
use shitposter.Scum.Issue.{ok, unexpected_eol, unclosed_tag}
use shitposter.Scum.Warnings.{Warning, warning, Warnings, empty, no_cap, trunc, new_warnings}
use shitposter.Scum.Warnings.Bounds.{add_all, kept, add_all-kept, add_all_bound}
use shitposter.Scum.Search.{index_byte, longest_common_sub_prefix}
use shitposter.Scum.Search.Occurrence.{IsBest}
use shitposter.Scum.Search.Best.{longest_common_sub_prefix-IsBest}
use shitposter.Scum.Tag.{
  is_opening, is_closing, is_universal, no_tag, check_tag_name, new_tag_sequence,
  check_tag_consistency,
}
use shitposter.Scum.Dictionary.{
  add_universal_tag, set_attribute_signature, set_escape_trigger, Dictionary, add_tag,
}
use shitposter.Scum.Dictionary.Registered.{IsRegistered, built, with_tag, Built-IsRegistered}
use shitposter.Scum.Dictionary.Exclusive.{Registers, add_tag-Registers, add_tag-add_tag}
use shitposter.Scum.Utf8.{Unicode}
use shitposter.Scum.Token.{Token, tag, no_span}
use shitposter.Scum.Tokenizer.{tokenize, TokenizerOutput}
use shitposter.Scum.Tokenizer.Tiling.{Tiles, tags_in, attributes_in, text_len, texts_in}
use shitposter.Scum.Tokenizer.Coverage.{raw_all, tokenize-covers, tokenize-counters}
use shitposter.Scum.Ast.{append_node, text, text_of, Ast, Attribute, append_attribute, new_node}
use shitposter.Scum.Ast.Ranges.{range_at, append_attribute-range}
use shitposter.Scum.State.{append_state_node, ParserState}
use shitposter.Scum.Parser.{
  close_tag, process_tag, process_text, process_closing_tag, process_universal_tag,
  process_attribute, process_opening_tag, start, process, build, parse,
}
use shitposter.Scum.Parser.Stacks.{IsParallel}
use shitposter.Scum.Parser.Closing.{process-IsParallel, start-IsParallel, built_state, build-closes}
use shitposter.Scum.Parser.Tree.{total, children, attributes_of}
use shitposter.Scum.Parser.Indices.{HasWindow, IsTree}
use shitposter.Scum.Parser.Counts.{build-windows, process-IsTree, start-IsTree, build-counts}
use shitposter.Scum.Parser.Widths.{root, parse-root}
use shitposter.Api.Comments.{Comment, Forest, prepare_comment_tree}
use shitposter.Api.Comments.Depths.{
  DepthFirst, IsCapacity, is_prepared, prepare_comment_tree-DepthFirst,
}
use shitposter.Api.Comments.Levels.{Hung, depth_at, prepare_comment_tree-levels}
use shitposter.Api.Comments.Rows.{rows, times, times_in, prepare_comment_tree-rows}
use shitposter.Sml.Eater.{
  Follows, new_eater, sml_dictionary, sml_dictionary-Built, new_eater-new_warnings,
}

abbrev codes : String → Bytes
codes String.[] = []
codes (String.◌∷◌ c s) = code c ∷ codes s

-- No letter, number or punctuation matters to these posts.
abbrev no_classes : Unicode
no_classes = record { is_letter = λ _. false; is_number = λ _. false; is_punct = λ _. false }

abbrev post : Bytes
post = codes "a $b *c$ [d]!k{v} \\$"

abbrev all_warnings : Warnings
all_warnings = empty no_cap 0

abbrev tokens_of : Bytes → TokenizerOutput
tokens_of input = (tokenize no_classes sml_dictionary input all_warnings).0

abbrev bold_opening : Token
bold_opening = record {
  kind = tag;
  trigger = b'$';
  pos = 2;
  width = 1;
  payload = no_span;
  attr_key = no_span;
}

abbrev link_tag : Token
link_tag = record bold_opening { trigger = b'[' }

abbrev fresh_state : ParserState
fresh_state = start sml_dictionary post all_warnings

abbrev three_warnings : List Warning
three_warnings = warning unexpected_eol 1 ∷ warning unclosed_tag 4 ∷ warning unclosed_tag 9 ∷ []

abbrev blank : Dictionary
blank = record {
  limits = record {
    max_attr_key_len = 128;
    max_attr_payload_len = 512;
    max_payload_len = 1024;
    max_key_len = 128;
    max_nodes = 0;
    max_attributes = 0;
    max_parse_depth = 0;
  };
  actions = λ _. none;
  tags = λ _. no_tag;
  attr_trigger = 0;
  attr_payload_start = 0;
  attr_payload_end = 0;
  escape_trigger = 0;
}

abbrev flag : Attribute
flag = record { name = no_span; payload = no_span; is_flag = true }

-- The second node has the first of two attributes.
abbrev two_attributes : Ast
two_attributes = record {
  input = [];
  nodes = new_node ∷ record new_node { attributes = record { start = 0; len = 1 } } ∷ [];
  attributes = flag ∷ flag ∷ [];
  max_depth = 1;
  text_byte_len = 0;
  total_tag_nodes = 1;
  total_text_nodes = 0;
}

append_attribute-range_example :
    let ast = append_attribute two_attributes 1 flag in
    ((range_at ast 1).len ≡ 2)
    × ((j : ℕ) → j ≢ 1 → range_at ast j ≡ range_at two_attributes j)
    × (((range_at two_attributes 1).len ≡ 0) ⊎ (0 + 1 ≡ length two_attributes.attributes)
        → (range_at ast 1).start + (range_at ast 1).len ≡ length ast.attributes)
    × ((range_at ast 1).start + (range_at ast 1).len ≡ length ast.attributes
        → ((range_at two_attributes 1).len ≡ 0) ⊎ (0 + 1 ≡ length two_attributes.attributes))
append_attribute-range_example = append_attribute-range two_attributes 1 flag (omega arith)

tokenize-covers_example :
    Tiles 0 (tokens_of post).tokens (length post) × (raw_all post (tokens_of post).tokens ≡ post)
tokenize-covers_example = tokenize-covers no_classes post all_warnings sml_dictionary-Built

tokenize-counters_example :
    ((tokens_of post).tags_total ≡ tags_in (tokens_of post).tokens)
    × ((tokens_of post).attributes ≡ attributes_in (tokens_of post).tokens)
    × ((tokens_of post).text_byte_len ≡ text_len sml_dictionary (tokens_of post).tokens)
    × ((tokens_of post).text_tokens ≡ texts_in sml_dictionary (tokens_of post).tokens)
    × ((tokens_of post).universal_tags + (tokens_of post).open_tags + (tokens_of post).close_tags
        ≤ (tokens_of post).tags_total)
tokenize-counters_example = tokenize-counters no_classes post all_warnings sml_dictionary-Built

parse-root_example :
    (root (parse no_classes post sml_dictionary all_warnings).0).span.end ≤ length post
parse-root_example = parse-root no_classes post all_warnings sml_dictionary-Built

build-counts_example :
    let ast = (build sml_dictionary post (tokens_of post) all_warnings).0 in
    (total children ast.nodes + 1 ≡ length ast.nodes)
    × (total attributes_of ast.nodes ≡ length ast.attributes)
    × ((sml_dictionary.limits.max_nodes ≡ 0) ⊎ (length ast.nodes ≤ sml_dictionary.limits.max_nodes))
    × ((sml_dictionary.limits.max_attributes ≡ 0)
        ⊎ (length ast.attributes ≤ sml_dictionary.limits.max_attributes))
build-counts_example = build-counts sml_dictionary post (tokens_of post) all_warnings

build-windows_example :
    let ast = (build sml_dictionary post (tokens_of post) all_warnings).0 in
    All (HasWindow (length ast.attributes)) ast.nodes
build-windows_example = build-windows sml_dictionary post (tokens_of post) all_warnings

build-closes_example :
    let s = built_state sml_dictionary post (bold_opening ∷ link_tag ∷ []) all_warnings in
    (length s.breadcrumbs ≡ 1)
    × (length s.cum_width ≡ 1)
    × (s.stack ≡ [])
    × ((b : ℕ) → s.opened_tags b ≡ false)
build-closes_example = build-closes sml_dictionary post (bold_opening ∷ link_tag ∷ []) all_warnings

process-IsParallel_example : IsParallel (process fresh_state sml_dictionary bold_opening)
process-IsParallel_example =
    process-IsParallel fresh_state sml_dictionary bold_opening
      (start-IsParallel sml_dictionary post all_warnings)

process-IsTree_example :
    IsTree sml_dictionary.limits (process fresh_state sml_dictionary bold_opening)
process-IsTree_example =
    process-IsTree fresh_state sml_dictionary bold_opening
      (start-IsTree sml_dictionary post all_warnings)

longest_common_sub_prefix-IsBest_example :
    IsBest (codes "a<b<!c") (codes "<!-") (longest_common_sub_prefix (codes "a<b<!c") (codes "<!-"))
longest_common_sub_prefix-IsBest_example =
    longest_common_sub_prefix-IsBest (codes "a<b<!c") b'<' (codes "!-")

Built-IsRegistered_example : IsRegistered sml_dictionary
Built-IsRegistered_example = Built-IsRegistered sml_dictionary-Built

add_tag-Registers_example :
    Registers blank
      (with_tag blank
        (built "QUOTE" 0 0 0 b'>' (record { bytes = b'<' ∷ 0 ∷ 0 ∷ 0 ∷ []; len = 1 })))
      "QUOTE"
      b'<'
      []
      0
      0
      0
      b'>'
unfolding add_tag check_tag_name new_tag_sequence check_tag_consistency
add_tag-Registers_example = add_tag-Registers blank "QUOTE" b'<' [] 0 0 0 b'>' refl

add_tag-add_tag_example :
    add_tag
      (with_tag blank
        (built "QUOTE" 0 0 0 b'>' (record { bytes = b'<' ∷ 0 ∷ 0 ∷ 0 ∷ []; len = 1 })))
      "OTHER"
      (codes "<<")
      0
      0
      0
      0
    ≢ ok blank
unfolding add_tag check_tag_name new_tag_sequence check_tag_consistency
add_tag-add_tag_example =
    add_tag-add_tag blank "QUOTE" "OTHER" b'<' [] (codes "<") 0 0 0 b'>' 0 0 0 0 refl

add_all-kept_example : (add_all (empty trunc 2) three_warnings).list ≡ kept trunc 2 three_warnings
add_all-kept_example = add_all-kept trunc 2 three_warnings

add_all_bound_example : length (add_all (empty trunc 2) three_warnings).list ≤ 2
add_all_bound_example = add_all_bound trunc 2 three_warnings cc

new_eater-new_warnings_example :
    Follows (pos 3) (pos 10) (new_warnings (pos 3) (pos 10)) (new_eater (pos 3) (pos 10))
new_eater-new_warnings_example = new_eater-new_warnings (pos 3) (pos 10)

abbrev row : ℕ → ℕ → Comment
row i d = record { id = pos i; depth = pos d }

-- A root with a reply that has a reply, and a second reply.
abbrev thread : List Comment
thread = row 7 0 ∷ row 8 1 ∷ row 9 2 ∷ row 10 1 ∷ []

abbrev thread_forest : Forest
thread_forest = record {
  nodes =
      record { comment = row 7 0; replies = 1 ∷ 3 ∷ [] }
      ∷ record { comment = row 8 1; replies = 2 ∷ [] }
      ∷ record { comment = row 9 2; replies = [] }
      ∷ record { comment = row 10 1; replies = [] }
      ∷ [];
  roots = 0 ∷ [];
  stack = 0 ∷ 3 ∷ [];
}

prepare_comment_tree-DepthFirst_example :
    (IsCapacity (pos 1) × DepthFirst 0 thread
      → is_prepared (prepare_comment_tree thread (pos 1)) ≡ true)
    × (is_prepared (prepare_comment_tree thread (pos 1)) ≡ true
        → IsCapacity (pos 1) × DepthFirst 0 thread)
prepare_comment_tree-DepthFirst_example = prepare_comment_tree-DepthFirst thread (pos 1)

prepare_comment_tree-rows_example :
    (rows thread_forest.nodes ≡ thread)
    × ((j : ℕ)
        → times_in j thread_forest.nodes + times j thread_forest.roots
          ≡ (if ltb j (length thread) then 1 else 0))
unfolding prepare_comment_tree
prepare_comment_tree-rows_example =
    prepare_comment_tree-rows thread (pos 1) {g = thread_forest} refl

abbrev parsed : String → Ast
parsed s = (parse no_classes (codes s) sml_dictionary all_warnings).0

-- The text of a post; the width of a misplaced closing tag is lost to the root; and an italic node
-- whose two attributes are the first and the last of three, so that its range holds a neighbour's.
post_reads :
    (text (parsed "a *b* [c]!href{u} \\$") ≡ codes "a b c \\$")
    × ((root (parsed "a]b")).span.end ≡ 2)
    × (range_at (parsed "*!{x}$b$!{y}*!{z}") 1 ≡ record { start = 0; len = 2 })
unfolding parse tokenize text_of sml_dictionary add_universal_tag add_tag check_tag_name
    new_tag_sequence check_tag_consistency set_attribute_signature set_escape_trigger run_action run
    create_action single_char_plan is_universal single_char_universal_plan
    single_char_non_greedy_plan count_plan step_emit_entire_tag_token count_universal_tag
    prepare_single_char_tag is_opening single_char_opening_plan step_skip_open_tag_before_eol
    warn_open_tag_before_eol count_open_tag is_closing closing_plan step_skip_close_tag_after_start
    warn_close_tag_after_start count_close_tag run_attribute index_byte find_payload_end_with_escape
    run_escape process process_text append_state_node process_attribute process_tag
    process_universal_tag process_opening_tag close_tag process_closing_tag append_node
    append_attribute
post_reads = (refl, refl, refl)

prepare_comment_tree-levels_example :
    All (Hung (depth_at thread)) thread_forest.nodes
    × All (λ i. depth_at thread i ≡ pos 0) thread_forest.roots
unfolding prepare_comment_tree
prepare_comment_tree-levels_example =
    prepare_comment_tree-levels thread (pos 1) {g = thread_forest} refl
