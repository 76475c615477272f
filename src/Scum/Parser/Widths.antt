-- ===== src/Scum/Parser/Widths.antt =====
-- The widths that the parser adds up.
use shitposter.Prelude.{
  ℕ, zero, suc, ◌+◌, ◌≤◌, ◌≡◌, ◌∙◌, inl, inr, Bool, List, [], ◌∷◌, ltb, ◌==◌, if◌then◌else◌, Bytes,
  length, get_or, modify, arith, Bool-cases,
}
use shitposter.Scum.Warnings.{Warnings}
use shitposter.Scum.Dictionary.{Dictionary}
use shitposter.Scum.Dictionary.Registered.{Built, Built-IsRegistered}
use shitposter.Scum.Utf8.{Unicode}
use shitposter.Scum.Token.{Token, TokenType, new_span, text, tag, attribute_kv, attribute_flag}
use shitposter.Scum.Tokenizer.{TokenizerOutput, tokenize}
use shitposter.Scum.Tokenizer.Tiling.{Tiles}
use shitposter.Scum.Tokenizer.Coverage.{tokens-tile}
use shitposter.Scum.Ast.{text_node, tag_node, Node, new_node, Ast}
use shitposter.Scum.State.{
  ParserState, top, add_top, folded, reached, increment_cum_width, append_state_node, warn,
  warn_max_nodes, warn_max_attributes, warn_max_parse_depth,
}
use shitposter.Scum.Parser.{
  process_text, process_attribute, close_tag, omit_opening, push_tag, open_node,
  process_opening_tag, process_universal_tag, demote, process_closing_tag, greedy_payload,
  append_greedy_node, process_tag, process_by, process, process_all, force_close, force_close_all,
  start, finalize, build, parse,
}

abbrev pub sum : List ℕ → ℕ
sum [] = 0
sum (x ∷ xs) = x + sum xs

sum-add_top : (w : ℕ) (xs : List ℕ) → sum (add_top w xs) ≤ sum xs + w
sum-add_top w [] = omega arith
sum-add_top w (x ∷ xs) = omega arith

sum-folded : (w : ℕ) (xs : List ℕ) → sum (folded w xs) ≤ sum xs + w
sum-folded w [] = omega arith
sum-folded w (x ∷ xs) = omega (arith, sum-add_top (x + w) xs)

-- The widths of `s'` are at most those of `s` and `w`.
Within : ParserState → ParserState → ℕ → Type 0
Within s s' w = sum s'.cum_width ≤ sum s.cum_width + w

append-same :
    (s : ParserState) (i : ℕ) (n : Node) (p : ℕ)
    → (append_state_node s i n p).0.cum_width ≡ s.cum_width
unfolding append_state_node warn_max_nodes warn
append-same s i n p = ground arith

greedy_payload-same :
    (s : ParserState) (tok : Token) (i : ℕ) → (greedy_payload s tok i).cum_width ≡ s.cum_width
unfolding greedy_payload
greedy_payload-same s tok i = append-same s i _ tok.payload.start

increment-Within :
    (s s' : ParserState) (w : ℕ)
    → s'.cum_width ≡ s.cum_width
    → Within s (increment_cum_width s' w) w
unfolding Within
increment-Within s s' w e = rw e (sum-add_top w s.cum_width)

marked :
    (s : ParserState) (r : ParserState × Bool) (i w : ℕ)
    → r.0.cum_width ≡ s.cum_width
    → Within s (increment_cum_width (if r.1 then record r.0 { last_node_idx = i } else r.0) w) w
marked s r i w e = elim (Bool-cases r.1) [
  | inl made ↦ rw made (increment-Within s (record r.0 { last_node_idx = i }) w e)
  | inr not_made ↦ rw not_made (increment-Within s r.0 w e)
]

process_text-Within : (s : ParserState) (tok : Token) → Within s (process_text s tok) tok.width
unfolding process_text
process_text-Within s tok =
    marked s
      (append_state_node s (top s.breadcrumbs)
        (record new_node { kind = text_node; span = tok.payload }) tok.pos)
      (length s.ast.nodes) tok.width (append-same s _ _ tok.pos)

process_attribute-Within :
    (s : ParserState) (tok : Token) → Within s (process_attribute s tok) tok.width
unfolding Within process_attribute warn_max_attributes warn
process_attribute-Within s tok = ground arith

close_tag-Within : (s : ParserState) (tok : Token) → Within s (close_tag s tok) tok.width
unfolding Within close_tag
close_tag-Within s tok = sum-folded tok.width s.cum_width

omit_opening-Within :
    (s s' : ParserState) (d : Dictionary) (tok : Token)
    → s'.cum_width ≡ s.cum_width
    → Within s (omit_opening s' d tok) tok.width
unfolding Within omit_opening
omit_opening-Within s s' d tok e = ground (arith, sum-add_top tok.width s.cum_width, e)

opened-Within :
    (s : ParserState) (r : ParserState × Bool) (d : Dictionary) (tok : Token) (i : ℕ)
    → r.0.cum_width ≡ s.cum_width
    → Within s (if r.1 then push_tag r.0 tok i else omit_opening r.0 d tok) tok.width
unfolding Within push_tag
opened-Within s r d tok i e = elim (Bool-cases r.1) [
  | inl made ↦ rw (made, e) (omega arith)
  | inr not_made ↦ rw not_made (omit_opening-Within s r.0 d tok e)
]

process_opening_tag-Within :
    (s : ParserState) (d : Dictionary) (tok : Token)
    → Within s (process_opening_tag s d tok) tok.width
unfolding Within process_opening_tag open_node
process_opening_tag-Within s d tok = elim (Bool-cases (s.opened_tags tok.trigger)) [
  | inl h ↦ rw h (unfold warn in omega arith)
  | inr h ↦ rw h (elim (Bool-cases (reached s.limits.max_parse_depth (length s.stack))) [
    | inl deep ↦ rw deep (
        omit_opening-Within s (warn_max_parse_depth s tok.pos) d tok
          (unfold warn_max_parse_depth warn in ground arith))
    | inr free ↦ rw free (
        opened-Within s
          (append_state_node s (top s.breadcrumbs)
            (record new_node {
              kind = tag_node;
              tag_id = tok.trigger;
              span = new_span tok.pos tok.width;
            })
            tok.pos)
          d tok (length s.ast.nodes) (append-same s _ _ tok.pos))
  ])
]

demote-Within : (s : ParserState) (tok : Token) → Within s (demote s tok) tok.width
unfolding Within demote warn
demote-Within s tok =
    process_text-Within _ (record tok { kind = text; payload = new_span tok.pos tok.width })

process_closing_tag-Within :
    (s : ParserState) (d : Dictionary) (tok : Token)
    → Within s (process_closing_tag s d tok) tok.width
unfolding Within process_closing_tag
process_closing_tag-Within s d tok = elim (Bool-cases (top s.stack == 0)) [
  | inl none_open ↦ rw none_open (unfold warn in omega arith)
  | inr some_open ↦ rw some_open (ground (arith, close_tag-Within s tok, demote-Within s tok))
]

append_greedy_node-Within :
    (s : ParserState) (tok : Token) → Within s (append_greedy_node s tok) tok.width
unfolding append_greedy_node
append_greedy_node-Within s tok =
    by_flag
      (append_state_node s (top s.breadcrumbs)
        (record new_node {
          kind = tag_node;
          tag_id = tok.trigger;
          span = new_span tok.pos tok.width;
        })
        tok.pos)
      (append-same s _ _ tok.pos)
  where
    by_flag :
        (r : ParserState × Bool)
        → r.0.cum_width ≡ s.cum_width
        → Within s
            (increment_cum_width
              (if r.1 then greedy_payload r.0 tok (length s.ast.nodes) else r.0)
              tok.width)
            tok.width
    by_flag r e = elim (Bool-cases r.1) [
      | inl made ↦
          rw made
            (increment-Within s _ tok.width (greedy_payload-same r.0 tok (length s.ast.nodes) ∙ e))
      | inr not_made ↦ rw not_made (increment-Within s r.0 tok.width e)
    ]

process_tag-Within :
    (s : ParserState) (d : Dictionary) (tok : Token) → Within s (process_tag s d tok) tok.width
unfolding Within process_tag process_universal_tag
process_tag-Within s d tok = elim (Bool-cases (ltb 0 (s.skip tok.trigger))) [
  | inl skipped ↦ rw skipped (omega arith)
  | inr kept ↦ rw kept (
      ground (
        arith,
        append_greedy_node-Within s tok,
        close_tag-Within s tok,
        process_opening_tag-Within s d tok,
        process_closing_tag-Within s d tok,
      ))
]

process-Within :
    (s : ParserState) (d : Dictionary) (tok : Token) → Within s (process s d tok) tok.width
unfolding process process_by
process-Within s d tok = by_kind tok.kind
  where
    by_kind : (k : TokenType) → Within s (process_by k s d tok) tok.width
    by_kind text = process_text-Within s tok
    by_kind tag = process_tag-Within s d tok
    by_kind attribute_kv = process_attribute-Within s tok
    by_kind attribute_flag = process_attribute-Within s tok

process_all-Within :
    (d : Dictionary) (input : Bytes) (from to : ℕ) (toks : List Token) (s : ParserState)
    → Tiles from toks to
    → sum s.cum_width ≤ from
    → sum (process_all s d toks).cum_width ≤ to
unfolding Within process_all
process_all-Within d input from to [] s t le = omega (arith, le, t)
process_all-Within d input from to (tok ∷ toks) s (p, w, t) le =
    process_all-Within d input (from + tok.width) to toks (process s d tok) t
      (omega (arith, process-Within s d tok, le))

force_close_all-sum :
    (fuel : ℕ) (s : ParserState) (d : Dictionary)
    → sum (force_close_all fuel s d).cum_width ≤ sum s.cum_width
unfolding force_close_all force_close warn
force_close_all-sum zero s d = omega arith
force_close_all-sum (suc fuel) s d = elim (Bool-cases (ltb 1 (length s.breadcrumbs))) [
  | inl more ↦ rw more (
      omega (
        arith,
        force_close_all-sum fuel (unfold force_close in force_close s d) d,
        sum-folded 0 s.cum_width,
      ))
  | inr done ↦ rw done (omega arith)
]

abbrev pub root : Ast → Node
root ast = get_or ast.nodes 0 new_node

top-sum : (xs : List ℕ) → top xs ≤ sum xs
top-sum [] = omega arith
top-sum (x ∷ xs) = omega arith

root-end :
    (nodes : List Node) (e : ℕ)
    → (get_or
        (modify nodes 0 (λ n. record n { span = record { start = n.span.start; end = e } }))
        0
        new_node).span.end
      ≤ e
root-end [] e = omega arith
root-end (n ∷ ns) e = omega arith

finalize-root :
    (s : ParserState) (out : TokenizerOutput) → (root (finalize s out)).span.end ≤ sum s.cum_width
unfolding finalize
finalize-root s out = omega (arith, root-end s.ast.nodes (top s.cum_width), top-sum s.cum_width)

-- For every input and every dictionary that the registrations can build, the root of the parsed tree
-- ends within the input.
pub parse-root :
    (u : Unicode) (input : Bytes) {d : Dictionary} (warns : Warnings)
    → Built d
    → (root (parse u input d warns).0).span.end ≤ length input
unfolding parse build
parse-root u input {d} warns built =
    let t = tokenize u d input warns in
    let s = process_all (start d input t.1) d t.0.tokens in
    let closed = force_close_all (length s.breadcrumbs) s d in
    omega (
      arith,
      finalize-root closed t.0,
      force_close_all-sum (length s.breadcrumbs) s d,
      process_all-Within d input 0 (length input) t.0.tokens (start d input t.1)
          (tokens-tile u (Built-IsRegistered built) input warns) (omega arith),
    )
