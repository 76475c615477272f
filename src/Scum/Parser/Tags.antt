-- ===== src/Scum/Parser/Tags.antt =====
-- The invariant of the tree through the handlers of tags and the forced close.
use shitposter.Prelude.{
  ℕ, ◌+◌, ◌<◌, ◌≡◌, refl, ◌∙◌, ◌⊎◌, inl, inr, Bool, List, [], ◌∷◌, ltb, ◌==◌, if◌then◌else◌, All,
  length, length-modify, modify, arith, Bool-cases,
}
use shitposter.Scum.Dictionary.{Limits, Dictionary}
use shitposter.Scum.Token.{Token, new_span, text}
use shitposter.Scum.Ast.{text_node, tag_node, new_node}
use shitposter.Scum.State.{
  ParserState, top, rest, reached, increment_cum_width, append_state_node, warn,
  warn_max_parse_depth,
}
use shitposter.Scum.Parser.{
  set_end, close_tag, omit_opening, push_tag, open_node, process_opening_tag, process_universal_tag,
  demote, process_closing_tag, greedy_payload, append_greedy_node, process_tag, force_close,
}
use shitposter.Scum.Parser.Tree.{total-same, children, attributes_of}
use shitposter.Scum.Parser.Indices.{
  All-same, IsTree, SameTree-IsTree, Appended, append_state_node-Appended, top-in,
}
use shitposter.Scum.Parser.Growth.{process_text-IsTree}

-- A node whose end is set; the breadcrumbs lose their top, which becomes the last node.
ended-IsTree :
    {l : Limits} (s s' : ParserState) (w : ℕ)
    → IsTree l s
    → s'.ast.nodes ≡ modify s.ast.nodes (top s.breadcrumbs) (set_end w)
    → s'.ast.attributes ≡ s.ast.attributes
    → s'.limits ≡ s.limits
    → s'.breadcrumbs ≡ rest s.breadcrumbs
    → (s'.last_node_idx ≡ top s.breadcrumbs) ⊎ (s'.last_node_idx ≡ s.last_node_idx)
    → IsTree l s'
ended-IsTree {l} s s' w v en ea el eb last = record {
  counts =
      rw
        (
          en,
          total-same children (set_end w) (λ n. refl) s.ast.nodes (top s.breadcrumbs),
          length-modify,
        )
        v.counts;
  ranges =
      rw (en, ea, total-same attributes_of (set_end w) (λ n. refl) s.ast.nodes (top s.breadcrumbs))
        v.ranges;
  windows =
      rw (en, ea)
        (All-same (length s.ast.attributes) (set_end w) (λ n h. h) s.ast.nodes (top s.breadcrumbs)
          v.windows);
  last = rw (en, length-modify) (by_last last);
  crumbs = rw (en, eb, length-modify) (All-rest s.breadcrumbs v.crumbs);
  same_limits = el ∙ v.same_limits;
  nodes_within = rw (en, length-modify) v.nodes_within;
  attributes_within = rw ea v.attributes_within;
}
  where
    by_last :
        (s'.last_node_idx ≡ top s.breadcrumbs) ⊎ (s'.last_node_idx ≡ s.last_node_idx)
        → s'.last_node_idx < length s.ast.nodes
    by_last (inl e) = rw e (top-in s v)
    by_last (inr e) = rw e v.last

    All-rest :
        (xs : List ℕ)
        → All (λ i. i < length s.ast.nodes) xs
        → All (λ i. i < length s.ast.nodes) (rest xs)
    All-rest [] h = tt
    All-rest (x ∷ xs) (p, h) = h

close_tag-IsTree :
    {l : Limits} (s : ParserState) (tok : Token) → IsTree l s → IsTree l (close_tag s tok)
unfolding close_tag
close_tag-IsTree s tok v =
    ended-IsTree s _ (top s.cum_width + tok.width) v refl refl refl refl (inl refl)

pub force_close-IsTree :
    {l : Limits} (s : ParserState) (d : Dictionary) → IsTree l s → IsTree l (force_close s d)
unfolding force_close warn
force_close-IsTree s d v = ended-IsTree s _ (top s.cum_width) v refl refl refl refl (inr refl)

omit_opening-IsTree :
    {l : Limits} (s : ParserState) (d : Dictionary) (tok : Token)
    → IsTree l s
    → IsTree l (omit_opening s d tok)
unfolding omit_opening
omit_opening-IsTree s d tok v = SameTree-IsTree (ground arith) v

opened-IsTree :
    {l : Limits} (s : ParserState) (r : ParserState × Bool) (d : Dictionary) (tok : Token)
    → Appended l s r
    → IsTree l (if r.1 then push_tag r.0 tok (length s.ast.nodes) else omit_opening r.0 d tok)
unfolding push_tag
opened-IsTree s r d tok a = elim (Bool-cases r.1) [
  | inl made ↦ rw made (record {
    counts = a.tree.counts;
    ranges = a.tree.ranges;
    windows = a.tree.windows;
    last = omega (arith, a.longer made);
    crumbs = (omega (arith, a.longer made), a.tree.crumbs);
    same_limits = a.tree.same_limits;
    nodes_within = a.tree.nodes_within;
    attributes_within = a.tree.attributes_within;
  })
  | inr not_made ↦ rw not_made (omit_opening-IsTree r.0 d tok a.tree)
]

process_opening_tag-IsTree :
    {l : Limits} (s : ParserState) (d : Dictionary) (tok : Token)
    → IsTree l s
    → IsTree l (process_opening_tag s d tok)
unfolding process_opening_tag open_node
process_opening_tag-IsTree s d tok v = elim (Bool-cases (s.opened_tags tok.trigger)) [
  | inl h ↦ rw h (SameTree-IsTree (unfold warn in ground arith) v)
  | inr h ↦ rw h (elim (Bool-cases (reached s.limits.max_parse_depth (length s.stack))) [
    | inl deep ↦ rw deep (
        omit_opening-IsTree (warn_max_parse_depth s tok.pos) d tok
          (SameTree-IsTree (unfold warn_max_parse_depth warn in ground arith) v))
    | inr free ↦ rw free (
        opened-IsTree s
          (append_state_node s (top s.breadcrumbs)
            (record new_node {
              kind = tag_node;
              tag_id = tok.trigger;
              span = new_span tok.pos tok.width;
            })
            tok.pos)
          d tok
          (append_state_node-Appended s (top s.breadcrumbs) _ tok.pos (top-in s v) refl refl v))
  ])
]

process_universal_tag-IsTree :
    {l : Limits} (s : ParserState) (d : Dictionary) (tok : Token)
    → IsTree l s
    → IsTree l (process_universal_tag s d tok)
unfolding process_universal_tag
process_universal_tag-IsTree s d tok v =
    ground (arith, close_tag-IsTree s tok v, process_opening_tag-IsTree s d tok v)

demote-IsTree : {l : Limits} (s : ParserState) (tok : Token) → IsTree l s → IsTree l (demote s tok)
unfolding demote warn
demote-IsTree s tok v =
    process_text-IsTree _ (record tok { kind = text; payload = new_span tok.pos tok.width })
      (SameTree-IsTree
        (record {
          ast_nodes = refl;
          ast_attributes = refl;
          last = refl;
          crumbs = refl;
          limits = refl;
        })
        v)

process_closing_tag-IsTree :
    {l : Limits} (s : ParserState) (d : Dictionary) (tok : Token)
    → IsTree l s
    → IsTree l (process_closing_tag s d tok)
unfolding process_closing_tag
process_closing_tag-IsTree s d tok v = elim (Bool-cases (top s.stack == 0)) [
  | inl none_open ↦ rw none_open (SameTree-IsTree (unfold warn in ground arith) v)
  | inr some_open ↦ rw some_open (ground (arith, close_tag-IsTree s tok v, demote-IsTree s tok v))
]

greedy_payload-IsTree :
    {l : Limits} (s : ParserState) (tok : Token) (parent : ℕ)
    → parent < length s.ast.nodes
    → IsTree l s
    → IsTree l (greedy_payload s tok parent)
unfolding greedy_payload
greedy_payload-IsTree {l} s tok parent lt v =
    by_flag
      (append_state_node s parent (record new_node { kind = text_node; span = tok.payload })
        tok.payload.start)
      (append_state_node-Appended s parent _ tok.payload.start lt refl refl v)
  where
    by_flag :
        (r : ParserState × Bool)
        → Appended l s r
        → IsTree l (record r.0 { last_node_idx = if r.1 then length s.ast.nodes else parent })
    by_flag r a = record {
      counts = a.tree.counts;
      ranges = a.tree.ranges;
      windows = a.tree.windows;
      last = ground (arith, a.longer, a.grows, lt);
      crumbs = a.tree.crumbs;
      same_limits = a.tree.same_limits;
      nodes_within = a.tree.nodes_within;
      attributes_within = a.tree.attributes_within;
    }

append_greedy_node-IsTree :
    {l : Limits} (s : ParserState) (tok : Token) → IsTree l s → IsTree l (append_greedy_node s tok)
unfolding append_greedy_node
append_greedy_node-IsTree {l} s tok v =
    by_flag
      (append_state_node s (top s.breadcrumbs)
        (record new_node {
          kind = tag_node;
          tag_id = tok.trigger;
          span = new_span tok.pos tok.width;
        })
        tok.pos)
      (append_state_node-Appended s (top s.breadcrumbs) _ tok.pos (top-in s v) refl refl v)
  where
    by_flag :
        (r : ParserState × Bool)
        → Appended l s r
        → IsTree l (
            increment_cum_width
              (if r.1 then greedy_payload r.0 tok (length s.ast.nodes) else r.0)
              tok.width)
    by_flag r a = elim (Bool-cases r.1) [
      | inl made ↦ rw made (
          SameTree-IsTree
            (record {
              ast_nodes = refl;
              ast_attributes = refl;
              last = refl;
              crumbs = refl;
              limits = refl;
            })
            (greedy_payload-IsTree r.0 tok (length s.ast.nodes) (omega (arith, a.longer made))
              a.tree))
      | inr not_made ↦ rw not_made (
          SameTree-IsTree
            (record {
              ast_nodes = refl;
              ast_attributes = refl;
              last = refl;
              crumbs = refl;
              limits = refl;
            })
            a.tree)
    ]

pub process_tag-IsTree :
    {l : Limits} (s : ParserState) (d : Dictionary) (tok : Token)
    → IsTree l s
    → IsTree l (process_tag s d tok)
unfolding process_tag
process_tag-IsTree {l} s d tok v = elim (Bool-cases (ltb 0 (s.skip tok.trigger))) [
  | inl skipped ↦ rw skipped (
      SameTree-IsTree
        (record {
          ast_nodes = refl;
          ast_attributes = refl;
          last = refl;
          crumbs = refl;
          limits = refl;
        })
        v)
  | inr kept ↦ rw kept (
      ground (
        arith,
        append_greedy_node-IsTree s tok v,
        process_universal_tag-IsTree s d tok v,
        process_opening_tag-IsTree s d tok v,
        process_closing_tag-IsTree s d tok v,
      ))
]
