-- ===== src/Scum/Parser/Growth.antt =====
-- The invariant of the tree through the handlers of text and of attributes.
use shitposter.Prelude.{
  ℕ, ◌+◌, ◌≤◌, ◌≡◌, refl, subst, ◌⊎◌, inl, inr, Bool, if◌then◌else◌, length, length-append,
  length-modify, arith, Bool-cases,
}
use shitposter.Scum.Dictionary.{Limits}
use shitposter.Scum.Token.{Token}
use shitposter.Scum.Ast.{text_node, new_node, Attribute, link_attribute, append_attribute}
use shitposter.Scum.State.{
  ParserState, top, reached, increment_cum_width, append_state_node, warn, warn_max_attributes,
}
use shitposter.Scum.Parser.{process_text, process_attribute}
use shitposter.Scum.Parser.Tree.{total-modify, total-same, children, attributes_of}
use shitposter.Scum.Parser.Indices.{
  HasWindow, All-modify, IsTree, SameTree-IsTree, Appended, append_state_node-Appended, top-in,
  room,
}

-- The node just appended, or the parent, is the last one.
marked-IsTree :
    {l : Limits} (s : ParserState) (r : ParserState × Bool) (w : ℕ)
    → Appended l s r
    → IsTree l (
        increment_cum_width
          (if r.1 then record r.0 { last_node_idx = length s.ast.nodes } else r.0)
          w)
marked-IsTree s r w a = elim (Bool-cases r.1) [
  | inl made ↦ rw made (record {
    counts = a.tree.counts;
    ranges = a.tree.ranges;
    windows = a.tree.windows;
    last = omega (arith, a.longer made);
    crumbs = a.tree.crumbs;
    same_limits = a.tree.same_limits;
    nodes_within = a.tree.nodes_within;
    attributes_within = a.tree.attributes_within;
  })
  | inr not_made ↦ rw not_made (
      SameTree-IsTree
        (record {
          ast_nodes = refl;
          ast_attributes = refl;
          last = refl;
          crumbs = refl;
          limits = refl;
        })
        a.tree)
]

pub process_text-IsTree :
    {l : Limits} (s : ParserState) (tok : Token) → IsTree l s → IsTree l (process_text s tok)
unfolding process_text
process_text-IsTree s tok v =
    marked-IsTree s
      (append_state_node s (top s.breadcrumbs)
        (record new_node { kind = text_node; span = tok.payload }) tok.pos)
      tok.width
      (append_state_node-Appended s (top s.breadcrumbs) _ tok.pos (top-in s v) refl refl v)

pub process_attribute-IsTree :
    {l : Limits} (s : ParserState) (tok : Token) → IsTree l s → IsTree l (process_attribute s tok)
unfolding process_attribute append_attribute
process_attribute-IsTree s tok v =
    elim (Bool-cases (reached s.limits.max_attributes (length s.ast.attributes))) [
      | inl full ↦ rw full (SameTree-IsTree (unfold warn_max_attributes warn in ground arith) v)
      | inr free ↦ rw free (record {
        counts =
            rw
              (
                total-same children (link_attribute (length s.ast.attributes)) (λ n. refl)
                    s.ast.nodes s.last_node_idx,
                length-modify,
              )
              v.counts;
        ranges = omega (
          arith,
          total-modify attributes_of 1 (link_attribute (length s.ast.attributes)) (λ n. refl)
              s.ast.nodes s.last_node_idx v.last,
          v.ranges,
          length-append {A = Attribute},
        );
        windows = rw length-append (
            All-modify (HasWindow (length s.ast.attributes))
              (HasWindow (length s.ast.attributes + 1)) (link_attribute (length s.ast.attributes))
              (λ n w. omega (arith, w)) (λ n w. ground (arith, w)) s.ast.nodes s.last_node_idx
              v.windows);
        last = rw length-modify v.last;
        crumbs = rw length-modify v.crumbs;
        same_limits = v.same_limits;
        nodes_within = rw length-modify v.nodes_within;
        attributes_within = rw length-append (
            subst
              (λ (x : Limits).
                (x.max_attributes ≡ 0) ⊎ (length s.ast.attributes + 1 ≤ x.max_attributes))
              v.same_limits (room s.limits.max_attributes (length s.ast.attributes) free));
      })
    ]
