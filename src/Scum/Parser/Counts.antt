-- ===== src/Scum/Parser/Counts.antt =====
-- The counts and the limits of the tree that the parser returns.
use shitposter.Prelude.{
  All, ℕ, zero, suc, ◌+◌, ◌≤◌, ◌≡◌, refl, ◌⊎◌, inl, inr, List, [], ◌∷◌, ltb, Bytes, length,
  length-modify, arith, Bool-cases,
}
use shitposter.Scum.Warnings.{Warnings}
use shitposter.Scum.Dictionary.{Limits, Dictionary}
use shitposter.Scum.Token.{Token, TokenType, text, tag, attribute_kv, attribute_flag}
use shitposter.Scum.Tokenizer.{TokenizerOutput}
use shitposter.Scum.Ast.{Node}
use shitposter.Scum.State.{ParserState, top}
use shitposter.Scum.Parser.{
  process_by, process, process_all, force_close, force_close_all, start, finalize, build,
}
use shitposter.Scum.Parser.Tree.{total, total-same, children, attributes_of}
use shitposter.Scum.Parser.Indices.{HasWindow, All-same, IsTree}
use shitposter.Scum.Parser.Growth.{process_text-IsTree, process_attribute-IsTree}
use shitposter.Scum.Parser.Tags.{force_close-IsTree, process_tag-IsTree}

-- Whatever the token and the dictionary, a step of the parser keeps the tree's invariant: the child
-- counts add up to the nodes but the root, the attribute ranges to the attributes and each lies inside
-- them, the indices on the breadcrumbs and of the last node are nodes, and the limits on nodes and
-- attributes hold.
pub process-IsTree :
    {l : Limits} (s : ParserState) (d : Dictionary) (tok : Token)
    → IsTree l s
    → IsTree l (process s d tok)
unfolding process process_by
process-IsTree {l} s d tok v = by_kind tok.kind
  where
    by_kind : (k : TokenType) → IsTree l (process_by k s d tok)
    by_kind text = process_text-IsTree s tok v
    by_kind tag = process_tag-IsTree s d tok v
    by_kind attribute_kv = process_attribute-IsTree s tok v
    by_kind attribute_flag = process_attribute-IsTree s tok v

process_all-IsTree :
    {l : Limits} (d : Dictionary) (toks : List Token) (s : ParserState)
    → IsTree l s
    → IsTree l (process_all s d toks)
unfolding process_all
process_all-IsTree d [] s v = v
process_all-IsTree d (tok ∷ toks) s v = process_all-IsTree d toks _ (process-IsTree s d tok v)

force_close_all-IsTree :
    {l : Limits} (fuel : ℕ) (s : ParserState) (d : Dictionary)
    → IsTree l s
    → IsTree l (force_close_all fuel s d)
unfolding force_close_all
force_close_all-IsTree zero s d v = v
force_close_all-IsTree (suc fuel) s d v = elim (Bool-cases (ltb 1 (length s.breadcrumbs))) [
  | inl more ↦ rw more (force_close_all-IsTree fuel (force_close s d) d (force_close-IsTree s d v))
  | inr done ↦ rw done v
]

pub start-IsTree :
    (d : Dictionary) (input : Bytes) (warns : Warnings) → IsTree d.limits (start d input warns)
start-IsTree d input warns = record {
  counts = refl;
  ranges = refl;
  windows = (omega arith, tt);
  last = omega arith;
  crumbs = (omega arith, tt);
  same_limits = refl;
  nodes_within = root_within d.limits.max_nodes;
  attributes_within = inr (omega arith);
}
  where
    root_within : (limit : ℕ) → (limit ≡ 0) ⊎ (1 ≤ limit)
    root_within zero = inl refl
    root_within (suc n) = inr (omega arith)

abbrev root_ended : ℕ → Node → Node
root_ended w n = record n { span = record { start = n.span.start; end = w } }

-- What `finalize` makes of a tree.
finalize-counts :
    {l : Limits} (s : ParserState) (out : TokenizerOutput)
    → IsTree l s
    → (total children (finalize s out).nodes + 1 ≡ length (finalize s out).nodes)
      × (total attributes_of (finalize s out).nodes ≡ length (finalize s out).attributes)
      × ((l.max_nodes ≡ 0) ⊎ (length (finalize s out).nodes ≤ l.max_nodes))
      × ((l.max_attributes ≡ 0) ⊎ (length (finalize s out).attributes ≤ l.max_attributes))
unfolding finalize
finalize-counts s out v = (
  rw (total-same children (root_ended (top s.cum_width)) (λ n. refl) s.ast.nodes 0, length-modify)
      v.counts,
  rw (total-same attributes_of (root_ended (top s.cum_width)) (λ n. refl) s.ast.nodes 0) v.ranges,
  rw length-modify v.nodes_within,
  v.attributes_within,
)

-- The tree of `ParseInto`, from any tokens under any dictionary: the child counts of its nodes add
-- up to the number of nodes but the root, the lengths of their attribute ranges to the number of
-- attributes, and neither number exceeds its limit when the dictionary sets one.
pub build-counts :
    (d : Dictionary) (input : Bytes) (out : TokenizerOutput) (warns : Warnings)
    → (total children (build d input out warns).0.nodes + 1
        ≡ length (build d input out warns).0.nodes)
      × (total attributes_of (build d input out warns).0.nodes
          ≡ length (build d input out warns).0.attributes)
      × ((d.limits.max_nodes ≡ 0) ⊎ (length (build d input out warns).0.nodes ≤ d.limits.max_nodes))
      × ((d.limits.max_attributes ≡ 0)
          ⊎ (length (build d input out warns).0.attributes ≤ d.limits.max_attributes))
unfolding build
build-counts d input out warns =
    let s = process_all (start d input warns) d out.tokens in
    finalize-counts (force_close_all (length s.breadcrumbs) s d) out (
      force_close_all-IsTree (length s.breadcrumbs) s d
        (process_all-IsTree d out.tokens (start d input warns) (start-IsTree d input warns)))

finalize-windows :
    {l : Limits} (s : ParserState) (out : TokenizerOutput)
    → IsTree l s
    → All (HasWindow (length (finalize s out).attributes)) (finalize s out).nodes
unfolding finalize
finalize-windows s out v =
    All-same (length s.ast.attributes) (root_ended (top s.cum_width)) (λ n h. h) s.ast.nodes 0
      v.windows

-- In the tree of `ParseInto`, from any tokens under any dictionary, the attribute range of every node
-- lies inside the tree's attributes: the slice that the serialization takes of them is in bounds.
pub build-windows :
    (d : Dictionary) (input : Bytes) (out : TokenizerOutput) (warns : Warnings)
    → All
        (HasWindow (length (build d input out warns).0.attributes))
        (build d input out warns).0.nodes
unfolding build
build-windows d input out warns =
    let s = process_all (start d input warns) d out.tokens in
    finalize-windows (force_close_all (length s.breadcrumbs) s d) out (
      force_close_all-IsTree (length s.breadcrumbs) s d
        (process_all-IsTree d out.tokens (start d input warns) (start-IsTree d input warns)))
