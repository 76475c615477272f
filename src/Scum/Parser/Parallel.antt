-- ===== src/Scum/Parser/Parallel.antt =====
-- The stacks through a step of the parser and through its third phase.
use shitposter.Prelude.{
  ℕ, zero, suc, ◌+◌, ◌≤◌, ◌≡◌, ◌≢◌, refl, sym, ap, ◌∙◌, ◌⊎◌, inl, inr, Bool, true, false, not, ◌&&◌,
  List, [], ◌∷◌, ltb, ◌==◌, if◌then◌else◌, length, arith, Bool-cases,
}
use shitposter.Scum.Dictionary.{Dictionary}
use shitposter.Scum.Token.{Token}
use shitposter.Scum.Tag.{Tag, is_universal, is_opening, is_closing, non_greedy}
use shitposter.Scum.State.{ParserState, top, rest, peek_stack, reached, warn}
use shitposter.Scum.Parser.{
  close_tag, omit_opening, push_tag, open_node, process_opening_tag, process_universal_tag,
  process_closing_tag, process_tag,
}
use shitposter.Scum.Parser.Stacks.{
  elem, IsParallel, pop-opened, push-opened, Distinct-rest, length-rest, length-add_top, length-pos,
  SameStacks, SameStacks-IsParallel, SameStacks-append, SameStacks-append_greedy_node,
  SameStacks-omit_opening, SameStacks-warn_max_parse_depth, SameStacks-demote,
}

pub close_tag-IsParallel :
    (s : ParserState) (tok : Token) → s.stack ≢ [] → IsParallel s → IsParallel (close_tag s tok)
unfolding close_tag
close_tag-IsParallel s tok ne v = record {
  crumbs =
      omega
        (arith, length-rest s.breadcrumbs, length-rest s.stack, v.crumbs, length-pos s.stack ne);
  widths = omega (
    arith,
    length-rest s.cum_width,
    length-rest s.stack,
    v.widths,
    length-pos s.stack ne,
    length-add_top (top s.cum_width + tok.width) (rest s.cum_width),
  );
  opened = pop-opened s.stack s.opened_tags ne v.opened v.distinct;
  distinct = Distinct-rest s.stack v.distinct;
  depth = by_limit v.depth;
}
  where
    by_limit :
        (s.limits.max_parse_depth ≡ 0) ⊎ (length s.stack ≤ s.limits.max_parse_depth)
        → (s.limits.max_parse_depth ≡ 0) ⊎ (length (rest s.stack) ≤ s.limits.max_parse_depth)
    by_limit (inl no_limit) = inl no_limit
    by_limit (inr within) = inr (omega (arith, within, length-rest s.stack))

room-depth : (limit n : ℕ) → reached limit n ≡ false → (limit ≡ 0) ⊎ (suc n ≤ limit)
room-depth zero n room = inl refl
room-depth (suc limit) n room = inr (ground (arith, room))

push_tag-IsParallel :
    (s s' : ParserState) (tok : Token) (idx : ℕ)
    → SameStacks s s'
    → IsParallel s
    → s.opened_tags tok.trigger ≡ false
    → reached s.limits.max_parse_depth (length s.stack) ≡ false
    → IsParallel (push_tag s' tok idx)
unfolding push_tag
push_tag-IsParallel s s' tok idx e v shut room = record {
  crumbs = omega (
    arith,
    ap (λ (x : List ℕ). length x) e.crumbs,
    ap (λ (x : List ℕ). length x) e.stack,
    v.crumbs,
  );
  widths = omega (arith, e.widths, ap (λ (x : List ℕ). length x) e.stack, v.widths);
  opened = push-opened s'.stack s'.opened_tags tok.trigger (SameStacks-IsParallel e v).opened;
  distinct = (rw e.stack (sym (v.opened tok.trigger) ∙ shut), (SameStacks-IsParallel e v).distinct);
  depth = rw (e.limits, e.stack) (room-depth s.limits.max_parse_depth (length s.stack) room);
}

open_node-IsParallel :
    (s s' : ParserState) (d : Dictionary) (tok : Token) (idx : ℕ) (appended : Bool)
    → SameStacks s s'
    → IsParallel s
    → s.opened_tags tok.trigger ≡ false
    → reached s.limits.max_parse_depth (length s.stack) ≡ false
    → IsParallel (if appended then push_tag s' tok idx else omit_opening s' d tok)
open_node-IsParallel s s' d tok idx true e v shut room =
    push_tag-IsParallel s s' tok idx e v shut room
open_node-IsParallel s s' d tok idx false e v shut room =
    SameStacks-IsParallel (SameStacks-omit_opening s s' d tok e) v

process_opening_tag-IsParallel :
    (s : ParserState) (d : Dictionary) (tok : Token)
    → IsParallel s
    → IsParallel (process_opening_tag s d tok)
unfolding process_opening_tag open_node warn
process_opening_tag-IsParallel s d tok v = elim (Bool-cases (s.opened_tags tok.trigger)) [
  | inl open_already ↦ rw open_already (record {
    crumbs = v.crumbs;
    widths = v.widths;
    opened = v.opened;
    distinct = v.distinct;
    depth = v.depth;
  })
  | inr shut ↦ rw shut (elim (Bool-cases (reached s.limits.max_parse_depth (length s.stack))) [
    | inl deep ↦ rw deep (
        SameStacks-IsParallel
          (SameStacks-omit_opening s _ d tok (SameStacks-warn_max_parse_depth s tok.pos)) v)
    | inr room ↦ rw room (
        open_node-IsParallel s _ d tok (length s.ast.nodes) _
          (SameStacks-append s (top s.breadcrumbs) _ tok.pos) v shut room)
  ])
]

-- An open tag is on the stack, so the stack is not empty.
opened-some : (s : ParserState) (b : ℕ) → IsParallel s → s.opened_tags b ≡ true → s.stack ≢ []
opened-some s b v on = elem-some s.stack b (sym (v.opened b) ∙ on)
  where
    elem-some : (st : List ℕ) (b : ℕ) → elem b st ≡ true → st ≢ []
    elem-some [] b e = absurd (cc e)
    elem-some (x ∷ xs) b e = cc

peek-some : (s : ParserState) → (peek_stack s == 0) ≡ false → s.stack ≢ []
peek-some s h = top-some s.stack h
  where
    top-some : (st : List ℕ) → (top st == 0) ≡ false → st ≢ []
    top-some [] e = absurd (ground (arith, e))
    top-some (x ∷ xs) e = cc

process_universal_tag-IsParallel :
    (s : ParserState) (d : Dictionary) (tok : Token)
    → IsParallel s
    → IsParallel (process_universal_tag s d tok)
unfolding process_universal_tag
process_universal_tag-IsParallel s d tok v =
    elim (Bool-cases (s.opened_tags tok.trigger && peek_stack s == tok.trigger)) [
      | inl h ↦
          rw h (close_tag-IsParallel s tok (opened-some s tok.trigger v (ground (arith, h))) v)
      | inr h ↦ rw h (process_opening_tag-IsParallel s d tok v)
    ]

process_closing_tag-IsParallel :
    (s : ParserState) (d : Dictionary) (tok : Token)
    → IsParallel s
    → IsParallel (process_closing_tag s d tok)
unfolding process_closing_tag warn
process_closing_tag-IsParallel s d tok v = elim (Bool-cases (peek_stack s == 0)) [
  | inl none_open ↦ rw none_open (record {
    crumbs = v.crumbs;
    widths = v.widths;
    opened = v.opened;
    distinct = v.distinct;
    depth = v.depth;
  })
  | inr some_open ↦
      rw some_open
        (elim (Bool-cases (
          not ((d.tags (peek_stack s)).close_id == tok.trigger)
          && not ((d.tags tok.trigger).open_id == peek_stack s))) [
            | inl apart ↦ rw apart (SameStacks-IsParallel (SameStacks-demote s tok) v)
            | inr matches ↦ rw matches (close_tag-IsParallel s tok (peek-some s some_open) v)
          ])
]

pub process_tag-IsParallel :
    (s : ParserState) (d : Dictionary) (tok : Token)
    → IsParallel s
    → IsParallel (process_tag s d tok)
unfolding process_tag
process_tag-IsParallel s d tok v = elim (Bool-cases (ltb 0 (s.skip tok.trigger))) [
  | inl skipped ↦ rw skipped (record {
    crumbs = v.crumbs;
    widths = v.widths;
    opened = v.opened;
    distinct = v.distinct;
    depth = v.depth;
  })
  | inr kept ↦ rw kept (elim (Bool-cases (ltb non_greedy (d.tags tok.trigger).greed)) [
    | inl greedy ↦ rw greedy (SameStacks-IsParallel (SameStacks-append_greedy_node s tok) v)
    | inr plain ↦ rw plain (by_kind (d.tags tok.trigger))
  ])
]
  where
    by_kind :
        (t : Tag)
        → IsParallel (
            if is_universal t
            then process_universal_tag s d tok
            else if is_opening t
            then process_opening_tag s d tok
            else if is_closing t
            then process_closing_tag s d tok
            else s)
    by_kind t = elim (Bool-cases (is_universal t)) [
      | inl h ↦ rw h (process_universal_tag-IsParallel s d tok v)
      | inr n ↦ rw n (elim (Bool-cases (is_opening t)) [
        | inl h ↦ rw h (process_opening_tag-IsParallel s d tok v)
        | inr n ↦ rw n (elim (Bool-cases (is_closing t)) [
          | inl h ↦ rw h (process_closing_tag-IsParallel s d tok v)
          | inr n ↦ rw n v
        ])
      ])
    ]
