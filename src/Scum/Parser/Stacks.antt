-- ===== src/Scum/Parser/Stacks.antt =====
-- What holds of the three stacks of the parser and of the table of open tags.
use shitposter.Prelude.{
  ℕ, ◌+◌, ◌-◌, ◌≤◌, ◌≡◌, ◌≢◌, refl, ◌∙◌, ◌⊎◌, inl, inr, Bool, true, false, not, ◌||◌, List, [], ◌∷◌,
  ◌==◌, if◌then◌else◌, length, arith, Bool-cases,
}
use shitposter.Scum.Dictionary.{Dictionary, update}
use shitposter.Scum.Token.{Token, new_span, text}
use shitposter.Scum.Ast.{text_node, Node, new_node}
use shitposter.Scum.State.{
  ParserState, top, rest, increment_cum_width, add_top, append_state_node, warn,
  warn_max_attributes, warn_max_parse_depth,
}
use shitposter.Scum.Parser.{
  process_text, process_attribute, omit_opening, demote, greedy_payload, append_greedy_node,
}

abbrev pub elem : ℕ → List ℕ → Bool
elem b [] = false
elem b (x ∷ xs) = b == x || elem b xs

abbrev pub Distinct : List ℕ → Type 0
Distinct [] = Unit
Distinct (x ∷ xs) = (elem x xs ≡ false) × Distinct xs

-- The stacks grow and shrink together, above the root; no tag is open twice, and a tag is marked as
-- open exactly when it is on the stack; the depth stays within its limit.
pub record IsParallel (s : ParserState) : Type 0 where
  pub crumbs : length s.breadcrumbs ≡ length s.stack + 1
  pub widths : length s.cum_width ≡ length s.stack + 1
  pub opened : (b : ℕ) → s.opened_tags b ≡ elem b s.stack
  pub distinct : Distinct s.stack
  pub depth : (s.limits.max_parse_depth ≡ 0) ⊎ (length s.stack ≤ s.limits.max_parse_depth)

pub pop-opened :
    (st : List ℕ) (op : ℕ → Bool)
    → st ≢ []
    → ((b : ℕ) → op b ≡ elem b st)
    → Distinct st
    → (b : ℕ) → update op (top st) false b ≡ elem b (rest st)
pop-opened [] op ne h d b = absurd (ne refl)
pop-opened (x ∷ xs) op ne h d b = ground (arith, h b, d)

pub push-opened :
    (st : List ℕ) (op : ℕ → Bool) (t : ℕ)
    → ((b : ℕ) → op b ≡ elem b st)
    → (b : ℕ) → update op t true b ≡ elem b (t ∷ st)
push-opened st op t h b = ground (arith, h b)

pub Distinct-rest : (st : List ℕ) → Distinct st → Distinct (rest st)
Distinct-rest [] d = d
Distinct-rest (x ∷ xs) d = d.1

pub length-rest : (xs : List ℕ) → length (rest xs) ≡ length xs - 1
length-rest [] = omega arith
length-rest (x ∷ xs) = omega arith

pub length-add_top : (w : ℕ) (xs : List ℕ) → length (add_top w xs) ≡ length xs
length-add_top w [] = refl
length-add_top w (x ∷ xs) = refl

pub length-pos : (xs : List ℕ) → xs ≢ [] → 1 ≤ length xs
length-pos [] ne = absurd (ne refl)
length-pos (x ∷ xs) ne = omega arith

-- What the stacks and the table are, apart from the rest of the state.
pub record SameStacks (s s' : ParserState) : Type 0 where
  pub crumbs : s'.breadcrumbs ≡ s.breadcrumbs
  pub widths : length s'.cum_width ≡ length s.cum_width
  pub table : s'.opened_tags ≡ s.opened_tags
  pub stack : s'.stack ≡ s.stack
  pub limits : s'.limits ≡ s.limits

pub SameStacks-IsParallel : {s s' : ParserState} → SameStacks s s' → IsParallel s → IsParallel s'
SameStacks-IsParallel e v = record {
  crumbs = ground (arith, e.crumbs, e.stack, v.crumbs);
  widths = ground (arith, e.widths, e.stack, v.widths);
  opened = λ b. rw (e.table, e.stack) (v.opened b);
  distinct = rw e.stack v.distinct;
  depth = rw (e.limits, e.stack) v.depth;
}

pub SameStacks-append :
    (s : ParserState) (i : ℕ) (n : Node) (p : ℕ) → SameStacks s (append_state_node s i n p).0
unfolding append_state_node
SameStacks-append s i n p = ground arith

-- Text, and whatever becomes text, widens the top of the widths and nothing else.
SameStacks-widened :
    (s s' : ParserState) (appended : Bool) (idx w : ℕ)
    → SameStacks s s'
    → SameStacks s
        (increment_cum_width (if appended then record s' { last_node_idx = idx } else s') w)
SameStacks-widened s s' true idx w e = record {
  crumbs = e.crumbs;
  widths = omega (arith, length-add_top w s'.cum_width, e.widths);
  table = e.table;
  stack = e.stack;
  limits = e.limits;
}
SameStacks-widened s s' false idx w e = record {
  crumbs = e.crumbs;
  widths = omega (arith, length-add_top w s'.cum_width, e.widths);
  table = e.table;
  stack = e.stack;
  limits = e.limits;
}

pub SameStacks-process_text : (s : ParserState) (tok : Token) → SameStacks s (process_text s tok)
unfolding process_text
SameStacks-process_text s tok =
    SameStacks-widened s _ _ (length s.ast.nodes) tok.width
      (SameStacks-append s (top s.breadcrumbs) _ tok.pos)

pub SameStacks-process_attribute :
    (s : ParserState) (tok : Token) → SameStacks s (process_attribute s tok)
unfolding process_attribute warn_max_attributes warn
SameStacks-process_attribute s tok = ground arith

SameStacks-greedy_payload :
    (s s' : ParserState) (tok : Token) (i : ℕ)
    → SameStacks s s'
    → SameStacks s (greedy_payload s' tok i)
unfolding greedy_payload
SameStacks-greedy_payload s s' tok i e =
    let a =
      SameStacks-append s' i (record new_node { kind = text_node; span = tok.payload })
        tok.payload.start in
    record {
      crumbs = a.crumbs ∙ e.crumbs;
      widths = a.widths ∙ e.widths;
      table = a.table ∙ e.table;
      stack = a.stack ∙ e.stack;
      limits = a.limits ∙ e.limits;
    }

SameStacks-greedy :
    (s s' : ParserState) (appended : Bool) (tok : Token) (idx w : ℕ)
    → SameStacks s s'
    → SameStacks s (increment_cum_width (if appended then greedy_payload s' tok idx else s') w)
SameStacks-greedy s s' true tok idx w e =
    SameStacks-widened s _ false 0 w (SameStacks-greedy_payload s s' tok idx e)
SameStacks-greedy s s' false tok idx w e = SameStacks-widened s s' false 0 w e

pub SameStacks-append_greedy_node :
    (s : ParserState) (tok : Token) → SameStacks s (append_greedy_node s tok)
unfolding append_greedy_node
SameStacks-append_greedy_node s tok =
    SameStacks-greedy s _ _ tok (length s.ast.nodes) tok.width
      (SameStacks-append s (top s.breadcrumbs) _ tok.pos)

pub SameStacks-omit_opening :
    (s s' : ParserState) (d : Dictionary) (tok : Token)
    → SameStacks s s'
    → SameStacks s (omit_opening s' d tok)
unfolding omit_opening
SameStacks-omit_opening s s' d tok e =
    elim (Bool-cases (not ((d.tags tok.trigger).close_id == 0))) [
      | inl h ↦ rw h (record {
        crumbs = e.crumbs;
        widths = omega (arith, length-add_top tok.width s'.cum_width, e.widths);
        table = e.table;
        stack = e.stack;
        limits = e.limits;
      })
      | inr h ↦ rw h (SameStacks-widened s s' false 0 tok.width e)
    ]

pub SameStacks-warn_max_parse_depth :
    (s : ParserState) (p : ℕ) → SameStacks s (warn_max_parse_depth s p)
unfolding warn_max_parse_depth warn
SameStacks-warn_max_parse_depth s p = ground arith

pub SameStacks-demote : (s : ParserState) (tok : Token) → SameStacks s (demote s tok)
unfolding demote warn
SameStacks-demote s tok =
    let t =
      SameStacks-process_text _
        (record tok { kind = text; payload = new_span tok.pos tok.width }) in
    record {
      crumbs = t.crumbs;
      widths = t.widths;
      table = t.table;
      stack = t.stack;
      limits = t.limits;
    }
