-- ===== src/Scum/Parser/Closing.antt =====
-- The stacks in the third phase of the parser.
use shitposter.Prelude.{
  ℕ, zero, suc, ◌+◌, ◌-◌, ◌≤◌, ◌≡◌, ◌≢◌, refl, sym, ap, ◌∙◌, inl, inr, false, List, [], ◌∷◌, ltb,
  Bytes, length, arith, Bool-cases,
}
use shitposter.Scum.Warnings.{Warnings}
use shitposter.Scum.Dictionary.{Dictionary}
use shitposter.Scum.Token.{Token, TokenType, text, tag, attribute_kv, attribute_flag}
use shitposter.Scum.Tokenizer.{text_token}
use shitposter.Scum.State.{ParserState, top, rest, warn}
use shitposter.Scum.Parser.{
  close_tag, process_by, process, process_all, force_close, force_close_all, start,
}
use shitposter.Scum.Parser.Stacks.{
  elem, IsParallel, length-rest, length-add_top, SameStacks, SameStacks-IsParallel,
  SameStacks-process_text, SameStacks-process_attribute,
}
use shitposter.Scum.Parser.Parallel.{close_tag-IsParallel, process_tag-IsParallel}

-- Whatever the token and the dictionary, a step of the parser keeps its three stacks parallel, the
-- open tags distinct and exactly those marked as open, and the depth within its limit.
pub process-IsParallel :
    (s : ParserState) (d : Dictionary) (tok : Token) → IsParallel s → IsParallel (process s d tok)
unfolding process process_by
process-IsParallel s d tok v = by_kind tok.kind
  where
    by_kind : (k : TokenType) → IsParallel (process_by k s d tok)
    by_kind text = SameStacks-IsParallel (SameStacks-process_text s tok) v
    by_kind tag = process_tag-IsParallel s d tok v
    by_kind attribute_kv = SameStacks-IsParallel (SameStacks-process_attribute s tok) v
    by_kind attribute_flag = SameStacks-IsParallel (SameStacks-process_attribute s tok) v

process_all-IsParallel :
    (d : Dictionary) (toks : List Token) (s : ParserState)
    → IsParallel s
    → IsParallel (process_all s d toks)
unfolding process_all
process_all-IsParallel d [] s v = v
process_all-IsParallel d (tok ∷ toks) s v =
    process_all-IsParallel d toks _ (process-IsParallel s d tok v)

pub start-IsParallel :
    (d : Dictionary) (input : Bytes) (warns : Warnings) → IsParallel (start d input warns)
start-IsParallel d input warns = record {
  crumbs = refl;
  widths = refl;
  opened = λ b. refl;
  distinct = tt;
  depth = inr (omega arith);
}

-- A forced close moves the stacks as a closing tag does.
SameStacks-force_close :
    (s : ParserState) (d : Dictionary) (tok : Token)
    → SameStacks (close_tag s tok) (force_close s d)
unfolding close_tag force_close warn
SameStacks-force_close s d tok = record {
  crumbs = refl;
  widths =
      length-add_top (top s.cum_width + 0) (rest s.cum_width)
      ∙ sym (length-add_top (top s.cum_width + tok.width) (rest s.cum_width));
  table = refl;
  stack = refl;
  limits = refl;
}

force_close-IsParallel :
    (s : ParserState) (d : Dictionary) → s.stack ≢ [] → IsParallel s → IsParallel (force_close s d)
force_close-IsParallel s d ne v =
    SameStacks-IsParallel (SameStacks-force_close s d (text_token 0 0))
      (close_tag-IsParallel s (text_token 0 0) ne v)

force_close-breadcrumbs :
    (s : ParserState) (d : Dictionary)
    → length (force_close s d).breadcrumbs ≡ length s.breadcrumbs - 1
unfolding force_close warn
force_close-breadcrumbs s d = length-rest s.breadcrumbs

none-left : (xs : List ℕ) → length xs ≤ 0 → xs ≡ []
none-left [] h = refl
none-left (x ∷ xs) h = absurd (omega (arith, h))

nonempty : (xs : List ℕ) → 1 ≤ length xs → xs ≢ []
nonempty [] h = absurd (omega (arith, h))
nonempty (x ∷ xs) h = cc

-- The rounds of `force_close_all`, as many as the stack is high, leave only the root.
force_close_all-closed :
    (fuel : ℕ) (s : ParserState) (d : Dictionary)
    → IsParallel s
    → length s.breadcrumbs ≤ fuel + 1
    → IsParallel (force_close_all fuel s d) × ((force_close_all fuel s d).stack ≡ [])
unfolding force_close_all
force_close_all-closed zero s d v enough = (v, none-left s.stack (omega (arith, enough, v.crumbs)))
force_close_all-closed (suc fuel) s d v enough = elim (Bool-cases (ltb 1 (length s.breadcrumbs))) [
  | inl more ↦ rw more (
      force_close_all-closed fuel (force_close s d) d
        (force_close-IsParallel s d (nonempty s.stack (ground (arith, more, v.crumbs))) v)
        (omega (arith, force_close-breadcrumbs s d)))
  | inr done ↦ rw done (v, none-left s.stack (ground (arith, done, v.crumbs)))
]

-- The state that `build` leaves for `finalize`.
abbrev pub built_state : Dictionary → Bytes → List Token → Warnings → ParserState
built_state d input toks warns =
    let s = process_all (start d input warns) d toks in force_close_all (length s.breadcrumbs) s d

-- After any tokens under any dictionary, the third phase of the parser leaves one breadcrumb and one
-- width, the root's, no tag on the stack, and no byte marked as an open tag.
pub build-closes :
    (d : Dictionary) (input : Bytes) (toks : List Token) (warns : Warnings)
    → (length (built_state d input toks warns).breadcrumbs ≡ 1)
      × (length (built_state d input toks warns).cum_width ≡ 1)
      × ((built_state d input toks warns).stack ≡ [])
      × ((b : ℕ) → (built_state d input toks warns).opened_tags b ≡ false)
build-closes d input toks warns =
    let s = process_all (start d input warns) d toks in
    let (v, empty) =
      force_close_all-closed (length s.breadcrumbs) s d
        (process_all-IsParallel d toks (start d input warns) (start-IsParallel d input warns))
        (omega arith) in
    (
      v.crumbs ∙ ap (λ (x : List ℕ). length x + 1) empty,
      v.widths ∙ ap (λ (x : List ℕ). length x + 1) empty,
      empty,
      λ b. v.opened b ∙ ap (elem b) empty,
    )
