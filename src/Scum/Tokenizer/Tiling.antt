-- ===== src/Scum/Tokenizer/Tiling.antt =====
-- Tokens that cover an input from end to end, and the counters as functions of the tokens.
use shitposter.Prelude.{
  ℕ, ◌+◌, ◌-◌, ◌≤◌, ◌≡◌, refl, sym, ap, subst, ◌∙◌, inl, inr, List, [], ◌∷◌, ◌++◌, arith,
  Bool-cases, if◌then◌else◌, ltb,
}
use shitposter.Scum.Tag.{Tag, non_greedy}
use shitposter.Scum.Dictionary.{Dictionary}
use shitposter.Scum.Token.{
  TokenType, text, tag, attribute_kv, attribute_flag, Token, TokenizerState, ActionContext,
}
use shitposter.Scum.Tokenizer.{TokenizerOutput, text_token, flush, emit}
use shitposter.Scum.Tokenizer.Context.{Site, IsEmitted, CountedAs, kinds}

-- Each token starts where the one before it ended, from `from` up to `to`, and none is empty.
abbrev pub Tiles : ℕ → List Token → ℕ → Type 0
Tiles from [] to = from ≡ to
Tiles from (k ∷ ks) to = (k.pos ≡ from) × (1 ≤ k.width) × Tiles (from + k.width) ks to

pub Tiles-snoc :
    (from to : ℕ) (ks : List Token) (k : Token)
    → Tiles from ks to
    → k.pos ≡ to
    → 1 ≤ k.width
    → Tiles from (ks ++ k ∷ []) (to + k.width)
Tiles-snoc from to [] k e p w = (omega (arith, e, p), w, omega (arith, e))
Tiles-snoc from to (x ∷ ks) k (h, w', tiles) p w =
    (h, w', Tiles-snoc (from + x.width) to ks k tiles p w)

-- The counters, as functions of the tokens.
abbrev is_tag : TokenType → ℕ
is_tag tag = 1
is_tag _ = 0

abbrev is_attribute : TokenType → ℕ
is_attribute attribute_kv = 1
is_attribute attribute_flag = 1
is_attribute _ = 0

abbrev pub tags_in : List Token → ℕ
tags_in [] = 0
tags_in (k ∷ ks) = is_tag k.kind + tags_in ks

abbrev pub attributes_in : List Token → ℕ
attributes_in [] = 0
attributes_in (k ∷ ks) = is_attribute k.kind + attributes_in ks

-- The text that a token carries: all of a text token, and the payload of a greedy tag.
abbrev carried_by : TokenType → Dictionary → Token → ℕ
carried_by text d k = k.width
carried_by _ d k =
    if ltb non_greedy (d.tags k.trigger).greed then k.payload.end - k.payload.start else 0

abbrev pub text_len : Dictionary → List Token → ℕ
text_len d [] = 0
text_len d (k ∷ ks) = carried_by k.kind d k + text_len d ks

abbrev pub texts_in : Dictionary → List Token → ℕ
texts_in d [] = 0
texts_in d (k ∷ ks) = (if ltb 0 (carried_by k.kind d k) then 1 else 0) + texts_in d ks

pub record Totals (d : Dictionary) (out : TokenizerOutput) (s : TokenizerState) : Type 0 where
  pub tags : s.tags_total ≡ tags_in out.tokens
  pub attributes : s.attributes ≡ attributes_in out.tokens
  pub bytes : out.text_byte_len ≡ text_len d out.tokens
  pub texts : out.text_tokens ≡ texts_in d out.tokens
  pub by_kind : kinds s ≤ s.tags_total

tags_in-snoc : (ks : List Token) (k : Token) → tags_in (ks ++ k ∷ []) ≡ tags_in ks + is_tag k.kind
tags_in-snoc [] k = omega arith
tags_in-snoc (x ∷ ks) k = omega (arith, tags_in-snoc ks k)

attributes_in-snoc :
    (ks : List Token) (k : Token)
    → attributes_in (ks ++ k ∷ []) ≡ attributes_in ks + is_attribute k.kind
attributes_in-snoc [] k = omega arith
attributes_in-snoc (x ∷ ks) k = omega (arith, attributes_in-snoc ks k)

text_len-snoc :
    (d : Dictionary) (ks : List Token) (k : Token)
    → text_len d (ks ++ k ∷ []) ≡ text_len d ks + carried_by k.kind d k
text_len-snoc d [] k = omega arith
text_len-snoc d (x ∷ ks) k = omega (arith, text_len-snoc d ks k)

texts_in-snoc :
    (d : Dictionary) (ks : List Token) (k : Token)
    → texts_in d (ks ++ k ∷ []) ≡ texts_in d ks + (if ltb 0 (carried_by k.kind d k) then 1 else 0)
texts_in-snoc d [] k = omega arith
texts_in-snoc d (x ∷ ks) k = omega (arith, texts_in-snoc d ks k)

-- The flush of the text before `to` closes the gap.
pub flush-Tiles :
    (out : TokenizerOutput) (from to : ℕ)
    → from ≤ to
    → Tiles 0 out.tokens from
    → Tiles 0 (flush out from to).tokens to
unfolding flush
flush-Tiles out from to le tiles = elim (Bool-cases (ltb 0 (to - from))) [
  | inl some_text ↦ rw some_text (
      subst (Tiles 0 (out.tokens ++ text_token from to ∷ [])) (omega arith)
        (Tiles-snoc 0 from out.tokens (text_token from to) tiles refl (ground arith)))
  | inr no_text ↦ rw no_text (subst (Tiles 0 out.tokens) (ground arith) tiles)
]

pub flush-Totals :
    (d : Dictionary) (out : TokenizerOutput) (s : TokenizerState) (from to : ℕ)
    → Totals d out s
    → Totals d (flush out from to) s
unfolding flush
flush-Totals d out s from to t = ground (
  arith,
  tags_in-snoc out.tokens (text_token from to),
  attributes_in-snoc out.tokens (text_token from to),
  text_len-snoc d out.tokens (text_token from to),
  texts_in-snoc d out.tokens (text_token from to),
)

pub emit-Totals :
    (e : Site) (b : ℕ) (out : TokenizerOutput) (ac : ActionContext) (k : Token) (stride : ℕ)
    → IsEmitted e b k stride
    → ac.tag ≡ e.dictionary.tags b
    → CountedAs k.kind e.before ac.state
    → Totals e.dictionary out e.before
    → Totals e.dictionary (emit out ac k) ac.state
unfolding emit
emit-Totals e b out ac k stride em same counted t =
    let greed : ac.tag.greed ≡ (e.dictionary.tags k.trigger).greed =
      ap (λ (x : Tag). x.greed) same ∙ ap (λ x. (e.dictionary.tags x).greed) (sym em.by) in
    ground (
      arith,
      tags_in-snoc out.tokens k,
      attributes_in-snoc out.tokens k,
      text_len-snoc e.dictionary out.tokens k,
      texts_in-snoc e.dictionary out.tokens k,
      greed,
    )

pub emit-tokens :
    (out : TokenizerOutput) (ac : ActionContext) (k : Token)
    → (emit out ac k).tokens ≡ out.tokens ++ k ∷ []
unfolding emit
emit-tokens out ac k = ground arith
