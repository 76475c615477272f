-- ===== src/Scum/Tokenizer/Context.antt =====
-- What every step of a plan keeps about the context, and what an action has to return.
use shitposter.Prelude.{
  ℕ, ◌+◌, ◌≤◌, ◌<◌, ◌≡◌, ◌⊎◌, Bool, true, false, List, [], ◌∷◌, if◌then◌else◌, Bytes, length,
}
use shitposter.Scum.Tag.{Tag}
use shitposter.Scum.Dictionary.{Dictionary}
use shitposter.Scum.Token.{
  TokenType, text, tag, attribute_kv, attribute_flag, Token, TokenizerState, ActionContext,
}
use shitposter.Scum.Steps.{Mutator, Step, mutate_with, step_emit_entire_tag_token}
use shitposter.Scum.Plan.{ActionResult}

-- The tags that are counted by their kind.
abbrev pub kinds : TokenizerState → ℕ
kinds s = s.universal_tags + s.open_tags + s.close_tags

-- The part of the input that an action sees: it starts at `i` in `input`, on byte `b`.
pub record Site : Type 0 where
  pub dictionary : Dictionary
  pub input : Bytes
  pub i : ℕ
  pub before : TokenizerState

-- A token that starts at the site and is as wide as the bytes consumed.
pub record IsEmitted (e : Site) (b : ℕ) (k : Token) (stride : ℕ) : Type 0 where
  pub here : k.pos ≡ e.i
  pub wide : k.width ≡ stride
  pub by : k.trigger ≡ b
  pub payload_from : e.i ≤ k.payload.start
  pub payload_order : k.payload.start ≤ k.payload.end
  pub payload_to : k.payload.end ≤ e.i + stride

-- The counters after an action that emitted a token of this type.
abbrev pub CountedAs : TokenType → TokenizerState → TokenizerState → Type 0
CountedAs text s s' = ⊥
CountedAs tag s s' =
    (s'.tags_total ≡ s.tags_total + 1) × (s'.attributes ≡ s.attributes) × (kinds s' ≤ kinds s + 1)
CountedAs attribute_kv s s' =
    (s'.tags_total ≡ s.tags_total) × (s'.attributes ≡ s.attributes + 1) × (kinds s' ≡ kinds s)
CountedAs attribute_flag s s' =
    (s'.tags_total ≡ s.tags_total) × (s'.attributes ≡ s.attributes + 1) × (kinds s' ≡ kinds s)

abbrev pub Uncounted : TokenizerState → TokenizerState → Type 0
Uncounted s s' =
    (s'.tags_total ≡ s.tags_total) × (s'.attributes ≡ s.attributes) × (kinds s' ≡ kinds s)

abbrev pub Outcome : Site → ℕ → Tag → ActionResult → Bool → Type 0
Outcome e b t r true = Uncounted e.before r.left.state
Outcome e b t r false =
    (r.left.tag ≡ t) × IsEmitted e b r.token r.stride × CountedAs r.token.kind e.before r.left.state

-- An action consumes at least one byte and none beyond the input, and either skips with the counters
-- as they were, or leaves the tag `t` and emits a token for just the bytes it consumed.
pub record IsGood (e : Site) (b : ℕ) (t : Tag) (r : ActionResult) : Type 0 where
  pub same_dictionary : r.left.dictionary ≡ e.dictionary
  pub same_input : r.left.input ≡ e.input
  pub moves : 1 ≤ r.stride
  pub stays : e.i + r.stride ≤ length e.input
  pub outcome : Outcome e b t r r.skip

-- What holds of the context between two steps; `counted` after the counter of the plan.
pub record Inv (e : Site) (t : Tag) (counted : Bool) (c : ActionContext) : Type 0 where
  pub same_tag : c.tag ≡ t
  pub same_dictionary : c.dictionary ≡ e.dictionary
  pub same_input : c.input ≡ e.input
  pub same_idx : c.idx ≡ e.i
  pub width_pos : 1 ≤ c.bounds.width
  pub width_fits : e.i + c.bounds.width ≤ length e.input
  pub raw_start : c.bounds.raw.start ≡ e.i
  pub raw_pos : e.i < c.bounds.raw.end
  pub raw_fits : c.bounds.raw.end ≤ length e.input
  pub inner_from : e.i ≤ c.bounds.inner.start
  pub inner_order : c.bounds.inner.start ≤ c.bounds.inner.end
  pub inner_to : c.bounds.inner.end ≤ c.bounds.raw.end
  pub total : c.state.tags_total ≡ e.before.tags_total + (if counted then 1 else 0)
  pub attrs : c.state.attributes ≡ e.before.attributes
  pub kinds_le : kinds c.state ≤ kinds e.before + (if counted then 1 else 0)
  pub kinds_same : counted ≡ false → kinds c.state ≡ kinds e.before

module _ (e : Site) (t : Tag) where
  abbrev pub Keeps : Mutator → Type 0
  Keeps m = (k : Bool) (c : ActionContext) → Inv e t k c → Inv e t k (m c)

  abbrev pub Counts : Mutator → Type 0
  Counts m = (c : ActionContext) → Inv e t false c → Inv e t true (m c)

  -- A step that skips as text, or leaves the context alone.
  pub record Skipped (c : ActionContext) : Type 0 where
    pub same_dictionary : c.dictionary ≡ e.dictionary
    pub same_input : c.input ≡ e.input
    pub moves : 1 ≤ c.stride
    pub stays : e.i + c.stride ≤ length e.input
    pub skips : c.skip ≡ true
    pub uncounted : Uncounted e.before c.state

  abbrev pub SkipsOr : Bool × ActionContext → Type 0
  SkipsOr r = ((r.0 ≡ false) × Inv e t false r.1) ⊎ ((r.0 ≡ true) × Skipped r.1)

  abbrev pub Skips : Step → Type 0
  Skips s = (c : ActionContext) → Inv e t false c → SkipsOr (s c)

  -- A plan whose steps keep the invariant: it counts once, right before it emits.
  pub data IsPlan : Bool → List Step → Type 1 where
    fall : IsPlan false []
    keep :
        {k : Bool} {m : Mutator} {steps : List Step}
        → Keeps m
        → IsPlan k steps
        → IsPlan k (mutate_with m ∷ steps)
    count :
        {m : Mutator} {steps : List Step}
        → Counts m
        → IsPlan true steps
        → IsPlan false (mutate_with m ∷ steps)
    skip : {s : Step} {steps : List Step} → Skips s → IsPlan false steps → IsPlan false (s ∷ steps)
    emit : {steps : List Step} → IsPlan true (step_emit_entire_tag_token ∷ steps)
