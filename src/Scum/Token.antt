-- ===== src/Scum/Token.antt =====
-- scum/token.go, and the state of scum/plan.go that an action works on. The pointers `State` and
-- `Warns` of the context are shared by all actions of a run; here their targets are passed along.
-- The index -1 is `none`.
use shitposter.Prelude.{ℕ, ◌+◌, Bool, false, Option, none, Bytes}
use shitposter.Scum.Warnings.{Warnings}
use shitposter.Scum.Tag.{Tag}
use shitposter.Scum.Dictionary.{Dictionary}

pub record Span : Type 0 where
  pub start : ℕ
  pub end : ℕ

abbrev pub new_span : ℕ → ℕ → Span
new_span start_idx width = record { start = start_idx; end = start_idx + width }

pub data TokenType : Type 0 where
  text tag attribute_kv attribute_flag : TokenType

pub record Token : Type 0 where
  pub kind : TokenType
  pub trigger : ℕ
  pub pos : ℕ
  pub width : ℕ
  pub payload : Span
  pub attr_key : Span

abbrev pub no_span : Span
no_span = record { start = 0; end = 0 }

-- `Token{}`
abbrev pub no_token : Token
no_token = record {
  kind = text;
  trigger = 0;
  pos = 0;
  width = 0;
  payload = no_span;
  attr_key = no_span;
}

pub record Bounds : Type 0 where
  pub raw : Span
  pub inner : Span
  pub closed : Bool
  pub width : ℕ
  pub close_width : ℕ
  pub close_idx : Option ℕ
  pub seq_valid : Bool
  pub key_len_limit_reached : Bool
  pub payload_limit_reached : Bool

abbrev pub reset_bounds : ℕ → Bounds
reset_bounds i = record {
  raw = record { start = i; end = i + 1 };
  inner = record { start = i; end = i };
  closed = false;
  width = 1;
  close_width = 0;
  close_idx = none;
  seq_valid = false;
  key_len_limit_reached = false;
  payload_limit_reached = false;
}

pub record TokenizerState : Type 0 where
  pub tags_total : ℕ
  pub universal_tags : ℕ
  pub open_tags : ℕ
  pub close_tags : ℕ
  pub attributes : ℕ

pub record ActionContext : Type 0 where
  pub tag : Tag
  pub dictionary : Dictionary
  pub state : TokenizerState
  pub warns : Warnings
  pub bounds : Bounds
  pub trigger : ℕ
  pub input : Bytes
  pub idx : ℕ
  pub token : Token
  pub stride : ℕ
  pub skip : Bool

-- `ActionContext.Reset` at byte `c`, index `i`.
abbrev pub reset : ActionContext → ℕ → ℕ → ActionContext
reset ac c i = record ac {
  tag = ac.dictionary.tags c;
  idx = i;
  token = no_token;
  stride = 0;
  skip = false;
  trigger = c;
  bounds = reset_bounds i;
}
