-- ===== src/Scum/Tokenizer.antt =====
-- scum/tokenize.go: the loop that cuts the input into text, tag and attribute tokens.
pub mod Context
pub mod Keeping
pub mod Checking
pub mod Plans
pub mod Acting
pub mod Tiling
pub mod Coverage
use shitposter.Prelude.{
  ℕ, zero, suc, ◌+◌, ◌-◌, Bool, true, false, Option, none, some, List, [], ◌∷◌, ◌++◌, ltb, ◌&&◌,
  if◌then◌else◌, Bytes, length, get_or,
}
use shitposter.Scum.Warnings.{Warnings}
use shitposter.Scum.Tag.{no_tag, non_greedy}
use shitposter.Scum.Dictionary.{Dictionary, Action}
use shitposter.Scum.Utf8.{Unicode}
use shitposter.Scum.Token.{
  Span, text, Token, no_span, no_token, reset_bounds, TokenizerState, ActionContext, reset,
}
use shitposter.Scum.Plan.{ActionResult}
use shitposter.Scum.Actions.{run_action}

pub record TokenizerOutput : Type 0 where
  pub tokens : List Token
  pub text_byte_len : ℕ
  pub tags_total : ℕ
  pub universal_tags : ℕ
  pub open_tags : ℕ
  pub close_tags : ℕ
  pub text_tokens : ℕ
  pub attributes : ℕ

abbrev pub no_output : TokenizerOutput
no_output = record {
  tokens = [];
  text_byte_len = 0;
  tags_total = 0;
  universal_tags = 0;
  open_tags = 0;
  close_tags = 0;
  text_tokens = 0;
  attributes = 0;
}

-- The variables of the loop.
pub record Loop : Type 0 where
  pub out : TokenizerOutput
  pub ac : ActionContext
  pub i : ℕ
  pub text_start : ℕ

abbrev pub text_token : ℕ → ℕ → Token
text_token from to = record no_token {
  pos = from;
  width = to - from;
  payload = record { start = from; end = to };
}

-- The plain text from `from` to `to`, if there is any, as a token.
unfoldable pub flush : TokenizerOutput → ℕ → ℕ → TokenizerOutput
flush out from to =
    let text_len = to - from in
    if ltb 0 text_len
    then record out {
      tokens = out.tokens ++ text_token from to ∷ [];
      text_tokens = out.text_tokens + 1;
      text_byte_len = out.text_byte_len + text_len;
    }
    else out

-- The token of an action, whose payload counts as text if its tag is greedy.
unfoldable pub emit : TokenizerOutput → ActionContext → Token → TokenizerOutput
emit out ac token =
    let with_token = record out { tokens = out.tokens ++ token ∷ [] } in
    if ltb non_greedy ac.tag.greed && ltb token.payload.start token.payload.end
    then record with_token {
      text_tokens = out.text_tokens + 1;
      text_byte_len = out.text_byte_len + (token.payload.end - token.payload.start);
    }
    else with_token

-- The loop's body behind the call of an action.
unfoldable pub after_action : Loop → ActionResult → Loop
unfolding flush emit
after_action l r = if r.skip then record l { ac = r.left; i = l.i + r.stride } else record {
  out = emit (flush l.out l.text_start l.i) r.left r.token;
  ac = r.left;
  i = l.i + r.stride;
  text_start = l.i + r.stride;
}

unfoldable pub step_at : Unicode → Loop → Option Action → Loop
unfolding after_action
step_at u l none = record l { i = l.i + 1 }
step_at u l (some act) =
    let ac = reset l.ac (get_or l.ac.input l.i 0) l.i in after_action l (run_action u act ac)

unfoldable pub step : Unicode → Loop → Loop
unfolding step_at
step u l = step_at u l (l.ac.dictionary.actions (get_or l.ac.input l.i 0))

-- `for i := 0; i < n; {…}`, at most `fuel` rounds.
unfoldable pub loop : Unicode → ℕ → Loop → Loop
unfolding step
loop u zero l = l
loop u (suc fuel) l =
    let rest = loop u fuel (step u l) in if ltb l.i (length l.ac.input) then rest else l

abbrev no_state : TokenizerState
no_state = record {
  tags_total = 0;
  universal_tags = 0;
  open_tags = 0;
  close_tags = 0;
  attributes = 0;
}

abbrev pub initial : Dictionary → Bytes → Warnings → Loop
initial d input warns = record {
  out = no_output;
  ac = record {
    tag = no_tag;
    dictionary = d;
    state = no_state;
    warns = warns;
    bounds = reset_bounds 0;
    trigger = 0;
    input = input;
    idx = 0;
    token = no_token;
    stride = 0;
    skip = false;
  };
  i = 0;
  text_start = 0;
}

-- Behind the loop: the last text, and the counters of the state.
unfoldable pub finish : Loop → TokenizerOutput
finish l =
    let out = flush l.out l.text_start (length l.ac.input) in
    record out {
      tags_total = l.ac.state.tags_total;
      universal_tags = l.ac.state.universal_tags;
      open_tags = l.ac.state.open_tags;
      close_tags = l.ac.state.close_tags;
      attributes = l.ac.state.attributes;
    }

-- Every round moves `i` forward, so as many rounds as there are bytes are enough. The warnings
-- collected come back beside the output.
unfoldable pub tokenize : Unicode → Dictionary → Bytes → Warnings → TokenizerOutput × Warnings
unfolding loop finish
tokenize u d input warns =
    let l = loop u (length input) (initial d input warns) in (finish l, l.ac.warns)
