-- ===== src/Scum/Checks.antt =====
-- The mutators that set the bounds of a tag: scum/prepare_single_char_tag.go,
-- scum/check_multi_char_tag_seq.go, scum/check_close_tag.go and scum/check_tag_vs_content.go.
use shitposter.Prelude.{
  ℕ, zero, suc, ◌+◌, ◌-◌, min, Bool, true, false, ◌&&◌, Option, none, some, [], ◌∷◌, ltb, ◌==◌,
  if◌then◌else◌, Bytes, length, get_or, take, drop, slice,
}
use mathlib.Core.Option
use shitposter.Scum.Search.{Match, index_byte, longest_common_sub_prefix}
use shitposter.Scum.Tag.{Tag, TagSequence, id}
use shitposter.Scum.Dictionary.{lookup_tag}
use shitposter.Scum.Token.{new_span, ActionContext}

-- `TagSequence.IsContainedIn`
abbrev pub find_sequence : TagSequence → Bytes → Match
find_sequence seq src = longest_common_sub_prefix src (take seq.len seq.bytes)

unfoldable pub prepare_single_char_tag : ActionContext → ActionContext
prepare_single_char_tag ctx = record ctx {
  bounds = record ctx.bounds {
    width = 1;
    raw = new_span ctx.idx 1;
    inner = new_span (ctx.idx + 1) 0;
    seq_valid = true;
  };
}

unfoldable pub set_sequence : ActionContext → Match → ActionContext
set_sequence ctx m = record ctx {
  bounds = record ctx.bounds {
    seq_valid = m.contained;
    width = m.length;
    raw = new_span ctx.idx m.length;
    inner = new_span (ctx.idx + m.length) 0;
  };
}

unfoldable pub check_multi_char_tag_seq : ActionContext → ActionContext
unfolding set_sequence
check_multi_char_tag_seq ctx =
    let seq_end = min (length ctx.input) (ctx.idx + ctx.tag.seq.len) in
    set_sequence ctx (find_sequence ctx.tag.seq (slice ctx.input ctx.idx seq_end))

-- The closing tag is not registered.
unfoldable pub no_close_tag : ActionContext → ActionContext
no_close_tag ctx = record ctx {
  bounds = record ctx.bounds {
    closed = false;
    close_idx = none;
    close_width = 0;
    raw = record { start = ctx.idx; end = length ctx.input };
    inner = record { start = ctx.idx + ctx.bounds.width; end = length ctx.input };
  };
}

-- The bounds where the search of the limited rest, from `content` to `scan_end`, found `m`.
unfoldable pub set_close : ActionContext → ℕ → ℕ → Match → ActionContext
set_close ctx content scan_end m =
    let n = length ctx.input in
    let abs_start = Option.map (λ rel. content + rel) m.idx in
    let searched = record ctx.bounds {
      closed = m.contained;
      close_idx = abs_start;
      close_width = m.length;
      payload_limit_reached = elim abs_start [ none ↦ ltb scan_end n | some _ ↦ false ];
    } in
    let at = Option.get_or abs_start 0 in
    if m.contained
    then record ctx {
      bounds = record searched {
        raw = record { start = ctx.idx; end = at + m.length };
        inner = record { start = content; end = at };
      };
    }
    else record ctx {
      bounds = record searched {
        raw = record { start = ctx.idx; end = n };
        inner = record { start = content; end = n };
      };
    }

unfoldable pub close_by : ActionContext → Tag × Bool → ActionContext
unfolding no_close_tag set_close
close_by ctx (close_tag, false) = no_close_tag ctx
close_by ctx (close_tag, true) =
    let content = ctx.idx + ctx.bounds.width in
    let scan_end = min (content + ctx.dictionary.limits.max_payload_len + 1) (length ctx.input) in
    set_close ctx content scan_end (find_sequence close_tag.seq (slice ctx.input content scan_end))

unfoldable pub check_close_tag : ActionContext → ActionContext
unfolding close_by
check_close_tag ctx = close_by ctx (lookup_tag ctx.dictionary ctx.tag.close_id)

-- How many of the first `limit` bytes are `c`, up to the first that is not.
unfoldable pub count_run : ℕ → Bytes → ℕ → ℕ
count_run zero bs c = 0
count_run (suc limit) [] c = 0
count_run (suc limit) (b ∷ bs) c = if b == c then suc (count_run limit bs c) else 0

unfoldable pub mutate_with_only_opening_tag : ActionContext → ℕ → Bool → Bool → ActionContext
mutate_with_only_opening_tag ctx w key_limit_reached payload_limit_reached =
    let n = length ctx.input in
    record ctx {
      bounds = record ctx.bounds {
        close_idx = none;
        close_width = 0;
        closed = false;
        width = w;
        inner = record { start = ctx.idx + w; end = n };
        raw = record { start = ctx.idx; end = n };
        key_len_limit_reached = key_limit_reached;
        payload_limit_reached = payload_limit_reached;
      };
    }

unfoldable pub closed_by_run : ActionContext → ℕ → ℕ → ActionContext
closed_by_run ctx open_width at = record ctx {
  bounds = record ctx.bounds {
    width = open_width;
    close_idx = some at;
    close_width = open_width;
    closed = true;
    inner = record { start = ctx.idx + open_width; end = at };
    raw = record { start = ctx.idx; end = at + open_width };
  };
}

-- One round of the search for a closing run, from `start`; `again` is the next round.
abbrev pub search_round : (ℕ → ActionContext) → ActionContext → ℕ → ℕ → ℕ → Option ℕ → ActionContext
search_round again ctx open_width scan_end start none =
    mutate_with_only_opening_tag ctx open_width false
      (ltb scan_end (length ctx.input - open_width + 1))
search_round again ctx open_width scan_end start (some rel) =
    let at = start + rel in
    let close_width =
      suc (count_run (length ctx.input - at - 1) (drop (at + 1) ctx.input) (id ctx.tag)) in
    let rest = again (at + close_width + 1) in
    if close_width == open_width then closed_by_run ctx open_width at else rest

unfoldable pub search_run : ℕ → ActionContext → ℕ → ℕ → ℕ → ActionContext
unfolding mutate_with_only_opening_tag closed_by_run
search_run zero ctx open_width scan_end start =
    mutate_with_only_opening_tag ctx open_width false false
search_run (suc fuel) ctx open_width scan_end start =
    let found =
      search_round (search_run fuel ctx open_width scan_end) ctx open_width scan_end start
        (index_byte (slice ctx.input start scan_end) (id ctx.tag)) in
    if ltb start scan_end then found else mutate_with_only_opening_tag ctx open_width false false

-- The opening run of the trigger, at most `MaxKeyLen` of it.
unfoldable pub open_run : ActionContext → ℕ
open_run ctx =
    let max_width = min ctx.dictionary.limits.max_key_len (length ctx.input - ctx.idx) in
    suc (count_run (max_width - 1) (drop (ctx.idx + 1) ctx.input) (id ctx.tag))

unfoldable pub check_tag_vs_content : ActionContext → ActionContext
unfolding open_run search_run
check_tag_vs_content ctx =
    let n = length ctx.input in
    let lim = ctx.dictionary.limits.max_key_len in
    let open_width = open_run ctx in
    let start = ctx.idx + open_width + 1 in
    let scan_end = min (start + ctx.dictionary.limits.max_payload_len) (n - open_width + 1) in
    if ctx.idx + open_width == n
    then mutate_with_only_opening_tag ctx open_width false false
    else if open_width == lim && get_or ctx.input (ctx.idx + open_width) 0 == id ctx.tag
    then mutate_with_only_opening_tag ctx lim true false
    else search_run n ctx open_width scan_end start
