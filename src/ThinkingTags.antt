-- ===== src/ThinkingTags.antt =====
-- The separation of thinking blocks from a stream of text (proxy/thinking_tags.go), with its search
-- for tags (proxy/meaningful_stream.go).
pub mod Flush
use kiro_go_plus.Base.{
  ℕ, zero, suc, ◌+◌, ◌-◌, ◌++◌, Bool, true, false, not, ◌&&◌, ◌||◌, Option, none, some, List, [],
  ◌∷◌, length, take, drop, ltb, leb, min, max, if◌then◌else◌,
}
use kiro_go_plus.Base.Text.{Text, codes, is_empty}
use kiro_go_plus.Pool.Errors.{starts_with}

pub data ThinkingTagSegmentKind : Type 0 where
  visible begins middle ends : ThinkingTagSegmentKind

pub record ThinkingTagSegment : Type 0 where
  pub kind : ThinkingTagSegmentKind
  pub text : Text

pub data ThinkingStreamSource : Type 0 where
  source_unknown reasoning_event tag_block : ThinkingStreamSource

-- thinkingTagParser; the source that it shares with the stream is a field.
pub record ThinkingTagParser : Type 0 where
  pub buffer : Text
  pub in_thinking : Bool
  pub close_tag : Text
  pub drop_thinking : Bool
  pub thinking_started : Bool
  pub source : ThinkingStreamSource

-- allowTagSource
abbrev pub allow_tag_source : ThinkingStreamSource → ThinkingStreamSource × Bool
allow_tag_source reasoning_event = (reasoning_event, false)
allow_tag_source source_unknown = (tag_block, true)
allow_tag_source tag_block = (tag_block, true)

-- strings.Index
unfoldable pub index : Text → Text → Option ℕ
index part [] = if is_empty part then some 0 else none
index part (b ∷ s) =
    let rest = index part s in
    if starts_with part (b ∷ s) then some 0 else elim rest [ none ↦ none | some i ↦ some (suc i) ]

pub record Tag : Type 0 where
  pub at : ℕ
  pub open_tag : Text
  pub close_tag : Text

abbrev pub thinking_at : ℕ → Tag
thinking_at i = record { at = i; open_tag = codes "<thinking>"; close_tag = codes "</thinking>" }

abbrev pub think_at : ℕ → Tag
think_at i = record { at = i; open_tag = codes "<think>"; close_tag = codes "</think>" }

-- nextThinkingTag, from the start of the text.
abbrev pub first_tag : Option ℕ → Option ℕ → Option Tag
first_tag none none = none
first_tag (some i) none = some (thinking_at i)
first_tag none (some j) = some (think_at j)
first_tag (some i) (some j) = if leb i j then some (thinking_at i) else some (think_at j)

unfoldable pub next_thinking_tag : Text → Option Tag
next_thinking_tag s = first_tag (index (codes "<thinking>") s) (index (codes "<think>") s)

-- utf8.RuneStart
abbrev pub rune_start : ℕ → Bool
rune_start b = not (leb 128 b && ltb b 192)

-- Whether the byte at the position starts a rune; past the end none does.
abbrev starts_at : Text → Bool
starts_at [] = false
starts_at (b ∷ s) = rune_start b

unfoldable pub back_up : Text → ℕ → ℕ
back_up s zero = zero
back_up s (suc n) = let rest = back_up s n in if starts_at (drop (suc n) s) then suc n else rest

-- safeUTF8PrefixBytes
unfoldable pub safe_utf8_prefix_bytes : Text → ℕ → ℕ
safe_utf8_prefix_bytes s n = if leb (length s) n then length s else back_up s n

-- The largest size up to n of a start of the tag that the text ends with.
unfoldable pub longest_prefix : Text → Text → ℕ → ℕ
longest_prefix s tag zero = 0
longest_prefix s tag (suc n) =
    let rest = longest_prefix s tag n in
    if starts_with (drop (length s - suc n) s) (take (suc n) tag) then suc n else rest

-- trailingTagPrefix, of one tag.
unfoldable pub trailing_tag_prefix : Text → Text → ℕ
trailing_tag_prefix s tag = longest_prefix s tag (min (length s) (length tag - 1))

abbrev pub trailing_thinking_tag_prefix : Text → ℕ
trailing_thinking_tag_prefix s =
    max (trailing_tag_prefix s (codes "<thinking>")) (trailing_tag_prefix s (codes "<think>"))

abbrev pub segment_if : Bool → ThinkingTagSegmentKind → Text → List ThinkingTagSegment
segment_if true kind s = record { kind = kind; text = s } ∷ []
segment_if false kind s = []

-- appendThinking
unfoldable pub append_thinking :
    Text → Bool → ThinkingTagParser → ThinkingTagParser × List ThinkingTagSegment
append_thinking s closing p =
    let started = not (is_empty s) in
    if p.drop_thinking
    then (p, [])
    else if not p.thinking_started
    then (
      record p { thinking_started = started },
      segment_if started begins s ++ segment_if (closing && started) ends [],
    )
    else if closing
    then (p, segment_if true ends s)
    else (p, segment_if started middle s)

-- The parser outside a thinking block, on the rest of the buffer.
abbrev pub outside : Text → ThinkingTagParser → ThinkingTagParser
outside rest p = record p {
  buffer = rest;
  in_thinking = false;
  close_tag = [];
  drop_thinking = false;
  thinking_started = false;
}

-- The parser behind an opening tag.
unfoldable pub inside : Tag → ThinkingTagParser → ThinkingTagParser
inside t p =
    let (source, allowed) = allow_tag_source p.source in
    record p {
      buffer = drop (t.at + length t.open_tag) p.buffer;
      in_thinking = true;
      close_tag = t.close_tag;
      drop_thinking = not allowed;
      thinking_started = false;
      source = source;
    }

-- Text that no tag can begin in any more is let through.
unfoldable pub let_through : Bool → ThinkingTagParser → ThinkingTagParser × List ThinkingTagSegment
let_through force p =
    let held = if force then 0 else trailing_thinking_tag_prefix p.buffer in
    let n = safe_utf8_prefix_bytes p.buffer (length p.buffer - held) in
    (record p { buffer = drop n p.buffer }, segment_if (ltb 0 n) visible (take n p.buffer))

-- The end of a round inside a block whose closing tag has not come.
unfoldable pub hold_open : Bool → ThinkingTagParser → ThinkingTagParser × List ThinkingTagSegment
hold_open true p = let (q, segments) = append_thinking p.buffer true p in (outside [] q, segments)
hold_open false p =
    let n =
      safe_utf8_prefix_bytes p.buffer
        (length p.buffer - trailing_tag_prefix p.buffer p.close_tag) in
    let (q, segments) = append_thinking (take n p.buffer) false p in
    if ltb 0 n then (record q { buffer = drop n q.buffer }, segments) else (p, [])

-- The empty closing tag reads as the long one.
abbrev pub with_close_tag : ThinkingTagParser → ThinkingTagParser
with_close_tag p = if is_empty p.close_tag then record p { close_tag = codes "</thinking>" } else p

abbrev pub with_segments :
    {A : Type 0}
    → List A
    → Option (ThinkingTagParser × List A)
    → Option (ThinkingTagParser × List A)
with_segments segments none = none
with_segments segments (some (p, more)) = some (p, segments ++ more)

-- The loop of feed; none is out of fuel.
unfoldable pub feed_loop :
    ℕ → Bool → ThinkingTagParser → Option (ThinkingTagParser × List ThinkingTagSegment)
feed_loop zero force p = none
feed_loop (suc n) force p = elim p.in_thinking [
  | false ↦ elim (next_thinking_tag p.buffer) [
    | some t ↦
        with_segments (segment_if (ltb 0 t.at) visible (take t.at p.buffer))
          (feed_loop n force (inside t p))
    | none ↦ some (let_through force p)
  ]
  | true ↦
      let q = with_close_tag p in
      elim (index q.close_tag q.buffer) [
        | some i ↦
            let (r, segments) = append_thinking (take i q.buffer) true q in
            with_segments segments
              (feed_loop n force (outside (drop (i + length q.close_tag) q.buffer) r))
        | none ↦ some (hold_open force q)
      ]
]

-- feed, with enough rounds for its loop.
unfoldable pub feed :
    Text → Bool → ThinkingTagParser → Option (ThinkingTagParser × List ThinkingTagSegment)
feed s force p =
    let q : ThinkingTagParser = record p { buffer = p.buffer ++ s } in
    feed_loop (suc (length q.buffer)) force q
