-- ===== src/ThinkingTags/Flush.antt =====
-- The parser of proxy/thinking_tags.go always returns, and keeps nothing back at the end of a response.
use kiro_go_plus.Base.{
  ℕ, zero, suc, ◌+◌, ◌++◌, ◌<◌, ◌≡◌, refl, subst, ap, Bool, true, false, Option, none, some, List,
  [], ◌∷◌, length, take, drop, ltb, leb, length-drop, Bool-cases, Option-cases, inl, inr, arith,
}
use kiro_go_plus.Base.Text.{Text, codes, is_empty}
use kiro_go_plus.ThinkingTags.{
  ThinkingTagSegment, visible, ThinkingTagParser, index, Tag, first_tag, next_thinking_tag,
  safe_utf8_prefix_bytes, segment_if, append_thinking, outside, inside, thinking_at, think_at,
  let_through, hold_open, with_close_tag, with_segments, feed_loop, feed,
}

drop_all : (s : Text) → drop (length s) s ≡ []
drop_all [] = refl
drop_all (b ∷ s) = drop_all s

-- A part that is not empty is found only in a text that is not.
index-positive :
    (part s : Text) (i : ℕ) → is_empty part ≡ false → index part s ≡ some i → 0 < length s
unfolding index
index-positive part [] i given at = ground (arith, given, at)
index-positive part (b ∷ s) i given at = omega arith

opens_with :
    (u t : Tag)
    → 0 < length u.open_tag
    → ◌≡◌ {A = Option Tag} (some u) (some t)
    → 0 < length t.open_tag
opens_with u t long eq =
    let same : u ≡ t = ground (arith, eq) in subst (λ (x : Tag). 0 < length x.open_tag) same long

first_tag-positive :
    (n : ℕ) (a b : Option ℕ) (t : Tag)
    → ((i : ℕ) → a ≡ some i → 0 < n)
    → ((j : ℕ) → b ≡ some j → 0 < n)
    → first_tag a b ≡ some t
    → (0 < n) × (0 < length t.open_tag)
first_tag-positive n none none t left right at = absurd (ground (arith, at))
first_tag-positive n (some i) none t left right at =
    (left i refl, opens_with (thinking_at i) t (omega arith) at)
first_tag-positive n none (some j) t left right at =
    (right j refl, opens_with (think_at j) t (omega arith) at)
first_tag-positive n (some i) (some j) t left right at = elim (Bool-cases (leb i j)) [
  | inl before ↦ (left i refl, opens_with (thinking_at i) t (omega arith) (rw before at at))
  | inr later ↦ (right j refl, opens_with (think_at j) t (omega arith) (rw later at at))
]

next_thinking_tag-positive :
    (s : Text) (t : Tag) → next_thinking_tag s ≡ some t → (0 < length s) × (0 < length t.open_tag)
unfolding next_thinking_tag
next_thinking_tag-positive s t at =
    first_tag-positive (length s) (index (codes "<thinking>") s) (index (codes "<think>") s) t
      (λ i found. index-positive (codes "<thinking>") s i refl found)
      (λ j found. index-positive (codes "<think>") s j refl found) at

-- What is left after a forced feed.
abbrev pub Flushed : Bool → ThinkingTagParser → Type 0
Flushed true p = (p.buffer ≡ []) × (p.in_thinking ≡ false)
Flushed false p = Unit

let_through-Flushed :
    (force : Bool) (p : ThinkingTagParser)
    → p.in_thinking ≡ false
    → Flushed force (let_through force p).0
unfolding let_through safe_utf8_prefix_bytes
let_through-Flushed false p h = tt
let_through-Flushed true p h = (ground (arith, drop_all p.buffer), h)

hold_open-Flushed : (force : Bool) (p : ThinkingTagParser) → Flushed force (hold_open force p).0
unfolding hold_open
hold_open-Flushed false p = tt
hold_open-Flushed true p = (refl, refl)

-- The loop has returned, and is flushed when it is forced.
abbrev pub Returns : Bool → Option (ThinkingTagParser × List ThinkingTagSegment) → Type 0
Returns force o =
    (q : ThinkingTagParser) × (segments : List ThinkingTagSegment) × (o ≡ some (q, segments))
    × Flushed force q

with_segments-Returns :
    (force : Bool) (first : List ThinkingTagSegment)
    (o : Option (ThinkingTagParser × List ThinkingTagSegment))
    → Returns force o
    → Returns force (with_segments first o)
with_segments-Returns force first o (q, segments, eq, flushed) =
    (q, first ++ segments, ap (with_segments first) eq, flushed)

closes : (p : ThinkingTagParser) → is_empty (with_close_tag p).close_tag ≡ false
closes p = elim (Bool-cases (is_empty p.close_tag)) [
  | inl blank ↦ rw blank refl
  | inr given ↦ rw (given, given) refl
]

same_buffer : (p : ThinkingTagParser) → (with_close_tag p).buffer ≡ p.buffer
same_buffer p = ground arith

inside-shorter :
    (t : Tag) (p : ThinkingTagParser)
    → next_thinking_tag p.buffer ≡ some t
    → length (inside t p).buffer < length p.buffer
unfolding inside
inside-shorter t p at =
    let (some_text, some_tag) = next_thinking_tag-positive p.buffer t at in
    omega (arith, length-drop (t.at + length t.open_tag) p.buffer, some_text, some_tag)

is_empty-length : (s : Text) → is_empty s ≡ false → 0 < length s
is_empty-length [] h = ground (arith, h)
is_empty-length (b ∷ s) h = omega arith

feed_loop-Returns :
    (n : ℕ) (force : Bool) (p : ThinkingTagParser)
    → length p.buffer < n
    → Returns force (feed_loop n force p)
unfolding feed_loop
feed_loop-Returns zero force p enough = absurd (omega (arith, enough))
feed_loop-Returns (suc n) force p enough = elim (Bool-cases p.in_thinking) [
  | inr out ↦ elim (Option-cases (next_thinking_tag p.buffer)) [
    | inl no_tag ↦
        let r = let_through force p in
        rw (out, no_tag, feed_loop) (r.0, r.1, refl, let_through-Flushed force p out)
    | inr (t, at) ↦
        let rest = inside t p in
        rw (out, at, feed_loop)
          (with_segments-Returns force (segment_if (ltb 0 t.at) visible (take t.at p.buffer))
            (feed_loop n force rest)
            (feed_loop-Returns n force rest (omega (arith, inside-shorter t p at, enough))))
  ]
  | inl thinking ↦
      let q = with_close_tag p in
      elim (Option-cases (index q.close_tag q.buffer)) [
        | inl no_end ↦
            let r = hold_open force q in
            rw (thinking, no_end, feed_loop) (r.0, r.1, refl, hold_open-Flushed force q)
        | inr (i, at) ↦
            let (r, segments) = append_thinking (take i q.buffer) true q in
            let rest = outside (drop (i + length q.close_tag) q.buffer) r in
            let shorter = length-drop (i + length q.close_tag) q.buffer in
            let some_text = index-positive q.close_tag q.buffer i (closes p) at in
            let some_tag = is_empty-length q.close_tag (closes p) in
            rw (thinking, at, feed_loop)
              (with_segments-Returns force segments (feed_loop n force rest) (
                feed_loop-Returns n force rest
                  (omega (arith, shorter, some_text, some_tag, ap length (same_buffer p), enough))))
      ]
]

-- Feeding the parser always returns, whatever it holds. At the end of a response, when it is forced,
-- nothing is left in its buffer and no thinking block is left open.
pub feed-Returns :
    (s : Text) (force : Bool) (p : ThinkingTagParser) → Returns force (feed s force p)
unfolding feed
feed-Returns s force p =
    feed_loop-Returns (suc (length (p.buffer ++ s))) force (record p { buffer = p.buffer ++ s })
      (omega arith)
