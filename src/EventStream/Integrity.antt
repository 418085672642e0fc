-- ===== src/EventStream/Integrity.antt =====
-- What a frame that readEventStreamFrame accepts says of the bytes it came from.
use native.Mathlib.Nat.{add-sub_of_le}
use kiro_go_plus.Base.{
  ℕ, suc, ◌+◌, ◌-◌, ◌≤◌, ◌≡◌, ◌≢◌, ◌↔◌, refl, sym, ap, ◌∙◌, subst, List, [], ◌∷◌, ◌++◌, arith,
  length, take, drop, length-take, length-drop, take-add, drop-add, drop-take, take-take, nat_eq,
}
use kiro_go_plus.EventStream.{
  ReadResult, Frame, eof, got, stuck, Full, short, full, read_full, be32, min_frame, max_frame,
  prelude_size, finish_frame, read_body, read_prelude, read_frame,
}
use kiro_go_plus.EventStream.Crc.{checksum_ieee}
use kiro_go_plus.EventStream.Headers.{HeaderResult, parsed, invalid, spent, parse_headers}
use kiro_go_plus.EventStream.Headers.Ends.{parse_headers-ne-spent}

finish_frame-got :
    (o : HeaderResult) (payload rest rest' : List ℕ) (f : Frame)
    → finish_frame o payload rest ≡ got f rest'
    → (o ≡ parsed f.headers) × (f.payload ≡ payload) × (rest' ≡ rest)
finish_frame-got (parsed m) payload rest rest' f e = ground arith
finish_frame-got invalid payload rest rest' f e = ground arith
finish_frame-got spent payload rest rest' f e = ground arith

-- What an accepted body says, where `xs` is the rest of the message and `r` what follows it.
record BodyAccepts (prelude : List ℕ) (h : ℕ) (xs r : List ℕ) (f : Frame) (rest : List ℕ)
    : Type 0 where
  left : rest ≡ r
  sealed : be32 (drop (length xs - 4) xs) ≡ checksum_ieee (prelude ++ take (length xs - 4) xs)
  header_map : parse_headers (take h xs) ≡ parsed f.headers
  content : f.payload ≡ drop h (take (length xs - 4) xs)

read_body-full :
    (prelude : List ℕ) (h : ℕ) (xs r rest : List ℕ) (f : Frame)
    → read_body prelude h (full xs r) ≡ got f rest
    → BodyAccepts prelude h xs r f rest
unfolding read_body
read_body-full prelude h xs r rest f e = ground (
  arith,
  finish_frame-got (parse_headers (take h xs)) (drop h (take (length xs - 4) xs)) r rest f,
)

-- Neither the end of the reader nor a loop that does not end.
abbrev Ends : ReadResult → Type 0
Ends o = (o ≢ stuck) × (o ≢ eof)

finish_frame-Ends :
    (o : HeaderResult) (payload rest : List ℕ) → o ≢ spent → Ends (finish_frame o payload rest)
finish_frame-Ends (parsed m) payload rest h = ground arith
finish_frame-Ends invalid payload rest h = ground arith
finish_frame-Ends spent payload rest h = absurd (h refl)

read_body-got :
    (prelude : List ℕ) (h n : ℕ) (r rest : List ℕ) (f : Frame)
    → read_body prelude h (read_full n r) ≡ got f rest
    → (n ≤ length r) × (length (take n r) ≡ n) × BodyAccepts prelude h (take n r) (drop n r) f rest
unfolding read_body read_full
read_body-got prelude h n r rest f e =
    ground (arith, length-take n r, read_body-full prelude h (take n r) (drop n r) rest f)

-- What an accepted prelude says.
record PreludeAccepts (p r : List ℕ) (f : Frame) (rest : List ℕ) : Type 0 where
  low : min_frame ≤ be32 p
  high : be32 p ≤ max_frame
  room : be32 (drop 4 p) ≤ be32 p - min_frame
  checked : be32 (drop 8 p) ≡ checksum_ieee (take 8 p)
  body : read_body p (be32 (drop 4 p)) (read_full (be32 p - prelude_size) r) ≡ got f rest

read_prelude-got :
    (p r rest : List ℕ) (f : Frame)
    → read_prelude (full p r) ≡ got f rest
    → PreludeAccepts p r f rest
unfolding read_prelude
read_prelude-got p r rest f e = ground arith

-- The rest of the message in terms of the reader: `k` bytes of headers and payload.
pub record Sealed (k h : ℕ) (r : List ℕ) (f : Frame) (rest : List ℕ) : Type 0 where
  pub left : rest ≡ drop (16 + k) r
  pub checked : be32 (drop (12 + k) r) ≡ checksum_ieee (take (12 + k) r)
  pub header_map : parse_headers (take h (drop 12 r)) ≡ parsed f.headers
  pub content : f.payload ≡ drop h (take k (drop 12 r))

be32-take : (n : ℕ) (xs : List ℕ) → be32 (take (suc (suc (suc (suc n)))) xs) ≡ be32 xs
be32-take n [] = refl
be32-take n (a ∷ []) = refl
be32-take n (a ∷ b ∷ []) = refl
be32-take n (a ∷ b ∷ c ∷ []) = refl
be32-take n (a ∷ b ∷ c ∷ d ∷ xs) = refl

take-take_le : (a b : ℕ) (xs : List ℕ) → a ≤ b → take a (take b xs) ≡ take a xs
take-take_le a b xs h =
    subst (λ n. take a (take n xs) ≡ take a xs) (add-sub_of_le h) (take-take a (b - a) xs)

module _ (k h : ℕ) (r rest : List ℕ) (f : Frame) where
  -- The checksum's place and what it covers.
  last_four : (n : ℕ) → n ≡ k → be32 (drop n (take (k + 4) (drop 12 r))) ≡ be32 (drop (12 + k) r)
  last_four n e =
      rw (e, drop-take k 4 (drop 12 r), be32-take 0 (drop k (drop 12 r)), drop-add 12 k r)

  covered : (n : ℕ) → n ≡ k → take 12 r ++ take n (take (k + 4) (drop 12 r)) ≡ take (12 + k) r
  covered n e = rw (e, take-take k 4 (drop 12 r), take-add 12 k r)

  body-Sealed :
      h ≤ k
      → length (take (k + 4) (drop 12 r)) ≡ k + 4
      → BodyAccepts (take 12 r) h (take (k + 4) (drop 12 r)) (drop (k + 4) (drop 12 r)) f rest
      → Sealed k h r f rest
  body-Sealed fits len b = record {
    left = b.left ∙ sym (drop-add 12 (k + 4) r) ∙ ap (λ n. drop n r) (omega arith);
    checked =
        sym (last_four _ (omega (arith, len)))
        ∙ b.sealed
        ∙ ap checksum_ieee (covered _ (omega (arith, len)));
    header_map =
        ap parse_headers (sym (take-take_le h (k + 4) (drop 12 r) (omega arith))) ∙ b.header_map;
    content =
        b.content
        ∙ ap (λ n. drop h (take n (take (k + 4) (drop 12 r)))) (omega (arith, len))
        ∙ ap (drop h) (take-take k 4 (drop 12 r));
  }

-- A frame of `k` bytes of headers and payload, `h` of them headers, stands at the reader's head,
-- and the reader is left behind it.
pub record Accepts (k h : ℕ) (r : List ℕ) (f : Frame) (rest : List ℕ) : Type 0 where
  pub total : be32 r ≡ 16 + k
  pub headers_length : be32 (drop 4 r) ≡ h
  pub room : h ≤ k
  pub high : 16 + k ≤ max_frame
  pub present : 16 + k ≤ length r
  pub prelude_checked : be32 (drop 8 r) ≡ checksum_ieee (take 8 r)
  pub sealed : Sealed k h r f rest

-- The three words of the prelude are the reader's.
prelude_words :
    (r : List ℕ)
    → (be32 (take 12 r) ≡ be32 r)
      × (be32 (drop 4 (take 12 r)) ≡ be32 (drop 4 r))
      × (be32 (drop 8 (take 12 r)) ≡ be32 (drop 8 r))
prelude_words r = (
  be32-take 8 r,
  ap be32 (drop-take 4 8 r) ∙ be32-take 4 (drop 4 r),
  ap be32 (drop-take 8 4 r) ∙ be32-take 0 (drop 8 r),
)

body_of_total :
    (k : ℕ) (r rest : List ℕ) (f : Frame) (n : ℕ)
    → n ≡ k + 4
    → be32 (drop 4 (take 12 r)) ≤ k
    → read_body (take 12 r) (be32 (drop 4 (take 12 r))) (read_full n (drop 12 r)) ≡ got f rest
    → (k + 4 ≤ length (drop 12 r)) × Sealed k (be32 (drop 4 (take 12 r))) r f rest
body_of_total k r rest f n e fits q =
    let h = be32 (drop 4 (take 12 r)) in
    let (enough, len, b) =
      read_body-got (take 12 r) h (k + 4) (drop 12 r) rest f
        (subst (λ m. read_body (take 12 r) h (read_full m (drop 12 r)) ≡ got f rest) e q) in
    (enough, body-Sealed k h r rest f fits len b)

read_prelude-short : (n : ℕ) (f : Frame) (rest : List ℕ) → read_prelude (short n) ≢ got f rest
unfolding read_prelude
read_prelude-short n f rest = ground arith

read_frame_full :
    (r rest : List ℕ) (f : Frame)
    → read_frame r ≡ got f rest
    → (12 ≤ length r) × (read_prelude (full (take 12 r) (drop 12 r)) ≡ got f rest)
unfolding read_frame read_full
read_frame_full r rest f e = ground (arith, read_prelude-short (length r) f rest)

-- Every frame that is returned stands whole at the head of the reader: its two lengths and its two
-- CRC-32 sums are right, its size is 16 bytes to 16 MiB, its headers and payload are the bytes
-- between, and the reader is left right behind it.
pub read_frame-Accepts :
    (r rest : List ℕ) (f : Frame)
    → read_frame r ≡ got f rest
    → Accepts (be32 r - 16) (be32 (drop 4 r)) r f rest
read_frame-Accepts r rest f e =
    let (twelve, q) = read_frame_full r rest f e in
    let p = read_prelude-got (take 12 r) (drop 12 r) rest f q in
    let (total, header, sum) = prelude_words r in
    let (enough, seal) =
      body_of_total (be32 r - 16) r rest f (be32 (take 12 r) - prelude_size)
        (omega (arith, total, p.low)) (omega (arith, total, p.low, p.room)) p.body in
    record {
      total = omega (arith, total, p.low);
      headers_length = refl;
      room = omega (arith, total, header, p.room);
      high = omega (arith, total, p.low, p.high);
      present = omega (arith, total, p.low, enough, length-drop 12 r);
      prelude_checked = sym sum ∙ p.checked ∙ ap checksum_ieee (take-take 8 4 r);
      sealed = subst (λ h. Sealed (be32 r - 16) h r f rest) header seal;
    }

read_body-Ends : (p : List ℕ) (h : ℕ) (o : Full) → Ends (read_body p h o)
unfolding read_body
read_body-Ends p h (short n) = ground arith
read_body-Ends p h (full xs rest) = ground (
  arith,
  finish_frame-Ends (parse_headers (take h xs)) (drop h (take (length xs - 4) xs)) rest
      (parse_headers-ne-spent (take h xs)),
)

read_prelude-Ends : (p rest : List ℕ) → Ends (read_prelude (full p rest))
unfolding read_prelude
read_prelude-Ends p rest =
    ground (arith, read_body-Ends p (be32 (drop 4 p)) (read_full (be32 p - prelude_size) rest))

read_prelude-eof :
    (n : ℕ) → (read_prelude (short n) ≢ stuck) × (read_prelude (short n) ≡ eof → n ≡ 0)
unfolding read_prelude
read_prelude-eof n = ground arith

-- Reading a frame ends on every input, and reports io.EOF exactly when nothing is left.
pub read_frame-ends : (r : List ℕ) → (read_frame r ≢ stuck) × ((read_frame r ≡ eof) ↔ (r ≡ []))
unfolding read_frame read_full
read_frame-ends [] =
    (unfold read_prelude in ground arith, ((λ e. refl), unfold read_prelude in λ e. refl))
read_frame-ends (b ∷ r) = ground (
  arith,
  read_prelude-Ends (take 12 (b ∷ r)) (drop 12 (b ∷ r)),
  read_prelude-eof (suc (length r)),
)
