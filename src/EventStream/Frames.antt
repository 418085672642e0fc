-- ===== src/EventStream/Frames.antt =====
-- Whole frames: what proxy/eventstream.go reads back of a frame that the encoder made.
use mathlib.Core.List.{append_assoc}
use kiro_go_plus.Base.{
  ℕ, ◌+◌, ◌-◌, ◌/◌, ◌%◌, ◌^◌, ◌≤◌, ◌<◌, ◌≡◌, refl, ap, ◌∙◌, List, [], ◌∷◌, ◌++◌, arith, length,
  take, drop, All, length-append, take-append_length, drop-append_length, le→ltb, nat_eq, beq_refl,
}
use kiro_go_plus.EventStream.{
  got, full, read_full, be32, min_frame, max_frame, prelude_size, finish_frame, read_body,
  read_prelude, read_frame,
}
use kiro_go_plus.EventStream.Crc.{checksum_ieee, checksum_ieee-lt}
use kiro_go_plus.EventStream.Headers.{parse_headers}
use kiro_go_plus.EventStream.Wire.{
  WireHeader, FitsHeader, encode_headers, collect, parse_headers-collect,
}

abbrev pub enc32 : ℕ → List ℕ
enc32 n = (n / 16777216 % 256) ∷ (n / 65536 % 256) ∷ (n / 256 % 256) ∷ (n % 256) ∷ []

abbrev pub frame_length : List ℕ → List ℕ → ℕ
frame_length headers payload = 16 + length headers + length payload

-- The two lengths of the prelude.
abbrev pub lengths : List ℕ → List ℕ → List ℕ
lengths headers payload = enc32 (frame_length headers payload) ++ enc32 (length headers)

abbrev pub encode_prelude : List ℕ → List ℕ → List ℕ
encode_prelude headers payload =
    lengths headers payload ++ enc32 (checksum_ieee (lengths headers payload))

abbrev pub encode_body : List ℕ → List ℕ → List ℕ
encode_body headers payload =
    (headers ++ payload)
    ++ enc32 (checksum_ieee (encode_prelude headers payload ++ (headers ++ payload)))

unfoldable pub encode_frame : List WireHeader → List ℕ → List ℕ
encode_frame hs payload =
    encode_prelude (encode_headers hs) payload ++ encode_body (encode_headers hs) payload

be32-enc32 : (n : ℕ) (rest : List ℕ) → n < 2 ^ 32 → be32 (enc32 n ++ rest) ≡ n
be32-enc32 n rest h = omega arith

read_full-append : (n : ℕ) (xs ys : List ℕ) → length xs ≡ n → read_full n (xs ++ ys) ≡ full xs ys
unfolding read_full
read_full-append n xs ys h = rw (
  ← h,
  le→ltb (length (xs ++ ys)) (length xs) (omega (arith, length-append xs ys)),
  take-append_length xs ys,
  drop-append_length xs ys,
)

length-sealed : (xs : List ℕ) (n : ℕ) → length (xs ++ enc32 n) - 4 ≡ length xs
length-sealed xs n = omega (arith, length-append xs (enc32 n))

-- The body of an encoded message is accepted, and split where the headers end.
read_body-encode :
    (prelude headers payload rest : List ℕ)
    → read_body prelude (length headers) (
        full ((headers ++ payload) ++ enc32 (checksum_ieee (prelude ++ (headers ++ payload)))) rest)
      ≡ finish_frame (parse_headers headers) payload rest
unfolding read_body
read_body-encode prelude headers payload rest =
    let sum = checksum_ieee (prelude ++ (headers ++ payload)) in
    rw
      (
        length-sealed (headers ++ payload) sum,
        take-append_length (headers ++ payload) (enc32 sum),
        drop-append_length (headers ++ payload) (enc32 sum),
        be32-enc32 sum [] (checksum_ieee-lt (prelude ++ (headers ++ payload))),
        beq_refl sum,
      )
      (rw (
        append_assoc headers payload (enc32 sum),
        take-append_length headers (payload ++ enc32 sum),
        drop-append_length headers payload,
      ))

length-encode_body :
    (headers payload : List ℕ)
    → length (encode_body headers payload) ≡ frame_length headers payload - prelude_size
length-encode_body headers payload = omega (
  arith,
  length-append headers payload,
  length-append (headers ++ payload)
      (enc32 (checksum_ieee (encode_prelude headers payload ++ (headers ++ payload)))),
)

-- A prelude that passes every check hands over to the body.
read_prelude_accepts :
    (prelude rest : List ℕ) (total headers_length : ℕ)
    → be32 prelude ≡ total
    → be32 (drop 4 prelude) ≡ headers_length
    → be32 (drop 8 prelude) ≡ checksum_ieee (take 8 prelude)
    → min_frame ≤ total
    → total ≤ max_frame
    → headers_length ≤ total - min_frame
    → read_prelude (full prelude rest)
      ≡ read_body prelude headers_length (read_full (total - prelude_size) rest)
unfolding read_prelude
read_prelude_accepts prelude rest total headers_length t h c low high fits = rw (
  t,
  h,
  c,
  le→ltb total min_frame low,
  le→ltb max_frame total high,
  le→ltb (total - min_frame) headers_length fits,
  beq_refl (checksum_ieee (take 8 prelude)),
)

-- The prelude of an encoded message passes every check.
read_prelude-encode :
    (headers payload rest : List ℕ)
    → frame_length headers payload ≤ max_frame
    → read_prelude (full (encode_prelude headers payload) (encode_body headers payload ++ rest))
      ≡ finish_frame (parse_headers headers) payload rest
read_prelude-encode headers payload rest fits =
    read_prelude_accepts (encode_prelude headers payload) (encode_body headers payload ++ rest)
      (frame_length headers payload) (length headers)
      (be32-enc32 (frame_length headers payload) [] (omega arith))
      (be32-enc32 (length headers) [] (omega arith))
      (be32-enc32 (checksum_ieee (lengths headers payload)) []
        (checksum_ieee-lt (lengths headers payload)))
      (omega arith) fits (omega arith)
    ∙ ap (read_body (encode_prelude headers payload) (length headers)) (
        read_full-append (frame_length headers payload - prelude_size) (encode_body headers payload)
          rest (length-encode_body headers payload))
    ∙ read_body-encode (encode_prelude headers payload) headers payload rest

-- A frame whose headers fit the format and whose encoding is within the limit is read back,
-- whatever follows it: the payload is whole, the headers are the string headers, and the reader
-- stands behind the frame.
pub read_frame-encode :
    (hs : List WireHeader) (payload rest : List ℕ)
    → All FitsHeader hs
    → frame_length (encode_headers hs) payload ≤ max_frame
    → read_frame (encode_frame hs payload ++ rest)
      ≡ got (record { headers = collect [] hs; payload = payload }) rest
unfolding read_frame encode_frame
read_frame-encode hs payload rest fits h =
    rw
      (
        append_assoc (encode_prelude (encode_headers hs) payload)
            (encode_body (encode_headers hs) payload) rest,
        read_full-append prelude_size (encode_prelude (encode_headers hs) payload)
            (encode_body (encode_headers hs) payload ++ rest) refl,
      )
      (read_prelude-encode (encode_headers hs) payload rest h ∙ rw (parse_headers-collect hs fits))
