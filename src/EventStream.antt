-- ===== src/EventStream.antt =====
-- proxy/eventstream.go: the frames of AWS EventStream and their headers. A reader is the bytes
-- that are left of it; it ends by io.EOF. An error keeps its kind, not its text.
pub mod Crc
pub mod Headers
pub mod Wire
pub mod Frames
pub mod Integrity
use kiro_go_plus.Base.{
  ℕ, zero, suc, ◌+◌, ◌-◌, ◌*◌, ◌≡◌, refl, Bool, List, [], ◌∷◌, ◌++◌, Option, none, some, length,
  take, drop, ltb, if◌then◌else◌, ◌==◌, nat_eq,
}
use kiro_go_plus.Base.Text.{Text}
use kiro_go_plus.Base.Dict.{Dict}
use Crc.{checksum_ieee}
use Headers.{HeaderResult, parsed, invalid, spent, parse_headers}

pub data EventStreamErrorKind : Type 0 where
  truncated invalid_length frame_too_large prelude_crc_mismatch : EventStreamErrorKind
  message_crc_mismatch invalid_headers invalid_payload : EventStreamErrorKind
  incomplete_tool_use incomplete_response : EventStreamErrorKind

pub record Frame : Type 0 where
  pub headers : Dict Text Text
  pub payload : List ℕ

-- What a call of readEventStreamFrame returns; a frame comes with the bytes left in the reader.
-- `stuck` stands for a header loop that did not end, and never occurs.
pub data ReadResult : Type 0 where
  eof : ReadResult
  fail : EventStreamErrorKind → ReadResult
  got : Frame → List ℕ → ReadResult
  stuck : ReadResult

abbrev pub prelude_size : ℕ
prelude_size = 12

abbrev pub min_frame : ℕ
min_frame = prelude_size + 4

abbrev pub max_frame : ℕ
max_frame = 16 * 1024 * 1024

-- io.ReadFull into n bytes: the bytes read, or how many there were.
pub data Full : Type 0 where
  short : ℕ → Full
  full : List ℕ → List ℕ → Full

unfoldable pub read_full : ℕ → List ℕ → Full
read_full n r = if ltb (length r) n then short (length r) else full (take n r) (drop n r)

-- binary.BigEndian.Uint32 of the first four bytes.
abbrev pub be32 : List ℕ → ℕ
be32 (a ∷ b ∷ c ∷ d ∷ rest) = ((a * 256 + b) * 256 + c) * 256 + d
be32 other = 0

-- The frame once its headers are parsed.
abbrev pub finish_frame : HeaderResult → List ℕ → List ℕ → ReadResult
finish_frame (parsed headers) payload rest =
    got (record { headers = headers; payload = payload }) rest
finish_frame invalid payload rest = fail invalid_headers
finish_frame spent payload rest = stuck

-- The part after the prelude's checks: `remaining` and the checksum of the whole message.
unfoldable pub read_body : List ℕ → ℕ → Full → ReadResult
read_body prelude headers_length (short n) = fail truncated
read_body prelude headers_length (full remaining rest) =
    let payload_end = length remaining - 4 in
    if be32 (drop payload_end remaining) == checksum_ieee (prelude ++ take payload_end remaining)
    then finish_frame (parse_headers (take headers_length remaining))
        (drop headers_length (take payload_end remaining)) rest
    else fail message_crc_mismatch

unfoldable pub read_prelude : Full → ReadResult
read_prelude (short n) = if n == 0 then eof else fail truncated
read_prelude (full prelude rest) =
    let total_length = be32 prelude in
    let headers_length = be32 (drop 4 prelude) in
    if ltb total_length min_frame
    then fail invalid_length
    else if ltb max_frame total_length
    then fail frame_too_large
    else if ltb (total_length - min_frame) headers_length
    then fail invalid_length
    else if be32 (drop 8 prelude) == checksum_ieee (take 8 prelude)
    then read_body prelude headers_length (read_full (total_length - prelude_size) rest)
    else fail prelude_crc_mismatch

unfoldable pub read_frame : List ℕ → ReadResult
read_frame r = read_prelude (read_full prelude_size r)
