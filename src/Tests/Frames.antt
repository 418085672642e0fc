-- ===== src/Tests/Frames.antt =====
-- Frames of proxy/eventstream.go: one message with a string header and a boolean one.
use kiro_go_plus.Base.{
  ℕ, ◌≡◌, ◌≢◌, ◌↔◌, refl, some, List, [], ◌∷◌, ◌++◌, ◌-◌, arith, drop, nat_eq, bytes_eq,
}
use kiro_go_plus.Base.Dict.{Dict, insert, lookup}
use kiro_go_plus.Base.Text.{Text, codes}
use kiro_go_plus.EventStream.{
  Frame, fail, truncated, got, eof, stuck, be32, read_full, read_body, read_prelude, read_frame,
}
use kiro_go_plus.EventStream.Crc.{checksum_ieee}
use kiro_go_plus.EventStream.Headers.{
  parsed, spent, split, read_value, read_name, read_header, parse_loop, parse_headers,
}
use kiro_go_plus.EventStream.Headers.Ends.{parse_headers-ne-spent}
use kiro_go_plus.EventStream.Wire.{
  WireHeader, text, blob, bool_true, width, type_code, encode_value, encode_header, encode_headers,
  collect, is_text,
}
use kiro_go_plus.EventStream.Wire.Last.{last_text, parse_headers-encode}
use kiro_go_plus.EventStream.Frames.{encode_frame, read_frame-encode}
use kiro_go_plus.EventStream.Integrity.{Accepts, read_frame-Accepts, read_frame-ends}

abbrev event_type : WireHeader
event_type = record { name = codes ":event-type"; type = text; value = codes "initial" }

abbrev flag : WireHeader
flag = record { name = codes "ok"; type = bool_true; value = [] }

abbrev wire_headers : List WireHeader
wire_headers = event_type ∷ flag ∷ []

abbrev message : Frame
message = record { headers = (codes ":event-type", codes "initial") ∷ []; payload = codes "hi" }

encode_test : read_frame (encode_frame wire_headers (codes "hi") ++ 7 ∷ []) ≡ got message (7 ∷ [])
unfolding encode_frame encode_headers encode_header encode_value width type_code checksum_ieee
    read_frame read_prelude read_body read_full parse_headers parse_loop read_header read_name
    read_value split insert
encode_test = refl

cut_test : read_frame (0 ∷ 0 ∷ []) ≡ fail truncated
unfolding read_frame read_prelude read_full
cut_test = refl

read_frame-encode_example :
    read_frame (encode_frame wire_headers (codes "hi") ++ 7 ∷ []) ≡ got message (7 ∷ [])
unfolding width encode_headers encode_header encode_value collect is_text insert type_code
read_frame-encode_example =
    read_frame-encode wire_headers (codes "hi") (7 ∷ []) (omega arith) (omega arith)

-- Two text headers of one name, and a blob of that name behind them.
abbrev typed_headers : List WireHeader
typed_headers =
    event_type
    ∷ record event_type { value = codes "later" }
    ∷ record event_type { type = blob; value = codes "raw" }
    ∷ flag
    ∷ []

last_kept : last_text (codes ":event-type") typed_headers ≡ some (codes "later")
unfolding last_text is_text
last_kept = refl

parse_headers-encode_example :
    (m : Dict Text Text) × (parse_headers (encode_headers typed_headers) ≡ parsed m)
    × ((name : Text) → lookup name m ≡ last_text name typed_headers)
unfolding width
parse_headers-encode_example = parse_headers-encode typed_headers (omega arith)

abbrev bytes : List ℕ
bytes = encode_frame wire_headers (codes "hi") ++ 7 ∷ []

read_frame-Accepts_example : Accepts (be32 bytes - 16) (be32 (drop 4 bytes)) bytes message (7 ∷ [])
read_frame-Accepts_example = read_frame-Accepts bytes (7 ∷ []) message encode_test

read_frame-ends_example :
    (read_frame [] ≢ stuck) × ((read_frame [] ≡ eof) ↔ (◌≡◌ {A = List ℕ} [] []))
read_frame-ends_example = read_frame-ends []

parse_headers-ne-spent_example : parse_headers (5 ∷ 1 ∷ []) ≢ spent
parse_headers-ne-spent_example = parse_headers-ne-spent (5 ∷ 1 ∷ [])
