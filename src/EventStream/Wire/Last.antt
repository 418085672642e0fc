-- ===== src/EventStream/Wire/Last.antt =====
-- What the header parser of proxy/eventstream.go answers for each name.
use kiro_go_plus.Base.{
  ◌≡◌, refl, ◌&&◌, Option, none, some, List, [], ◌∷◌, All, ◌==◌, bytes_eq, if◌then◌else◌, arith,
}
use kiro_go_plus.Base.Dict.{Dict, lookup, insert, lookup-insert}
use kiro_go_plus.Base.Text.{Text}
use kiro_go_plus.EventStream.Headers.{parsed, parse_headers}
use kiro_go_plus.EventStream.Wire.{
  WireHeader, FitsHeader, is_text, encode_headers, collect, parse_headers-collect,
}

-- The value of the last text header of a name.
unfoldable pub last_text : Text → List WireHeader → Option Text
last_text name [] = none
last_text name (h ∷ hs) = elim (last_text name hs) [
  | some later ↦ some later
  | none ↦ if is_text h.type && h.name == name then some h.value else none
]

abbrev or_else : Option Text → Option Text → Option Text
or_else none o = o
or_else (some v) o = some v

collect-lookup :
    (name : Text) (hs : List WireHeader) (headers : Dict Text Text)
    → lookup name (collect headers hs) ≡ or_else (last_text name hs) (lookup name headers)
unfolding collect last_text
collect-lookup name [] headers = refl
collect-lookup name (h ∷ hs) headers =
    let kept = if is_text h.type then insert h.name h.value headers else headers in
    ground (arith, collect-lookup name hs kept, lookup-insert h.name name h.value headers)

-- The header parser reads what an encoder writes for any headers that fit the format. Under each name
-- it answers the value of the last text header of that name, and nothing when there is none: the
-- headers of the other nine types are read over.
pub parse_headers-encode :
    (hs : List WireHeader)
    → All FitsHeader hs
    → (m : Dict Text Text) × (parse_headers (encode_headers hs) ≡ parsed m)
      × ((name : Text) → lookup name m ≡ last_text name hs)
unfolding lookup
parse_headers-encode hs fits = (
  collect [] hs,
  parse_headers-collect hs fits,
  λ name. ground (arith, collect-lookup name hs []),
)
