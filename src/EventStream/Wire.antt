-- ===== src/EventStream/Wire.antt =====
-- An encoder of AWS EventStream frames, written from the format, and the decoder of
-- proxy/eventstream.go on what it makes.
pub mod Last
use kiro_go_plus.Base.{
  ℕ, zero, suc, ◌+◌, ◌/◌, ◌%◌, ◌≤◌, ◌<◌, ◌≡◌, refl, sym, ap, ◌∙◌, List, [], ◌∷◌, ◌++◌, Option, none,
  some, Bool, true, false, if◌then◌else◌, arith, length, All, length-append, take-append_length,
  drop-append_length, le→ltb, nat_eq, bytes_eq, ◌==◌, ◌&&◌, inl, inr, Bool-cases, Option-cases,
}
use mathlib.Core.List.{append_assoc}
use kiro_go_plus.Base.Text.{Text}
use kiro_go_plus.Base.Dict.{Dict, insert, lookup, lookup-insert}
use kiro_go_plus.EventStream.Headers.{
  parsed, split, be16, read_value, value_of_length, read_name, read_header, keep_value, parse_loop,
  parse_headers,
}

-- The value types of the format, 0 to 9.
pub data WireType : Type 0 where
  bool_true bool_false byte short int long blob text timestamp uuid : WireType

unfoldable pub type_code : WireType → ℕ
type_code bool_true = 0
type_code bool_false = 1
type_code byte = 2
type_code short = 3
type_code int = 4
type_code long = 5
type_code blob = 6
type_code text = 7
type_code timestamp = 8
type_code uuid = 9

-- The size of the types of fixed size.
unfoldable pub width : WireType → Option ℕ
width bool_true = some 0
width bool_false = some 0
width byte = some 1
width short = some 2
width int = some 4
width long = some 8
width blob = none
width text = none
width timestamp = some 8
width uuid = some 16

pub record WireHeader : Type 0 where
  pub name : Text
  pub type : WireType
  pub value : List ℕ

abbrev pub FitsWidth : Option ℕ → List ℕ → Type 0
FitsWidth none value = length value < 65536
FitsWidth (some n) value = length value ≡ n

-- A name of 1 to 255 bytes, and a value of its type's size.
pub record FitsHeader (h : WireHeader) : Type 0 where
  pub named : 0 < length h.name
  pub name_short : length h.name < 256
  pub value_fits : FitsWidth (width h.type) h.value

abbrev pub enc16 : ℕ → List ℕ
enc16 n = (n / 256 % 256) ∷ (n % 256) ∷ []

unfoldable pub encode_value : Option ℕ → List ℕ → List ℕ
encode_value none value = enc16 (length value) ++ value
encode_value (some n) value = value

unfoldable pub encode_header : WireHeader → List ℕ
encode_header h =
    length h.name ∷ (h.name ++ (type_code h.type ∷ encode_value (width h.type) h.value))

unfoldable pub encode_headers : List WireHeader → List ℕ
encode_headers [] = []
encode_headers (h ∷ hs) = encode_header h ++ encode_headers hs

-- Text is the only type whose values are kept.
unfoldable pub is_text : WireType → Bool
is_text bool_true = false
is_text bool_false = false
is_text byte = false
is_text short = false
is_text int = false
is_text long = false
is_text blob = false
is_text text = true
is_text timestamp = false
is_text uuid = false

-- The text headers, a later one over an earlier one of its name.
unfoldable pub collect : Dict Text Text → List WireHeader → Dict Text Text
collect headers [] = headers
collect headers (h ∷ hs) =
    collect (if is_text h.type then insert h.name h.value headers else headers) hs

keep_value-code :
    (t : WireType) (name : Text) (value : List ℕ) (headers : Dict Text Text)
    → keep_value (type_code t) name value headers
      ≡ (if is_text t then insert name value headers else headers)
unfolding type_code is_text
keep_value-code bool_true name value headers = refl
keep_value-code bool_false name value headers = refl
keep_value-code byte name value headers = refl
keep_value-code short name value headers = refl
keep_value-code int name value headers = refl
keep_value-code long name value headers = refl
keep_value-code blob name value headers = refl
keep_value-code text name value headers = refl
keep_value-code timestamp name value headers = refl
keep_value-code uuid name value headers = refl

pub split-append : (n : ℕ) (xs ys : List ℕ) → length xs ≡ n → split n (xs ++ ys) ≡ some (xs, ys)
unfolding split
split-append n xs ys h = rw (
  ← h,
  le→ltb (length (xs ++ ys)) (length xs) (omega (arith, length-append xs ys)),
  take-append_length xs ys,
  drop-append_length xs ys,
)

be16-enc16 : (n : ℕ) (ys : List ℕ) → n < 65536 → be16 (enc16 n ++ ys) ≡ n
be16-enc16 n ys h = omega arith

ne_zero : (n : ℕ) → 0 < n → (n == 0) ≡ false
ne_zero n h = ground arith

-- A value behind its 16-bit size.
sized_value :
    (v rest : List ℕ)
    → length v < 65536
    → value_of_length (split 2 ((enc16 (length v) ++ v) ++ rest)) ≡ some (v, rest)
sized_value v rest h =
    rw (split-append 2 (enc16 (length v)) (v ++ rest) refl, be16-enc16 (length v) [] h)
      (split-append (length v) v rest refl)

read_value-encode :
    (t : WireType) (v rest : List ℕ)
    → FitsWidth (width t) v
    → read_value (type_code t) (encode_value (width t) v ++ rest) ≡ some (v, rest)
unfolding read_value type_code width encode_value
read_value-encode bool_true [] rest h = refl
read_value-encode bool_true (c ∷ v) rest h = absurd (omega arith)
read_value-encode bool_false [] rest h = refl
read_value-encode bool_false (c ∷ v) rest h = absurd (omega arith)
read_value-encode byte v rest h = split-append 1 v rest h
read_value-encode short v rest h = split-append 2 v rest h
read_value-encode int v rest h = split-append 4 v rest h
read_value-encode long v rest h = split-append 8 v rest h
read_value-encode blob v rest h = sized_value v rest h
read_value-encode text v rest h = sized_value v rest h
read_value-encode timestamp v rest h = split-append 8 v rest h
read_value-encode uuid v rest h = split-append 16 v rest h

split-name :
    (name : Text) (t : ℕ) (rest : List ℕ)
    → split (length name + 1) (name ++ (t ∷ rest)) ≡ some (name ++ t ∷ [], rest)
split-name name t rest =
    ap (split (length name + 1)) (sym (append_assoc name (t ∷ []) rest))
    ∙ split-append (length name + 1) (name ++ t ∷ []) rest
        (omega (arith, length-append name (t ∷ [])))

read_name-encode :
    (name : Text) (t : ℕ) (rest : List ℕ)
    → 0 < length name
    → read_name (length name) (name ++ (t ∷ rest)) ≡ some (name, t, rest)
unfolding read_name
read_name-encode name t rest h = rw (
  split-name name t rest,
  ne_zero (length name) h,
  take-append_length name (t ∷ []),
  drop-append_length name (t ∷ []),
)

read_header-encode :
    (h : WireHeader) (headers : Dict Text Text) (rest : List ℕ)
    → FitsHeader h
    → read_header
        (length h.name)
        (h.name ++ (type_code h.type ∷ (encode_value (width h.type) h.value ++ rest)))
        headers
      ≡ some (if is_text h.type then insert h.name h.value headers else headers, rest)
unfolding read_header
read_header-encode h headers rest f =
    rw
      (
        read_name-encode h.name (type_code h.type) (encode_value (width h.type) h.value ++ rest)
            f.named,
        read_header,
      )
      (rw (
        read_value-encode h.type h.value rest f.value_fits,
        keep_value-code h.type h.name h.value headers,
      ))

-- The header with the bytes that follow it, bracketed as the decoder meets them.
encode_header-append :
    (h : WireHeader) (rest : List ℕ)
    → encode_header h ++ rest
      ≡ length h.name
        ∷ (h.name ++ (type_code h.type ∷ (encode_value (width h.type) h.value ++ rest)))
unfolding encode_header
encode_header-append h rest =
    ap (◌∷◌ (length h.name))
      (append_assoc h.name (type_code h.type ∷ encode_value (width h.type) h.value) rest)

length_rest : (h : WireHeader) (rest : List ℕ) → length rest < length (encode_header h ++ rest)
unfolding encode_header
length_rest h rest = omega (arith, length-append (encode_header h) rest)

parse_loop-encode :
    (hs : List WireHeader) (fuel : ℕ) (headers : Dict Text Text)
    → All FitsHeader hs
    → length (encode_headers hs) ≤ fuel
    → parse_loop fuel (encode_headers hs) headers ≡ parsed (collect headers hs)
unfolding parse_loop encode_headers collect
parse_loop-encode [] fuel headers fits h = refl
parse_loop-encode (w ∷ hs) zero headers fits h =
    absurd (omega (arith, ap length (encode_header-append w (encode_headers hs)), h))
parse_loop-encode (w ∷ hs) (suc fuel) headers fits h =
    rw (encode_header-append w (encode_headers hs), parse_loop)
      (rw (read_header-encode w headers (encode_headers hs) fits.0) (
        parse_loop-encode hs fuel
          (if is_text w.type then insert w.name w.value headers else headers) fits.1
          (omega (arith, h, length_rest w (encode_headers hs)))))

pub parse_headers-collect :
    (hs : List WireHeader)
    → All FitsHeader hs
    → parse_headers (encode_headers hs) ≡ parsed (collect [] hs)
unfolding parse_headers
parse_headers-collect hs fits =
    parse_loop-encode hs (length (encode_headers hs)) [] fits (omega arith)
