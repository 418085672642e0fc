-- ===== src/EventStream/Headers.antt =====
-- parseEventStreamHeaders of proxy/eventstream.go. An offset that only moves forward is the
-- suffix that is left; `headers` is the map built so far.
pub mod Ends
use kiro_go_plus.Base.{
  ℕ, zero, suc, ◌+◌, ◌*◌, List, [], ◌∷◌, Option, none, some, length, take, drop, ltb, if◌then◌else◌,
  ◌==◌, ◌||◌, nat_eq, bytes_eq,
}
use kiro_go_plus.Base.Text.{Text}
use kiro_go_plus.Base.Dict.{Dict, insert}

-- `spent` says that the loop's fuel ran out.
pub data HeaderResult : Type 0 where
  parsed : Dict Text Text → HeaderResult
  invalid : HeaderResult
  spent : HeaderResult

-- `offset+n > len(data)`, or the bytes that are passed and the rest.
unfoldable pub split : ℕ → List ℕ → Option (List ℕ × List ℕ)
split n xs = if ltb (length xs) n then none else some (take n xs, drop n xs)

abbrev pub be16 : List ℕ → ℕ
be16 (a ∷ b ∷ rest) = a * 256 + b
be16 other = 0

-- The value's bytes and what follows it.
abbrev pub value_of_length : Option (List ℕ × List ℕ) → Option (List ℕ × List ℕ)
value_of_length none = none
value_of_length (some (size, rest)) = split (be16 size) rest

-- The `switch` over the value type: the bytes of the value, and the rest.
unfoldable pub read_value : ℕ → List ℕ → Option (List ℕ × List ℕ)
read_value t xs =
    if t == 0 || t == 1
    then some ([], xs)
    else if t == 2
    then split 1 xs
    else if t == 3
    then split 2 xs
    else if t == 4
    then split 4 xs
    else if t == 5 || t == 8
    then split 8 xs
    else if t == 6 || t == 7
    then value_of_length (split 2 xs)
    else if t == 9
    then split 16 xs
    else none

-- Only a string is kept.
abbrev pub keep_value : ℕ → Text → List ℕ → Dict Text Text → Dict Text Text
keep_value t name value headers = if t == 7 then insert name value headers else headers

abbrev pub head_or_zero : List ℕ → ℕ
head_or_zero [] = 0
head_or_zero (t ∷ ts) = t

-- The name, the value's type behind it, and the rest.
abbrev pub name_and_type : ℕ → Option (List ℕ × List ℕ) → Option (Text × ℕ × List ℕ)
name_and_type n none = none
name_and_type n (some (ys, rest)) = some (take n ys, head_or_zero (drop n ys), rest)

-- A name of `n` bytes and one byte for the type of the value.
unfoldable pub read_name : ℕ → List ℕ → Option (Text × ℕ × List ℕ)
read_name n xs = if n == 0 then none else name_and_type n (split (n + 1) xs)

-- One round of the loop after its length byte: the map and what is left.
unfoldable pub read_header : ℕ → List ℕ → Dict Text Text → Option (Dict Text Text × List ℕ)
read_header n xs headers = elim (read_name n xs) [
  | none ↦ none
  | some (name, t, ys) ↦ elim (read_value t ys) [
    | none ↦ none
    | some (value, rest) ↦ some (keep_value t name value headers, rest)
  ]
]

unfoldable pub parse_loop : ℕ → List ℕ → Dict Text Text → HeaderResult
parse_loop fuel [] headers = parsed headers
parse_loop zero (n ∷ xs) headers = spent
parse_loop (suc fuel) (n ∷ xs) headers = elim (read_header n xs headers) [
  | none ↦ invalid
  | some (headers', rest) ↦ parse_loop fuel rest headers'
]

-- One round takes two bytes at least, so the data's length is enough fuel.
unfoldable pub parse_headers : List ℕ → HeaderResult
unfolding parse_loop
parse_headers xs = parse_loop (length xs) xs []
