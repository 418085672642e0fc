-- ===== src/EventStream/Headers/Ends.antt =====
-- The header loop of proxy/eventstream.go ends: each round takes at least one byte more than the
-- length byte, so the fuel of `parse_headers` is never spent.
use kiro_go_plus.Base.{
  ℕ, zero, suc, ◌+◌, ◌≤◌, ◌≡◌, ◌≢◌, inl, inr, List, [], ◌∷◌, Option, none, some, arith, length,
  length-drop, Option-cases, ◌-◌, nat_eq,
}
use kiro_go_plus.Base.Dict.{Dict}
use kiro_go_plus.Base.Text.{Text}
use kiro_go_plus.EventStream.Headers.{
  spent, split, be16, value_of_length, read_value, read_name, read_header, parse_loop,
  parse_headers,
}

-- What is left is no longer than `n`.
abbrev LeavesAtMost {ℓ} : {A : Type ℓ} → ℕ → Option (A × List ℕ) → Type 0
LeavesAtMost n none = Unit {0}
LeavesAtMost n (some (v, rest)) = length rest ≤ n

LeavesAtMost-mono {ℓ} :
    {A : Type ℓ} (m n : ℕ) (o : Option (A × List ℕ)) → m ≤ n → LeavesAtMost m o → LeavesAtMost n o
LeavesAtMost-mono m n none h b = tt
LeavesAtMost-mono m n (some (v, rest)) h b = omega arith

split-LeavesAtMost : (n : ℕ) (xs : List ℕ) → LeavesAtMost (length xs - n) (split n xs)
unfolding split
split-LeavesAtMost n xs = ground (arith, length-drop n xs)

split_leaves : (n : ℕ) (xs : List ℕ) → LeavesAtMost (length xs) (split n xs)
split_leaves n xs =
    LeavesAtMost-mono (length xs - n) (length xs) (split n xs) (omega arith)
      (split-LeavesAtMost n xs)

value_of_length_leaves :
    (n : ℕ) (o : Option (List ℕ × List ℕ)) → LeavesAtMost n o → LeavesAtMost n (value_of_length o)
value_of_length_leaves n none b = tt
value_of_length_leaves n (some (size, rest)) b =
    LeavesAtMost-mono (length rest) n (split (be16 size) rest) b (split_leaves (be16 size) rest)

read_value_leaves : (t : ℕ) (xs : List ℕ) → LeavesAtMost (length xs) (read_value t xs)
unfolding read_value
read_value_leaves t xs = ground (
  arith,
  split_leaves 1 xs,
  split_leaves 2 xs,
  split_leaves 4 xs,
  split_leaves 8 xs,
  split_leaves 16 xs,
  value_of_length_leaves (length xs) (split 2 xs) (split_leaves 2 xs),
)

read_name_leaves :
    (n : ℕ) (xs name : List ℕ) (t : ℕ) (ys : List ℕ)
    → read_name n xs ≡ some (name, t, ys)
    → length ys ≤ length xs
unfolding read_name
read_name_leaves n xs name t ys e = ground (arith, split_leaves (n + 1) xs)

read_header_leaves :
    (n : ℕ) (xs : List ℕ) (headers : Dict Text Text)
    → LeavesAtMost (length xs) (read_header n xs headers)
unfolding read_header
read_header_leaves n xs headers = elim (Option-cases (read_name n xs)) [
  | inl e ↦ rw (e, read_header) tt
  | inr ((name, t, ys), e) ↦
      rw (e, read_header)
        (ground (arith, e, read_name_leaves n xs name t ys, read_value_leaves t ys))
]

parse_loop-ne-spent :
    (fuel : ℕ) (xs : List ℕ) (headers : Dict Text Text)
    → length xs ≤ fuel
    → parse_loop fuel xs headers ≢ spent
unfolding parse_loop
parse_loop-ne-spent fuel [] headers h = λ e. cc
parse_loop-ne-spent zero (n ∷ xs) headers h = absurd (omega arith)
parse_loop-ne-spent (suc fuel) (n ∷ xs) headers h = elim (Option-cases (read_header n xs headers)) [
  | inl e ↦ rw (e, parse_loop) (λ q. cc)
  | inr ((headers', rest), e) ↦
      rw (e, parse_loop)
        (parse_loop-ne-spent fuel rest headers'
          (ground (arith, h, e, read_header_leaves n xs headers)))
]

-- Header parsing ends on every input: it gives a map or an error.
pub parse_headers-ne-spent : (xs : List ℕ) → parse_headers xs ≢ spent
unfolding parse_headers
parse_headers-ne-spent xs = parse_loop-ne-spent (length xs) xs [] (omega arith)
