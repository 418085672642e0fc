-- ===== src/Refresh/Totals.antt =====
-- Sums over the calls in flight of proxy/refresh_coordinator.go.
use kiro_go_plus.Base.{
  ℕ, ◌+◌, ◌≡◌, refl, subst, Option, none, some, [], ◌∷◌, ◌==◌, nat_eq, bytes_eq, same→eq,
  Bool-cases, inl, inr, arith,
}
use kiro_go_plus.Base.Dict.{Dict, lookup, insert, delete}
use kiro_go_plus.Base.Keys.{NoDup}
use kiro_go_plus.Base.Text.{Text}
use kiro_go_plus.Refresh.{Place, queued, running, over}

abbrev pub is_queued : Place → ℕ
is_queued queued = 1
is_queued running = 0
is_queued over = 0

abbrev pub is_running : Place → ℕ
is_running queued = 0
is_running running = 1
is_running over = 0

-- How much the calls in flight weigh.
abbrev pub total : (Place → ℕ) → Dict Text Place → ℕ
total weight [] = 0
total weight ((key, place) ∷ m) = weight place + total weight m

abbrev pub weight_of : (Place → ℕ) → Option Place → ℕ
weight_of weight none = 0
weight_of weight (some place) = weight place

total-insert :
    (weight : Place → ℕ) (key : Text) (place : Place) (m : Dict Text Place)
    → total weight (insert key place m) + weight_of weight (lookup key m)
      ≡ total weight m + weight place
unfolding insert lookup
total-insert weight key place [] = omega arith
total-insert weight key place ((k, p) ∷ m) = elim (Bool-cases (k == key)) [
  | inl same ↦ rw same (omega arith)
  | inr other ↦ rw other (omega (arith, total-insert weight key place m))
]

pub total-move :
    (weight : Place → ℕ) (key : Text) (o : Option Place) (place : Place) (m : Dict Text Place)
    → lookup key m ≡ o
    → total weight (insert key place m) + weight_of weight o ≡ total weight m + weight place
total-move weight key o place m at =
    subst
      (λ e. total weight (insert key place m) + weight_of weight e ≡ total weight m + weight place)
      at (total-insert weight key place m)

total-absent :
    (weight : Place → ℕ) (key : Text) (m : Dict Text Place)
    → lookup key m ≡ none
    → total weight (delete key m) ≡ total weight m
unfolding delete lookup
total-absent weight key [] h = refl
total-absent weight key ((k, p) ∷ m) h = elim (Bool-cases (k == key)) [
  | inl same ↦ ground (arith, same, h)
  | inr other ↦ rw other (omega (arith, total-absent weight key m (ground (arith, other, h))))
]

total-delete :
    (weight : Place → ℕ) (key : Text) (m : Dict Text Place)
    → NoDup m
    → total weight (delete key m) + weight_of weight (lookup key m) ≡ total weight m
unfolding delete lookup
total-delete weight key [] h = omega arith
total-delete weight key ((k, p) ∷ m) (absent, h) = elim (Bool-cases (k == key)) [
  | inl same ↦
      let gone =
        total-absent weight key m (subst (λ i. lookup i m ≡ none) (same→eq k key same) absent) in
      rw same (omega (arith, gone))
  | inr other ↦ rw other (omega (arith, total-delete weight key m h))
]

pub total-left :
    (weight : Place → ℕ) (key : Text) (place : Place) (m : Dict Text Place)
    → NoDup m
    → lookup key m ≡ some place
    → total weight (delete key m) + weight place ≡ total weight m
total-left weight key place m single at =
    subst (λ o. total weight (delete key m) + weight_of weight o ≡ total weight m) at
      (total-delete weight key m single)
