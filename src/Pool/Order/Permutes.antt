-- ===== src/Pool/Order/Permutes.antt =====
-- What orderSelectionIndexesLocked (pool/account.go) does to its list as a list.
use mathlib.Core.List.{Perm, perm_append_comm}
use mathlib.Core.List.Perm
use kiro_go_plus.Base.{
  ℕ, zero, suc, ◌%◌, ◌≡◌, refl, sym, ap, subst, ◌∙◌, inl, inr, Bool, List, [], ◌∷◌, ◌++◌, All, take,
  drop, take-append-drop, take-take, ◌-◌, ◌<◌, Bool-cases, arith,
}
use kiro_go_plus.Base.Text.{Text}
use kiro_go_plus.Pool.{AccountPool, RoutingMode, priority, balanced, weighted, other_mode}
use kiro_go_plus.Pool.Account.{Account}
use kiro_go_plus.Pool.Select.{Index}
use kiro_go_plus.Pool.Order.{
  comes_before, place, sort_stable, tier, rotate_tier, arrange, order_selection_indexes,
}

module _ (less : Account → Account → Bool) where
  place-Perm : (x : Index) (xs : List Index) → Perm (place less x xs) (x ∷ xs)
  unfolding place
  place-Perm x [] = Perm.rfl
  place-Perm x (y ∷ ys) = elim (Bool-cases (less y.1 x.1)) [
    | inl h ↦ rw h (Perm.trans (Perm.cons y (place-Perm x ys)) (Perm.swap x y ys))
    | inr h ↦ rw h Perm.rfl
  ]

  sort_stable-Perm : (xs : List Index) → Perm (sort_stable less xs) xs
  unfolding sort_stable
  sort_stable-Perm [] = Perm.rfl
  sort_stable-Perm (x ∷ xs) =
      Perm.trans (place-Perm x (sort_stable less xs)) (Perm.cons x (sort_stable-Perm xs))

module _ {ℓ} {A : Type ℓ} where
  rejoin : (xs ys zs : List A) → xs ++ (ys ++ zs) ≡ (xs ++ ys) ++ zs
  rejoin [] ys zs = refl
  rejoin (x ∷ xs) ys zs = ap (◌∷◌ x) (rejoin xs ys zs)

  -- Cut at n, with the first part cut at k and turned round.
  turn-Perm :
      (k n : ℕ) (xs : List A) → Perm (drop k (take n xs) ++ (take k (take n xs) ++ drop n xs)) xs
  turn-Perm k n xs =
      subst (λ ys. Perm (drop k (take n xs) ++ (take k (take n xs) ++ drop n xs)) ys)
        (ap (λ ys. ys ++ drop n xs) (take-append-drop k (take n xs)) ∙ take-append-drop n xs)
        (subst (λ ys. Perm ys ((take k (take n xs) ++ drop k (take n xs)) ++ drop n xs))
          (sym (rejoin (drop k (take n xs)) (take k (take n xs)) (drop n xs)))
          (Perm.append_right (drop n xs)
            (perm_append_comm (drop k (take n xs)) (take k (take n xs)))))

  turn_whole-Perm :
      (k n : ℕ) (xs : List A) → k < n → Perm (drop k (take n xs) ++ (take k xs ++ drop n xs)) xs
  turn_whole-Perm k n xs h =
      let cut : take k (take n xs) ≡ take k xs =
        subst (λ m. take k (take m xs) ≡ take k xs) (omega arith) (take-take k (n - k) xs) in
      subst (λ ys. Perm (drop k (take n xs) ++ (ys ++ drop n xs)) xs) cut (turn-Perm k n xs)

rotate_tier-Perm : (current : ℕ) (xs : List Index) → Perm (rotate_tier current xs) xs
unfolding rotate_tier
rotate_tier-Perm current [] = Perm.rfl
rotate_tier-Perm current (x ∷ xs) =
    let n = suc (tier x.1.priority xs) in turn_whole-Perm (current % n) n (x ∷ xs) (omega arith)

arrange-Perm :
    (mode : RoutingMode) (current : ℕ) (xs : List Index) → Perm (arrange mode current xs) xs
arrange-Perm balanced current xs = rotate_tier-Perm current xs
arrange-Perm priority current xs = Perm.rfl
arrange-Perm weighted current xs = Perm.rfl
arrange-Perm other_mode current xs = Perm.rfl

-- In each routing mode the order only rearranges the selected accounts: none is lost, none is
-- tried twice and none is added, the rotation of the balanced mode included.
pub order_selection_indexes-Perm :
    (p : AccountPool) (mode : RoutingMode) (model : Text) (xs : List Index)
    → Perm (order_selection_indexes p mode model xs) xs
unfolding order_selection_indexes
order_selection_indexes-Perm p mode model xs =
    let sorted = sort_stable (comes_before p mode model) xs in
    Perm.trans (arrange-Perm mode p.current_index sorted)
      (sort_stable-Perm (comes_before p mode model) xs)

-- What holds of every selected account holds of every account in the order.
module _ (P : Index → Type 0) where
  All-append : (xs ys : List Index) → All P xs → All P ys → All P (xs ++ ys)
  All-append [] ys h k = k
  All-append (x ∷ xs) ys (h, hs) k = (h, All-append xs ys hs k)

  All-take : (n : ℕ) (xs : List Index) → All P xs → All P (take n xs)
  All-take zero xs h = tt
  All-take (suc n) [] h = tt
  All-take (suc n) (x ∷ xs) (h, hs) = (h, All-take n xs hs)

  All-drop : (n : ℕ) (xs : List Index) → All P xs → All P (drop n xs)
  All-drop zero xs h = h
  All-drop (suc n) [] h = tt
  All-drop (suc n) (x ∷ xs) (h, hs) = All-drop n xs hs

  All-place :
      (less : Account → Account → Bool) (x : Index) (xs : List Index)
      → P x
      → All P xs
      → All P (place less x xs)
  unfolding place
  All-place less x [] p h = (p, tt)
  All-place less x (y ∷ ys) p (h, hs) = elim (Bool-cases (less y.1 x.1)) [
    | inl l ↦ rw l (h, All-place less x ys p hs)
    | inr l ↦ rw l (p, (h, hs))
  ]

  All-sort_stable :
      (less : Account → Account → Bool) (xs : List Index) → All P xs → All P (sort_stable less xs)
  unfolding sort_stable
  All-sort_stable less [] h = tt
  All-sort_stable less (x ∷ xs) (h, hs) =
      All-place less x (sort_stable less xs) h (All-sort_stable less xs hs)

  All-rotate_tier : (current : ℕ) (xs : List Index) → All P xs → All P (rotate_tier current xs)
  unfolding rotate_tier
  All-rotate_tier current [] h = tt
  All-rotate_tier current (x ∷ xs) h =
      let n = suc (tier x.1.priority xs) in
      let k = current % n in
      let ys = x ∷ xs in
      All-append (drop k (take n ys)) (take k ys ++ drop n ys)
        (All-drop k (take n ys) (All-take n ys h))
        (All-append (take k ys) (drop n ys) (All-take k ys h) (All-drop n ys h))

  All-arrange :
      (mode : RoutingMode) (current : ℕ) (xs : List Index)
      → All P xs
      → All P (arrange mode current xs)
  All-arrange balanced current xs h = All-rotate_tier current xs h
  All-arrange priority current xs h = h
  All-arrange weighted current xs h = h
  All-arrange other_mode current xs h = h

  pub All-order_selection_indexes :
      (p : AccountPool) (mode : RoutingMode) (model : Text) (xs : List Index)
      → All P xs
      → All P (order_selection_indexes p mode model xs)
  unfolding order_selection_indexes
  All-order_selection_indexes p mode model xs h =
      let less = comes_before p mode model in
      All-arrange mode p.current_index (sort_stable less xs) (All-sort_stable less xs h)
