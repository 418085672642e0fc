-- ===== src/Pool/Order.antt =====
-- The order in which selected accounts are tried, and what a selection leaves behind
-- (pool/account.go). sort.SliceStable is an insertion sort.
pub mod Permutes
use kiro_go_plus.Base.{
  ℕ, zero, suc, ◌+◌, ◌%◌, ◌^◌, Bool, true, false, not, ◌&&◌, ◌||◌, List, [], ◌∷◌, ◌++◌, take, drop,
  ltb, if◌then◌else◌, ◌==◌, nat_eq, bytes_eq,
}
use kiro_go_plus.Base.Dict.{Dict, insert, get_or}
use kiro_go_plus.Base.Int.{ℤ, pos, negsuc, ◌+ℤ◌, ◌-ℤ◌, ltb_ℤ, eqb_ℤ}
use kiro_go_plus.Base.Text.{Text, is_empty, text_ltb}
use kiro_go_plus.Pool.{AccountPool, RoutingMode, priority, balanced, weighted, other_mode, Settings}
use kiro_go_plus.Pool.Account.{Account, effective_weight}
use kiro_go_plus.Pool.Select.{Index, account_advertises_model, selection_candidates}

-- The tails that the three comparisons share.
abbrev pub by_id : Account → Account → Bool
by_id a b = text_ltb a.id b.id

abbrev pub by_advertised : AccountPool → Text → Account → Account → Bool → Bool
by_advertised p model a b otherwise =
    let x = account_advertises_model p a.id model in
    let y = account_advertises_model p b.id model in
    if x && y || not x && not y then otherwise else x

abbrev pub by_priority : Account → Account → Bool → Bool
by_priority a b otherwise =
    if eqb_ℤ a.priority b.priority then otherwise else ltb_ℤ a.priority b.priority

-- The score of smooth weighted round robin.
abbrev pub score : AccountPool → Account → ℤ
score p a = get_or a.id (pos 0) p.weighted_current +ℤ pos (effective_weight a.weight)

unfoldable pub comes_before : AccountPool → RoutingMode → Text → Account → Account → Bool
comes_before p priority model a b = by_priority a b (
    by_advertised p model a b
      (if eqb_ℤ a.weight b.weight then by_id a b else ltb_ℤ b.weight a.weight))
comes_before p balanced model a b = by_priority a b (by_advertised p model a b (by_id a b))
comes_before p weighted model a b =
    if eqb_ℤ (score p a) (score p b)
    then by_advertised p model a b (by_id a b)
    else ltb_ℤ (score p b) (score p a)
comes_before p other_mode model a b =
    if eqb_ℤ (score p a) (score p b)
    then by_advertised p model a b (by_id a b)
    else ltb_ℤ (score p b) (score p a)

module _ (less : Account → Account → Bool) where
  unfoldable pub place : Index → List Index → List Index
  place x [] = x ∷ []
  place x (y ∷ ys) = let rest = place x ys in if less y.1 x.1 then y ∷ rest else x ∷ y ∷ ys

  unfoldable pub sort_stable : List Index → List Index
  sort_stable [] = []
  sort_stable (x ∷ xs) = place x (sort_stable xs)

-- How many of the list, from its start, have the given priority.
unfoldable pub tier : ℤ → List Index → ℕ
tier prio [] = 0
tier prio (x ∷ xs) = let rest = tier prio xs in if eqb_ℤ x.1.priority prio then suc rest else 0

-- The leading priority tier starts at its `current`-th account, counted round.
unfoldable pub rotate_tier : ℕ → List Index → List Index
rotate_tier current [] = []
rotate_tier current (x ∷ xs) =
    let n = suc (tier x.1.priority xs) in
    let offset = current % n in
    drop offset (take n (x ∷ xs)) ++ (take offset (x ∷ xs) ++ drop n (x ∷ xs))

abbrev pub arrange : RoutingMode → ℕ → List Index → List Index
arrange balanced current xs = rotate_tier current xs
arrange priority current xs = xs
arrange weighted current xs = xs
arrange other_mode current xs = xs

-- orderSelectionIndexesLocked
unfoldable pub order_selection_indexes : AccountPool → RoutingMode → Text → List Index → List Index
order_selection_indexes p mode model xs =
    arrange mode p.current_index (sort_stable (comes_before p mode model) xs)

-- selectionIndexesLocked
unfoldable pub selection_indexes : AccountPool → Settings → Text → (Text → Bool) → ℕ → List Index
selection_indexes p st model excluded now =
    order_selection_indexes p st.mode model (selection_candidates p st model excluded now)

-- The loop of commitWeightedSelectionLocked: each account gains its weight.
unfoldable pub add_weights : List Index → Dict Text ℤ → Dict Text ℤ
add_weights [] w = w
add_weights ((i, acc) ∷ xs) w =
    add_weights xs (insert acc.id (get_or acc.id (pos 0) w +ℤ pos (effective_weight acc.weight)) w)

unfoldable pub total_weight : List Index → ℕ
total_weight [] = 0
total_weight ((i, acc) ∷ xs) = effective_weight acc.weight + total_weight xs

abbrev pub charge : Text → ℕ → Dict Text ℤ → Dict Text ℤ
charge id total w = insert id (get_or id (pos 0) w -ℤ pos total) w

abbrev pub next_index : ℕ → ℕ
next_index n = (n + 1) % 2 ^ 64

-- commitWeightedSelectionLocked
unfoldable pub commit_weighted_selection :
    RoutingMode → Text → List Index → AccountPool → AccountPool
commit_weighted_selection mode id [] p = p
commit_weighted_selection balanced id (x ∷ xs) p =
    if is_empty id then p else record p { current_index = next_index p.current_index }
commit_weighted_selection weighted id (x ∷ xs) p = if is_empty id then p else record p {
  weighted_current = charge id (total_weight (x ∷ xs)) (add_weights (x ∷ xs) p.weighted_current);
  current_index = next_index p.current_index;
}
commit_weighted_selection priority id (x ∷ xs) p = p
commit_weighted_selection other_mode id (x ∷ xs) p = p
