-- ===== src/Tests/Selection.antt =====
-- The selection of pool/account.go and AcquireForModel of pool/protection.go: a pool of two accounts.
use mathlib.Core.List.{Perm}
use kiro_go_plus.Base.{
  ◌+◌, ◌*◌, ◌≤◌, ◌<◌, ◌≡◌, ◌⊎◌, refl, Bool, true, false, some, [], ◌∷◌, arith, length, All, ◌==◌,
  nat_eq, bytes_eq, pair_eq,
}
use kiro_go_plus.Base.Dict.{lookup, get_or}
use kiro_go_plus.Base.Text.{Text, codes}
use kiro_go_plus.Base.Time.{second}
use kiro_go_plus.Pool.{AccountPool, balanced, Settings, quota}
use kiro_go_plus.Pool.Account.{Account}
use kiro_go_plus.Pool.Cooldowns.{record_error, account_index, remember_route_affinity}
use kiro_go_plus.Pool.Cooldowns.Indexing.{Locates, account_index-Locates}
use kiro_go_plus.Pool.Cooldowns.Laws.{rest_of}
use kiro_go_plus.Pool.Cooldowns.Routes.{remember_route_affinity_bound}
use kiro_go_plus.Pool.Order.{order_selection_indexes, selection_indexes}
use kiro_go_plus.Pool.Order.Permutes.{order_selection_indexes-Perm}
use kiro_go_plus.Pool.Select.{selection_candidates, selection_indexes_for_token_state}
use kiro_go_plus.Pool.Select.Sound.{Serves, Offered, selection_candidates-Offered}
use kiro_go_plus.Pool.Slots.{normalize_protection_model}
use kiro_go_plus.Pool.Acquire.{acquire_by_order, acquire_for_model}
use kiro_go_plus.Pool.Acquire.Sound.{Fair, Served, acquire_by_order-Served}
use kiro_go_plus.Pool.Acquire.Rests.{NotOf, acquire_for_model-record_error}
use kiro_go_plus.Pool.Acquire.Requests.{acquire_for_model-Fair}
use kiro_go_plus.Tests.Circuits.{settings}
use kiro_go_plus.Tests.Slots.{account_named, alpha, no_counters}

abbrev pub beta : Account
beta = account_named (codes "b")

-- The second account has used up its quota for a while, and two errors of the first were seen.
abbrev pub pair : AccountPool
pair = record {
  accounts = alpha ∷ beta ∷ [];
  account_index = [];
  current_index = 1;
  cooldowns = (codes "b", 7 * second) ∷ [];
  cooldown_kinds = (codes "b", quota) ∷ [];
  error_counts = (codes "a", 2) ∷ [];
  model_lists = [];
  counters = no_counters;
  weighted_current = [];
  affinity = [];
  model_negative = [];
  last_success = [];
  refresh_failures = [];
  refresh_cursor = 0;
  dirty_stats = [];
}

abbrev pub in_turn : Settings
in_turn = record { allow_over_usage = false; mode = balanced; token_refresh_before_seconds = 0 }

abbrev nobody : Text → Bool
nobody id = false

third_error : 2 * second < second + rest_of false (get_or (codes "a") 0 pair.error_counts + 1)
unfolding get_or lookup
third_error = omega arith

acquire_for_model-record_error_example :
    let q = record_error (codes "a") false second pair in
    All (λ x. (x.1.id == codes "a") ≡ false) (selection_candidates q in_turn [] nobody (2 * second))
    × NotOf (codes "a") (acquire_for_model in_turn settings [] (codes "r") nobody (2 * second) q).1
acquire_for_model-record_error_example =
    acquire_for_model-record_error in_turn settings [] (codes "r") nobody (codes "a") false second
      (2 * second) pair (omega arith) third_error

quota_until : lookup (codes "b") pair.cooldowns ≡ some (7 * second)
unfolding lookup
quota_until = refl

account_index-Locates_example : Locates (codes "b") pair.accounts (account_index (codes "b") pair).1
account_index-Locates_example = account_index-Locates (codes "b") pair

remember_route_affinity_bound_example :
    let q = remember_route_affinity (codes "r") (codes "a") second settings pair in
    (length q.affinity ≤ 2)
    × (lookup (codes "r") q.affinity ≡ some (record { account_id = codes "a"; last_seen = second }))
remember_route_affinity_bound_example =
    remember_route_affinity_bound (codes "r") (codes "a") second settings pair refl (omega arith)
      (omega arith)

order_selection_indexes-Perm_example :
    Perm
      (order_selection_indexes pair balanced [] ((0, alpha) ∷ (1, beta) ∷ []))
      ((0, alpha) ∷ (1, beta) ∷ [])
order_selection_indexes-Perm_example =
    order_selection_indexes-Perm pair balanced [] ((0, alpha) ∷ (1, beta) ∷ [])

selection_candidates-Offered_example :
    All
      (Offered pair in_turn [] nobody second false)
      (selection_candidates pair in_turn [] nobody second)
    ⊎ ((selection_indexes_for_token_state pair in_turn [] nobody second false ≡ [])
        × All
            (Offered pair in_turn [] nobody second true)
            (selection_candidates pair in_turn [] nobody second))
selection_candidates-Offered_example = selection_candidates-Offered pair in_turn [] nobody second

acquire_by_order-Served_example :
    Served settings
      (normalize_protection_model (codes "m"))
      second
      no_counters
      (selection_indexes pair in_turn (codes "m") nobody second)
      (acquire_by_order in_turn settings (codes "m") (codes "r") nobody second 0 pair).1
acquire_by_order-Served_example =
    acquire_by_order-Served in_turn settings (codes "m") (codes "r") nobody second 0 pair

acquire_for_model-Fair_example :
    Fair
      (Serves pair in_turn (codes "m") nobody second true)
      settings
      (normalize_protection_model (codes "m"))
      second
      no_counters
      (acquire_for_model in_turn settings (codes "m") (codes "r") nobody second pair)
acquire_for_model-Fair_example =
    acquire_for_model-Fair in_turn settings (codes "m") (codes "r") nobody second pair
