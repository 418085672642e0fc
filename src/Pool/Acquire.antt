-- ===== src/Pool/Acquire.antt =====
-- The choice of an account for a request: GetNextForModelExcluding (pool/account.go) without slots,
-- AcquireForModel (pool/protection.go) with them.
pub mod Sound
pub mod Requests
pub mod Affinity
pub mod Rests
pub mod Next
use kiro_go_plus.Base.{
  ℕ, suc, ◌+◌, Bool, true, false, not, ◌&&◌, Option, none, some, List, [], ◌∷◌, get_elem?, max, ltb,
  if◌then◌else◌, ◌==◌, nat_eq, bytes_eq,
}
use kiro_go_plus.Base.Dict.{delete, Dict, lookup, insert}
use kiro_go_plus.Base.Text.{Text, is_empty, trim_space}
use kiro_go_plus.Pool.{AccountPool, RouteAffinity, Settings}
use kiro_go_plus.Pool.Account.{Account}
use kiro_go_plus.Pool.Circuit.{ProtectionConfig, Busy}
use kiro_go_plus.Pool.Cooldowns.{account_index, prune_route_affinity, remember_route_affinity}
use kiro_go_plus.Pool.Order.{selection_indexes, commit_weighted_selection}
use kiro_go_plus.Pool.Select.{Index, account_selectable, fallback_ok, soonest}
use kiro_go_plus.Pool.Slots.{
  Counters, Guard, Grant, granted, busy, normalize_protection_model, try_acquire_slot,
}

-- GetByID
unfoldable pub get_by_id : Text → AccountPool → AccountPool × Option Account
get_by_id id p =
    let (q, found) = account_index id p in
    (q, elim found [ none ↦ none | some i ↦ get_elem? q.accounts i ])

-- The first choice, committed, or the account whose cooldown ends first.
abbrev pub take_first :
    AccountPool
    → Settings
    → Bool
    → Text
    → (Text → Bool)
    → ℕ
    → List Index
    → AccountPool × Option Account
take_first p st for_model model excluded now [] =
    (p, soonest p (fallback_ok p st for_model model excluded now) none p.accounts)
take_first p st for_model model excluded now ((i, acc) ∷ xs) =
    (commit_weighted_selection st.mode acc.id ((i, acc) ∷ xs) p, some acc)

-- GetNextExcluding, which asks for no model and tests none in its fallback.
unfoldable pub get_next_excluding :
    AccountPool → Settings → (Text → Bool) → ℕ → AccountPool × Option Account
get_next_excluding p st excluded now =
    take_first p st false [] excluded now (selection_indexes p st [] excluded now)

-- GetNextForModelExcluding
unfoldable pub get_next_for_model_excluding :
    AccountPool → Settings → Text → (Text → Bool) → ℕ → AccountPool × Option Account
get_next_for_model_excluding p st model excluded now =
    take_first p st true model excluded now (selection_indexes p st model excluded now)

-- The last lines of findSelectableAccountLocked, on the account at the index if there is one.
abbrev pub checked_at :
    AccountPool
    → Settings
    → Text
    → (Text → Bool)
    → ℕ
    → Option Account
    → AccountPool × Option Account
checked_at p st model excluded now none = (p, none)
checked_at p st model excluded now (some acc) =
    (p, (if account_selectable p st acc model excluded now false then some acc else none))

-- findSelectableAccountLocked, after its call of accountIndexLocked.
abbrev pub found_at :
    Settings → Text → (Text → Bool) → ℕ → AccountPool × Option ℕ → AccountPool × Option Account
found_at st model excluded now (p, none) = (p, none)
found_at st model excluded now (p, some i) =
    checked_at p st model excluded now (get_elem? p.accounts i)

-- findSelectableAccountLocked
unfoldable pub find_selectable_account :
    AccountPool → Settings → Text → Text → (Text → Bool) → ℕ → AccountPool × Option Account
find_selectable_account p st id model excluded now =
    found_at st model excluded now (account_index id p)

-- What AcquireForModel returns: an account with a guard, no account and the longest wait, or
-- neither.
pub record Acquired : Type 0 where
  pub account : Account
  pub guard : Guard
  pub affinity_hit : Bool
  pub route_key : Text
  pub route_seen : ℕ

pub data Outcome : Type 0 where
  acquired : Acquired → Outcome
  all_busy : ℕ → Outcome
  nothing : Outcome

-- `bestRetry` starts at 0 and is kept by maxDuration.
abbrev pub give_up : ℕ → Outcome
give_up best = if ltb 0 best then all_busy best else nothing

-- The loop over the ordered accounts; `all` is the whole list, which the weights are charged for.
unfoldable pub try_each :
    Settings
    → ProtectionConfig
    → Text
    → Text
    → ℕ
    → List Index
    → List Index
    → ℕ
    → AccountPool
    → AccountPool × Outcome
try_each st up key route now all [] best p = (p, give_up best)
try_each st up key route now all ((i, acc) ∷ xs) best p =
    let (c, grant) = try_acquire_slot acc key up now p.counters in
    elim grant [
      | granted g ↦ (
        remember_route_affinity route acc.id now up
            (commit_weighted_selection st.mode acc.id all (record p { counters = c })),
        acquired (record {
          account = acc;
          guard = g;
          affinity_hit = false;
          route_key = route;
          route_seen = now;
        }),
      )
      | busy b ↦ try_each st up key route now all xs (max best b.retry_after) p
    ]

-- The second half of AcquireForModel.
unfoldable pub acquire_by_order :
    Settings
    → ProtectionConfig
    → Text
    → Text
    → (Text → Bool)
    → ℕ
    → ℕ
    → AccountPool
    → AccountPool × Outcome
acquire_by_order st up model route excluded now best p =
    let all = selection_indexes p st model excluded now in
    try_each st up (normalize_protection_model model) route now all all best p

-- The account that the route is bound to, if it may serve and has a slot.
unfoldable pub acquire_bound :
    Settings
    → ProtectionConfig
    → Text
    → Text
    → (Text → Bool)
    → ℕ
    → AccountPool × Option Account
    → AccountPool × Outcome
acquire_bound st up model route excluded now (p, none) =
    acquire_by_order st up model route excluded now 0 p
acquire_bound st up model route excluded now (p, some acc) =
    let (c, grant) = try_acquire_slot acc (normalize_protection_model model) up now p.counters in
    elim grant [
      | granted g ↦ (
        remember_route_affinity route acc.id now up (record p { counters = c }),
        acquired (record {
          account = acc;
          guard = g;
          affinity_hit = true;
          route_key = route;
          route_seen = now;
        }),
      )
      | busy b ↦ acquire_by_order st up model route excluded now b.retry_after p
    ]

-- AcquireForModel with protection enabled, on a pool that has accounts.
unfoldable pub acquire_for_model :
    Settings
    → ProtectionConfig
    → Text
    → Text
    → (Text → Bool)
    → ℕ
    → AccountPool
    → AccountPool × Outcome
acquire_for_model st up model route_key excluded now p =
    let route = trim_space route_key in
    let q = prune_route_affinity now up p in
    elim (if is_empty route then none else lookup route q.affinity) [
      | none ↦ acquire_by_order st up model route excluded now 0 q
      | some entry ↦
          acquire_bound st up model route excluded now
            (find_selectable_account q st entry.account_id model excluded now)
    ]

-- ForgetAffinity, on the guard of an acquired account: the route is unbound if it is still bound by
-- this request.
unfoldable pub forget_affinity : Acquired → AccountPool → AccountPool
forget_affinity a p = if is_empty a.route_key then p else elim (lookup a.route_key p.affinity) [
  | none ↦ p
  | some entry ↦
      if entry.account_id == a.guard.account_id && entry.last_seen == a.route_seen
      then record p { affinity = delete a.route_key p.affinity }
      else p
]
