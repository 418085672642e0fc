-- ===== src/Pool/Cooldowns.antt =====
-- What the pool records of outcomes (pool/account.go), and the route affinity (pool/protection.go).
-- Saving, and the signal to waiting requests, are left out of these operations.
pub mod Laws
pub mod Routes
pub mod Indexing
use kiro_go_plus.Base.{
  ℕ, zero, suc, ◌+◌, ◌-◌, ◌*◌, Bool, true, false, not, ◌&&◌, ◌||◌, Option, none, some, List, [],
  ◌∷◌, length, get_elem?, ltb, leb, if◌then◌else◌, ◌==◌, nat_eq, bytes_eq, pair_eq,
}
use kiro_go_plus.Base.Dict.{Dict, lookup, insert, delete, get_or}
use kiro_go_plus.Base.Text.{Text, is_empty}
use kiro_go_plus.Base.Time.{second, minute, hour}
use kiro_go_plus.Pool.{
  AccountPool, CooldownKind, unknown, transient, quota, disabled, RouteAffinity,
}
use kiro_go_plus.Pool.Account.{Account, has_account}
use kiro_go_plus.Pool.Circuit.{ProtectionConfig}
use kiro_go_plus.Pool.Select.{model_key, has_text, is_before}

abbrev pub is_later : Option ℕ → ℕ → Bool
is_later none until = false
is_later (some current) until = ltb until current

-- setCooldownLocked: a later cooldown stays.
unfoldable pub set_cooldown : Text → ℕ → CooldownKind → AccountPool → AccountPool
set_cooldown id until kind p = if is_later (lookup id p.cooldowns) until then p else record p {
  cooldowns = insert id until p.cooldowns;
  cooldown_kinds = insert id kind p.cooldown_kinds;
}

abbrev pub is_transient : CooldownKind → Bool
is_transient transient = true
is_transient unknown = false
is_transient quota = false
is_transient disabled = false

abbrev pub is_unknown : CooldownKind → Bool
is_unknown unknown = true
is_unknown transient = false
is_unknown quota = false
is_unknown disabled = false

-- The test of clearTransientCooldownLocked; `until.Sub(now) <= 10*time.Minute` is a sum.
abbrev pub clears : CooldownKind → ℕ → ℕ → Bool
clears kind until now =
    is_transient kind || is_unknown kind && leb until (now + 10 * minute) || leb until now

unfoldable pub clear_transient_cooldown : Text → ℕ → AccountPool → AccountPool
clear_transient_cooldown id now p = elim (lookup id p.cooldowns) [
  | none ↦ record p { cooldown_kinds = delete id p.cooldown_kinds }
  | some until ↦
      if clears (get_or id unknown p.cooldown_kinds) until now
      then record p {
        cooldowns = delete id p.cooldowns;
        cooldown_kinds = delete id p.cooldown_kinds;
      }
      else p
]

-- RecordSuccess
unfoldable pub record_success : Text → ℕ → AccountPool → AccountPool
record_success id now p =
    let q = clear_transient_cooldown id now p in
    record q {
      error_counts = insert id 0 q.error_counts;
      last_success = insert id now q.last_success;
    }

-- The index of the first account of an id, as accountIndexLocked rebuilds its map.
unfoldable pub index_accounts : ℕ → List Account → Dict Text ℕ → Dict Text ℕ
index_accounts i [] m = m
index_accounts i (acc ∷ accs) m =
    index_accounts (suc i) accs (elim (lookup acc.id m) [ none ↦ insert acc.id i m | some j ↦ m ])

abbrev pub names : List Account → Option ℕ → Text → Bool
names accs none id = false
names accs (some i) id = elim (get_elem? accs i) [ none ↦ false | some acc ↦ acc.id == id ]

-- accountIndexLocked: the cached index if it is right, or else the map is built again.
unfoldable pub account_index : Text → AccountPool → AccountPool × Option ℕ
account_index id p =
    if names p.accounts (lookup id p.account_index) id
    then (p, lookup id p.account_index)
    else let m = index_accounts 0 p.accounts [] in (record p { account_index = m }, lookup id m)

abbrev pub errors_of : Option Account → ℕ
errors_of none = 0
errors_of (some acc) = acc.error_count

-- accountStatsLocked, of the count of errors.
unfoldable pub account_stats : Text → AccountPool → AccountPool × ℕ
account_stats id p =
    let (q, found) = account_index id p in
    (q, elim found [ none ↦ 0 | some i ↦ errors_of (get_elem? q.accounts i) ])

-- The first account of the id counts one more error.
abbrev pub count_first : Text → List Account → List Account
count_first id [] = []
count_first id (acc ∷ accs) =
    let rest = count_first id accs in
    if acc.id == id then record acc { error_count = acc.error_count + 1 } ∷ accs else acc ∷ rest

-- The accounts of the id behind the first take over a count; `seen` says that the first was met.
abbrev pub share_count : Text → ℕ → Bool → List Account → List Account
share_count id n seen [] = []
share_count id n seen (acc ∷ accs) =
    let rest = share_count id n (seen || acc.id == id) accs in
    (if seen && acc.id == id then record acc { error_count = n } else acc) ∷ rest

abbrev pub add_text : Text → List Text → List Text
add_text t us = if has_text t us then us else t ∷ us

-- The loop of RecordError over the accounts: the others of the id take over what accountStatsLocked
-- gives after the first has counted.
unfoldable pub count_error : Text → AccountPool → AccountPool
count_error id p =
    let (q, n) = account_stats id (record p { accounts = count_first id p.accounts }) in
    if has_account id p.accounts
    then record q {
      accounts = share_count id n false q.accounts;
      dirty_stats = add_text id q.dirty_stats;
    }
    else p

-- RecordError
unfoldable pub record_error : Text → Bool → ℕ → AccountPool → AccountPool
record_error id is_quota_error now p =
    let n = get_or id 0 p.error_counts + 1 in
    let q = count_error id (record p { error_counts = insert id n p.error_counts }) in
    if is_quota_error
    then set_cooldown id (now + hour) quota q
    else if leb 3 n
    then set_cooldown id (now + minute) transient q
    else q

-- delete(models, model)
abbrev pub remove_text : Text → List Text → List Text
remove_text t [] = []
remove_text t (u ∷ us) = let rest = remove_text t us in if u == t then rest else u ∷ rest

-- RecordModelUnavailable, with the time until which the model is ruled out.
unfoldable pub record_model_unavailable : Text → Text → ℕ → ℕ → AccountPool → AccountPool × ℕ
record_model_unavailable id model ttl_seconds now p =
    let ttl = if ltb (ttl_seconds * second) minute then hour else ttl_seconds * second in
    (
      record p {
        model_negative = insert (id, model_key model) (now + ttl) p.model_negative;
        model_lists = elim (lookup id p.model_lists) [
          | none ↦ p.model_lists
          | some models ↦ insert id (remove_text (model_key model) models) p.model_lists
        ];
      },
      now + ttl,
    )

-- ClearModelUnavailable
unfoldable pub clear_model_unavailable : Text → Text → AccountPool → AccountPool
clear_model_unavailable id model p =
    let q : AccountPool = record p {
      model_negative = delete (id, model_key model) p.model_negative;
    } in
    if is_empty (model_key model) then q else record q {
      model_lists =
          insert id (add_text (model_key model) (get_or id [] p.model_lists)) p.model_lists;
    }

-- ClearAccountCooldowns, for one of its accounts.
unfoldable pub clear_account_cooldowns : Text → AccountPool → AccountPool
clear_account_cooldowns id p = record p {
  cooldowns = delete id p.cooldowns;
  cooldown_kinds = delete id p.cooldown_kinds;
  error_counts = delete id p.error_counts;
  refresh_failures = delete id p.refresh_failures;
}

-- pruneRouteAffinityLocked; `now.Sub(lastSeen) > ttl` is a sum.
unfoldable pub prune_affinity : ℕ → ℕ → Dict Text RouteAffinity → Dict Text RouteAffinity
prune_affinity now ttl [] = []
prune_affinity now ttl ((key, entry) ∷ m) =
    let rest = prune_affinity now ttl m in
    if ltb (entry.last_seen + ttl) now then rest else (key, entry) ∷ rest

abbrev pub affinity_ttl : ProtectionConfig → ℕ
affinity_ttl up =
    if up.route_affinity_ttl_seconds == 0 then hour else up.route_affinity_ttl_seconds * second

unfoldable pub prune_route_affinity : ℕ → ProtectionConfig → AccountPool → AccountPool
prune_route_affinity now up p = record p {
  affinity = prune_affinity now (affinity_ttl up) p.affinity;
}

-- The entry that was seen longest ago, `best` so far.
unfoldable pub oldest_entry : Option (Text × ℕ) → Dict Text RouteAffinity → Option Text
oldest_entry none [] = none
oldest_entry (some (key, seen)) [] = some key
oldest_entry none ((key, entry) ∷ m) = oldest_entry (some (key, entry.last_seen)) m
oldest_entry (some (best, seen)) ((key, entry) ∷ m) =
    oldest_entry
      (if ltb entry.last_seen seen then some (key, entry.last_seen) else some (best, seen)) m

abbrev pub evict_oldest : Dict Text RouteAffinity → Dict Text RouteAffinity
evict_oldest m = elim (oldest_entry none m) [ none ↦ m | some key ↦ delete key m ]

abbrev pub no_route : RouteAffinity
no_route = record { account_id = []; last_seen = 0 }

-- rememberRouteAffinityLocked
unfoldable pub remember_route_affinity :
    Text → Text → ℕ → ProtectionConfig → AccountPool → AccountPool
remember_route_affinity key id now up p =
    if is_empty key || up.route_affinity_max_entries == 0
    then p
    else let full =
        leb up.route_affinity_max_entries (length p.affinity)
        && is_empty (get_or key no_route p.affinity).account_id in
      record p {
        affinity =
            insert key (record { account_id = id; last_seen = now })
              (if full then evict_oldest p.affinity else p.affinity);
      }
