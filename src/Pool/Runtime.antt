-- ===== src/Pool/Runtime.antt =====
-- The pool's state across a restart (pool/runtime_state.go). The file holds what was saved or is
-- not read: the encoding to JSON is the standard library's. Times after 1970.
pub mod Restart
use kiro_go_plus.Base.{
  ℕ, Bool, true, false, not, ◌&&◌, Option, none, some, List, [], ◌∷◌, length, ltb, leb,
  if◌then◌else◌, ◌==◌, nat_eq, bytes_eq, pair_eq,
}
use kiro_go_plus.Base.Dict.{Dict, lookup, insert, get_or}
use kiro_go_plus.Base.Text.{Text, is_empty}
use kiro_go_plus.Base.Time.{unix, from_unix, is_zero_time}
use kiro_go_plus.Pool.{AccountPool, CooldownKind, unknown}
use kiro_go_plus.Pool.Changes.{add_models}
use kiro_go_plus.Pool.Circuit.{RuntimeState, zero_state}
use kiro_go_plus.Pool.Select.{model_key}
use kiro_go_plus.Pool.Slots.{Counters}

-- Times in seconds since 1970; 0 is none.
pub record PersistedAccount : Type 0 where
  pub cooldown_until : ℕ
  pub cooldown_kind : CooldownKind
  pub refresh_cooldown_until : ℕ
  pub error_count : ℕ
  pub last_success_at : ℕ

pub record PersistedModelNegative : Type 0 where
  pub account_id : Text
  pub model : Text
  pub cooldown_until : ℕ

-- `owner` is the account's id in one list and the profile's ARN in the other.
pub record PersistedUpstream : Type 0 where
  pub owner : Text
  pub model : Text
  pub rate_limit_count : ℕ
  pub cooldown_until : ℕ
  pub last_cooldown_ms : ℕ

pub record PersistedState : Type 0 where
  pub version : ℕ
  pub saved_at : ℕ
  pub current_index : ℕ
  pub refresh_cursor : ℕ
  pub accounts : Dict Text PersistedAccount
  pub model_lists : Dict Text (List Text)
  pub model_negative : List PersistedModelNegative
  pub upstream : List PersistedUpstream
  pub profiles : List PersistedUpstream

abbrev pub runtime_state_version : ℕ
runtime_state_version = 1

-- `.Unix()` of a time that is after now, or 0.
abbrev pub unix_if_after : ℕ → ℕ → ℕ
unix_if_after now until = if ltb now until then unix until else 0

abbrev pub no_account : PersistedAccount
no_account = record {
  cooldown_until = 0;
  cooldown_kind = unknown;
  refresh_cooldown_until = 0;
  error_count = 0;
  last_success_at = 0;
}

unfoldable pub persisted_account : AccountPool → ℕ → Text → ℕ → PersistedAccount
persisted_account p now id errors =
    let cooldown = get_or id 0 p.cooldowns in
    let success = get_or id 0 p.last_success in
    record {
      error_count = errors;
      cooldown_until = unix_if_after now cooldown;
      cooldown_kind = if ltb now cooldown then get_or id unknown p.cooldown_kinds else unknown;
      last_success_at = if is_zero_time success then 0 else unix success;
      refresh_cooldown_until = unix_if_after now (get_or id 0 p.refresh_failures);
    }

-- The first loop of saveRuntimeStateTo: an entry for each account that has a count of errors.
unfoldable pub save_accounts :
    AccountPool → ℕ → Dict Text ℕ → Dict Text PersistedAccount → Dict Text PersistedAccount
save_accounts p now [] saved = saved
save_accounts p now ((id, errors) ∷ m) saved =
    save_accounts p now m (insert id (persisted_account p now id errors) saved)

-- The second loop: the refresh cooldowns of the other accounts.
unfoldable pub save_refreshes :
    ℕ → Dict Text ℕ → Dict Text PersistedAccount → Dict Text PersistedAccount
save_refreshes now [] saved = saved
save_refreshes now ((id, until) ∷ m) saved = save_refreshes now m (elim (lookup id saved) [
  | some entry ↦ saved
  | none ↦
      if ltb now until
      then insert id (record no_account { refresh_cooldown_until = unix until }) saved
      else saved
])

unfoldable pub save_negatives : ℕ → Dict (Text × Text) ℕ → List PersistedModelNegative
save_negatives now [] = []
save_negatives now ((key, until) ∷ m) =
    let rest = save_negatives now m in
    if ltb now until
    then record { account_id = key.0; model = key.1; cooldown_until = unix until } ∷ rest
    else rest

unfoldable pub save_circuits : ℕ → Dict (Text × Text) RuntimeState → List PersistedUpstream
save_circuits now [] = []
save_circuits now ((key, s) ∷ m) =
    let rest = save_circuits now m in
    let entry : PersistedUpstream = record {
      owner = key.0;
      model = key.1;
      rate_limit_count = s.rate_limit_count;
      cooldown_until = unix s.cooldown_until;
      last_cooldown_ms = s.last_cooldown_ms;
    } in
    if ltb now s.cooldown_until then entry ∷ rest else rest

-- saveRuntimeStateTo, up to the file.
unfoldable pub save_runtime_state : ℕ → AccountPool → PersistedState
save_runtime_state now p = record {
  version = runtime_state_version;
  saved_at = unix now;
  current_index = p.current_index;
  refresh_cursor = p.refresh_cursor;
  accounts = save_refreshes now p.refresh_failures (save_accounts p now p.error_counts []);
  model_lists = p.model_lists;
  model_negative = save_negatives now p.model_negative;
  upstream = save_circuits now p.counters.models;
  profiles = save_circuits now p.counters.profiles;
}

abbrev pub insert_if : {V : Type 0} → Bool → Text → V → Dict Text V → Dict Text V
insert_if true id v m = insert id v m
insert_if false id v m = m

-- One account of the first loop of loadRuntimeState.
unfoldable pub load_account : ℕ → Text → PersistedAccount → AccountPool → AccountPool
load_account now id entry p = record p {
  error_counts = insert id entry.error_count p.error_counts;
  cooldowns =
      insert_if (ltb (unix now) entry.cooldown_until) id (from_unix entry.cooldown_until)
        p.cooldowns;
  cooldown_kinds =
      insert_if (ltb (unix now) entry.cooldown_until) id entry.cooldown_kind p.cooldown_kinds;
  last_success =
      insert_if (ltb 0 entry.last_success_at) id (from_unix entry.last_success_at) p.last_success;
  refresh_failures =
      insert_if (ltb (unix now) entry.refresh_cooldown_until) id
        (from_unix entry.refresh_cooldown_until) p.refresh_failures;
}

unfoldable pub load_accounts : ℕ → Dict Text PersistedAccount → AccountPool → AccountPool
load_accounts now [] p = p
load_accounts now ((id, entry) ∷ m) p = load_accounts now m (load_account now id entry p)

unfoldable pub load_models : Dict Text (List Text) → Dict Text (List Text) → Dict Text (List Text)
load_models [] lists = lists
load_models ((id, models) ∷ m) lists =
    load_models m
      (insert_if (ltb 0 (length (add_models models []))) id (add_models models []) lists)

unfoldable pub load_negatives :
    ℕ → List PersistedModelNegative → Dict (Text × Text) ℕ → Dict (Text × Text) ℕ
load_negatives now [] m = m
load_negatives now (e ∷ es) m = load_negatives now es (
    if ltb (unix now) e.cooldown_until
    then insert (e.account_id, model_key e.model) (from_unix e.cooldown_until) m
    else m)

-- A circuit as it is loaded: open, with nothing in flight.
abbrev pub reopened : PersistedUpstream → RuntimeState
reopened e = record zero_state {
  rate_limit_count = e.rate_limit_count;
  cooldown_until = from_unix e.cooldown_until;
  last_cooldown_ms = e.last_cooldown_ms;
}

unfoldable pub load_circuits :
    ℕ → List PersistedUpstream → Dict (Text × Text) RuntimeState → Dict (Text × Text) RuntimeState
load_circuits now [] m = m
load_circuits now (e ∷ es) m =
    load_circuits now es
      (if ltb (unix now) e.cooldown_until then insert (e.owner, e.model) (reopened e) m else m)

abbrev pub load_state : ℕ → PersistedState → AccountPool → AccountPool
load_state now s p =
    let q = load_accounts now s.accounts p in
    record q {
      current_index = s.current_index;
      refresh_cursor = s.refresh_cursor;
      model_lists = load_models s.model_lists q.model_lists;
      model_negative = load_negatives now s.model_negative q.model_negative;
      counters = record q.counters {
        models = load_circuits now s.upstream q.counters.models;
        profiles = load_circuits now s.profiles q.counters.profiles;
      };
    }

-- loadRuntimeState, on what could be read of the file.
unfoldable pub load_runtime_state : ℕ → Option PersistedState → AccountPool → AccountPool
load_runtime_state now none p = p
load_runtime_state now (some s) p =
    if s.version == runtime_state_version then load_state now s p else p
