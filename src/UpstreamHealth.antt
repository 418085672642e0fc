-- ===== src/UpstreamHealth.antt =====
-- The circuits of endpoints and proxies (proxy/upstream_health.go): a bounded map of states, one for
-- each route. The latency averages, which are floats, and the views for the operator are left out.
pub mod Bounds
pub mod Probes
use kiro_go_plus.Base.{
  ℕ, ◌+◌, ◌-◌, ◌*◌, ◌%◌, ◌^◌, Bool, true, false, not, ◌&&◌, ◌||◌, Option, none, some, List, [], ◌∷◌,
  length, ltb, leb, min, max, if◌then◌else◌, ◌==◌, nat_eq, bytes_eq,
}
use kiro_go_plus.Base.Dict.{Dict, lookup, insert, delete, get_or}
use kiro_go_plus.Base.Text.{Text, is_empty, trim_space}
use kiro_go_plus.Base.Time.{second, minute, hour, is_zero_time}

pub record CircuitRuntimeState : Type 0 where
  pub label : Text
  pub consecutive_failures : ℕ
  pub open_count : ℕ
  pub cooldown_until : ℕ
  pub probe_in_flight : Bool
  pub in_flight : ℕ
  pub successes : ℕ
  pub failures : ℕ
  pub last_error : Text
  pub last_success_at : ℕ
  pub last_failure_at : ℕ
  pub last_access : ℕ

abbrev pub zero_circuit : CircuitRuntimeState
zero_circuit = record {
  label = [];
  consecutive_failures = 0;
  open_count = 0;
  cooldown_until = 0;
  probe_in_flight = false;
  in_flight = 0;
  successes = 0;
  failures = 0;
  last_error = [];
  last_success_at = 0;
  last_failure_at = 0;
  last_access = 0;
}

abbrev pub States : Type 0
States = Dict Text CircuitRuntimeState

abbrev pub max_entries : ℕ
max_entries = 4096

abbrev pub is_blank_key : Text → Bool
is_blank_key key = is_empty (trim_space key)

-- endpointRetryAfter
unfoldable pub endpoint_retry_after : Text → ℕ → States → ℕ
endpoint_retry_after key now m =
    let s = get_or key zero_circuit m in
    if is_blank_key key
    then 0
    else if ltb now s.cooldown_until
    then s.cooldown_until - now
    else if s.probe_in_flight
    then second
    else 0

-- The tests that skip a candidate for eviction.
abbrev pub is_evictable : ℕ → CircuitRuntimeState → Bool
is_evictable now s =
    not (s.probe_in_flight || ltb 0 s.in_flight)
    && not (
        not (is_zero_time s.cooldown_until)
        && (ltb now s.cooldown_until || ltb now (s.last_access + hour)))

-- The evictable entry that was used longest ago; `best` is the one so far.
unfoldable pub oldest_evictable : ℕ → Option (Text × ℕ) → States → Option Text
oldest_evictable now none [] = none
oldest_evictable now (some (key, at)) [] = some key
oldest_evictable now none ((key, s) ∷ m) =
    oldest_evictable now (if is_evictable now s then some (key, s.last_access) else none) m
oldest_evictable now (some (best, at)) ((key, s) ∷ m) =
    oldest_evictable now
      (if is_evictable now s && ltb s.last_access at
        then some (key, s.last_access)
        else some (best, at))
      m

-- The states with room for the key, if there is any to be had.
unfoldable pub make_room : Text → ℕ → States → Option States
make_room key now m = elim (lookup key m) [
  | some s ↦ some m
  | none ↦
      if leb max_entries (length m)
      then elim (oldest_evictable now none m) [ none ↦ none | some old ↦ some (delete old m) ]
      else some m
]

-- The rest of begin, on the state of the key.
unfoldable pub admit_request : Text → ℕ → CircuitRuntimeState → CircuitRuntimeState × Bool
admit_request label now s =
    let t : CircuitRuntimeState = record s { label = label; last_access = now } in
    if ltb now s.cooldown_until
    then (t, false)
    else if is_zero_time s.cooldown_until
    then (record t { in_flight = s.in_flight + 1 }, true)
    else if s.probe_in_flight
    then (t, false)
    else (record t { probe_in_flight = true; in_flight = s.in_flight + 1 }, true)

-- begin
unfoldable pub begin : Text → Text → ℕ → States → States × Bool
begin key label now m = if is_blank_key key then (m, true) else elim (make_room key now m) [
  | none ↦ (m, false)
  | some room ↦
      let r = admit_request label now (get_or key zero_circuit room) in (insert key r.0 room, r.1)
]

-- A report on a key that has an entry.
abbrev pub on_entry : Text → (CircuitRuntimeState → CircuitRuntimeState) → States → States
on_entry key f m =
    if is_blank_key key then m else elim (lookup key m) [ none ↦ m | some s ↦ insert key (f s) m ]

unfoldable pub succeed : ℕ → CircuitRuntimeState → CircuitRuntimeState
succeed now s = record s {
  successes = (s.successes + 1) % 2 ^ 64;
  in_flight = s.in_flight - 1;
  consecutive_failures = 0;
  open_count = 0;
  cooldown_until = 0;
  probe_in_flight = false;
  last_error = [];
  last_success_at = now;
  last_access = now;
}

-- success
unfoldable pub success : Text → ℕ → States → States
success key now m = on_entry key (succeed now) m

abbrev pub longest_cooldown : ℕ
longest_cooldown = 15 * minute

-- The cooldown of the n-th opening in a row: doubled up to four times, 15 minutes at most.
unfoldable pub circuit_cooldown : ℕ → ℕ → ℕ
circuit_cooldown base n = min (2 ^ min (n - 1) 4 * base) longest_cooldown

unfoldable pub fail : ℕ → ℕ → Option Text → ℕ → CircuitRuntimeState → CircuitRuntimeState
fail threshold base error now s =
    let t : CircuitRuntimeState = record s {
      in_flight = s.in_flight - 1;
      probe_in_flight = false;
      failures = (s.failures + 1) % 2 ^ 64;
      consecutive_failures = s.consecutive_failures + 1;
      last_failure_at = now;
      last_access = now;
      last_error = elim error [ none ↦ s.last_error | some message ↦ message ];
    } in
    if s.probe_in_flight
      || not (ltb now s.cooldown_until) && leb threshold (s.consecutive_failures + 1)
    then record t {
      open_count = s.open_count + 1;
      cooldown_until = now + circuit_cooldown base (s.open_count + 1);
      consecutive_failures = 0;
    }
    else t

-- failure; the error's text comes redacted and cut.
unfoldable pub failure : Text → ℕ → ℕ → Option Text → ℕ → States → States
failure key threshold base error now m =
    on_entry key (fail (max 1 threshold) (max second base) error now) m

unfoldable pub give_back : CircuitRuntimeState → CircuitRuntimeState
give_back s = record s { probe_in_flight = false; in_flight = s.in_flight - 1 }

-- release
unfoldable pub release : Text → States → States
release key m = on_entry key give_back m
