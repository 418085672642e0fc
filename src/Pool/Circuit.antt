-- ===== src/Pool/Circuit.antt =====
-- The circuit of one account and model, or of one profile and model (pool/protection.go): closed,
-- open until a time, or half open with one probe. Reasons of a refusal are kept without their text.
pub mod Phases
pub mod Backoff
use kiro_go_plus.Base.{
  ℕ, zero, suc, ◌+◌, ◌-◌, ◌*◌, ◌/◌, ◌%◌, Bool, true, false, not, ◌&&◌, ◌||◌, Option, none, some,
  ltb, leb, if◌then◌else◌, ◌==◌, nat_eq, max,
}
use kiro_go_plus.Base.Dict.{Dict}
use kiro_go_plus.Base.Text.{Text}
use kiro_go_plus.Base.Time.{millisecond, second, hour, is_zero_time}

pub record RuntimeState : Type 0 where
  pub in_flight : ℕ
  pub rate_limit_count : ℕ
  pub cooldown_until : ℕ
  pub last_cooldown_ms : ℕ
  pub half_open_probe : Bool

abbrev pub zero_state : RuntimeState
zero_state = record {
  in_flight = 0;
  rate_limit_count = 0;
  cooldown_until = 0;
  last_cooldown_ms = 0;
  half_open_probe = false;
}

-- config.UpstreamProtectionConfig
pub record ProtectionConfig : Type 0 where
  pub enabled : Bool
  pub max_per_account_concurrency : ℕ
  pub max_per_account_model_concurrency : ℕ
  pub concurrency_mode : Text
  pub soft_max_per_account_concurrency : ℕ
  pub soft_max_per_account_model_concurrency : ℕ
  pub per_model_concurrency : Dict Text ℕ
  pub per_profile_model_concurrency : Dict Text (Dict Text ℕ)
  pub rate_limit_cooldown_ms : ℕ
  pub max_rate_limit_cooldown_ms : ℕ
  pub route_affinity_ttl_seconds : ℕ
  pub route_affinity_max_entries : ℕ

-- Why a slot is refused, and the wait that is proposed.
pub data Refusal : Type 0 where
  probe_in_flight cooling at_limit : Refusal

pub record Busy : Type 0 where
  pub retry_after : ℕ
  pub refusal : Refusal

unfoldable pub state_busy : RuntimeState → ℕ → ℕ → Option Busy
state_busy s limit now =
    if s.half_open_probe
    then some (record { retry_after = second; refusal = probe_in_flight })
    else if not (is_zero_time s.cooldown_until) && ltb now s.cooldown_until
    then some (record { retry_after = s.cooldown_until - now; refusal = cooling })
    else if leb (if limit == 0 then 1 else limit) s.in_flight
    then some (record { retry_after = second; refusal = at_limit })
    else none

abbrev pub or_default : ℕ → ℕ → ℕ
or_default n d = if n == 0 then d else n

-- `for i := 1; i < rateLimitCount; i++`, by the rounds left.
unfoldable pub backoff : ℕ → ℕ → ℕ → ℕ
backoff zero cooldown_ms max_ms = cooldown_ms
backoff (suc rounds) cooldown_ms max_ms =
    let rest = backoff rounds (cooldown_ms * 2) max_ms in
    if leb max_ms (cooldown_ms * 2) then max_ms else rest

-- retryAfter.Round(time.Millisecond) / time.Millisecond
abbrev pub round_ms : ℕ → ℕ
round_ms d = (d + millisecond / 2) / millisecond

abbrev pub max_retry_after_ms : ℕ
max_retry_after_ms = 24 * hour / millisecond

-- `draw` is what rand.Intn draws from.
unfoldable pub add_jitter : ℕ → ℕ → ℕ → ℕ
add_jitter cooldown_ms max_ms draw =
    let jitter_max = max 1 (cooldown_ms / 10) in
    let jittered = cooldown_ms + draw % (jitter_max + 1) in
    if ltb max_ms jittered then max_ms else jittered

-- The cooldown of the n-th rate limit in a row, in milliseconds.
unfoldable pub cooldown_after : ℕ → ProtectionConfig → ℕ → ℕ → ℕ
cooldown_after n up retry_after draw =
    let max_ms = or_default up.max_rate_limit_cooldown_ms 60000 in
    let base = backoff (n - 1) (or_default up.rate_limit_cooldown_ms 2000) max_ms in
    let retry_ms = round_ms retry_after in
    let cooldown =
      if ltb base retry_ms
      then (if ltb max_retry_after_ms retry_ms then max_retry_after_ms else retry_ms)
      else base in
    if retry_ms == 0 && ltb cooldown max_ms then add_jitter cooldown max_ms draw else cooldown

-- applyProtectionCooldown: the state, and the cooldown as a duration.
unfoldable pub apply_protection_cooldown :
    RuntimeState → ProtectionConfig → ℕ → ℕ → ℕ → RuntimeState × ℕ
apply_protection_cooldown s up now retry_after draw =
    let cooldown_ms = cooldown_after (s.rate_limit_count + 1) up retry_after draw in
    (
      record s {
        rate_limit_count = s.rate_limit_count + 1;
        half_open_probe = false;
        last_cooldown_ms = cooldown_ms;
        cooldown_until = now + cooldown_ms * millisecond;
      },
      cooldown_ms * millisecond,
    )

unfoldable pub activate_half_open_probe : RuntimeState → ℕ → RuntimeState
activate_half_open_probe s now =
    if s.rate_limit_count == 0 || is_zero_time s.cooldown_until || ltb now s.cooldown_until
    then s
    else record s { cooldown_until = 0; half_open_probe = true }

unfoldable pub close_protection_circuit : RuntimeState → RuntimeState
close_protection_circuit s = record s {
  rate_limit_count = 0;
  cooldown_until = 0;
  last_cooldown_ms = 0;
  half_open_probe = false;
}

unfoldable pub reopen_abandoned_half_open_probe : RuntimeState → ProtectionConfig → ℕ → RuntimeState
reopen_abandoned_half_open_probe s up now =
    if not s.half_open_probe || s.rate_limit_count == 0
    then s
    else let delay_ms = or_default (or_default s.last_cooldown_ms up.rate_limit_cooldown_ms) 2000 in
      record s { half_open_probe = false; cooldown_until = now + delay_ms * millisecond }

unfoldable pub protection_state_idle : RuntimeState → Bool
protection_state_idle s =
    s.in_flight == 0
    && is_zero_time s.cooldown_until
    && s.rate_limit_count == 0
    && not s.half_open_probe

pub data CircuitState : Type 0 where
  half_open open_circuit closed : CircuitState

unfoldable pub protection_circuit_state : RuntimeState → ℕ → CircuitState
protection_circuit_state s now =
    if s.half_open_probe
      || ltb 0 s.rate_limit_count
        && not (is_zero_time s.cooldown_until)
        && not (ltb now s.cooldown_until)
    then half_open
    else if not (is_zero_time s.cooldown_until) && ltb now s.cooldown_until
    then open_circuit
    else closed

-- The part of a slot's acquisition and of its release on one circuit.
unfoldable pub occupy : RuntimeState → ℕ → RuntimeState
occupy s now = let t = activate_half_open_probe s now in record t { in_flight = t.in_flight + 1 }

unfoldable pub vacate : RuntimeState → ProtectionConfig → ℕ → RuntimeState
vacate s up now = reopen_abandoned_half_open_probe (record s { in_flight = s.in_flight - 1 }) up now
