-- ===== src/Pool/Circuit/Backoff.antt =====
-- How long a rate limit of pool/protection.go shuts a circuit.
use kiro_go_plus.Base.{
  ℕ, zero, suc, ◌+◌, ◌-◌, ◌*◌, ◌^◌, ◌/◌, ◌≤◌, ◌<◌, ◌≡◌, arith, min, max, nat_eq,
}
use native.Mathlib.Nat.{pow-suc, mod-lt, le-mul_of_pos_right}
use kiro_go_plus.Pool.Circuit.{
  ProtectionConfig, backoff, add_jitter, cooldown_after, or_default, round_ms, max_retry_after_ms,
}

pub pow_pos : (n : ℕ) → 1 ≤ 2 ^ n
pow_pos zero = omega arith
pow_pos (suc n) = rw (pow-suc 2 n) (omega (arith, pow_pos n))

pub doubled : (base n : ℕ) → base * 2 ^ suc n ≡ base * 2 * 2 ^ n
doubled base n = rw (pow-suc 2 n) (omega arith)

-- From a base within the bound, the loop gives the base doubled once a round, or the bound if that
-- is less.
pub backoff-min :
    (rounds base max_ms : ℕ)
    → base ≤ max_ms
    → backoff rounds base max_ms ≡ min (base * 2 ^ rounds) max_ms
unfolding backoff
backoff-min zero base max_ms h = omega arith
backoff-min (suc rounds) base max_ms h =
    rw (doubled base rounds) (ground (arith, backoff-min rounds (base * 2) max_ms, grows))
  where
    grows : base * 2 ≤ base * 2 * 2 ^ rounds
    grows = le-mul_of_pos_right (base * 2) (pow_pos rounds)

jitter_bounds :
    (cooldown max_ms draw : ℕ)
    → cooldown ≤ max_ms
    → (cooldown ≤ add_jitter cooldown max_ms draw)
      × (add_jitter cooldown max_ms draw ≤ max_ms)
      × (add_jitter cooldown max_ms draw ≤ cooldown + max 1 (cooldown / 10))
unfolding add_jitter
jitter_bounds cooldown max_ms draw h =
    ground (arith, mod-lt draw {m = max 1 (cooldown / 10) + 1} (omega arith))

-- With a base cooldown within the bound, the n-th rate limit in a row, with no Retry-After of half
-- a millisecond or more, shuts a circuit for at least the base doubled n - 1 times or the bound,
-- whichever is less, for a tenth (or a millisecond) more at most, and never past the bound.
pub cooldown_after_bounds :
    (n : ℕ) (up : ProtectionConfig) (retry_after draw : ℕ)
    → round_ms retry_after ≡ 0
    → or_default up.rate_limit_cooldown_ms 2000 ≤ or_default up.max_rate_limit_cooldown_ms 60000
    → let max_ms = or_default up.max_rate_limit_cooldown_ms 60000 in
      let exact = min (or_default up.rate_limit_cooldown_ms 2000 * 2 ^ (n - 1)) max_ms in
      let c = cooldown_after n up retry_after draw in
      (exact ≤ c) × (c ≤ max_ms) × (c ≤ exact + max 1 (exact / 10))
unfolding cooldown_after
cooldown_after_bounds n up retry_after draw none_sent h = ground (
  arith,
  backoff-min (n - 1) (or_default up.rate_limit_cooldown_ms 2000)
      (or_default up.max_rate_limit_cooldown_ms 60000) h,
  jitter_bounds
      (backoff (n - 1) (or_default up.rate_limit_cooldown_ms 2000)
        (or_default up.max_rate_limit_cooldown_ms 60000))
      (or_default up.max_rate_limit_cooldown_ms 60000) draw,
)

-- A Retry-After that rounds to a millisecond or more is obeyed in full up to a day, also past the
-- configured bound.
pub cooldown_after_retry :
    (n : ℕ) (up : ProtectionConfig) (retry_after draw : ℕ)
    → 0 < round_ms retry_after
    → (min (round_ms retry_after) max_retry_after_ms ≤ cooldown_after n up retry_after draw)
unfolding cooldown_after
cooldown_after_retry n up retry_after draw h = ground arith
