-- ===== src/Failover/Deadlines.antt =====
-- The delays and the deadline of a search for an account (proxy/account_failover.go).
use kiro_go_plus.Base.{
  ℕ, zero, suc, ◌*◌, ◌^◌, ◌<◌, ◌≤◌, ◌≡◌, arith, min, max, ltb, leb, if◌then◌else◌, nat_eq,
  Bool-cases, inl, inr,
}
use kiro_go_plus.Pool.Circuit.Backoff.{pow_pos, doubled}
use native.Mathlib.Nat.{le-mul_of_pos_right}
use kiro_go_plus.Failover.{
  AccountAttemptController, round_delay, doubled_delay, retry_minimum_delay, retry_maximum_delay,
  retry_initial_delay,
}

doubled_delay-power :
    (rounds delay : ℕ)
    → delay < retry_maximum_delay
    → doubled_delay rounds delay ≡ min retry_maximum_delay (delay * 2 ^ rounds)
unfolding doubled_delay
doubled_delay-power zero delay small = ground arith
doubled_delay-power (suc rounds) delay small =
    let double = doubled delay rounds in
    let grows = le-mul_of_pos_right (delay * 2) (pow_pos rounds) in
    elim (Bool-cases (leb retry_maximum_delay (delay * 2))) [
      | inl large ↦ ground (arith, large, double, grows)
      | inr low ↦
          ground (arith, low, double, doubled_delay-power rounds (delay * 2) (ground (arith, low)))
    ]

-- The delay before the next round lies between 250 ms and 5 s. It is the asked time within these
-- bounds, when one is asked for, and else half a second doubled for each round so far.
pub round_delay-bounds :
    (retry_after : ℕ) (c : AccountAttemptController)
    → (retry_minimum_delay ≤ round_delay retry_after c)
      × (round_delay retry_after c ≤ retry_maximum_delay)
      × (round_delay retry_after c ≡ (
          if ltb 0 retry_after
          then max retry_minimum_delay (min retry_maximum_delay retry_after)
          else min retry_maximum_delay (retry_initial_delay * 2 ^ c.rounds)))
unfolding round_delay
round_delay-bounds retry_after c =
    let law = doubled_delay-power c.rounds retry_initial_delay (omega arith) in
    let grows = le-mul_of_pos_right retry_initial_delay (pow_pos c.rounds) in
    elim (Bool-cases (ltb 0 retry_after)) [
      | inl asked ↦ ground (arith, asked)
      | inr none_asked ↦ ground (arith, none_asked, law, grows)
    ]
