-- ===== src/Pool/Circuit/Phases.antt =====
-- The circuit of pool/protection.go as a state machine: three phases that every operation keeps.
use kiro_go_plus.Base.{ℕ, ◌≤◌, ◌<◌, ◌≡◌, refl, true, false, none, arith, nat_eq}
use kiro_go_plus.Pool.Circuit.{
  RuntimeState, ProtectionConfig, state_busy, apply_protection_cooldown, activate_half_open_probe,
  close_protection_circuit, reopen_abandoned_half_open_probe, occupy, vacate,
}

-- No rate limit is remembered; or one is, until a time; or a probe is in flight.
pub data Phase (s : RuntimeState) : Type 0 where
  calm : s.rate_limit_count ≡ 0 → s.cooldown_until ≡ 0 → s.half_open_probe ≡ false → Phase s
  cooling_down : 0 < s.rate_limit_count → 0 < s.cooldown_until → s.half_open_probe ≡ false → Phase s
  probing :
      0 < s.rate_limit_count
      → s.cooldown_until ≡ 0
      → s.half_open_probe ≡ true
      → 0 < s.in_flight
      → Phase s

-- What happens to a circuit: a slot is granted, a slot is given back, a rate limit or a success is
-- reported. Times after the zero time, and a probe that was not granted to a busy circuit.
pub data Event (up : ProtectionConfig) (s : RuntimeState) : RuntimeState → Type 0 where
  granted : (limit now : ℕ) → 0 < now → state_busy s limit now ≡ none → Event up s (occupy s now)
  given_back : (now : ℕ) → 0 < now → Event up s (vacate s up now)
  limited :
      (now retry_after draw : ℕ)
      → 0 < now
      → Event up s (apply_protection_cooldown s up now retry_after draw).0
  succeeded : Event up s (close_protection_circuit s)

granted-Phase :
    (s : RuntimeState) (limit now : ℕ)
    → 0 < now
    → state_busy s limit now ≡ none
    → Phase s
    → Phase (occupy s now)
unfolding occupy activate_half_open_probe state_busy
granted-Phase s limit now h free (calm n u p) = calm (ground arith) (ground arith) (ground arith)
granted-Phase s limit now h free (cooling_down n u p) =
    probing (ground arith) (ground arith) (ground arith) (ground arith)
granted-Phase s limit now h free (probing n u p f) = absurd (ground arith)

given_back-Phase :
    (s : RuntimeState) (up : ProtectionConfig) (now : ℕ)
    → 0 < now
    → Phase s
    → Phase (vacate s up now)
unfolding vacate reopen_abandoned_half_open_probe
given_back-Phase s up now h (calm n u p) = calm (ground arith) (ground arith) (ground arith)
given_back-Phase s up now h (cooling_down n u p) =
    cooling_down (ground arith) (ground arith) (ground arith)
given_back-Phase s up now h (probing n u p f) =
    cooling_down (ground arith) (ground arith) (ground arith)

limited-Phase :
    (s : RuntimeState) (up : ProtectionConfig) (now retry_after draw : ℕ)
    → 0 < now
    → Phase (apply_protection_cooldown s up now retry_after draw).0
unfolding apply_protection_cooldown
limited-Phase s up now retry_after draw h =
    cooling_down (ground arith) (ground arith) (ground arith)

-- A slot that is granted to a circuit that is not busy, a slot that is given back, a rate limit
-- and a success each keep the circuit in one of its three phases, at times after the zero time.
pub Event-Phase : (up : ProtectionConfig) (s t : RuntimeState) → Event up s t → Phase s → Phase t
unfolding close_protection_circuit
Event-Phase up s t (granted limit now h free) p = granted-Phase s limit now h free p
Event-Phase up s t (given_back now h) p = given_back-Phase s up now h p
Event-Phase up s t (limited now retry_after draw h) p = limited-Phase s up now retry_after draw h
Event-Phase up s t succeeded p = calm refl refl refl

-- A probe is ended by any release on its circuit, its own or that of a request that was granted
-- before the rate limit: with two or more in flight, within the limit, one at least is left, and
-- once the new cooldown is over another probe is granted beside it.
pub vacate_ends_probe :
    (s : RuntimeState) (up : ProtectionConfig) (limit now later : ℕ)
    → s.half_open_probe ≡ true
    → 0 < s.rate_limit_count
    → 2 ≤ s.in_flight
    → s.in_flight ≤ limit
    → (vacate s up now).cooldown_until ≤ later
    → 0 < now
    → (1 ≤ (vacate s up now).in_flight)
      × (state_busy (vacate s up now) limit later ≡ none)
      × ((occupy (vacate s up now) later).half_open_probe ≡ true)
unfolding vacate reopen_abandoned_half_open_probe occupy activate_half_open_probe state_busy
vacate_ends_probe s up limit now later probe n two room over h = ground arith
