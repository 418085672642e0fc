-- ===== src/Tests/Circuits.antt =====
-- The circuit of pool/protection.go: a rate limit, its cooldown and its probe.
use kiro_go_plus.Base.{◌+◌, ◌*◌, ◌^◌, ◌/◌, ◌≤◌, ◌≡◌, refl, true, false, none, [], arith, min, max}
use kiro_go_plus.Base.Text.{codes}
use kiro_go_plus.Base.Time.{second}
use kiro_go_plus.Pool.Circuit.{
  RuntimeState, ProtectionConfig, state_busy, occupy, vacate, cooldown_after,
  reopen_abandoned_half_open_probe,
}
use kiro_go_plus.Pool.Circuit.Phases.{Phase, cooling_down, granted, Event-Phase, vacate_ends_probe}
use kiro_go_plus.Pool.Circuit.Backoff.{cooldown_after_bounds}

abbrev pub settings : ProtectionConfig
settings = record {
  enabled = true;
  max_per_account_concurrency = 2;
  max_per_account_model_concurrency = 2;
  concurrency_mode = codes "hard";
  soft_max_per_account_concurrency = 0;
  soft_max_per_account_model_concurrency = 0;
  per_model_concurrency = [];
  per_profile_model_concurrency = [];
  rate_limit_cooldown_ms = 2000;
  max_rate_limit_cooldown_ms = 60000;
  route_affinity_ttl_seconds = 3600;
  route_affinity_max_entries = 2;
}

-- One request in flight, and an open circuit until 5 s.
abbrev opened : RuntimeState
opened = record {
  in_flight = 1;
  rate_limit_count = 1;
  cooldown_until = 5 * second;
  last_cooldown_ms = 2000;
  half_open_probe = false;
}

-- The probe is out beside the older request.
abbrev probed : RuntimeState
probed = record {
  in_flight = 2;
  rate_limit_count = 1;
  cooldown_until = 0;
  last_cooldown_ms = 2000;
  half_open_probe = true;
}

opened_free : state_busy opened 2 (6 * second) ≡ none
unfolding state_busy
opened_free = refl

Event-Phase_example : Phase (occupy opened (6 * second))
Event-Phase_example =
    Event-Phase settings opened (occupy opened (6 * second))
      (granted 2 (6 * second) (omega arith) opened_free)
      (cooling_down (omega arith) (omega arith) refl)

probed_over : (vacate probed settings second).cooldown_until ≤ 100 * second
unfolding vacate reopen_abandoned_half_open_probe
probed_over = ground arith

vacate_ends_probe_example :
    (1 ≤ (vacate probed settings second).in_flight)
    × (state_busy (vacate probed settings second) 2 (100 * second) ≡ none)
    × ((occupy (vacate probed settings second) (100 * second)).half_open_probe ≡ true)
vacate_ends_probe_example =
    vacate_ends_probe probed settings 2 second (100 * second) refl (omega arith) (omega arith)
      (omega arith) probed_over (omega arith)

cooldown_after_bounds_example :
    let exact = min (2000 * 2 ^ 2) 60000 in
    let c = cooldown_after 3 settings 0 77 in
    (exact ≤ c) × (c ≤ 60000) × (c ≤ exact + max 1 (exact / 10))
cooldown_after_bounds_example = cooldown_after_bounds 3 settings 0 77 refl (omega arith)
