-- ===== src/UpstreamHealth/Probes.antt =====
-- A route that fails is shut, and opens to one request at a time (proxy/upstream_health.go).
use kiro_go_plus.Base.{ℕ, ◌+◌, ◌≡◌, true, not, ◌&&◌, ◌||◌, ltb, leb, max, nat_eq, bytes_eq}
use kiro_go_plus.Base.Text.{Text}
use kiro_go_plus.UpstreamHealth.{CircuitRuntimeState}

-- The failure opens the circuit: it ends a probe, or makes enough of them in a row.
abbrev pub Opens : ℕ → ℕ → CircuitRuntimeState → Type 0
Opens threshold now s =
    (s.probe_in_flight
      || not (ltb now s.cooldown_until) && leb (max 1 threshold) (s.consecutive_failures + 1))
    ≡ true
