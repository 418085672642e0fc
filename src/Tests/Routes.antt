-- ===== src/Tests/Routes.antt =====
-- The circuits of endpoints (proxy/upstream_health.go): one route that fails.
use kiro_go_plus.Base.{none, [], ◌∷◌, bytes_eq}
use kiro_go_plus.Base.Text.{Text, codes}
use kiro_go_plus.Base.Time.{second}
use kiro_go_plus.UpstreamHealth.{CircuitRuntimeState, zero_circuit, States, begin, failure}
use kiro_go_plus.UpstreamHealth.Bounds.{IsBounded, start, next, asked, failed, Reach-IsBounded}

abbrev route : Text
route = codes "us-east-1"

abbrev asked_once : States
asked_once = (begin route route second []).0

Reach-IsBounded_example : IsBounded (failure route 1 second none second asked_once)
Reach-IsBounded_example = Reach-IsBounded (
    next (failure route 1 second none second asked_once)
      (next asked_once start (asked route route second)) (failed route 1 second none second))

abbrev busy_route : CircuitRuntimeState
busy_route = record zero_circuit { label = route; in_flight = 1; last_access = second }

abbrev routes : States
routes = (route, busy_route) ∷ []
