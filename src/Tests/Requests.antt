-- ===== src/Tests/Requests.antt =====
-- The admission of requests (proxy/api_admission.go): a key with one slot, a queue of one, 3
-- requests and 100 tokens a minute.
use kiro_go_plus.Base.{
  ℕ, ◌+◌, ◌*◌, ◌≡◌, ◌≤◌, ◌<◌, ◌↔◌, refl, [], ◌∷◌, ◌++◌, none, some, arith, max, if◌then◌else◌, ltb,
  false, nat_eq, bytes_eq,
}
use kiro_go_plus.Base.Dict.{insert, lookup}
use kiro_go_plus.Base.Text.{codes}
use kiro_go_plus.Base.Time.{second}
use kiro_go_plus.Admission.{
  Entry, new_lease, acquire_round, is_unlimited, state_locked, reset_admission_window, decide,
  admission_limit_error, reserve_tokens, reserved_in, reconcile_tokens, tokens_per_minute_exceeded,
  retry_after_seconds,
}
use kiro_go_plus.Admission.Queue.{IsSound}
use kiro_go_plus.Admission.Steps.{Reach-IsSound}
use kiro_go_plus.Admission.Tokens.{
  current, reserve_tokens_bound, reconcile-reserve, retry_after_seconds-limit_error,
}
use kiro_go_plus.Admission.World.{World, Reach, here, next, arrive, after_round, empty_world}

abbrev narrow : Entry
narrow = record {
  id = codes "k1";
  requests_per_minute = 3;
  tokens_per_minute = 100;
  max_concurrency = 1;
  queue_capacity = 1;
  queue_timeout_ms = 0;
}

abbrev one : World
one = after_round (acquire_round narrow false 1000 empty_world.manager) empty_world

abbrev two : World
two = after_round (acquire_round narrow false 2000 one.manager) one

two_parks : two.parked ≡ 0 ∷ []
unfolding acquire_round decide reset_admission_window state_locked lookup insert
two_parks = refl

one_holds : one.leases ≡ [] ++ (new_lease narrow ∷ [])
unfolding acquire_round decide reset_admission_window state_locked lookup insert
one_holds = refl

two_reached : Reach narrow empty_world two
unfolding is_unlimited
two_reached = next (next here (arrive 1000 refl)) (arrive 2000 refl)

Reach-IsSound_example : IsSound narrow two
Reach-IsSound_example = Reach-IsSound narrow two_reached

reserve_tokens_bound_example :
    let l = new_lease narrow in
    let s = current l.key_id 5 [] in
    let r = reserve_tokens l 40 5 [] in
    let s' = current l.key_id 5 r.1 in
    ((r.2 ≡ none) ↔ (s.tokens + 40 ≤ l.tokens_per_minute))
    × (s'.tokens ≤ max l.tokens_per_minute s.tokens)
    × (s'.tokens ≡ (if ltb l.tokens_per_minute (s.tokens + 40) then s.tokens else s.tokens + 40))
unfolding state_locked reset_admission_window lookup
reserve_tokens_bound_example =
    reserve_tokens_bound (new_lease narrow) 40 5 [] (omega arith) (omega arith) (omega arith)

reconcile-reserve_example :
    let l = new_lease narrow in
    let r = reserve_tokens l 40 5 [] in
    let q = reconcile_tokens r.0 25 6 r.1 in (current l.key_id 6 q.1).tokens ≡ 25
unfolding state_locked reset_admission_window lookup reserved_in
reconcile-reserve_example =
    reconcile-reserve (new_lease narrow) 40 25 5 6 [] (omega arith) (omega arith) refl (omega arith)
      (omega arith) (omega arith)

retry_after_seconds-limit_error_example :
    (k : ℕ) × (retry_after_seconds (admission_limit_error tokens_per_minute_exceeded 1500000000)
      ≡ some k)
    × (1 ≤ k)
    × (1500000000 ≤ k * second)
    × (k * second < max 1500000000 second + second)
retry_after_seconds-limit_error_example =
    retry_after_seconds-limit_error tokens_per_minute_exceeded 1500000000
