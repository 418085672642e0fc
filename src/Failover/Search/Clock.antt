-- ===== src/Failover/Search/Clock.antt =====
-- The time that a request spends on its searches for an account (proxy/account_failover.go).
use kiro_go_plus.Base.{
  ℕ, ◌+◌, ◌-◌, ◌<◌, ◌≡◌, Bool, true, false, inl, inr, arith, ltb, nat_eq, Bool-cases, ◌∷◌,
}
use kiro_go_plus.Base.Text.{Text}
use kiro_go_plus.Failover.{
  AccountAttemptController, Reading, begin_selection, finish_selection, stop_err, next, round_delay,
  selection_time_remaining, new_controller, fresh_controller, set_selection_timeout,
}
use kiro_go_plus.Failover.Search.{
  Wait, Round, cut_to, wait_for_delay, queue_waited, wait_out, wait_for_pool, next_round,
}

-- While a search runs, its deadline is the time that the earlier ones have left after its start.
abbrev pub IsTimed : AccountAttemptController → Type 0
IsTimed c =
    c.selection_active ≡ true
    → (c.selection_elapsed < c.selection_timeout)
      × (c.selection_deadline ≡ c.selection_started + (c.selection_timeout - c.selection_elapsed))

begin_selection-IsTimed :
    (now : ℕ) (c : AccountAttemptController) → IsTimed c → IsTimed (begin_selection now c).0
unfolding begin_selection
begin_selection-IsTimed now c h = ground (arith, h)

finish_selection-IsTimed :
    (now : ℕ) (c : AccountAttemptController) → IsTimed c → IsTimed (finish_selection now c)
unfolding finish_selection
finish_selection-IsTimed now c h = ground (arith, h)

stop_err-IsTimed :
    (r : Reading) (c : AccountAttemptController) → IsTimed c → IsTimed (stop_err r c).0
unfolding stop_err
stop_err-IsTimed r c h = ground (arith, h)

wait_out-IsTimed :
    (w : Wait) (b : Bool) (c : AccountAttemptController) → IsTimed c → IsTimed (wait_out w b c).0
unfolding wait_out wait_for_delay
wait_out-IsTimed w false c h = h
wait_out-IsTimed w true c h = ground (arith, h, stop_err-IsTimed w.timer.after c h)

wait_for_pool-IsTimed :
    (w : Wait) (delay : ℕ) (c : AccountAttemptController)
    → IsTimed c
    → IsTimed (wait_for_pool w delay c).0
unfolding wait_for_pool queue_waited
wait_for_pool-IsTimed w delay c h =
    let cut = cut_to (selection_time_remaining w.asked_at c) delay in
    let short = ltb (w.elapsed_at - w.started_at) cut in
    let d = (wait_out w short (queue_waited w c)).0 in
    let waited = wait_out-IsTimed w short (queue_waited w c) h in
    ground (arith, h, waited, stop_err-IsTimed w.after d waited)

next_round-IsTimed :
    (r : Round) (retry_after : ℕ) (c : AccountAttemptController)
    → IsTimed c
    → IsTimed (next_round r retry_after c).0
unfolding next_round
next_round-IsTimed r retry_after c h =
    let b = (begin_selection r.round_at c).0 in
    let begun = begin_selection-IsTimed r.round_at c h in
    let d = (stop_err r.round_asks b).0 in
    let stopped = stop_err-IsTimed r.round_asks b begun in
    ground (
      arith,
      h,
      begun,
      stopped,
      wait_for_pool-IsTimed r.waits (round_delay retry_after d) d stopped,
    )

next-IsTimed :
    (begun : ℕ) (r : Reading) (c : AccountAttemptController)
    → IsTimed c
    → IsTimed (next begun r c).0
unfolding next
next-IsTimed begun r c h =
    let b = (begin_selection begun c).0 in
    let timed = begin_selection-IsTimed begun c h in
    ground (arith, timed, stop_err-IsTimed r b timed)

new_controller-IsTimed :
    (max_attempts timeout_seconds count : ℕ)
    → IsTimed (new_controller max_attempts timeout_seconds count)
unfolding new_controller fresh_controller set_selection_timeout
new_controller-IsTimed max_attempts timeout_seconds count = ground arith

-- The controllers of a request: the calls of one search and of the next ones, in any order.
pub data Controls : AccountAttemptController → Type 0 where
  created :
      (max_attempts timeout_seconds count : ℕ)
      → Controls (new_controller max_attempts timeout_seconds count)
  begins :
      {c : AccountAttemptController} (now : ℕ) → Controls c → Controls (begin_selection now c).0
  asks :
      {c : AccountAttemptController} (begun : ℕ) (r : Reading)
      → Controls c
      → Controls (next begun r c).0
  waits :
      {c : AccountAttemptController} (r : Round) (retry_after : ℕ)
      → Controls c
      → Controls (next_round r retry_after c).0
  ends : {c : AccountAttemptController} (now : ℕ) → Controls c → Controls (finish_selection now c)
  excludes :
      {c : AccountAttemptController} (id : Text)
      → Controls c
      → Controls (record c { excluded = id ∷ c.excluded })

Controls-IsTimed : {c : AccountAttemptController} → Controls c → IsTimed c
Controls-IsTimed (created max_attempts timeout_seconds count) =
    new_controller-IsTimed max_attempts timeout_seconds count
Controls-IsTimed (begins {c} now h) = begin_selection-IsTimed now c (Controls-IsTimed h)
Controls-IsTimed (asks {c} begun r h) = next-IsTimed begun r c (Controls-IsTimed h)
Controls-IsTimed (waits {c} r retry_after h) =
    next_round-IsTimed r retry_after c (Controls-IsTimed h)
Controls-IsTimed (ends {c} now h) = finish_selection-IsTimed now c (Controls-IsTimed h)
Controls-IsTimed (excludes {c} id h) = Controls-IsTimed h

-- What an attempt that is granted tells of the time.
abbrev pub InTime : Reading → AccountAttemptController → Type 0
InTime r c =
    (c.selection_active ≡ true)
    × (c.selection_elapsed + (r.now - c.selection_started) < c.selection_timeout)
    × (r.request_done ≡ false)
    × (r.shutdown_done ≡ false)

begin_selection-active :
    (now : ℕ) (c : AccountAttemptController)
    → 0 < c.selection_timeout
    → (begin_selection now c).1 ≡ true
    → ((begin_selection now c).0.selection_active ≡ true)
      × ((begin_selection now c).0.selection_timeout ≡ c.selection_timeout)
unfolding begin_selection
begin_selection-active now c positive h = ground (arith, positive, h)

stop_err-go :
    (r : Reading) (c : AccountAttemptController)
    → c.selection_active ≡ true
    → IsTimed c
    → (stop_err r c).1 ≡ false
    → ((stop_err r c).0 ≡ c) × InTime r c
unfolding stop_err
stop_err-go r c active h go = ground (arith, active, h, go)

-- A request with a timeout for its searches makes an attempt only while they have taken less than the
-- timeout so far, the running one counted up to the test, and while neither its context nor the
-- server's has ended. This holds after whichever calls came before.
pub next-InTime :
    (begun : ℕ) (r : Reading) (c : AccountAttemptController)
    → Controls c
    → 0 < c.selection_timeout
    → (next begun r c).1 ≡ true
    → InTime r (next begun r c).0
unfolding next
next-InTime begun r c h positive granted =
    let b = (begin_selection begun c).0 in
    let timed = begin_selection-IsTimed begun c (Controls-IsTimed h) in
    elim (Bool-cases (begin_selection begun c).1) [
      | inr over ↦ ground (arith, over, granted)
      | inl started ↦
          let (active, _) = begin_selection-active begun c positive started in
          elim (Bool-cases (stop_err r b).1) [
            | inl stopped ↦ ground (arith, started, stopped, granted)
            | inr go ↦
                let (same, fits) = stop_err-go r b active timed go in
                ground (arith, started, go, granted, fits, same)
          ]
    ]
