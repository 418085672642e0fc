-- ===== src/Failover.antt =====
-- The attempts of one request at accounts (proxy/account_failover.go). Each reading of the clock and
-- of the contexts is an argument; a duration that the code tests only for being positive is a
-- natural number, and nanoseconds count both.
pub mod Search
pub mod Deadlines
pub mod Messages
pub mod Failures
use kiro_go_plus.Base.{
  ℕ, zero, suc, ◌+◌, ◌-◌, ◌*◌, Bool, true, false, not, ◌&&◌, ◌||◌, Option, none, some, List, [],
  ltb, leb, if◌then◌else◌, ◌==◌, nat_eq,
}
use kiro_go_plus.Base.Text.{Text}
use kiro_go_plus.Base.Time.{millisecond, second, is_zero_time}

abbrev pub retry_initial_delay : ℕ
retry_initial_delay = 500 * millisecond

abbrev pub retry_minimum_delay : ℕ
retry_minimum_delay = 250 * millisecond

abbrev pub retry_maximum_delay : ℕ
retry_maximum_delay = 5 * second

abbrev pub unlimited_attempt_minimum : ℕ
unlimited_attempt_minimum = 128

abbrev pub unlimited_attempt_maximum : ℕ
unlimited_attempt_maximum = 512

-- accountAttemptController, without its contexts and its callback.
pub record AccountAttemptController : Type 0 where
  pub max_attempts : ℕ
  pub attempts : ℕ
  pub rounds : ℕ
  pub excluded : List Text
  pub selection_deadline : ℕ
  pub selection_timeout : ℕ
  pub selection_started : ℕ
  pub selection_elapsed : ℕ
  pub selection_active : Bool
  pub selection_timed_out : Bool
  pub unlimited_attempt_cap : ℕ
  pub attempt_cap_reached : Bool
  pub queue_wait_elapsed : ℕ
  pub queue_wait_count : ℕ
  pub wait_queue_full : Bool

unfoldable pub fresh_controller : ℕ → AccountAttemptController
fresh_controller max_attempts = record {
  max_attempts = max_attempts;
  attempts = 0;
  rounds = 0;
  excluded = [];
  selection_deadline = 0;
  selection_timeout = 0;
  selection_started = 0;
  selection_elapsed = 0;
  selection_active = false;
  selection_timed_out = false;
  unlimited_attempt_cap = 0;
  attempt_cap_reached = false;
  queue_wait_elapsed = 0;
  queue_wait_count = 0;
  wait_queue_full = false;
}

-- setSelectionTimeout; a timeout that is not positive reads as 0.
unfoldable pub set_selection_timeout : ℕ → AccountAttemptController → AccountAttemptController
set_selection_timeout timeout c = if timeout == 0 then c else record c {
  selection_timeout = timeout;
  selection_deadline = 0;
  selection_started = 0;
  selection_elapsed = 0;
  selection_active = false;
  selection_timed_out = false;
}

-- Twice the number of accounts, within the bounds.
unfoldable pub attempt_cap : ℕ → ℕ
attempt_cap count =
    let cap =
      if ltb (count * 2) unlimited_attempt_minimum then unlimited_attempt_minimum else count * 2 in
    if ltb unlimited_attempt_maximum cap then unlimited_attempt_maximum else cap

-- newAccountAttemptController of the handler, on a pool of so many accounts.
unfoldable pub new_controller : ℕ → ℕ → ℕ → AccountAttemptController
new_controller max_attempts timeout_seconds count =
    let c = set_selection_timeout (timeout_seconds * second) (fresh_controller max_attempts) in
    if max_attempts == 0 then record c { unlimited_attempt_cap = attempt_cap count } else c

-- beginSelection
unfoldable pub begin_selection : ℕ → AccountAttemptController → AccountAttemptController × Bool
begin_selection now c =
    if c.selection_timeout == 0
    then (c, true)
    else if c.selection_timed_out || c.selection_active
    then (c, not c.selection_timed_out)
    else if leb c.selection_timeout c.selection_elapsed
    then (record c { selection_timed_out = true }, false)
    else (
      record c {
        selection_started = now;
        selection_deadline = now + (c.selection_timeout - c.selection_elapsed);
        selection_active = true;
      },
      true,
    )

-- finishSelection
unfoldable pub finish_selection : ℕ → AccountAttemptController → AccountAttemptController
finish_selection now c = if not c.selection_active then c else record c {
  selection_elapsed = c.selection_elapsed + (now - c.selection_started);
  selection_started = 0;
  selection_deadline = 0;
  selection_active = false;
}

-- What stopErr reads: the clock, and whether the request's context or the server's has ended.
pub record Reading : Type 0 where
  pub now : ℕ
  pub request_done : Bool
  pub shutdown_done : Bool

-- stopErr, with whether it returns an error.
unfoldable pub stop_err : Reading → AccountAttemptController → AccountAttemptController × Bool
stop_err r c =
    if r.request_done || r.shutdown_done
    then (c, true)
    else if c.selection_timed_out || c.attempt_cap_reached
    then (c, true)
    else if not c.selection_active || is_zero_time c.selection_deadline
    then (c, false)
    else if leb c.selection_deadline r.now
    then (record c { selection_timed_out = true }, true)
    else (c, false)

-- selectionTimeRemaining; none is -1.
unfoldable pub selection_time_remaining : ℕ → AccountAttemptController → Option ℕ
selection_time_remaining now c =
    if not c.selection_active || is_zero_time c.selection_deadline
    then none
    else some (c.selection_deadline - now)

-- The last lines of next.
abbrev pub counted_attempt : AccountAttemptController → AccountAttemptController × Bool
counted_attempt c =
    if ltb 0 c.max_attempts && leb c.max_attempts c.attempts
    then (c, false)
    else if c.max_attempts == 0
        && ltb 0 c.unlimited_attempt_cap
        && leb c.unlimited_attempt_cap c.attempts
    then (record c { attempt_cap_reached = true }, false)
    else (record c { attempts = suc c.attempts }, true)

-- next
unfoldable pub next : ℕ → Reading → AccountAttemptController → AccountAttemptController × Bool
next begun r c =
    let (b, started) = begin_selection begun c in
    let (d, stopped) = stop_err r b in
    if not started then (b, false) else if stopped then (d, false) else counted_attempt d

-- The loop of roundDelay, over the rounds so far.
unfoldable pub doubled_delay : ℕ → ℕ → ℕ
doubled_delay zero delay = delay
doubled_delay (suc rounds) delay =
    let rest = doubled_delay rounds (delay * 2) in
    if leb retry_maximum_delay delay
    then delay
    else if leb retry_maximum_delay (delay * 2)
    then retry_maximum_delay
    else rest

-- roundDelay
unfoldable pub round_delay : ℕ → AccountAttemptController → ℕ
round_delay retry_after c =
    if ltb 0 retry_after
    then if ltb retry_after retry_minimum_delay
      then retry_minimum_delay
      else if ltb retry_maximum_delay retry_after
      then retry_maximum_delay
      else retry_after
    else doubled_delay c.rounds retry_initial_delay
