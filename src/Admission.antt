-- ===== src/Admission.antt =====
-- proxy/api_admission.go: rate and concurrency limits of an API key. A locked section is one
-- function on the manager; the clock's reading is an argument, and a wait is the return value
-- `park`. The notify channel is the number of times that it was closed. Limits and counts are
-- natural numbers: the code treats a limit below zero as no limit, as it does zero.
pub mod Tokens
pub mod World
pub mod Queue
pub mod Rounds
pub mod Steps
use kiro_go_plus.Base.{
  ℕ, suc, ◌+◌, ◌-◌, ◌*◌, ◌/◌, Bool, true, false, not, ◌&&◌, ◌||◌, Option, none, some, ltb, leb,
  if◌then◌else◌, ◌==◌, nat_eq, bytes_eq,
}
use kiro_go_plus.Base.Dict.{Dict, lookup, insert}
use kiro_go_plus.Base.Text.{Text, is_empty}
use kiro_go_plus.Base.Time.{millisecond, second, minute, is_zero_time}

pub record AdmissionState : Type 0 where
  pub window_started : ℕ
  pub requests : ℕ
  pub tokens : ℕ
  pub in_flight : ℕ
  pub waiting : ℕ
  pub notify : ℕ
  pub last_seen : ℕ

abbrev pub Manager : Type 0
Manager = Dict Text AdmissionState

-- The limits of config.ApiKeyEntry.
pub record Entry : Type 0 where
  pub id : Text
  pub requests_per_minute : ℕ
  pub tokens_per_minute : ℕ
  pub max_concurrency : ℕ
  pub queue_capacity : ℕ
  pub queue_timeout_ms : ℕ

pub record Lease : Type 0 where
  pub key_id : Text
  pub tokens_per_minute : ℕ
  pub reserved_tokens : ℕ
  pub reservation_window : ℕ
  pub tokens_finalized : Bool
  pub released : Bool

pub data Reason : Type 0 where
  requests_per_minute_exceeded concurrency_exceeded queue_timed_out : Reason
  tokens_per_minute_exceeded request_canceled : Reason

pub record AuthError : Type 0 where
  pub status : ℕ
  pub reason : Reason
  pub retry_after : ℕ

-- What one round of the loop of Acquire leads to. `park` carries the channel to wait on.
pub data Round : Type 0 where
  admit : Lease → Round
  reject : AuthError → Round
  park : ℕ → Round

unfoldable pub admission_limit_error : Reason → ℕ → AuthError
admission_limit_error reason retry_after = record {
  status = 429;
  reason = reason;
  retry_after = if ltb retry_after second then second else retry_after;
}

abbrev pub fresh_state : ℕ → AdmissionState
fresh_state now = record {
  window_started = now;
  requests = 0;
  tokens = 0;
  in_flight = 0;
  waiting = 0;
  notify = 0;
  last_seen = 0;
}

-- The state that stateLocked returns. The caller stores it under the key.
unfoldable pub state_locked : Text → ℕ → Manager → AdmissionState
state_locked key now m = elim (lookup key m) [ none ↦ fresh_state now | some s ↦ s ]

-- `now.Sub(windowStarted) >= time.Minute` is written as a sum.
unfoldable pub reset_admission_window : AdmissionState → ℕ → AdmissionState
reset_admission_window s now =
    if is_zero_time s.window_started || leb (s.window_started + minute) now
    then record s { window_started = now; requests = 0; tokens = 0 }
    else s

-- `time.Minute - now.Sub(windowStarted)`, where a negative wait is raised by the error to 1 s.
abbrev pub until_window_end : AdmissionState → ℕ → ℕ
until_window_end s now = s.window_started + minute - now

abbrev pub leave_queue : Bool → AdmissionState → AdmissionState
leave_queue queued s = if queued && ltb 0 s.waiting then record s { waiting = s.waiting - 1 } else s

abbrev pub new_lease : Entry → Lease
new_lease e = record {
  key_id = e.id;
  tokens_per_minute = e.tokens_per_minute;
  reserved_tokens = 0;
  reservation_window = 0;
  tokens_finalized = false;
  released = false;
}

-- The limits are off, and Acquire returns no lease and no error.
unfoldable pub is_unlimited : Entry → Bool
is_unlimited e =
    is_empty e.id
    || e.requests_per_minute == 0 && e.tokens_per_minute == 0 && e.max_concurrency == 0

unfoldable pub queue_timeout : Entry → ℕ
queue_timeout e =
    let timeout = e.queue_timeout_ms * millisecond in
    if ltb 0 e.queue_capacity && timeout == 0 then 5 * second else timeout

-- No timeout is the zero deadline.
unfoldable pub deadline_at : Entry → ℕ → ℕ
deadline_at e now = if ltb 0 (queue_timeout e) then now + queue_timeout e else 0

-- The decision of the locked section, on a state whose window is current.
unfoldable pub decide : Entry → Bool → ℕ → AdmissionState → AdmissionState × Round
decide e queued now s =
    if ltb 0 e.requests_per_minute && leb e.requests_per_minute s.requests
    then (
      leave_queue queued s,
      reject (admission_limit_error requests_per_minute_exceeded (until_window_end s now)),
    )
    else if e.max_concurrency == 0 || ltb s.in_flight e.max_concurrency
    then (
      record (leave_queue queued s) { in_flight = s.in_flight + 1; requests = s.requests + 1 },
      admit (new_lease e),
    )
    else if e.queue_capacity == 0 || not queued && leb e.queue_capacity s.waiting
    then (s, reject (admission_limit_error concurrency_exceeded second))
    else ((if queued then s else record s { waiting = s.waiting + 1 }), park s.notify)

-- The locked section of one round.
unfoldable pub acquire_round : Entry → Bool → ℕ → Manager → Manager × Round
acquire_round e queued now m =
    let s = reset_admission_window (state_locked e.id now m) now in
    let (s', r) = decide e queued now (record s { last_seen = now }) in (insert e.id s' m, r)

abbrev pub forget_waiter : Text → Option AdmissionState → Manager → Manager
forget_waiter key none m = m
forget_waiter key (some s) m =
    if ltb 0 s.waiting then insert key (record s { waiting = s.waiting - 1 }) m else m

unfoldable pub cancel_wait : Text → Bool → Manager → Manager
cancel_wait key queued m = if queued then forget_waiter key (lookup key m) m else m

-- How a wait ends.
pub data Wake : Type 0 where
  notified canceled expired : Wake

-- After a round that parks: none goes round again, otherwise the error that Acquire returns.
unfoldable pub after_park : Entry → ℕ → ℕ → Wake → Manager → Manager × Option AuthError
after_park e deadline now wake m =
    if is_zero_time deadline || leb deadline now
    then (cancel_wait e.id true m, some (admission_limit_error queue_timed_out second))
    else elim wake [
      | notified ↦ (m, none)
      | canceled ↦ (
        cancel_wait e.id true m,
        some (record { status = 499; reason = request_canceled; retry_after = 0 }),
      )
      | expired ↦ (cancel_wait e.id true m, some (admission_limit_error queue_timed_out second))
    ]

abbrev pub free_slot : Text → ℕ → Option AdmissionState → Manager → Manager
free_slot key now none m = m
free_slot key now (some s) m =
    insert key (record s { in_flight = s.in_flight - 1; notify = suc s.notify; last_seen = now }) m

-- Lease.Release; closing the channel and making a new one is one step of `notify`.
unfoldable pub release : Lease → ℕ → Manager → Lease × Manager
release l now m =
    if l.released
    then (l, m)
    else (record l { released = true }, free_slot l.key_id now (lookup l.key_id m) m)

-- The reservation is counted from 0 in a new window.
unfoldable pub add_reservation : Lease → ℕ → ℕ → Lease
add_reservation l window tokens =
    if is_zero_time l.reservation_window || not (l.reservation_window == window)
    then record l { reservation_window = window; reserved_tokens = tokens }
    else record l { reserved_tokens = l.reserved_tokens + tokens }

-- What reconciling takes back: the reservation, if it was made in this window.
unfoldable pub reserved_in : Lease → ℕ → ℕ
reserved_in l window =
    if not (is_zero_time l.reservation_window) && l.reservation_window == window
    then l.reserved_tokens
    else 0

-- Lease.ReserveTokens
unfoldable pub reserve_tokens : Lease → ℕ → ℕ → Manager → Lease × Manager × Option AuthError
reserve_tokens l tokens now m =
    if tokens == 0 || l.tokens_per_minute == 0
    then (l, m, none)
    else let s = reset_admission_window (state_locked l.key_id now m) now in
      if ltb l.tokens_per_minute (s.tokens + tokens)
      then (
        l,
        insert l.key_id s m,
        some (admission_limit_error tokens_per_minute_exceeded (until_window_end s now)),
      )
      else (
        add_reservation l s.window_started tokens,
        insert l.key_id (record s { tokens = s.tokens + tokens }) m,
        none,
      )

-- Lease.ReconcileTokens. The count is raised to 0 where it would fall below, as `-` stops at 0.
unfoldable pub reconcile_tokens : Lease → ℕ → ℕ → Manager → Lease × Manager
reconcile_tokens l actual now m =
    if l.tokens_per_minute == 0 || l.tokens_finalized
    then (l, m)
    else let s = reset_admission_window (state_locked l.key_id now m) now in
      (
        record l { tokens_finalized = true },
        insert l.key_id (record s { tokens = s.tokens + actual - reserved_in l s.window_started })
            m,
      )

abbrev pub count_tokens : Text → ℕ → ℕ → Option AdmissionState → Manager → Manager
count_tokens key tokens now none m = m
count_tokens key tokens now (some s) m =
    let s' = reset_admission_window s now in
    insert key (record s' { tokens = s'.tokens + tokens }) m

-- AddTokens
unfoldable pub add_tokens : Text → ℕ → ℕ → Manager → Manager
add_tokens key tokens now m =
    if is_empty key || tokens == 0 then m else count_tokens key tokens now (lookup key m) m

-- The Retry-After header of applyAuthErrorHeaders, in seconds.
unfoldable pub retry_after_seconds : AuthError → Option ℕ
retry_after_seconds err =
    if err.retry_after == 0 then none else some ((err.retry_after + second - 1) / second)
