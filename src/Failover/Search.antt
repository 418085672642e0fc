-- ===== src/Failover/Search.antt =====
-- The search for an account for one request, and its waits between two rounds
-- (proxy/account_failover.go). The pool may change between two rounds, so that each round has its own.
pub mod Ends
pub mod Clock
pub mod Served
use kiro_go_plus.Base.{
  ℕ, zero, suc, ◌+◌, ◌-◌, Bool, true, false, not, ◌&&◌, Option, none, some, List, [], ltb,
  if◌then◌else◌, ◌==◌, nat_eq, bytes_eq,
}
use kiro_go_plus.Base.Text.{Text}
use kiro_go_plus.Base.Time.{second}
use kiro_go_plus.Pool.{AccountPool, Settings}
use kiro_go_plus.Pool.Account.{Account}
use kiro_go_plus.Pool.Acquire.{
  Acquired, Outcome, acquired, all_busy, nothing, acquire_for_model, get_next_for_model_excluding,
}
use kiro_go_plus.Pool.Circuit.{ProtectionConfig}
use kiro_go_plus.Pool.Select.{has_text}
use kiro_go_plus.Failover.{
  AccountAttemptController, Reading, begin_selection, finish_selection, stop_err,
  selection_time_remaining, next, round_delay,
}

-- A wait for a timer: when the time that remains is read, whether the timer comes before the end of
-- a context, and what stopErr reads then.
pub record Timer : Type 0 where
  pub asked_at : ℕ
  pub fired : Bool
  pub after : Reading

-- A wait for the pool: WaitForAvailabilityWithStatus answers `available`, with the error that the
-- queue is full or not.
pub record Wait : Type 0 where
  pub asked_at : ℕ
  pub started_at : ℕ
  pub available : Bool
  pub queue_full : Bool
  pub ended_at : ℕ
  pub elapsed_at : ℕ
  pub timer : Timer
  pub after : Reading

-- The first test of waitForDelay: -1, for no deadline, ends the wait as 0 does.
abbrev pub may_wait : Option ℕ → Bool
may_wait none = false
may_wait (some remaining) = ltb 0 remaining

-- waitForDelay, for whichever delay.
unfoldable pub wait_for_delay : Timer → AccountAttemptController → AccountAttemptController × Bool
wait_for_delay t c =
    let (d, stopped) = stop_err t.after c in
    if not (may_wait (selection_time_remaining t.asked_at c))
    then (c, false)
    else if t.fired
    then (d, not stopped)
    else (c, false)

-- A delay is cut to a positive time that remains.
abbrev pub cut_to : Option ℕ → ℕ → ℕ
cut_to none delay = delay
cut_to (some remaining) delay = if ltb 0 remaining && ltb remaining delay then remaining else delay

unfoldable pub queue_waited : Wait → AccountAttemptController → AccountAttemptController
queue_waited w c = record c {
  wait_queue_full = w.queue_full;
  queue_wait_elapsed = c.queue_wait_elapsed + (w.ended_at - w.started_at);
  queue_wait_count = suc c.queue_wait_count;
}

-- The rest of the wait after the pool's answer, when it took less than the delay.
unfoldable pub wait_out : Wait → Bool → AccountAttemptController → AccountAttemptController × Bool
wait_out w false c = (c, true)
wait_out w true c = wait_for_delay w.timer c

-- controller.wait, as the handler sets it.
unfoldable pub wait_for_pool : Wait → ℕ → AccountAttemptController → AccountAttemptController × Bool
wait_for_pool w delay c =
    let cut = cut_to (selection_time_remaining w.asked_at c) delay in
    let (d, waited) = wait_out w (ltb (w.elapsed_at - w.started_at) cut) (queue_waited w c) in
    let (e, stopped) = stop_err w.after d in
    if not w.available
    then (queue_waited w c, false)
    else if not waited
    then (d, false)
    else (e, not stopped)

-- What one round of the loop reads.
pub record Round : Type 0 where
  pub next_at : ℕ
  pub next_asks : Reading
  pub pool : AccountPool
  pub acquire_at : ℕ
  pub round_at : ℕ
  pub round_asks : Reading
  pub waits : Wait

-- The last lines of nextRound.
abbrev pub begun_round : AccountAttemptController × Bool → AccountAttemptController × Bool
begun_round (c, waited) =
    if waited then (record c { excluded = []; rounds = suc c.rounds }, true) else (c, false)

-- nextRound
unfoldable pub next_round : Round → ℕ → AccountAttemptController → AccountAttemptController × Bool
next_round r retry_after c =
    let (b, started) = begin_selection r.round_at c in
    let (d, stopped) = stop_err r.round_asks b in
    if not (c.max_attempts == 0)
    then (c, false)
    else if not started
    then (b, false)
    else if stopped
    then (d, false)
    else begun_round (wait_for_pool r.waits (round_delay retry_after d) d)

-- What acquireAccountForModel returns: an account with a guard, one without, the time of a refusal, or
-- nothing.
pub data Answer : Type 0 where
  guarded : Acquired → Answer
  unguarded : Account → Answer
  turned_away : ℕ → Answer
  no_answer : Answer

abbrev pub with_guard : Outcome → Answer
with_guard (acquired a) = guarded a
with_guard (all_busy wait) = turned_away wait
with_guard nothing = no_answer

abbrev pub without_guard : Option Account → Answer
without_guard none = no_answer
without_guard (some acc) = unguarded acc

-- acquireAccountForModel, with AcquireForModel (pool/protection.go): without protection it takes the
-- account of GetNextForModelExcluding, which has no slot.
unfoldable pub acquire_account_for_model :
    Settings
    → ProtectionConfig
    → Text
    → Text
    → (Text → Bool)
    → ℕ
    → AccountPool
    → AccountPool × Answer
acquire_account_for_model st up model route excluded now p = elim up.enabled [
  | false ↦
      let (q, next) = get_next_for_model_excluding p st model excluded now in
      (q, without_guard next)
  | true ↦
      let (q, outcome) = acquire_for_model st up model route excluded now p in
      (q, with_guard outcome)
]

-- What the search returns: an account with or without a guard, the longest wait, that the queue is full (with the wait that
-- waitQueueBusy names), or nothing.
pub data Found : Type 0 where
  found : Acquired → Found
  found_unguarded : Account → Found
  busy_for : ℕ → Found
  queue_busy : ℕ → Found
  no_account : Found
  unfinished : Found

-- waitQueueBusy, or else what was found.
abbrev pub unless_queue_full : AccountAttemptController → Found → Found
unless_queue_full c f = if c.wait_queue_full then queue_busy second else f

-- After a round that has found no account; `go` is the rest of the loop.
abbrev pub after_round :
    (AccountAttemptController → AccountAttemptController × Found)
    → Round
    → ℕ
    → Found
    → AccountAttemptController
    → AccountAttemptController × Found
after_round go r wait f c =
    let (e, again) = next_round r wait c in
    elim again [ true ↦ go e | false ↦ (e, unless_queue_full e f) ]

-- After the answer of acquireAccountForModel.
abbrev pub after_answer :
    (AccountAttemptController → AccountAttemptController × Found)
    → Round
    → AccountAttemptController
    → Answer
    → AccountAttemptController × Found
after_answer go r c (guarded a) = (c, found a)
after_answer go r c (unguarded acc) = (c, found_unguarded acc)
after_answer go r c (turned_away wait) = after_round go r wait (busy_for wait) c
after_answer go r c no_answer = after_round go r 0 no_account c

module _ (st : Settings) (up : ProtectionConfig) (model route : Text) where
  -- The loop of acquireNextAccountForRequest; `env i` is its i-th round.
  unfoldable pub search :
      ℕ → (ℕ → Round) → ℕ → AccountAttemptController → AccountAttemptController × Found
  search zero env i c = (c, unfinished)
  search (suc n) env i c =
      let (d, started) = next (env i).next_at (env i).next_asks c in
      elim started [
        | false ↦ (d, no_account)
        | true ↦
            after_answer (search n env (suc i)) (env i) d
              (acquire_account_for_model st up model route (λ id. has_text id d.excluded)
                (env i).acquire_at (env i).pool).1
      ]

  abbrev pub finished : ℕ → AccountAttemptController × Found → AccountAttemptController × Found
  finished now (c, f) = (finish_selection now c, f)

  -- acquireNextAccountForRequest, but for what it reports to the payload.
  unfoldable pub acquire_next_account :
      ℕ → (ℕ → Round) → ℕ → ℕ → AccountAttemptController → AccountAttemptController × Found
  acquire_next_account fuel env begun ended c =
      let (b, started) = begin_selection begun c in
      elim started [ false ↦ (b, no_account) | true ↦ finished ended (search fuel env 0 b) ]
