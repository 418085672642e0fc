-- ===== src/Failover/Search/Ends.antt =====
-- The search for an account ends, within the attempts that are allowed.
use kiro_go_plus.Base.{
  ℕ, zero, suc, ◌-◌, ◌<◌, ◌≤◌, ◌≡◌, refl, subst, Bool, true, false, inl, inr, arith, ltb,
  if◌then◌else◌, ◌==◌, nat_eq, Bool-cases,
}
use kiro_go_plus.Base.Text.{Text}
use kiro_go_plus.Pool.{Settings}
use kiro_go_plus.Pool.Circuit.{ProtectionConfig}
use kiro_go_plus.Pool.Select.{has_text}
use kiro_go_plus.Failover.{
  AccountAttemptController, Reading, begin_selection, finish_selection, stop_err, counted_attempt,
  next, round_delay, new_controller, fresh_controller, set_selection_timeout, attempt_cap,
  selection_time_remaining,
}
use kiro_go_plus.Failover.Search.{
  Timer, Wait, Round, cut_to, wait_for_delay, queue_waited, wait_out, wait_for_pool, next_round,
  Answer, guarded, unguarded, turned_away, no_answer, acquire_account_for_model, Found, found,
  found_unguarded, busy_for, queue_busy, no_account, unfinished, unless_queue_full, after_round,
  after_answer, search, acquire_next_account,
}

-- The attempts that one request may make.
abbrev pub attempt_limit : AccountAttemptController → ℕ
attempt_limit c = if c.max_attempts == 0 then c.unlimited_attempt_cap else c.max_attempts

-- A step that leaves the attempts and the limits as they were.
abbrev pub Keeps : AccountAttemptController → AccountAttemptController → Type 0
Keeps c d =
    (d.attempts ≡ c.attempts)
    × (d.max_attempts ≡ c.max_attempts)
    × (d.unlimited_attempt_cap ≡ c.unlimited_attempt_cap)

begin_selection-Keeps : (now : ℕ) (c : AccountAttemptController) → Keeps c (begin_selection now c).0
unfolding begin_selection
begin_selection-Keeps now c = ground arith

finish_selection-Keeps : (now : ℕ) (c : AccountAttemptController) → Keeps c (finish_selection now c)
unfolding finish_selection
finish_selection-Keeps now c = ground arith

stop_err-Keeps : (r : Reading) (c : AccountAttemptController) → Keeps c (stop_err r c).0
unfolding stop_err
stop_err-Keeps r c = ground arith

wait_for_delay-Keeps : (t : Timer) (c : AccountAttemptController) → Keeps c (wait_for_delay t c).0
unfolding wait_for_delay
wait_for_delay-Keeps t c = ground (arith, stop_err-Keeps t.after c)

wait_out-Keeps : (w : Wait) (b : Bool) (c : AccountAttemptController) → Keeps c (wait_out w b c).0
unfolding wait_out
wait_out-Keeps w false c = (refl, refl, refl)
wait_out-Keeps w true c = wait_for_delay-Keeps w.timer c

Keeps-trans : (c d e : AccountAttemptController) → Keeps c d → Keeps d e → Keeps c e
Keeps-trans c d e h k = ground (arith, h, k)

wait_for_pool-Keeps :
    (w : Wait) (delay : ℕ) (c : AccountAttemptController) → Keeps c (wait_for_pool w delay c).0
unfolding wait_for_pool queue_waited
wait_for_pool-Keeps w delay c =
    let cut = cut_to (selection_time_remaining w.asked_at c) delay in
    let short = ltb (w.elapsed_at - w.started_at) cut in
    let d = (wait_out w short (queue_waited w c)).0 in
    ground (arith, wait_out-Keeps w short (queue_waited w c), stop_err-Keeps w.after d)

next_round-Keeps :
    (r : Round) (retry_after : ℕ) (c : AccountAttemptController)
    → Keeps c (next_round r retry_after c).0
unfolding next_round
next_round-Keeps r retry_after c =
    let b = (begin_selection r.round_at c).0 in
    let d = (stop_err r.round_asks b).0 in
    ground (
      arith,
      begin_selection-Keeps r.round_at c,
      stop_err-Keeps r.round_asks b,
      wait_for_pool-Keeps r.waits (round_delay retry_after d) d,
    )

-- An attempt that is granted is counted, and is one of those that are allowed.
abbrev pub Counts : AccountAttemptController → AccountAttemptController × Bool → Type 0
Counts c (d, true) =
    (d.attempts ≡ suc c.attempts)
    × (d.max_attempts ≡ c.max_attempts)
    × (d.unlimited_attempt_cap ≡ c.unlimited_attempt_cap)
    × (0 < attempt_limit c → d.attempts ≤ attempt_limit c)
Counts c (d, false) = Keeps c d

counted_attempt-Counts : (c : AccountAttemptController) → Counts c (counted_attempt c)
counted_attempt-Counts c = ground arith

next-Counts : (begun : ℕ) (r : Reading) (c : AccountAttemptController) → Counts c (next begun r c)
unfolding next
next-Counts begun r c =
    let b = (begin_selection begun c).0 in
    let d = (stop_err r b).0 in
    ground (arith, begin_selection-Keeps begun c, stop_err-Keeps r b, counted_attempt-Counts d)

abbrev pub is_unfinished : Found → Bool
is_unfinished unfinished = true
is_unfinished (found a) = false
is_unfinished (found_unguarded acc) = false
is_unfinished (busy_for wait) = false
is_unfinished (queue_busy wait) = false
is_unfinished no_account = false

unless_queue_full-finished :
    (c : AccountAttemptController) (f : Found)
    → is_unfinished f ≡ false
    → is_unfinished (unless_queue_full c f) ≡ false
unless_queue_full-finished c f h = elim (Bool-cases c.wait_queue_full) [
  | inl full ↦ rw full refl
  | inr free ↦ rw free h
]

-- The search has returned, with no more attempts than are allowed.
abbrev pub Ends : ℕ → AccountAttemptController × Found → Type 0
Ends limit (c, f) = (is_unfinished f ≡ false) × (c.attempts ≤ limit)

-- The rest of the loop ends with the controllers that a round leaves.
abbrev pub EndsAfter :
    ℕ
    → (AccountAttemptController → AccountAttemptController × Found)
    → AccountAttemptController
    → Type 0
EndsAfter limit go c = (e : AccountAttemptController) → Keeps c e → Ends limit (go e)

after_round-Ends :
    (go : AccountAttemptController → AccountAttemptController × Found) (r : Round) (wait limit : ℕ)
    (f : Found) (c : AccountAttemptController)
    → is_unfinished f ≡ false
    → c.attempts ≤ limit
    → EndsAfter limit go c
    → Ends limit (after_round go r wait f c)
after_round-Ends go r wait limit f c done within rest =
    let keeps = next_round-Keeps r wait c in
    let e = (next_round r wait c).0 in
    elim (Bool-cases (next_round r wait c).1) [
      | inl again ↦ rw (again, after_round) (rest e keeps)
      | inr over ↦
          rw (over, after_round) (unless_queue_full-finished e f done, omega (arith, keeps, within))
    ]

after_answer-Ends :
    (go : AccountAttemptController → AccountAttemptController × Found) (r : Round) (limit : ℕ)
    (c : AccountAttemptController) (o : Answer)
    → c.attempts ≤ limit
    → EndsAfter limit go c
    → Ends limit (after_answer go r c o)
after_answer-Ends go r limit c (guarded a) within rest = (refl, within)
after_answer-Ends go r limit c (unguarded acc) within rest = (refl, within)
after_answer-Ends go r limit c (turned_away wait) within rest =
    after_round-Ends go r wait limit (busy_for wait) c refl within rest
after_answer-Ends go r limit c no_answer within rest =
    after_round-Ends go r 0 limit no_account c refl within rest

Counts-true :
    (begun : ℕ) (r : Reading) (c : AccountAttemptController)
    → (next begun r c).1 ≡ true
    → Counts c ((next begun r c).0, true)
Counts-true begun r c started =
    subst (λ b. Counts c ((next begun r c).0, b)) started (next-Counts begun r c)

module _ (st : Settings) (up : ProtectionConfig) (model route : Text) (env : ℕ → Round) where
  pub search-Ends :
      (n i : ℕ) (c : AccountAttemptController)
      → 0 < attempt_limit c
      → c.attempts ≤ attempt_limit c
      → attempt_limit c - c.attempts < n
      → Ends (attempt_limit c) (search st up model route n env i c)
  unfolding search
  search-Ends zero i c positive within enough = ground (arith, enough)
  search-Ends (suc n) i c positive within enough =
      let r = env i in
      let (d, started) = next r.next_at r.next_asks c in
      let answer =
        (acquire_account_for_model st up model route (λ id. has_text id d.excluded) r.acquire_at
          r.pool).1 in
      elim (Bool-cases (next r.next_at r.next_asks c).1) [
        | inr over ↦
            rw (over, search)
              (refl, ground (arith, next-Counts r.next_at r.next_asks c, over, within))
        | inl go ↦
            let (counted, same, same', bound) = Counts-true r.next_at r.next_asks c go in
            let limit : attempt_limit d ≡ attempt_limit c = ground (arith, same, same') in
            rw (go, search)
              (after_answer-Ends (search st up model route n env (suc i)) r (attempt_limit c) d
                answer (bound positive)
                (λ e keeps.
                  let limit' : attempt_limit e ≡ attempt_limit c = ground (arith, keeps, limit) in
                  subst (λ l. Ends l (search st up model route n env (suc i) e)) limit'
                    (search-Ends n (suc i) e (omega (arith, limit', positive))
                      (omega (arith, limit', keeps, bound positive))
                      (omega (arith, limit', keeps, counted, enough, bound positive)))))
      ]

  -- A search with a positive limit of attempts, of which some are left or none, returns whatever the
  -- pools, the clock, the contexts and the waits are: as many rounds as attempts are left, and one
  -- more, are enough. It returns an account, the wait, that the queue is full, or nothing, and the
  -- attempts stay within the limit.
  pub acquire_next_account-Ends :
      (fuel begun ended : ℕ) (c : AccountAttemptController)
      → 0 < attempt_limit c
      → c.attempts ≤ attempt_limit c
      → attempt_limit c - c.attempts < fuel
      → Ends (attempt_limit c) (acquire_next_account st up model route fuel env begun ended c)
  unfolding acquire_next_account
  acquire_next_account-Ends fuel begun ended c positive within enough =
      let b = (begin_selection begun c).0 in
      let keeps = begin_selection-Keeps begun c in
      let limit : attempt_limit b ≡ attempt_limit c = ground (arith, keeps) in
      elim (Bool-cases (begin_selection begun c).1) [
        | inr over ↦ rw (over, acquire_next_account) (refl, ground (arith, keeps, within))
        | inl started ↦
            let ends =
              search-Ends fuel 0 b (omega (arith, limit, positive))
                (omega (arith, limit, keeps, within)) (omega (arith, limit, keeps, enough)) in
            rw (started, acquire_next_account)
              (
                ends.0,
                omega (
                  arith,
                  limit,
                  ends.1,
                  finish_selection-Keeps ended (search st up model route fuel env 0 b).0,
                ),
              )
      ]

-- The handler's controllers have a positive limit.
pub new_controller-limit :
    (max_attempts timeout_seconds count : ℕ)
    → (0 < attempt_limit (new_controller max_attempts timeout_seconds count))
      × ((new_controller max_attempts timeout_seconds count).attempts ≡ 0)
unfolding new_controller fresh_controller set_selection_timeout attempt_cap
new_controller-limit zero timeout_seconds count = ground arith
new_controller-limit (suc n) timeout_seconds count = ground arith
