-- ===== src/Refresh/Counts.antt =====
-- The counters of proxy/refresh_coordinator.go agree with the calls in flight, in any order of steps.
use kiro_go_plus.Base.{
  ℕ, ◌+◌, ◌≤◌, ◌≡◌, refl, Bool, not, ◌&&◌, Option, none, some, [], ltb, leb, max, if◌then◌else◌,
  ◌==◌, nat_eq, bytes_eq, Bool-cases, Option-cases, inl, inr, arith,
}
use kiro_go_plus.Base.Dict.{lookup}
use kiro_go_plus.Base.Keys.{NoDup, insert-NoDup, delete-NoDup}
use kiro_go_plus.Base.Text.{Text, is_empty, trim_space}
use kiro_go_plus.Pool.Account.{Account}
use kiro_go_plus.Refresh.Totals.{is_queued, is_running, total, total-move, total-left}
use kiro_go_plus.Refresh.{
  queued, running, over, TokenRefreshCoordinator, refresh_upstream_block_error,
  mark_refresh_upstream_blocked, start_refresh, refresh_context, drop_queued_refresh, acquire_slot,
  release_slot, finish_run, copied_credentials, token_still_valid, call_key,
  refresh_upstream_block_cooldown,
}

-- The counters are those of the calls in flight, within the bounds, and no account has two calls.
pub record Tallies (capacity limit : ℕ) (c : TokenRefreshCoordinator) : Type 0 where
  pub single : NoDup c.in_flight
  pub waits : c.waiting ≡ total is_queued c.in_flight
  pub runs : c.active ≡ total is_running c.in_flight
  pub within_capacity : c.waiting ≤ capacity
  pub within_limit : c.active ≤ max limit 1

-- One step of a request or of the goroutine of a call, which stands where the step begins.
pub data Step (capacity limit : ℕ) (c : TokenRefreshCoordinator)
    : TokenRefreshCoordinator → Type 0 where
  asks :
      (before : ℕ) (force : Bool) (latest : Option Account) (acc : Account) (now : ℕ)
      → Step capacity limit c (refresh_context capacity before force latest acc now c).0
  tests_block : (now : ℕ) → Step capacity limit c (refresh_upstream_block_error now c).0
  drops :
      (key : Text)
      → lookup key c.in_flight ≡ some queued
      → Step capacity limit c (drop_queued_refresh key c)
  acquires :
      (key : Text)
      → lookup key c.in_flight ≡ some queued
      → Step capacity limit c (acquire_slot limit key c)
  blocks : (now duration : ℕ) → Step capacity limit c (mark_refresh_upstream_blocked now duration c)
  releases :
      (key : Text)
      → lookup key c.in_flight ≡ some running
      → Step capacity limit c (release_slot key c)
  finishes :
      (key : Text) → lookup key c.in_flight ≡ some over → Step capacity limit c (finish_run key c)

start_refresh-Tallies :
    (capacity limit : ℕ) (key : Text) (c : TokenRefreshCoordinator)
    → Tallies capacity limit c
    → Tallies capacity limit (start_refresh capacity key c).0
unfolding start_refresh
start_refresh-Tallies capacity limit key c v = elim (Option-cases (lookup key c.in_flight)) [
  | inr (place, found) ↦ rw (found, start_refresh) v
  | inl missing ↦ elim (Bool-cases (leb capacity c.waiting)) [
    | inl full ↦ rw (missing, full, start_refresh) v
    | inr room ↦
        rw (missing, room, start_refresh)
          (record {
            single = insert-NoDup key queued c.in_flight v.single;
            waits =
                omega (arith, v.waits, total-move is_queued key none queued c.in_flight missing);
            runs = omega (arith, v.runs, total-move is_running key none queued c.in_flight missing);
            within_capacity = ground (arith, room);
            within_limit = v.within_limit;
          })
  ]
]

block-Tallies :
    (capacity limit now : ℕ) (c : TokenRefreshCoordinator)
    → Tallies capacity limit c
    → Tallies capacity limit (refresh_upstream_block_error now c).0
unfolding refresh_upstream_block_error
block-Tallies capacity limit now c v = elim (Bool-cases (leb c.upstream_blocked_until now)) [
  | inl past ↦ rw past (record {
    single = v.single;
    waits = v.waits;
    runs = v.runs;
    within_capacity = v.within_capacity;
    within_limit = v.within_limit;
  })
  | inr blocked ↦ rw blocked v
]

mark-Tallies :
    (capacity limit now duration : ℕ) (c : TokenRefreshCoordinator)
    → Tallies capacity limit c
    → Tallies capacity limit (mark_refresh_upstream_blocked now duration c)
unfolding mark_refresh_upstream_blocked
mark-Tallies capacity limit now duration c v =
    let until = now + (if duration == 0 then refresh_upstream_block_cooldown else duration) in
    elim (Bool-cases (ltb c.upstream_blocked_until until)) [
      | inl later ↦ rw later (record {
        single = v.single;
        waits = v.waits;
        runs = v.runs;
        within_capacity = v.within_capacity;
        within_limit = v.within_limit;
      })
      | inr kept ↦ rw kept v
    ]

refresh_context-Tallies :
    (capacity limit before : ℕ) (force : Bool) (latest : Option Account) (acc : Account) (now : ℕ)
    (c : TokenRefreshCoordinator)
    → Tallies capacity limit c
    → Tallies capacity limit (refresh_context capacity before force latest acc now c).0
unfolding refresh_context
refresh_context-Tallies capacity limit before force latest acc now c v =
    let current = copied_credentials latest acc in
    let d = (refresh_upstream_block_error now c).0 in
    let tested = block-Tallies capacity limit now c v in
    elim (Bool-cases (is_empty (trim_space acc.refresh_token))) [
      | inl none_given ↦ rw none_given v
      | inr given ↦ elim (Bool-cases (not force && token_still_valid current before now)) [
        | inl valid ↦ rw (given, valid) v
        | inr old ↦ elim (Bool-cases (refresh_upstream_block_error now c).1) [
          | inl blocked ↦ rw (given, old, blocked) tested
          | inr free ↦
              rw (given, old, free)
                (start_refresh-Tallies capacity limit (call_key current) d tested)
        ]
      ]
    ]

Step-Tallies :
    (capacity limit : ℕ) {c d : TokenRefreshCoordinator}
    → Step capacity limit c d
    → Tallies capacity limit c
    → Tallies capacity limit d
unfolding drop_queued_refresh acquire_slot release_slot finish_run
Step-Tallies capacity limit {c} (asks before force latest acc now) v =
    refresh_context-Tallies capacity limit before force latest acc now c v
Step-Tallies capacity limit {c} (tests_block now) v = block-Tallies capacity limit now c v
Step-Tallies capacity limit {c} (blocks now duration) v =
    mark-Tallies capacity limit now duration c v
Step-Tallies capacity limit {c} (drops key at) v = record {
  single = insert-NoDup key over c.in_flight v.single;
  waits = omega (arith, v.waits, total-move is_queued key (some queued) over c.in_flight at);
  runs = omega (arith, v.runs, total-move is_running key (some queued) over c.in_flight at);
  within_capacity = omega (arith, v.within_capacity);
  within_limit = v.within_limit;
}
Step-Tallies capacity limit {c} (acquires key at) v =
    elim (Bool-cases (ltb c.active (max limit 1))) [
      | inr full ↦ rw (full, acquire_slot) v
      | inl free ↦
          rw (free, acquire_slot)
            (record {
              single = insert-NoDup key running c.in_flight v.single;
              waits =
                  omega
                    (arith, v.waits, total-move is_queued key (some queued) running c.in_flight at);
              runs =
                  omega
                    (arith, v.runs, total-move is_running key (some queued) running c.in_flight at);
              within_capacity = omega (arith, v.within_capacity);
              within_limit = ground (arith, free);
            })
    ]
Step-Tallies capacity limit {c} (releases key at) v = record {
  single = insert-NoDup key over c.in_flight v.single;
  waits = omega (arith, v.waits, total-move is_queued key (some running) over c.in_flight at);
  runs = omega (arith, v.runs, total-move is_running key (some running) over c.in_flight at);
  within_capacity = v.within_capacity;
  within_limit = omega (arith, v.within_limit);
}
Step-Tallies capacity limit {c} (finishes key at) v = record {
  single = delete-NoDup key c.in_flight v.single;
  waits = omega (arith, v.waits, total-left is_queued key over c.in_flight v.single at);
  runs = omega (arith, v.runs, total-left is_running key over c.in_flight v.single at);
  within_capacity = v.within_capacity;
  within_limit = v.within_limit;
}

abbrev pub idle : TokenRefreshCoordinator
idle = record { in_flight = []; active = 0; waiting = 0; upstream_blocked_until = 0 }

pub data Reach (capacity limit : ℕ) : TokenRefreshCoordinator → Type 0 where
  start : Reach capacity limit idle
  step :
      {c d : TokenRefreshCoordinator}
      → Reach capacity limit c
      → Step capacity limit c d
      → Reach capacity limit d

-- Whatever the requests and the goroutines of their calls do, and in whatever order: an account has
-- one call in flight at most, the counters are the numbers of calls that wait for a slot and that
-- have one, at most `limit` calls run at once (one, when the limit is 0), and no more than the
-- queue's capacity wait.
pub Reach-Tallies :
    (capacity limit : ℕ) {c : TokenRefreshCoordinator}
    → Reach capacity limit c
    → Tallies capacity limit c
Reach-Tallies capacity limit start = record {
  single = tt;
  waits = refl;
  runs = refl;
  within_capacity = omega arith;
  within_limit = omega arith;
}
Reach-Tallies capacity limit (step r s) =
    Step-Tallies capacity limit s (Reach-Tallies capacity limit r)
