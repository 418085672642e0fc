-- ===== src/Tests/Failover.antt =====
-- The failover of proxy/account_failover.go, on the pool of two accounts.
use kiro_go_plus.Base.{
  ℕ, ◌+◌, ◌*◌, ◌^◌, ◌<◌, ◌≤◌, ◌≡◌, refl, true, false, none, some, [], ◌∷◌, arith, min, max, ltb,
  if◌then◌else◌, bytes_eq,
}
use kiro_go_plus.Base.Text.{codes}
use kiro_go_plus.Base.Time.{second}
use kiro_go_plus.Base.Dict.{insert, lookup}
use kiro_go_plus.Config.Accounts.{
  StoredAccount, with_stats, update_account_stats_batch, enabled_accounts,
}
use kiro_go_plus.Pool.Account.{has_account}
use kiro_go_plus.Pool.Changes.{rebuild}
use kiro_go_plus.Pool.Cooldowns.{account_index, account_stats, index_accounts}
use kiro_go_plus.Pool.Reload.{reload, flush_account_stats, stats_updates}
use kiro_go_plus.Failover.{
  AccountAttemptController, Reading, new_controller, fresh_controller, set_selection_timeout,
  begin_selection, stop_err, next, round_delay, retry_minimum_delay, retry_maximum_delay,
  retry_initial_delay,
}
use kiro_go_plus.Failover.Deadlines.{round_delay-bounds}
use kiro_go_plus.Failover.Failures.{
  UpstreamErrorKind, suspended, Failure, Dispatch, Readings, reaction_to, kind_of,
  handle_account_failure,
}
use kiro_go_plus.Failover.Failures.Bans.{is_ban, handle_account_failure-gone}
use kiro_go_plus.Failover.Search.{Wait, Round, acquire_next_account}
use kiro_go_plus.Failover.Search.Clock.{Controls, created, InTime, next-InTime}
use kiro_go_plus.Failover.Search.Served.{FoundFrom, acquire_next_account-FoundFrom}
use kiro_go_plus.Failover.Search.Ends.{attempt_limit, Ends, acquire_next_account-Ends}
use kiro_go_plus.Tests.Circuits.{settings}
use kiro_go_plus.Tests.Selection.{pair, in_turn, beta}
use kiro_go_plus.Tests.Slots.{alpha}

-- Three attempts, and ten seconds for the search.
abbrev three : AccountAttemptController
three = new_controller 3 10 2

abbrev at : ℕ → Reading
at t = record { now = t; request_done = false; shutdown_done = false }

abbrev waiting : ℕ → Wait
waiting t = record {
  asked_at = t;
  started_at = t;
  available = true;
  queue_full = false;
  ended_at = t + second;
  elapsed_at = t + second;
  timer = record { asked_at = t + second; fired = true; after = at (t + second) };
  after = at (t + second);
}

abbrev rounds : ℕ → Round
rounds i = record {
  next_at = i * second;
  next_asks = at (i * second);
  pool = pair;
  acquire_at = i * second;
  round_at = i * second;
  round_asks = at (i * second);
  waits = waiting (i * second);
}

three_allowed : attempt_limit three ≡ 3
unfolding new_controller fresh_controller set_selection_timeout
three_allowed = refl

none_made : three.attempts ≡ 0
unfolding new_controller fresh_controller set_selection_timeout
none_made = refl

acquire_next_account-Ends_example :
    Ends
      (attempt_limit three)
      (acquire_next_account in_turn settings (codes "m") [] 4 rounds second (9 * second) three)
acquire_next_account-Ends_example =
    acquire_next_account-Ends in_turn settings (codes "m") [] rounds 4 second (9 * second) three
      (omega (arith, three_allowed)) (omega (arith, none_made)) (omega (arith, three_allowed))

acquire_next_account-FoundFrom_example :
    FoundFrom in_turn settings
      (codes "m")
      []
      rounds
      0
      three.excluded
      (acquire_next_account in_turn settings (codes "m") [] 4 rounds second (9 * second) three).1
acquire_next_account-FoundFrom_example =
    acquire_next_account-FoundFrom in_turn settings (codes "m") [] rounds 4 second (9 * second)
      three

round_delay-bounds_example :
    (retry_minimum_delay ≤ round_delay second three)
    × (round_delay second three ≤ retry_maximum_delay)
    × (round_delay second three ≡ (
        if ltb 0 second
        then max retry_minimum_delay (min retry_maximum_delay second)
        else min retry_maximum_delay (retry_initial_delay * 2 ^ three.rounds)))
round_delay-bounds_example = round_delay-bounds second three

abbrev searching : AccountAttemptController
searching = (begin_selection second three).0

attempt_made : (next second (at (2 * second)) searching).1 ≡ true
unfolding next begin_selection stop_err new_controller fresh_controller set_selection_timeout
attempt_made = refl

has_timeout : 0 < searching.selection_timeout
unfolding begin_selection new_controller fresh_controller set_selection_timeout
has_timeout = omega arith

next-InTime_example : InTime (at (2 * second)) (next second (at (2 * second)) searching).0
next-InTime_example =
    next-InTime second (at (2 * second)) searching (Controls.begins second (created 3 10 2))
      has_timeout attempt_made

abbrev pub stored_alpha : StoredAccount
stored_alpha = record {
  account = alpha;
  enabled = true;
  ban_status = [];
  ban_reason = [];
  ban_time = 0;
  proxy_url = [];
}

abbrev dispatch : Dispatch
dispatch = record {
  pool = pair;
  stored = stored_alpha ∷ record stored_alpha { account = beta } ∷ [];
}

abbrev readings : Readings
readings = record {
  settings = in_turn;
  protection = settings;
  model_ttl_seconds = 600;
  now = 5 * second;
  saved = true;
  stats_saved = true;
  overage = none;
  draw = 1;
  draw' = 2;
}

abbrev failed_with : UpstreamErrorKind → Failure
failed_with kind = record { upstream = some (kind, 0); message = codes "upstream" }

suspended_bans : is_ban (reaction_to (kind_of (failed_with suspended)) (codes "upstream")) ≡ true
unfolding reaction_to
suspended_bans = refl

handle_account_failure-gone_example :
    has_account stored_alpha.account.id
      (handle_account_failure (failed_with suspended) stored_alpha readings dispatch).pool.accounts
    ≡ false
handle_account_failure-gone_example =
    handle_account_failure-gone (failed_with suspended) stored_alpha readings dispatch
      suspended_bans refl refl (refl, (refl, tt)) refl

-- The pool has lost the account while its count was not stored: the next flush stores a zero.
abbrev lost : StoredAccount
lost = record stored_alpha {
  account = record alpha { id = codes "z"; error_count = 5 };
  enabled = false;
}

lost_count :
    (reload in_turn true (record pair { dirty_stats = codes "z" ∷ [] }) (lost ∷ [])).1
    ≡ record lost { account = record lost.account { error_count = 0 } } ∷ []
unfolding reload flush_account_stats stats_updates account_stats account_index index_accounts
    update_account_stats_batch with_stats rebuild insert lookup enabled_accounts
lost_count = refl
