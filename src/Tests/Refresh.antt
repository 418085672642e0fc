-- ===== src/Tests/Refresh.antt =====
-- The refresh of proxy/refresh_coordinator.go: one account, and one place in the queue.
use kiro_go_plus.Base.{◌≡◌, refl, true, none, some, bytes_eq}
use kiro_go_plus.Base.Dict.{lookup, insert}
use kiro_go_plus.Base.Text.{codes, trim_space}
use kiro_go_plus.Base.Time.{second}
use kiro_go_plus.Refresh.{
  TokenRefreshCoordinator, queued, start_refresh, refresh_context, refresh_upstream_block_error,
  acquire_slot,
}
use kiro_go_plus.Refresh.Counts.{Tallies, idle, start, step, asks, acquires, Reach-Tallies}
use kiro_go_plus.Tests.Slots.{alpha}

abbrev asked : TokenRefreshCoordinator
asked = (refresh_context 1 0 true none (record alpha { refresh_token = codes "r" }) second idle).0

asked_waits : lookup (codes "a") asked.in_flight ≡ some queued
unfolding lookup insert refresh_context refresh_upstream_block_error start_refresh trim_space
asked_waits = refl

Reach-Tallies_example : Tallies 1 2 (acquire_slot 2 (codes "a") asked)
Reach-Tallies_example = Reach-Tallies 1 2 (
    step (step start (asks 0 true none (record alpha { refresh_token = codes "r" }) second))
      (acquires (codes "a") asked_waits))
