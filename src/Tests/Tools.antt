-- ===== src/Tests/Tools.antt =====
-- A tool call of proxy/tool_assembly.go that gets one fragment and times out.
use kiro_go_plus.Base.{◌*◌, ◌≡◌, refl, true, arith, bytes_eq, nat_eq}
use kiro_go_plus.Base.Dict.{lookup, insert}
use kiro_go_plus.Base.Text.{codes}
use kiro_go_plus.Base.Time.{second}
use kiro_go_plus.ToolAssembly.{
  ToolAssemblyMonitor, new_monitor, arm_locked, add_active_locked, start, state_for_input,
  feed_state, add, fire, is_over,
}
use kiro_go_plus.ToolAssembly.Watches.{
  IsOrderly, created, calls, starts, adds, fires, Reach-IsOrderly,
}

abbrev fed_once : ToolAssemblyMonitor
fed_once =
    add (codes "t") (codes "{}") (2 * second)
      (start (codes "t") (codes "grep") second (new_monitor second))

Reach-IsOrderly_example : IsOrderly (3 * second) (fire (codes "t") 1 (3 * second) fed_once)
Reach-IsOrderly_example = Reach-IsOrderly second (
    calls
      (calls (calls (created second) (omega arith) (starts (codes "t") (codes "grep")))
        (omega arith) (adds (codes "t") (codes "{}")))
      (omega arith) (fires (codes "t") 1))

times_out : is_over (fire (codes "t") 1 (3 * second) fed_once) ≡ true
unfolding lookup insert start state_for_input feed_state add add_active_locked arm_locked fire
times_out = refl
