-- ===== src/ToolAssembly/Watches.antt =====
-- Sequences of calls on the watch of proxy/tool_assembly.go.
use kiro_go_plus.Base.{
  ℕ, ◌-◌, ◌≤◌, ◌≡◌, refl, sym, subst, ap, ◌∙◌, [], ◌∷◌, length, Bool-cases, inl, inr, arith, ◌⊎◌,
}
use kiro_go_plus.Base.Dict.{Dict, lookup}
use kiro_go_plus.Base.Text.{Text, is_empty}
use kiro_go_plus.ToolAssembly.{
  ToolAssemblyActive, ToolAssemblyMonitor, new_monitor, start, state_for_input, feed_state, add,
  activity, record_duration, stop, record_all, stop_all, fire,
}
use kiro_go_plus.ToolAssembly.Timeouts.{
  Running, Ended, kept-Running, start-Running, state_for_input-Running, activity-Running,
  feed-Running, stop-Running, fire-Orderly,
}

record_all-same :
    (now : ℕ) (states : Dict Text ToolAssemblyActive) (m : ToolAssemblyMonitor)
    → ((record_all now states m).timed_out ≡ m.timed_out)
      × ((record_all now states m).max_bytes ≡ m.max_bytes)
      × ((record_all now states m).max_fragments ≡ m.max_fragments)
      × ((record_all now states m).timeout ≡ m.timeout)
unfolding record_all record_duration
record_all-same now [] m = (refl, refl, refl, refl)
record_all-same now ((id, s) ∷ states) m =
    record_all-same now states (record_duration (now - s.started_at) m)

stop_all-Running :
    (t now : ℕ) (m : ToolAssemblyMonitor) → Running t m → Running now (stop_all now m)
unfolding stop_all lookup
stop_all-Running t now m runs =
    ((record_all-same now m.active m).0 ∙ runs.0, λ id s at. ground (arith, at))

add-Running :
    (t now : ℕ) (id input : Text) (m : ToolAssemblyMonitor)
    → Running t m
    → t ≤ now
    → Running now (add id input now m)
unfolding add
add-Running t now id input m runs later = elim (Bool-cases (is_empty input)) [
  | inl nothing_given ↦ rw nothing_given (kept-Running t now m runs later)
  | inr given ↦
      let found = state_for_input id now m in
      let same : add id input now m ≡ feed_state id (length input) now found =
        ground (arith, given, runs.0) in
      subst (Running now) (sym same) (
        feed-Running now now found (state_for_input-Running t now m runs later id) (omega arith) id
          (length input))
]

-- What a monitor is at any time: no call has timed out, or one has.
abbrev pub IsOrderly : ℕ → ToolAssemblyMonitor → Type 0
IsOrderly t m = Running t m ⊎ Ended m

-- A call at the time now.
pub data Call (now : ℕ) (m : ToolAssemblyMonitor) : ToolAssemblyMonitor → Type 0 where
  starts : (id name : Text) → Call now m (start id name now m)
  adds : (id input : Text) → Call now m (add id input now m)
  acts : Call now m (activity now m)
  stops : (id : Text) → Call now m (stop id now m)
  stops_all : Call now m (stop_all now m)
  fires : (id : Text) (generation : ℕ) → Call now m (fire id generation now m)

Call-Running :
    {now : ℕ} {m n : ToolAssemblyMonitor} (t : ℕ)
    → Call now m n
    → Running t m
    → t ≤ now
    → IsOrderly now n
Call-Running {now} {m} t (starts id name) runs later =
    inl (start-Running t now m runs later id name)
Call-Running {now} {m} t (adds id input) runs later = inl (add-Running t now id input m runs later)
Call-Running {now} {m} t acts runs later = inl (activity-Running t now m runs later)
Call-Running {now} {m} t (stops id) runs later = inl (stop-Running t now m runs later id)
Call-Running {now} {m} t stops_all runs later = inl (stop_all-Running t now m runs)
Call-Running {now} {m} t (fires id generation) runs later =
    fire-Orderly t now m runs later id generation

-- After a time-out no call changes the monitor, but for Stop, which empties what is empty.
Call-Ended : {now : ℕ} {m n : ToolAssemblyMonitor} → Call now m n → Ended m → n ≡ m
unfolding start add activity stop stop_all record_all fire lookup
Call-Ended {now} {m} (starts id name) (s, over, long, more, more', empty) = ground (arith, over)
Call-Ended {now} {m} (adds id input) (s, over, long, more, more', empty) = ground (arith, over)
Call-Ended {now} {m} acts (s, over, long, more, more', empty) = ground (arith, over)
Call-Ended {now} {m} (stops id) (s, over, long, more, more', empty) = ground (arith, empty)
Call-Ended {now} {m} stops_all (s, over, long, more, more', empty) =
    ap (λ (x : Dict Text ToolAssemblyActive). record (record_all now x m) { active = [] }) empty
    ∙ ap (λ (x : Dict Text ToolAssemblyActive). record m { active = x }) (sym empty)
Call-Ended {now} {m} (fires id generation) (s, over, long, more, more', empty) =
    ground (arith, empty)

-- The monitor after some calls, with the time of the last one.
pub data Reach (timeout : ℕ) : ℕ → ToolAssemblyMonitor → Type 0 where
  created : (t : ℕ) → Reach timeout t (new_monitor timeout)
  calls :
      {t now : ℕ} {m n : ToolAssemblyMonitor}
      → Reach timeout t m
      → t ≤ now
      → Call now m n
      → Reach timeout now n

-- Whatever calls come, in whatever order, and whichever timers fire, stale ones too: as long as no
-- call has timed out, each state stands under its id, within the recorded maxima, and no later than
-- the clock. A call that is reported as timed out took the timeout at least, its size is within the
-- maxima, and no state is left.
pub Reach-IsOrderly :
    (timeout : ℕ) {t : ℕ} {m : ToolAssemblyMonitor} → Reach timeout t m → IsOrderly t m
unfolding lookup
Reach-IsOrderly timeout (created t) = inl (refl, λ id s at. ground (arith, at))
Reach-IsOrderly timeout (calls {t} {now} {m} {n} r later c) = elim (Reach-IsOrderly timeout r) [
  | inl runs ↦ Call-Running t c runs later
  | inr ended ↦ inr (subst Ended (sym (Call-Ended c ended)) ended)
]
