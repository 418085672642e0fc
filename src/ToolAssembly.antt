-- ===== src/ToolAssembly.antt =====
-- The watch over tool calls that are being assembled (proxy/tool_assembly.go). Each operation reads
-- the clock once. A timer calls fire with the id and the generation that it was armed with, and one
-- that is stopped may still do so.
pub mod Entries
pub mod Timeouts
pub mod Watches
use kiro_go_plus.Base.{
  ℕ, ◌+◌, ◌-◌, ◌%◌, ◌^◌, Bool, true, false, not, ◌&&◌, ◌||◌, Option, none, some, List, [], ◌∷◌,
  length, ltb, leb, max, if◌then◌else◌, ◌==◌, nat_eq, bytes_eq,
}
use kiro_go_plus.Base.Dict.{Dict, lookup, insert, delete}
use kiro_go_plus.Base.Text.{Text, is_empty}
use kiro_go_plus.Base.Time.{is_zero_time}

pub record ToolAssemblySnapshot : Type 0 where
  pub tool_use_id : Text
  pub name : Text
  pub argument_bytes : ℕ
  pub fragment_count : ℕ
  pub elapsed : ℕ

pub record ToolAssemblyActive : Type 0 where
  pub tool_use_id : Text
  pub name : Text
  pub started_at : ℕ
  pub last_activity_at : ℕ
  pub bytes : ℕ
  pub fragments : ℕ
  pub generation : ℕ

pub record ToolAssemblyMonitor : Type 0 where
  pub timeout : ℕ
  pub active : Dict Text ToolAssemblyActive
  pub next_gen : ℕ
  pub timed_out : Option ToolAssemblySnapshot
  pub max_elapsed : Option ℕ
  pub max_bytes : ℕ
  pub max_fragments : ℕ

-- The monitor of wrapToolAssemblyMonitor.
abbrev pub new_monitor : ℕ → ToolAssemblyMonitor
new_monitor timeout = record {
  timeout = timeout;
  active = [];
  next_gen = 0;
  timed_out = none;
  max_elapsed = none;
  max_bytes = 0;
  max_fragments = 0;
}

-- armLocked, for a state that is stored under its id.
unfoldable pub arm_locked : ℕ → ToolAssemblyActive → ToolAssemblyMonitor → ToolAssemblyMonitor
arm_locked now s m =
    let gen = (m.next_gen + 1) % 2 ^ 64 in
    if m.timeout == 0 then record m { active = insert s.tool_use_id s m.active } else record m {
      next_gen = gen;
      active =
          insert s.tool_use_id
            (record s {
              generation = gen;
              last_activity_at =
                  if is_zero_time s.last_activity_at then now else s.last_activity_at;
            })
            m.active;
    }

abbrev pub new_active : Text → Text → ℕ → ToolAssemblyActive
new_active id name now = record {
  tool_use_id = id;
  name = name;
  started_at = now;
  last_activity_at = now;
  bytes = 0;
  fragments = 0;
  generation = 0;
}

-- addActiveLocked
unfoldable pub add_active_locked : Text → Text → ℕ → ToolAssemblyMonitor → ToolAssemblyMonitor
add_active_locked id name now m = arm_locked now (new_active id name now) m

-- The state without an id is given one, and is armed again.
unfoldable pub named_placeholder :
    Text → ToolAssemblyActive → ℕ → ToolAssemblyMonitor → ToolAssemblyMonitor
named_placeholder id s now m =
    arm_locked now (record s { tool_use_id = id }) (record m { active = delete [] m.active })

abbrev pub with_name : Text → ToolAssemblyActive → ToolAssemblyActive
with_name name s = if is_empty name then s else record s { name = name }

abbrev pub placeholder : Text → ToolAssemblyMonitor → Option ToolAssemblyActive
placeholder id m = if is_empty id then none else lookup [] m.active

abbrev pub is_over : ToolAssemblyMonitor → Bool
is_over m = elim m.timed_out [ none ↦ false | some s ↦ true ]

-- start
unfoldable pub start : Text → Text → ℕ → ToolAssemblyMonitor → ToolAssemblyMonitor
start id name now m = if is_over m then m else elim (lookup id m.active) [
  | some s ↦ record m { active = insert id (with_name name s) m.active }
  | none ↦ elim (placeholder id m) [
    | some s ↦ named_placeholder id (record s { name = name }) now m
    | none ↦ add_active_locked id name now m
  ]
]

-- stateForInputLocked, and the state that add makes when there is none.
unfoldable pub state_for_input : Text → ℕ → ToolAssemblyMonitor → ToolAssemblyMonitor
state_for_input id now m = elim (lookup id m.active) [
  | some s ↦ m
  | none ↦ elim (placeholder id m) [
    | some s ↦ named_placeholder id s now m
    | none ↦ add_active_locked id [] now m
  ]
]

abbrev pub fed : ℕ → ℕ → ToolAssemblyActive → ToolAssemblyActive
fed size now s = record s {
  bytes = s.bytes + size;
  fragments = s.fragments + 1;
  last_activity_at = now;
}

-- The rest of add, on the state of the id.
unfoldable pub feed_state : Text → ℕ → ℕ → ToolAssemblyMonitor → ToolAssemblyMonitor
feed_state id size now m = elim (lookup id m.active) [
  | none ↦ m
  | some s ↦ record m {
    active = insert id (fed size now s) m.active;
    max_bytes = max m.max_bytes (s.bytes + size);
    max_fragments = max m.max_fragments (s.fragments + 1);
  }
]

-- add
unfoldable pub add : Text → Text → ℕ → ToolAssemblyMonitor → ToolAssemblyMonitor
add id input now m =
    if is_empty input || is_over m
    then m
    else feed_state id (length input) now (state_for_input id now m)

-- activity
unfoldable pub activity : ℕ → ToolAssemblyMonitor → ToolAssemblyMonitor
activity now m = if is_over m || ltb 0 (length m.active) then m else add_active_locked [] [] now m

-- recordDurationLocked
unfoldable pub record_duration : ℕ → ToolAssemblyMonitor → ToolAssemblyMonitor
record_duration elapsed m = record m {
  max_elapsed = elim m.max_elapsed [
    | none ↦ some elapsed
    | some longest ↦ some (max longest elapsed)
  ];
}

-- The state that stop ends.
abbrev pub stopped_state : Text → ToolAssemblyMonitor → Option ToolAssemblyActive
stopped_state id m = elim (lookup id m.active) [ none ↦ placeholder id m | some s ↦ some s ]

-- stop
unfoldable pub stop : Text → ℕ → ToolAssemblyMonitor → ToolAssemblyMonitor
stop id now m = elim (stopped_state id m) [
  | none ↦ m
  | some s ↦
      let r = record_duration (now - s.started_at) m in
      record r { active = delete s.tool_use_id r.active }
]

-- The loop of Stop over the states.
unfoldable pub record_all :
    ℕ → Dict Text ToolAssemblyActive → ToolAssemblyMonitor → ToolAssemblyMonitor
record_all now [] m = m
record_all now ((id, s) ∷ states) m = record_all now states (record_duration (now - s.started_at) m)

-- Stop
unfoldable pub stop_all : ℕ → ToolAssemblyMonitor → ToolAssemblyMonitor
stop_all now m = record (record_all now m.active m) { active = [] }

abbrev pub snapshot : ℕ → ToolAssemblyActive → ToolAssemblySnapshot
snapshot now s = record {
  tool_use_id = s.tool_use_id;
  name = s.name;
  argument_bytes = s.bytes;
  fragment_count = s.fragments;
  elapsed = now - s.started_at;
}

-- fire, but for the callback.
unfoldable pub fire : Text → ℕ → ℕ → ToolAssemblyMonitor → ToolAssemblyMonitor
fire id generation now m = elim (lookup id m.active) [
  | none ↦ m
  | some s ↦
      if not (s.generation == generation) || is_over m
      then m
      else if ltb (now - s.last_activity_at) m.timeout
      then arm_locked now s m
      else record (record_duration (now - s.started_at) m) {
        timed_out = some (snapshot now s);
        active = [];
      }
]
