-- ===== src/ToolAssembly/Timeouts.antt =====
-- When a tool call times out (proxy/tool_assembly.go), and what holds until then.
use kiro_go_plus.Base.{
  ℕ, ◌+◌, ◌-◌, ◌%◌, ◌^◌, ◌≤◌, ◌≡◌, refl, sym, subst, none, some, [], length, ltb, max,
  if◌then◌else◌, ◌==◌, nat_eq, bytes_eq, Bool-cases, Option-cases, inl, inr, arith, ◌⊎◌,
}
use kiro_go_plus.Base.Dict.{lookup, delete}
use kiro_go_plus.Base.Text.{Text, is_empty}
use kiro_go_plus.Base.Time.{is_zero_time}
use kiro_go_plus.ToolAssembly.Entries.{Fits, Entries, insert-Entries, delete-Entries, later-Entries}
use kiro_go_plus.ToolAssembly.{
  ToolAssemblySnapshot, ToolAssemblyActive, ToolAssemblyMonitor, arm_locked, new_active,
  add_active_locked, named_placeholder, with_name, placeholder, start, state_for_input, fed,
  feed_state, activity, record_duration, stopped_state, stop, snapshot, fire,
}

-- No call has timed out so far, at the time t.
abbrev pub Running : ℕ → ToolAssemblyMonitor → Type 0
Running t m = (m.timed_out ≡ none) × Entries m.max_bytes m.max_fragments t m.active

-- A call has timed out: it took the timeout at least, and no call is watched any more.
abbrev pub Ended : ToolAssemblyMonitor → Type 0
Ended m =
    (s : ToolAssemblySnapshot) × (m.timed_out ≡ some s)
    × (m.timeout ≤ s.elapsed)
    × (s.argument_bytes ≤ m.max_bytes)
    × (s.fragment_count ≤ m.max_fragments)
    × (m.active ≡ [])

arm-Running :
    (b f t now : ℕ) (s : ToolAssemblyActive) (m : ToolAssemblyMonitor)
    → m.timed_out ≡ none
    → Entries b f t m.active
    → t ≤ now
    → b ≤ m.max_bytes
    → f ≤ m.max_fragments
    → Fits m.max_bytes m.max_fragments now s.tool_use_id s
    → Running now (arm_locked now s m)
unfolding arm_locked
arm-Running b f t now s m waits entries later more more' fits = elim (Bool-cases (m.timeout == 0)) [
  | inl never ↦ rw never (
    waits,
    insert-Entries b f t now m.active entries later m.max_bytes m.max_fragments s.tool_use_id s more
        more' fits,
  )
  | inr timed ↦
      let gen = (m.next_gen + 1) % 2 ^ 64 in
      let armed : ToolAssemblyActive = record s {
        generation = gen;
        last_activity_at = if is_zero_time s.last_activity_at then now else s.last_activity_at;
      } in
      rw timed (
        waits,
        insert-Entries b f t now m.active entries later m.max_bytes m.max_fragments s.tool_use_id
            armed more more' (ground (arith, fits)),
      )
]

module _ (t now : ℕ) (m : ToolAssemblyMonitor) (runs : Running t m) (later : t ≤ now) where
  le_refl : (n : ℕ) → n ≤ n
  le_refl n = omega arith

  add_active-Running : (id name : Text) → Running now (add_active_locked id name now m)
  unfolding add_active_locked
  add_active-Running id name =
      arm-Running m.max_bytes m.max_fragments t now (new_active id name now) m runs.0 runs.1 later
        (le_refl m.max_bytes) (le_refl m.max_fragments) (ground arith)

  named-Running :
      (id name : Text) (s : ToolAssemblyActive)
      → Fits m.max_bytes m.max_fragments t [] s
      → Running now (named_placeholder id (record s { name = name }) now m)
  unfolding named_placeholder
  named-Running id name s fits =
      arm-Running m.max_bytes m.max_fragments now now (record s { name = name; tool_use_id = id })
        (record m { active = delete [] m.active }) runs.0
        (delete-Entries m.max_bytes m.max_fragments t now m.active runs.1 later []) (le_refl now)
        (le_refl m.max_bytes) (le_refl m.max_fragments) (ground (arith, fits, later))

  placeholder-Fits :
      (id : Text) (s : ToolAssemblyActive)
      → placeholder id m ≡ some s
      → Fits m.max_bytes m.max_fragments t [] s
  placeholder-Fits id s at = elim (Bool-cases (is_empty id)) [
    | inl blank ↦ ground (arith, blank, at)
    | inr given ↦ runs.1 [] s (rw given at at)
  ]

  pub kept-Running : Running now m
  kept-Running = (runs.0, later-Entries m.max_bytes m.max_fragments t now m.active runs.1 later)

  pub start-Running : (id name : Text) → Running now (start id name now m)
  unfolding start
  start-Running id name = elim (Option-cases (lookup id m.active)) [
    | inr (s, found) ↦
        rw (runs.0, found, start)
          (
            runs.0,
            insert-Entries m.max_bytes m.max_fragments t now m.active runs.1 later m.max_bytes
                m.max_fragments id (with_name name s) (le_refl m.max_bytes)
                (le_refl m.max_fragments) (ground (arith, runs.1 id s found, later)),
          )
    | inl missing ↦ elim (Option-cases (placeholder id m)) [
      | inr (s, found) ↦
          rw (runs.0, missing, found, start) (named-Running id name s (placeholder-Fits id s found))
      | inl absent ↦ rw (runs.0, missing, absent, start) (add_active-Running id name)
    ]
  ]

  pub state_for_input-Running : (id : Text) → Running now (state_for_input id now m)
  unfolding state_for_input
  state_for_input-Running id = elim (Option-cases (lookup id m.active)) [
    | inr (s, found) ↦ rw (found, state_for_input) kept-Running
    | inl missing ↦ elim (Option-cases (placeholder id m)) [
      | inr (s, found) ↦
          rw (missing, found, state_for_input)
            (named-Running id s.name s (placeholder-Fits id s found))
      | inl absent ↦ rw (missing, absent, state_for_input) (add_active-Running id [])
    ]
  ]

  pub activity-Running : Running now (activity now m)
  unfolding activity
  activity-Running = elim (Bool-cases (ltb 0 (length m.active))) [
    | inl some_active ↦
        let same : activity now m ≡ m = ground (arith, runs.0, some_active) in
        subst (Running now) (sym same) kept-Running
    | inr none_active ↦
        let same : activity now m ≡ add_active_locked [] [] now m =
          ground (arith, runs.0, none_active) in
        subst (Running now) (sym same) (add_active-Running [] [])
  ]

  pub feed-Running : (id : Text) (size : ℕ) → Running now (feed_state id size now m)
  unfolding feed_state
  feed-Running id size = elim (Option-cases (lookup id m.active)) [
    | inl missing ↦ rw (missing, feed_state) kept-Running
    | inr (s, found) ↦
        let more = max m.max_bytes (s.bytes + size) in
        let more' = max m.max_fragments (s.fragments + 1) in
        rw (found, feed_state)
          (
            runs.0,
            insert-Entries m.max_bytes m.max_fragments t now m.active runs.1 later more more' id
                (fed size now s) (omega arith) (omega arith)
                (ground (arith, runs.1 id s found, later)),
          )
  ]

  pub stop-Running : (id : Text) → Running now (stop id now m)
  unfolding stop record_duration
  stop-Running id = elim (Option-cases (stopped_state id m)) [
    | inl missing ↦
        let same : stop id now m ≡ m = ground (arith, missing) in
        subst (Running now) (sym same) kept-Running
    | inr (s, found) ↦
        rw (found, stop)
          (
            runs.0,
            delete-Entries m.max_bytes m.max_fragments t now m.active runs.1 later s.tool_use_id,
          )
  ]

  pub fire-Orderly :
      (id : Text) (generation : ℕ)
      → Running now (fire id generation now m) ⊎ Ended (fire id generation now m)
  unfolding fire record_duration
  fire-Orderly id generation = elim (Option-cases (lookup id m.active)) [
    | inl missing ↦ inl (rw (missing, fire) kept-Running)
    | inr (s, found) ↦
        let fits = runs.1 id s found in
        elim (Bool-cases (s.generation == generation)) [
          | inr stale ↦
              let same : fire id generation now m ≡ m = ground (arith, found, stale) in
              inl (subst (Running now) (sym same) kept-Running)
          | inl live ↦ elim (Bool-cases (ltb (now - s.last_activity_at) m.timeout)) [
            | inl early ↦
                let same : fire id generation now m ≡ arm_locked now s m =
                  ground (arith, found, live, early, runs.0) in
                inl (
                  subst (Running now) (sym same) (
                    arm-Running m.max_bytes m.max_fragments t now s m runs.0 runs.1 later
                      (le_refl m.max_bytes) (le_refl m.max_fragments)
                      (ground (arith, fits, later))))
            | inr late ↦
                let over : ToolAssemblyMonitor = record (record_duration (now - s.started_at) m) {
                  timed_out = some (snapshot now s);
                  active = [];
                } in
                let same : fire id generation now m ≡ over =
                  ground (arith, found, live, late, runs.0) in
                inr (
                  subst Ended (sym same) (
                    snapshot now s,
                    refl,
                    ground (arith, fits, late),
                    ground (arith, fits),
                    ground (arith, fits),
                    refl,
                  ))
          ]
        ]
  ]
