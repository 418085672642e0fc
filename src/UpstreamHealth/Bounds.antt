-- ===== src/UpstreamHealth/Bounds.antt =====
-- What every report to the registry of proxy/upstream_health.go keeps.
use kiro_go_plus.Base.{
  ℕ, ◌≤◌, ◌<◌, ◌≡◌, refl, sym, subst, true, ◌&&◌, Option, none, some, [], ◌∷◌, max, length, ltb,
  leb, if◌then◌else◌, ◌==◌, nat_eq, bytes_eq, beq_refl, Bool-cases, Option-cases, inl, inr, ◌⊎◌,
  arith,
}
use kiro_go_plus.Base.Dict.{lookup, insert, delete, get_or, get_or-insert, get_or-delete}
use kiro_go_plus.Base.Sizes.{
  length-insert_le, length-insert_present, length-delete_present, lookup_head, present_below,
}
use kiro_go_plus.Base.Text.{Text}
use kiro_go_plus.Base.Time.{second}
use kiro_go_plus.UpstreamHealth.{
  CircuitRuntimeState, zero_circuit, States, max_entries, is_blank_key, is_evictable,
  oldest_evictable, make_room, admit_request, begin, on_entry, succeed, success, fail, failure,
  give_back, release,
}

-- A probe that is out is a request in flight on a circuit that was opened.
abbrev pub ProbeIsOut : CircuitRuntimeState → Type 0
ProbeIsOut s = s.probe_in_flight ≡ true → (0 < s.in_flight) × (0 < s.cooldown_until)

pub record IsBounded (m : States) : Type 0 where
  pub bounded : length m ≤ max_entries
  pub probes : (key : Text) → ProbeIsOut (get_or key zero_circuit m)

oldest-present :
    (now : ℕ) (m : States) (best : Option (Text × ℕ)) (key : Text)
    → oldest_evictable now best m ≡ some key
    → ((at : ℕ) × (best ≡ some (key, at))) ⊎ ((s : CircuitRuntimeState) × (lookup key m ≡ some s))
unfolding oldest_evictable
oldest-present now [] none key h = absurd (ground arith)
oldest-present now [] (some (b, at)) key h = inl (at, ground arith)
oldest-present now ((k, s) ∷ m) none key h =
    elim (oldest-present now m (if is_evictable now s then some (k, s.last_access) else none) key
      h) [
        | inl (at, e) ↦ elim (Bool-cases (is_evictable now s)) [
          | inl y ↦
              let same : k ≡ key = ground (arith, y, e) in
              inr (s, lookup_head k key s m (rw same (beq_refl key)))
          | inr n ↦ absurd (ground (arith, n, e))
        ]
        | inr (t, found) ↦ inr (present_below k key s t m found)
      ]
oldest-present now ((k, s) ∷ m) (some (b, at)) key h =
    let earlier = is_evictable now s && ltb s.last_access at in
    elim (oldest-present now m (if earlier then some (k, s.last_access) else some (b, at)) key h) [
      | inl (at', e) ↦ elim (Bool-cases earlier) [
        | inl y ↦
            let same : k ≡ key = ground (arith, y, e) in
            inr (s, lookup_head k key s m (rw same (beq_refl key)))
        | inr n ↦ inl (at, ground (arith, n, e))
      ]
      | inr (t, found) ↦ inr (present_below k key s t m found)
    ]

-- Room for the key is made only by dropping another entry, and only when all places are taken.
make_room-cases :
    (key : Text) (now : ℕ) (m : States)
    → IsBounded m
    → (make_room key now m ≡ none)
      ⊎ ((room : States) × (make_room key now m ≡ some room)
          × ((s : CircuitRuntimeState) → length (insert key s room) ≤ max_entries)
          × ((k : Text) → ProbeIsOut (get_or k zero_circuit room)))
unfolding make_room
make_room-cases key now m v = elim (Option-cases (lookup key m)) [
  | inr (old, found) ↦ inr (
    m,
    rw (found, make_room) refl,
    (λ s. subst (λ n. n ≤ max_entries) (sym (length-insert_present key s old m found)) v.bounded),
    v.probes,
  )
  | inl missing ↦ elim (Bool-cases (leb max_entries (length m))) [
    | inr room ↦ inr (
      m,
      rw (missing, room, make_room) refl,
      (λ s. ground (arith, length-insert_le key s m, room)),
      v.probes,
    )
    | inl crowded ↦ elim (Option-cases (oldest_evictable now none m)) [
      | inl stuck ↦ inl (rw (missing, crowded, stuck, make_room) refl)
      | inr (old, q) ↦ elim (oldest-present now m none old q) [
        | inl (at, e) ↦ absurd (ground arith)
        | inr (t, found) ↦ inr (
          delete old m,
          rw (missing, crowded, q, make_room) refl,
          (λ s. omega (
            arith,
            length-insert_le key s (delete old m),
            length-delete_present old t m found,
            v.bounded,
          )),
          (λ k. ground (arith, get_or-delete old k zero_circuit m, v.probes k)),
        )
      ]
    ]
  ]
]

probes-insert :
    (key k : Text) (s : CircuitRuntimeState) (m : States)
    → ProbeIsOut s
    → ProbeIsOut (get_or k zero_circuit m)
    → ProbeIsOut (get_or k zero_circuit (insert key s m))
probes-insert key k s m h old =
    let law = get_or-insert key k zero_circuit s m in
    elim (Bool-cases (key == k)) [
      | inl same ↦
          let e : get_or k zero_circuit (insert key s m) ≡ s = rw same at law in
          subst ProbeIsOut (sym e) h
      | inr other ↦
          let e : get_or k zero_circuit (insert key s m) ≡ get_or k zero_circuit m =
            rw other at law in
          subst ProbeIsOut (sym e) old
    ]

admit-ProbeIsOut :
    (label : Text) (now : ℕ) (s : CircuitRuntimeState)
    → ProbeIsOut s
    → ProbeIsOut (admit_request label now s).0
unfolding admit_request
admit-ProbeIsOut label now s h = ground arith

begin-IsBounded :
    (key label : Text) (now : ℕ) (m : States) → IsBounded m → IsBounded (begin key label now m).0
unfolding begin
begin-IsBounded key label now m v = elim (Bool-cases (is_blank_key key)) [
  | inl blank ↦ rw (blank, begin) v
  | inr named ↦ elim (make_room-cases key now m v) [
    | inl stuck ↦ rw (named, stuck, begin) v
    | inr (room, q, small, probes) ↦
        let s = (admit_request label now (get_or key zero_circuit room)).0 in
        rw (named, q, begin)
          (record {
            bounded = small s;
            probes = λ k.
                probes-insert key k s room
                  (admit-ProbeIsOut label now (get_or key zero_circuit room) (probes key))
                  (probes k);
          })
  ]
]

on_entry-IsBounded :
    (key : Text) (f : CircuitRuntimeState → CircuitRuntimeState) (m : States)
    → ((s : CircuitRuntimeState) → ProbeIsOut (f s))
    → IsBounded m
    → IsBounded (on_entry key f m)
on_entry-IsBounded key f m keep v = elim (Bool-cases (is_blank_key key)) [
  | inl blank ↦ rw (blank, on_entry) v
  | inr named ↦ elim (Option-cases (lookup key m)) [
    | inl missing ↦ rw (named, missing, on_entry) v
    | inr (s, found) ↦
        rw (named, found, on_entry)
          (record {
            bounded =
                subst (λ n. n ≤ max_entries) (sym (length-insert_present key (f s) s m found))
                  v.bounded;
            probes = λ k. probes-insert key k (f s) m (keep s) (v.probes k);
          })
  ]
]

-- A request asks for a route, and reports a success, a failure or that it gave up.
pub data Event (m : States) : States → Type 0 where
  asked : (key label : Text) (now : ℕ) → Event m (begin key label now m).0
  succeeded : (key : Text) (now : ℕ) → Event m (success key now m)
  failed :
      (key : Text) (threshold base : ℕ) (error : Option Text) (now : ℕ)
      → Event m (failure key threshold base error now m)
  gave_up : (key : Text) → Event m (release key m)

pub data Reach : States → Type 0 where
  start : Reach []
  next : {m : States} (n : States) → Reach m → Event m n → Reach n

fail-ProbeIsOut :
    (threshold base : ℕ) (error : Option Text) (now : ℕ) (s : CircuitRuntimeState)
    → ProbeIsOut (fail threshold base error now s)
unfolding fail
fail-ProbeIsOut threshold base error now s = ground arith

Event-IsBounded : {m n : States} → Event m n → IsBounded m → IsBounded n
unfolding success failure release succeed give_back
Event-IsBounded {m} (asked key label now) v = begin-IsBounded key label now m v
Event-IsBounded {m} (succeeded key now) v =
    on_entry-IsBounded key (succeed now) m (λ s. ground arith) v
Event-IsBounded {m} (failed key threshold base error now) v =
    on_entry-IsBounded key (fail (max 1 threshold) (max second base) error now) m
      (fail-ProbeIsOut (max 1 threshold) (max second base) error now) v
Event-IsBounded {m} (gave_up key) v = on_entry-IsBounded key give_back m (λ s. ground arith) v

-- Whatever routes are asked for and whatever is reported, the registry holds at most 4096 routes,
-- and a route that has a probe out has a request in flight and was opened by a failure.
pub Reach-IsBounded : {m : States} → Reach m → IsBounded m
unfolding get_or lookup
Reach-IsBounded start = record { bounded = omega arith; probes = λ k. ground arith }
Reach-IsBounded (next n r e) = Event-IsBounded e (Reach-IsBounded r)
