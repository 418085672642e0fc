-- ===== src/Admission/Rounds.antt =====
-- Rounds of Acquire (proxy/api_admission.go), from the stored state to the stored state.
use kiro_go_plus.Base.{ℕ, ◌≡◌, true, false, List, ◌∷◌, ◌++◌, arith, bytes_eq, nat_eq, beq_refl}
use kiro_go_plus.Base.Dict.{insert, get_or, get_or-insert}
use kiro_go_plus.Admission.{
  AdmissionState, Manager, Entry, Lease, Round, admit, reject, park, fresh_state, acquire_round,
  state_locked, reset_admission_window,
}
use kiro_go_plus.Admission.World.{World, state_of, settle, after_round}
use kiro_go_plus.Admission.Queue.{
  Inv, IsSound, RoundInv, decide-arrive, decide-retry, length-remove, unqueue-Inv,
}

pub state_of-insert :
    (e : Entry) (s : AdmissionState) (m : Manager) → state_of e (insert e.id s m) ≡ s
state_of-insert e s m = rw (get_or-insert e.id e.id (fresh_state 0) s m, beq_refl e.id)

module _ (e : Entry) (ns : List ℕ) (ls : List Lease) where
  reset-Inv :
      (s : AdmissionState) (now : ℕ) → Inv e s ns ls → Inv e (reset_admission_window s now) ns ls
  unfolding reset_admission_window
  reset-Inv s now v = ground arith

  state_locked-Inv :
      (m : Manager) (now : ℕ) → Inv e (state_of e m) ns ls → Inv e (state_locked e.id now m) ns ls
  unfolding state_locked get_or
  state_locked-Inv m now v = ground arith

  seen-Inv :
      (s : AdmissionState) (now : ℕ) → Inv e s ns ls → Inv e (record s { last_seen = now }) ns ls
  seen-Inv s now v = ground arith

  -- The state that a locked section works on.
  pub section-Inv :
      (m : Manager) (now : ℕ)
      → Inv e (state_of e m) ns ls
      → Inv e (reset_admission_window (state_locked e.id now m) now) ns ls
  section-Inv m now v = reset-Inv (state_locked e.id now m) now (state_locked-Inv m now v)

  pub store-Inv :
      (s : AdmissionState) (m : Manager)
      → Inv e s ns ls
      → Inv e (state_of e (insert e.id s m)) ns ls
  store-Inv s m v = rw (state_of-insert e s m) v

-- The state that a round decides on.
abbrev opened : Entry → ℕ → Manager → AdmissionState
opened e now m = record (reset_admission_window (state_locked e.id now m) now) { last_seen = now }

opened-Inv :
    (e : Entry) (ns : List ℕ) (ls : List Lease) (m : Manager) (now : ℕ)
    → Inv e (state_of e m) ns ls
    → Inv e (opened e now m) ns ls
opened-Inv e ns ls m now v = seen-Inv e ns ls _ now (section-Inv e ns ls m now v)

settle-IsSound :
    (e : Entry) (w : World) (m : Manager) (s : AdmissionState) (r : Round)
    → RoundInv e (s, r) w.parked w.leases
    → IsSound e (settle r (record w { manager = insert e.id s m }))
settle-IsSound e w m s (admit l) v = store-Inv e w.parked (l ∷ w.leases) s m v
settle-IsSound e w m s (reject err) v = store-Inv e w.parked w.leases s m v
settle-IsSound e w m s (park n) v = store-Inv e (n ∷ w.parked) w.leases s m v

pub arrive-IsSound :
    (e : Entry) (w : World) (now : ℕ)
    → IsSound e w
    → IsSound e (after_round (acquire_round e false now w.manager) w)
unfolding acquire_round
arrive-IsSound e w now v = settle-IsSound e w w.manager _ _ (
    decide-arrive e now (opened e now w.manager) w.parked w.leases
      (opened-Inv e w.parked w.leases w.manager now v))

pub retry-IsSound :
    (e : Entry) (w : World) (now : ℕ) (xs : List ℕ) (n : ℕ) (ys : List ℕ)
    → Inv e (state_of e w.manager) (xs ++ (n ∷ ys)) w.leases
    → IsSound e (after_round (acquire_round e true now w.manager) (record w { parked = xs ++ ys }))
unfolding acquire_round
retry-IsSound e w now xs n ys v =
    let o = opened-Inv e (xs ++ (n ∷ ys)) w.leases w.manager now v in
    let less = unqueue-Inv e (opened e now w.manager) xs n ys w.leases o in
    settle-IsSound e (record w { parked = xs ++ ys }) w.manager _ _
      (decide-retry e now (opened e now w.manager) (xs ++ ys) w.leases less
        (omega (arith, o.queued, length-remove xs n ys))
        (omega (arith, o.bounded, length-remove xs n ys)))
