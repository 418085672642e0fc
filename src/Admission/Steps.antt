-- ===== src/Admission/Steps.antt =====
-- Every step of the requests of one API key (proxy/api_admission.go) keeps the invariant.
use kiro_go_plus.Base.{
  ℕ, suc, ◌+◌, ◌-◌, ◌≡◌, refl, sym, ap, subst, ◌∙◌, inl, inr, true, false, List, [], ◌∷◌, ◌++◌,
  none, some, arith, bytes_eq, nat_eq, Option-cases, lt→ltb,
}
use kiro_go_plus.Base.Dict.{lookup, insert, get_or}
use kiro_go_plus.Base.Text.{Text}
use kiro_go_plus.Admission.{
  AdmissionState, Manager, Entry, Lease, AuthError, Wake, fresh_state, after_park, release,
  reserve_tokens, reconcile_tokens, state_locked, reset_admission_window, cancel_wait,
  forget_waiter, free_slot, add_reservation, reserved_in,
}
use kiro_go_plus.Admission.Tokens.{
  current, release-cases, reserve-cases, reconcile-cases, add_reservation_keeps,
}
use kiro_go_plus.Admission.World.{
  World, state_of, Step, arrive, retry, leave, free, reserve, reconcile, other, Reach, here, next,
  empty_world,
}
use kiro_go_plus.Admission.Queue.{
  Awake-close, live, Owned, Inv, IsSound, length-remove, unqueue-Inv,
}
use kiro_go_plus.Admission.Rounds.{section-Inv, store-Inv, arrive-IsSound, retry-IsSound}

state_of-some :
    (e : Entry) (m : Manager) (s : AdmissionState) → lookup e.id m ≡ some s → state_of e m ≡ s
unfolding get_or
state_of-some e m s q = ground arith

state_of-none : (e : Entry) (m : Manager) → lookup e.id m ≡ none → state_of e m ≡ fresh_state 0
unfolding get_or
state_of-none e m q = ground arith

-- A request that gives up is counted once less.
cancel-IsSound :
    (e : Entry) (w : World) (xs : List ℕ) (n : ℕ) (ys : List ℕ)
    → Inv e (state_of e w.manager) (xs ++ (n ∷ ys)) w.leases
    → Inv e (state_of e (cancel_wait e.id true w.manager)) (xs ++ ys) w.leases
unfolding cancel_wait
cancel-IsSound e w xs n ys v = elim (Option-cases (lookup e.id w.manager)) [
  | inl q ↦ absurd (
      omega (
        arith,
        v.queued,
        ap (λ (s : AdmissionState). s.waiting) (state_of-none e w.manager q),
        length-remove xs n ys,
      ))
  | inr (s, q) ↦ rw q (
      cancelled s q
        (subst (λ t. Inv e t (xs ++ (n ∷ ys)) w.leases) (state_of-some e w.manager s q) v))
]
  where
    cancelled :
        (s : AdmissionState)
        → lookup e.id w.manager ≡ some s
        → Inv e s (xs ++ (n ∷ ys)) w.leases
        → Inv e (state_of e (forget_waiter e.id (some s) w.manager)) (xs ++ ys) w.leases
    cancelled s q v = rw (lt→ltb 0 s.waiting (omega (arith, v.queued, length-remove xs n ys))) (
        store-Inv e (xs ++ ys) w.leases (record s { waiting = s.waiting - 1 }) w.manager
          (unqueue-Inv e s xs n ys w.leases v))

leave-cancels :
    (e : Entry) (deadline now : ℕ) (wake : Wake) (m : Manager) (err : AuthError)
    → (after_park e deadline now wake m).1 ≡ some err
    → (after_park e deadline now wake m).0 ≡ cancel_wait e.id true m
unfolding after_park
leave-cancels e deadline now wake m err q = ground arith

-- A lease of a list, replaced: the others count as before.
live-replace :
    (xs : List Lease) (l l' : Lease) (ys : List Lease)
    → live (xs ++ (l ∷ ys)) + live (l' ∷ []) ≡ live (xs ++ (l' ∷ ys)) + live (l ∷ [])
live-replace [] l l' ys = ground arith
live-replace (x ∷ xs) l l' ys = ground (arith, live-replace xs l l' ys)

Owned-replace :
    (key : Text) (xs : List Lease) (l l' : Lease) (ys : List Lease)
    → l'.key_id ≡ l.key_id
    → Owned key (xs ++ (l ∷ ys))
    → Owned key (xs ++ (l' ∷ ys))
Owned-replace key [] l l' ys q o = (q ∙ o.0, o.1)
Owned-replace key (x ∷ xs) l l' ys q o = (o.0, Owned-replace key xs l l' ys q o.1)

Owned-at :
    (key : Text) (xs : List Lease) (l : Lease) (ys : List Lease)
    → Owned key (xs ++ (l ∷ ys))
    → l.key_id ≡ key
Owned-at key [] l ys o = o.0
Owned-at key (x ∷ xs) l ys o = Owned-at key xs l ys o.1

module _ (e : Entry) (m : Manager) (ns : List ℕ) (xs : List Lease) (l : Lease)
    (ys : List Lease) where
  -- A first release frees one slot and wakes everybody.
  freed-Inv :
      (s : AdmissionState) (now : ℕ)
      → l.released ≡ false
      → Inv e s ns (xs ++ (l ∷ ys))
      → Inv e
          (record s { in_flight = s.in_flight - 1; notify = suc s.notify; last_seen = now })
          ns
          (xs ++ (record l { released = true } ∷ ys))
  freed-Inv s now q v = record {
    taken = ground (arith, v.taken, live-replace xs l (record l { released = true }) ys);
    queued = v.queued;
    capped = λ h. omega (arith, v.capped h);
    bounded = v.bounded;
    paced = v.paced;
    awake = Awake-close e.max_concurrency s.notify s.in_flight (s.in_flight - 1) ns v.awake;
    owned = Owned-replace e.id xs l (record l { released = true }) ys refl v.owned;
  }

  free_slot-Inv :
      (now : ℕ) (key : Text)
      → key ≡ e.id
      → l.released ≡ false
      → Inv e (state_of e m) ns (xs ++ (l ∷ ys))
      → Inv e
          (state_of e (free_slot key now (lookup key m) m))
          ns
          (xs ++ (record l { released = true } ∷ ys))
  free_slot-Inv now key same q v =
      subst (λ k. Inv e (state_of e (free_slot k now (lookup k m) m)) ns (xs ++ (l' ∷ ys)))
        (sym same)
        (elim (Option-cases (lookup e.id m)) [
          | inl n ↦ absurd (missing n)
          | inr (s, o) ↦
              rw o (stored s (subst (λ t. Inv e t ns (xs ++ (l ∷ ys))) (state_of-some e m s o) v))
        ])
    where
      l' : Lease
      l' = record l { released = true }

      missing : lookup e.id m ≡ none → ⊥
      missing n = ground (
        arith,
        v.taken,
        ap (λ (s : AdmissionState). s.in_flight) (state_of-none e m n),
        live-replace xs l l' ys,
      )

      stored :
          (s : AdmissionState)
          → Inv e s ns (xs ++ (l ∷ ys))
          → Inv e (state_of e (free_slot e.id now (some s) m)) ns (xs ++ (l' ∷ ys))
      stored s u = store-Inv e ns (xs ++ (l' ∷ ys)) _ m (freed-Inv s now q u)

  release-Inv :
      (now : ℕ)
      → Inv e (state_of e m) ns (xs ++ (l ∷ ys))
      → Inv e (state_of e (release l now m).1) ns (xs ++ ((release l now m).0 ∷ ys))
  release-Inv now v = elim (release-cases l now m) [
    | inl (_, q) ↦ rw q v
    | inr (live_lease, q) ↦
        rw q (free_slot-Inv now l.key_id (Owned-at e.id xs l ys v.owned) live_lease v)
  ]

  -- What the token counters do to a state and a lease is no concern of the invariant.
  tokens-Inv :
      (s : AdmissionState) (l' : Lease) (t : ℕ)
      → l'.key_id ≡ l.key_id
      → l'.released ≡ l.released
      → Inv e s ns (xs ++ (l ∷ ys))
      → Inv e (record s { tokens = t }) ns (xs ++ (l' ∷ ys))
  tokens-Inv s l' t key rel v = record {
    taken = ground (arith, v.taken, live-replace xs l l' ys);
    queued = v.queued;
    capped = v.capped;
    bounded = v.bounded;
    paced = v.paced;
    awake = v.awake;
    owned = Owned-replace e.id xs l l' ys key v.owned;
  }

  -- A section on the lease's key that changes tokens only.
  spent-Inv :
      (now : ℕ) (key : Text) (l' : Lease) (t : AdmissionState → ℕ)
      → key ≡ e.id
      → l'.key_id ≡ l.key_id
      → l'.released ≡ l.released
      → Inv e (state_of e m) ns (xs ++ (l ∷ ys))
      → let s = reset_admission_window (state_locked key now m) now in
        Inv e (state_of e (insert key (record s { tokens = t s }) m)) ns (xs ++ (l' ∷ ys))
  spent-Inv now key l' t same k r v =
      subst
        (λ j.
          Inv e
            (state_of e (
              insert j
                (record (reset_admission_window (state_locked j now m) now) {
                  tokens = t (reset_admission_window (state_locked j now m) now);
                })
                m))
            ns (xs ++ (l' ∷ ys)))
        (sym same)
        (store-Inv e ns (xs ++ (l' ∷ ys)) _ m
          (tokens-Inv _ l' _ k r (section-Inv e ns (xs ++ (l ∷ ys)) m now v)))

  reserve-Inv :
      (now tokens : ℕ)
      → Inv e (state_of e m) ns (xs ++ (l ∷ ys))
      → Inv e
          (state_of e (reserve_tokens l tokens now m).1)
          ns
          (xs ++ ((reserve_tokens l tokens now m).0 ∷ ys))
  reserve-Inv now tokens v = elim (reserve-cases l tokens now m) [
    | inl (_, q) ↦ rw q v
    | inr (inl (_, q)) ↦
        rw q (spent-Inv now l.key_id l (λ s. s.tokens) (Owned-at e.id xs l ys v.owned) refl refl v)
    | inr (inr (_, q)) ↦ rw q (
        spent-Inv now l.key_id (add_reservation l (current l.key_id now m).window_started tokens)
          (λ s. s.tokens + tokens) (Owned-at e.id xs l ys v.owned)
          (add_reservation_keeps l (current l.key_id now m).window_started tokens).0
          (add_reservation_keeps l (current l.key_id now m).window_started tokens).1 v)
  ]

  reconcile-Inv :
      (now actual : ℕ)
      → Inv e (state_of e m) ns (xs ++ (l ∷ ys))
      → Inv e
          (state_of e (reconcile_tokens l actual now m).1)
          ns
          (xs ++ ((reconcile_tokens l actual now m).0 ∷ ys))
  reconcile-Inv now actual v = elim (reconcile-cases l actual now m) [
    | inl (_, q) ↦ rw q v
    | inr (_, q) ↦ rw q (
        spent-Inv now l.key_id (record l { tokens_finalized = true })
          (λ s. s.tokens + actual - reserved_in l s.window_started) (Owned-at e.id xs l ys v.owned)
          refl refl v)
  ]

state_of-lookup :
    (e : Entry) (m m' : Manager) → lookup e.id m' ≡ lookup e.id m → state_of e m' ≡ state_of e m
unfolding get_or
state_of-lookup e m m' q = ground arith

-- Every locked section, and every step for another key, keeps the counters right.
pub Step-IsSound : (e : Entry) (u v : World) → Step e u v → IsSound e u → IsSound e v
Step-IsSound e u v (arrive now limited) s = arrive-IsSound e u now s
Step-IsSound e u v (retry now xs n ys q woken) s =
    retry-IsSound e u now xs n ys (subst (λ ns. Inv e (state_of e u.manager) ns u.leases) q s)
Step-IsSound e u v (leave deadline now wake xs n ys err q gone) s =
    subst (λ m. Inv e (state_of e m) (xs ++ ys) u.leases)
      (sym (leave-cancels e deadline now wake u.manager err gone))
      (cancel-IsSound e u xs n ys (subst (λ ns. Inv e (state_of e u.manager) ns u.leases) q s))
Step-IsSound e u v (free now xs l ys q) s =
    release-Inv e u.manager u.parked xs l ys now (subst (Inv e (state_of e u.manager) u.parked) q s)
Step-IsSound e u v (reserve now tokens xs l ys q) s =
    reserve-Inv e u.manager u.parked xs l ys now tokens
      (subst (Inv e (state_of e u.manager) u.parked) q s)
Step-IsSound e u v (reconcile now actual xs l ys q) s =
    reconcile-Inv e u.manager u.parked xs l ys now actual
      (subst (Inv e (state_of e u.manager) u.parked) q s)
Step-IsSound e u v (other m q) s =
    subst (λ t. Inv e t u.parked u.leases) (sym (state_of-lookup e u.manager m q)) s

empty-IsSound : (e : Entry) → IsSound e empty_world
unfolding get_or lookup
empty-IsSound e = ground arith

-- Whatever the requests of a key do, and in whatever order: the count of requests in flight is the
-- number of leases not yet released and is within the concurrency limit; the count of waiting
-- requests is right and within the queue's capacity; a window admits no more requests than the
-- rate allows; and a request that waits on a channel not yet closed finds no slot free.
pub Reach-IsSound : (e : Entry) {w : World} → Reach e empty_world w → IsSound e w
Reach-IsSound e here = empty-IsSound e
Reach-IsSound e (next {u} {v} r s) = Step-IsSound e u v s (Reach-IsSound e r)
