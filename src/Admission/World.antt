-- ===== src/Admission/World.antt =====
-- One API key under any interleaving of its requests (proxy/api_admission.go): who waits on which
-- channel, which leases are out, and what the counters have to say of them.
use kiro_go_plus.Base.{ℕ, ◌<◌, ◌≡◌, true, false, List, [], ◌∷◌, ◌++◌, some, bytes_eq}
use kiro_go_plus.Base.Dict.{lookup, get_or}
use kiro_go_plus.Admission.{
  AdmissionState, Manager, Entry, Lease, AuthError, Round, admit, reject, park, Wake, fresh_state,
  is_unlimited, acquire_round, after_park, release, reserve_tokens, reconcile_tokens,
}

-- `parked` holds the channel that each waiting request selects on.
pub record World : Type 0 where
  pub manager : Manager
  pub parked : List ℕ
  pub leases : List Lease

-- The key's state; a key that was never seen has all counts at 0.
abbrev pub state_of : Entry → Manager → AdmissionState
state_of e m = get_or e.id (fresh_state 0) m

abbrev pub settle : Round → World → World
settle (admit l) w = record w { leases = l ∷ w.leases }
settle (reject err) w = w
settle (park n) w = record w { parked = n ∷ w.parked }

abbrev pub after_round : Manager × Round → World → World
after_round (m, r) w = settle r (record w { manager = m })

-- A locked section of some request, or a step for another key.
pub data Step (e : Entry) (w : World) : World → Type 0 where
  arrive :
      (now : ℕ)
      → is_unlimited e ≡ false
      → Step e w (after_round (acquire_round e false now w.manager) w)
  retry :
      (now : ℕ) (xs : List ℕ) (n : ℕ) (ys : List ℕ)
      → w.parked ≡ xs ++ (n ∷ ys)
      → n < (state_of e w.manager).notify
      → Step e w (after_round (acquire_round e true now w.manager) (record w { parked = xs ++ ys }))
  leave :
      (deadline now : ℕ) (wake : Wake) (xs : List ℕ) (n : ℕ) (ys : List ℕ) (err : AuthError)
      → w.parked ≡ xs ++ (n ∷ ys)
      → (after_park e deadline now wake w.manager).1 ≡ some err
      → Step e w
          (record w { manager = (after_park e deadline now wake w.manager).0; parked = xs ++ ys })
  free :
      (now : ℕ) (xs : List Lease) (l : Lease) (ys : List Lease)
      → w.leases ≡ xs ++ (l ∷ ys)
      → Step e w (record w {
        manager = (release l now w.manager).1;
        leases = xs ++ ((release l now w.manager).0 ∷ ys);
      })
  reserve :
      (now tokens : ℕ) (xs : List Lease) (l : Lease) (ys : List Lease)
      → w.leases ≡ xs ++ (l ∷ ys)
      → Step e w (record w {
        manager = (reserve_tokens l tokens now w.manager).1;
        leases = xs ++ ((reserve_tokens l tokens now w.manager).0 ∷ ys);
      })
  reconcile :
      (now actual : ℕ) (xs : List Lease) (l : Lease) (ys : List Lease)
      → w.leases ≡ xs ++ (l ∷ ys)
      → Step e w (record w {
        manager = (reconcile_tokens l actual now w.manager).1;
        leases = xs ++ ((reconcile_tokens l actual now w.manager).0 ∷ ys);
      })
  other :
      (m : Manager) → lookup e.id m ≡ lookup e.id w.manager → Step e w (record w { manager = m })

pub data Reach (e : Entry) (w : World) : World → Type 0 where
  here : Reach e w w
  next : {u v : World} → Reach e w u → Step e u v → Reach e w v

abbrev pub empty_world : World
empty_world = record { manager = []; parked = []; leases = [] }
