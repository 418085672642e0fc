-- ===== src/Admission/Queue.antt =====
-- The invariant of the admission manager of proxy/api_admission.go, and that every step keeps it.
use kiro_go_plus.Base.{
  ℕ, suc, ◌+◌, ◌-◌, ◌≤◌, ◌<◌, ◌≡◌, true, false, List, [], ◌∷◌, ◌++◌, length, length-append,
  if◌then◌else◌, arith, bytes_eq, nat_eq,
}
use kiro_go_plus.Base.Text.{Text}
use kiro_go_plus.Admission.{AdmissionState, Entry, Lease, Round, admit, reject, park, decide}
use kiro_go_plus.Admission.World.{World, state_of}

-- A request that still waits on the open channel waits for a reason: every slot is taken.
abbrev pub Awake : ℕ → ℕ → ℕ → List ℕ → Type 0
Awake limit notify taken [] = Unit {0}
Awake limit notify taken (n ∷ ns) =
    ((n ≤ notify) × (n ≡ notify → limit ≤ taken)) × Awake limit notify taken ns

-- How many leases are not released.
abbrev pub live : List Lease → ℕ
live [] = 0
live (l ∷ ls) = if l.released then live ls else suc (live ls)

abbrev pub Owned : Text → List Lease → Type 0
Owned key [] = Unit {0}
Owned key (l ∷ ls) = (l.key_id ≡ key) × Owned key ls

-- The counters against the requests that wait (`ns`) and the leases that are out (`ls`).
pub record Inv (e : Entry) (s : AdmissionState) (ns : List ℕ) (ls : List Lease) : Type 0 where
  pub taken : s.in_flight ≡ live ls
  pub queued : s.waiting ≡ length ns
  pub capped : 0 < e.max_concurrency → s.in_flight ≤ e.max_concurrency
  pub bounded : length ns ≤ e.queue_capacity
  pub paced : 0 < e.requests_per_minute → s.requests ≤ e.requests_per_minute
  pub awake : Awake e.max_concurrency s.notify s.in_flight ns
  pub owned : Owned e.id ls

abbrev pub IsSound : Entry → World → Type 0
IsSound e w = Inv e (state_of e w.manager) w.parked w.leases

pub Awake-mono :
    (limit notify a b : ℕ) (ns : List ℕ) → a ≤ b → Awake limit notify a ns → Awake limit notify b ns
Awake-mono limit notify a b [] h w = tt
Awake-mono limit notify a b (n ∷ ns) h w =
    ((w.0.0, λ q. omega (arith, w.0.1 q)), Awake-mono limit notify a b ns h w.1)

-- Closing the channel wakes everybody.
pub Awake-close :
    (limit notify a b : ℕ) (ns : List ℕ) → Awake limit notify a ns → Awake limit (suc notify) b ns
Awake-close limit notify a b [] w = tt
Awake-close limit notify a b (n ∷ ns) w = (
  (omega (arith, w.0.0), λ q. absurd (omega (arith, w.0.0))),
  Awake-close limit notify a b ns w.1,
)

pub Awake-remove :
    (limit notify a : ℕ) (xs : List ℕ) (n : ℕ) (ys : List ℕ)
    → Awake limit notify a (xs ++ (n ∷ ys))
    → Awake limit notify a (xs ++ ys)
Awake-remove limit notify a [] n ys w = w.1
Awake-remove limit notify a (x ∷ xs) n ys w = (w.0, Awake-remove limit notify a xs n ys w.1)

-- The counters after a round, before the world is put together again.
abbrev pub RoundInv : Entry → AdmissionState × Round → List ℕ → List Lease → Type 0
RoundInv e (s, admit l) ns ls = Inv e s ns (l ∷ ls)
RoundInv e (s, reject err) ns ls = Inv e s ns ls
RoundInv e (s, park n) ns ls = Inv e s (n ∷ ns) ls

pub decide-arrive :
    (e : Entry) (now : ℕ) (s : AdmissionState) (ns : List ℕ) (ls : List Lease)
    → Inv e s ns ls
    → RoundInv e (decide e false now s) ns ls
unfolding decide
decide-arrive e now s ns ls v =
    ground (arith, Awake-mono e.max_concurrency s.notify s.in_flight (s.in_flight + 1) ns)

-- A request that waited is counted in `waiting` and no longer in `ns`.
pub decide-retry :
    (e : Entry) (now : ℕ) (s : AdmissionState) (ns : List ℕ) (ls : List Lease)
    → Inv e (record s { waiting = s.waiting - 1 }) ns ls
    → s.waiting ≡ suc (length ns)
    → length ns < e.queue_capacity
    → RoundInv e (decide e true now s) ns ls
unfolding decide
decide-retry e now s ns ls v q room =
    ground (arith, Awake-mono e.max_concurrency s.notify s.in_flight (s.in_flight + 1) ns)

pub length-remove :
    (xs : List ℕ) (n : ℕ) (ys : List ℕ) → length (xs ++ (n ∷ ys)) ≡ suc (length (xs ++ ys))
length-remove xs n ys = omega (arith, length-append xs (n ∷ ys), length-append xs ys)

-- One waiting request less.
pub unqueue-Inv :
    (e : Entry) (s : AdmissionState) (xs : List ℕ) (n : ℕ) (ys : List ℕ) (ls : List Lease)
    → Inv e s (xs ++ (n ∷ ys)) ls
    → Inv e (record s { waiting = s.waiting - 1 }) (xs ++ ys) ls
unqueue-Inv e s xs n ys ls v = record {
  taken = v.taken;
  queued = omega (arith, v.queued, length-remove xs n ys);
  capped = v.capped;
  bounded = omega (arith, v.bounded, length-remove xs n ys);
  paced = v.paced;
  awake = Awake-remove e.max_concurrency s.notify s.in_flight xs n ys v.awake;
  owned = v.owned;
}
