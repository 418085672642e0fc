-- ===== src/Failover/Search/Served.antt =====
-- The account that a search finds (proxy/account_failover.go), by what AcquireForModel promises.
use kiro_go_plus.Base.{
  ℕ, zero, suc, ◌≤◌, ◌≡◌, refl, sym, subst, Bool, true, false, Option, none, some, List, [],
  if◌then◌else◌, ◌==◌, nat_eq, Bool-cases, inl, inr, arith,
}
use kiro_go_plus.Base.Text.{Text}
use kiro_go_plus.Pool.{AccountPool, Settings}
use kiro_go_plus.Pool.Account.{Account}
use kiro_go_plus.Pool.Acquire.{
  Acquired, Outcome, acquired, all_busy, nothing, acquire_for_model, get_next_for_model_excluding,
}
use kiro_go_plus.Pool.Acquire.Next.{IsNext, get_next_for_model_excluding-IsNext}
use kiro_go_plus.Pool.Acquire.Requests.{acquire_for_model-Fair}
use kiro_go_plus.Pool.Acquire.Sound.{Fair}
use kiro_go_plus.Pool.Circuit.{ProtectionConfig}
use kiro_go_plus.Pool.Select.{has_text}
use kiro_go_plus.Pool.Select.Sound.{Serves}
use kiro_go_plus.Pool.Slots.{Counters, granted, normalize_protection_model, try_acquire_slot}
use kiro_go_plus.Failover.{AccountAttemptController, Reading, begin_selection, stop_err, next}
use kiro_go_plus.Failover.Search.{
  Round, next_round, Found, found, found_unguarded, busy_for, queue_busy, no_account, unfinished,
  unless_queue_full, after_round, Answer, guarded, unguarded, turned_away, no_answer, with_guard,
  without_guard, acquire_account_for_model, after_answer, search, acquire_next_account,
}

next-excluded :
    (begun : ℕ) (r : Reading) (c : AccountAttemptController)
    → (next begun r c).0.excluded ≡ c.excluded
unfolding next begin_selection stop_err
next-excluded begun r c = ground arith

-- A further round starts with no account excluded.
next_round-excluded :
    (r : Round) (wait : ℕ) (c : AccountAttemptController)
    → (next_round r wait c).1 ≡ true
    → (next_round r wait c).0.excluded ≡ []
unfolding next_round
next_round-excluded r wait c again = ground (arith, again)

module _ (st : Settings) (up : ProtectionConfig) (model route : Text) (env : ℕ → Round) where
  -- With protection: the account serves the model in the pool of the round, and the guard is of a slot on its counters.
  abbrev pub ServedIn : Round → List Text → Acquired → Type 0
  ServedIn r excluded a =
      (up.enabled ≡ true)
      × Serves r.pool st model (λ id. has_text id excluded) r.acquire_at true a.account
      × ((d : Counters) × (try_acquire_slot a.account (normalize_protection_model model) up
              r.acquire_at r.pool.counters
            ≡ (d, granted a.guard)))

  -- Without protection: fit to serve the model in the pool of the round, or the pool's fallback.
  abbrev pub NextIn : Round → List Text → Account → Type 0
  NextIn r excluded acc =
      (up.enabled ≡ false)
      × IsNext r.pool st model (λ id. has_text id excluded) r.acquire_at (some acc)

  -- An account that is found was served in the round i, where the accounts of the list are excluded,
  -- or in a later one, where none is.
  abbrev pub FoundFrom : ℕ → List Text → Found → Type 0
  FoundFrom i excluded (found a) =
      (j : ℕ) × (i ≤ j) × ServedIn (env j) (if j == i then excluded else []) a
  FoundFrom i excluded (found_unguarded acc) =
      (j : ℕ) × (i ≤ j) × NextIn (env j) (if j == i then excluded else []) acc
  FoundFrom i excluded (busy_for wait) = Unit
  FoundFrom i excluded (queue_busy wait) = Unit
  FoundFrom i excluded no_account = Unit
  FoundFrom i excluded unfinished = Unit

  full-FoundFrom :
      (i : ℕ) (excluded : List Text) (c : AccountAttemptController) (f : Found)
      → FoundFrom i excluded f
      → FoundFrom i excluded (unless_queue_full c f)
  full-FoundFrom i excluded c f h = elim (Bool-cases c.wait_queue_full) [
    | inl full ↦ rw full tt
    | inr free ↦ rw free h
  ]

  same_branches : (b : Bool) → ◌≡◌ {A = List Text} (if b then [] else []) []
  same_branches true = refl
  same_branches false = refl

  -- A later round excludes none, whichever it is.
  later_excluded :
      (i j : ℕ) (excluded : List Text)
      → suc i ≤ j
      → (if j == suc i then [] else []) ≡ (if j == i then excluded else [])
  later_excluded i j excluded after =
      let other : (j == i) ≡ false = ground (arith, after) in rw other (same_branches (j == suc i))

  later-FoundFrom :
      (i : ℕ) (excluded : List Text) (f : Found) → FoundFrom (suc i) [] f → FoundFrom i excluded f
  later-FoundFrom i excluded (found a) (j, after, served) =
      let here = later_excluded i j excluded after in
      (j, omega (arith, after), subst (λ e. ServedIn (env j) e a) here served)
  later-FoundFrom i excluded (found_unguarded acc) (j, after, next) =
      let here = later_excluded i j excluded after in
      (j, omega (arith, after), subst (λ e. NextIn (env j) e acc) here next)
  later-FoundFrom i excluded (busy_for wait) h = tt
  later-FoundFrom i excluded (queue_busy wait) h = tt
  later-FoundFrom i excluded no_account h = tt
  later-FoundFrom i excluded unfinished h = tt

  -- The rest of the loop, from the round i on.
  abbrev FindsFrom : ℕ → (AccountAttemptController → AccountAttemptController × Found) → Type 0
  FindsFrom i go = (e : AccountAttemptController) → FoundFrom i e.excluded (go e).1

  after_round-FoundFrom :
      (go : AccountAttemptController → AccountAttemptController × Found) (i wait : ℕ) (f : Found)
      (c : AccountAttemptController)
      → FindsFrom (suc i) go
      → FoundFrom i c.excluded f
      → FoundFrom i c.excluded (after_round go (env i) wait f c).1
  after_round-FoundFrom go i wait f c rest h =
      let e = (next_round (env i) wait c).0 in
      elim (Bool-cases (next_round (env i) wait c).1) [
        | inl again ↦
            let clear = next_round-excluded (env i) wait c again in
            rw (again, after_round)
              (later-FoundFrom i c.excluded (go e).1
                (subst (λ x. FoundFrom (suc i) x (go e).1) clear (rest e)))
        | inr over ↦ rw (over, after_round) (full-FoundFrom i c.excluded e f h)
      ]

  -- What acquireAccountForModel answers in a round.
  abbrev Answers : Round → List Text → Answer → Type 0
  Answers r excluded (guarded a) = ServedIn r excluded a
  Answers r excluded (unguarded acc) = NextIn r excluded acc
  Answers r excluded (turned_away wait) = Unit
  Answers r excluded no_answer = Unit

  with_guard-Answers :
      (r : Round) (excluded : List Text) (o : AccountPool × Outcome)
      → up.enabled ≡ true
      → Fair
          (Serves r.pool st model (λ id. has_text id excluded) r.acquire_at true)
          up
          (normalize_protection_model model)
          r.acquire_at
          r.pool.counters
          o
      → Answers r excluded (with_guard o.1)
  with_guard-Answers r excluded (q, acquired a) on (fit, slot) = (on, fit, (q.counters, slot))
  with_guard-Answers r excluded (q, all_busy wait) on fair = tt
  with_guard-Answers r excluded (q, nothing) on fair = tt

  without_guard-Answers :
      (r : Round) (excluded : List Text) (o : Option Account)
      → up.enabled ≡ false
      → IsNext r.pool st model (λ id. has_text id excluded) r.acquire_at o
      → Answers r excluded (without_guard o)
  without_guard-Answers r excluded none off next = tt
  without_guard-Answers r excluded (some acc) off next = (off, next)

  acquire_account_for_model-Answers :
      (r : Round) (excluded : List Text)
      → Answers r excluded
          (acquire_account_for_model st up model route
            (λ id. has_text id excluded)
            r.acquire_at
            r.pool).1
  unfolding acquire_account_for_model
  acquire_account_for_model-Answers r excluded =
      let out = λ (id : Text). has_text id excluded in
      let given = acquire_account_for_model st up model route out r.acquire_at r.pool in
      elim (Bool-cases up.enabled) [
        | inl on ↦
            let o = acquire_for_model st up model route out r.acquire_at r.pool in
            let same : given.1 ≡ with_guard o.1 = ground (arith, on) in
            subst (Answers r excluded) (sym same) (
              with_guard-Answers r excluded o on
                (acquire_for_model-Fair st up model route out r.acquire_at r.pool))
        | inr off ↦
            let o = get_next_for_model_excluding r.pool st model out r.acquire_at in
            let same : given.1 ≡ without_guard o.1 = ground (arith, off) in
            subst (Answers r excluded) (sym same) (
              without_guard-Answers r excluded o.1 off
                (get_next_for_model_excluding-IsNext r.pool st model out r.acquire_at))
      ]

  answer-FoundFrom :
      (go : AccountAttemptController → AccountAttemptController × Found) (i : ℕ)
      (c : AccountAttemptController) (o : Answer)
      → FindsFrom (suc i) go
      → Answers (env i) c.excluded o
      → FoundFrom i c.excluded (after_answer go (env i) c o).1
  answer-FoundFrom go i c (guarded a) rest served =
      let here : c.excluded ≡ (if i == i then c.excluded else []) = ground arith in
      (i, omega arith, subst (λ e. ServedIn (env i) e a) here served)
  answer-FoundFrom go i c (unguarded acc) rest next =
      let here : c.excluded ≡ (if i == i then c.excluded else []) = ground arith in
      (i, omega arith, subst (λ e. NextIn (env i) e acc) here next)
  answer-FoundFrom go i c (turned_away wait) rest answers =
      after_round-FoundFrom go i wait (busy_for wait) c rest tt
  answer-FoundFrom go i c no_answer rest answers = after_round-FoundFrom go i 0 no_account c rest tt

  search-FoundFrom :
      (n i : ℕ) (c : AccountAttemptController)
      → FoundFrom i c.excluded (search st up model route n env i c).1
  unfolding search
  search-FoundFrom zero i c = tt
  search-FoundFrom (suc n) i c =
      let r = env i in
      let d = (next r.next_at r.next_asks c).0 in
      let same = next-excluded r.next_at r.next_asks c in
      let answer =
        (acquire_account_for_model st up model route (λ id. has_text id d.excluded) r.acquire_at
          r.pool).1 in
      elim (Bool-cases (next r.next_at r.next_asks c).1) [
        | inr over ↦ rw (over, search) tt
        | inl go ↦
            rw (go, search)
              (subst
                (λ x.
                  FoundFrom i x
                    (after_answer (search st up model route n env (suc i)) r d answer).1)
                same
                (answer-FoundFrom (search st up model route n env (suc i)) i d answer
                  (λ e. search-FoundFrom n (suc i) e)
                  (acquire_account_for_model-Answers r d.excluded)))
      ]

  -- An account that a search finds comes from the pool of one of its rounds. With protection, it is fit
  -- to serve the model there, and the guard is of a slot that the limits grant on the counters of that
  -- pool. Without protection, it is fit, or no account is selected there and it is the fallback: of the
  -- accounts that could do but for their cooldown, one whose cooldown ends first. The accounts that the
  -- request has excluded are left out in the first round, and none in the later ones. This holds for
  -- any pools, waits and readings of the clock, and for however many rounds.
  pub acquire_next_account-FoundFrom :
      (fuel begun ended : ℕ) (c : AccountAttemptController)
      → FoundFrom 0 c.excluded (acquire_next_account st up model route fuel env begun ended c).1
  unfolding acquire_next_account begin_selection
  acquire_next_account-FoundFrom fuel begun ended c =
      let b = (begin_selection begun c).0 in
      let same : b.excluded ≡ c.excluded = ground arith in
      elim (Bool-cases (begin_selection begun c).1) [
        | inr over ↦ rw (over, acquire_next_account) tt
        | inl started ↦
            rw (started, acquire_next_account)
              (subst (λ x. FoundFrom 0 x (search st up model route fuel env 0 b).1) same
                (search-FoundFrom fuel 0 b))
      ]
