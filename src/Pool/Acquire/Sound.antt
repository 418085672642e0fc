-- ===== src/Pool/Acquire/Sound.antt =====
-- What AcquireForModel (pool/protection.go) promises: a fit account with a slot on the pool's
-- counters, or the counters as they were.
use kiro_go_plus.Base.{
  ℕ, ◌<◌, ◌≡◌, refl, sym, ap, ◌∙◌, ◌⊎◌, inl, inr, Bool, List, [], ◌∷◌, All, arith, max, ltb, ltb→lt,
  Bool-cases, nat_eq, bytes_eq, pair_eq,
}
use kiro_go_plus.Base.Text.{Text}
use kiro_go_plus.Pool.{AccountPool, RoutingMode, priority, balanced, weighted, other_mode, Settings}
use kiro_go_plus.Pool.Account.{Account}
use kiro_go_plus.Pool.Circuit.{ProtectionConfig, Busy}
use kiro_go_plus.Pool.Cooldowns.{remember_route_affinity}
use kiro_go_plus.Pool.Order.{selection_indexes, commit_weighted_selection}
use kiro_go_plus.Pool.Select.{Index}
use kiro_go_plus.Pool.Slots.{
  Counters, Guard, Grant, granted, busy, grant_slot, normalize_protection_model, try_acquire_slot,
}
use kiro_go_plus.Pool.Slots.Moves.{try_acquire_slot-cases}
use kiro_go_plus.Pool.Acquire.{
  Outcome, acquired, all_busy, nothing, give_up, try_each, acquire_by_order,
}

pub remember-counters :
    (key id : Text) (now : ℕ) (up : ProtectionConfig) (p : AccountPool)
    → (remember_route_affinity key id now up p).counters ≡ p.counters
unfolding remember_route_affinity
remember-counters key id now up p = ground arith

commit-counters :
    (mode : RoutingMode) (id : Text) (xs : List Index) (p : AccountPool)
    → (commit_weighted_selection mode id xs p).counters ≡ p.counters
unfolding commit_weighted_selection
commit-counters mode id [] p = refl
commit-counters balanced id (x ∷ xs) p = ground arith
commit-counters weighted id (x ∷ xs) p = ground arith
commit-counters priority id (x ∷ xs) p = refl
commit-counters other_mode id (x ∷ xs) p = refl

-- A slot on the counters c, of an account with some property; or c as it was.
abbrev pub Fair :
    (Account → Type 0) → ProtectionConfig → Text → ℕ → Counters → AccountPool × Outcome → Type 0
Fair Fit up key now c (q, acquired a) =
    Fit a.account × (try_acquire_slot a.account key up now c ≡ (q.counters, granted a.guard))
Fair Fit up key now c (q, all_busy wait) = (0 < wait) × (q.counters ≡ c)
Fair Fit up key now c (q, nothing) = q.counters ≡ c

-- Each account of the list is out of slots.
abbrev pub Full : ProtectionConfig → Text → ℕ → Counters → List Index → Type 0
Full up key now c xs = All (λ x. (b : Busy) × (try_acquire_slot x.1 key up now c ≡ (c, busy b))) xs

-- An account is returned, or each account of the list is out of slots.
abbrev pub Served : ProtectionConfig → Text → ℕ → Counters → List Index → Outcome → Type 0
Served up key now c xs (acquired a) = Unit
Served up key now c xs (all_busy wait) = Full up key now c xs
Served up key now c xs nothing = Full up key now c xs

pub try-cases :
    (acc : Account) (key : Text) (up : ProtectionConfig) (now : ℕ) (c : Counters)
    → ((d : Counters) × (g : Guard) × (try_acquire_slot acc key up now c ≡ (d, granted g)))
      ⊎ ((b : Busy) × (try_acquire_slot acc key up now c ≡ (c, busy b)))
try-cases acc key up now c = elim (try_acquire_slot-cases acc key up now c) [
  | inl (q, _, _, _) ↦ inl ((grant_slot acc key up now c).0, _, q)
  | inr (b, q) ↦ inr (b, q)
]

give_up-Fair :
    (Fit : Account → Type 0) (up : ProtectionConfig) (key : Text) (now best : ℕ) (p : AccountPool)
    → Fair Fit up key now p.counters (p, give_up best)
give_up-Fair Fit up key now best p = elim (Bool-cases (ltb 0 best)) [
  | inl l ↦ rw l (ltb→lt 0 best l, refl)
  | inr l ↦ rw l refl
]

-- The loop over the ordered accounts.
pub try_each-Fair :
    (Fit : Account → Type 0) (st : Settings) (up : ProtectionConfig) (key route : Text) (now : ℕ)
    (all xs : List Index) (best : ℕ) (p : AccountPool)
    → All (λ x. Fit x.1) xs
    → Fair Fit up key now p.counters (try_each st up key route now all xs best p)
unfolding try_each
try_each-Fair Fit st up key route now all [] best p fits = give_up-Fair Fit up key now best p
try_each-Fair Fit st up key route now all ((i, acc) ∷ xs) best p (fit, fits) =
    elim (try-cases acc key up now p.counters) [
      | inl (d, g, q) ↦
          let c = (try_acquire_slot acc key up now p.counters).0 in
          let charged : AccountPool = record p { counters = c } in
          let kept =
            remember-counters route acc.id now up
              (commit_weighted_selection st.mode acc.id all charged)
            ∙ (commit-counters st.mode acc.id all charged ∙ ap (λ (e : Counters × Grant). e.0) q) in
          rw (q, try_each) (fit, q ∙ ap (λ (e : Counters). (e, granted g)) (sym kept))
      | inr (b, q) ↦
          rw (q, try_each)
            (try_each-Fair Fit st up key route now all xs (max best b.retry_after) p fits)
    ]

give_up-Served :
    (up : ProtectionConfig) (key : Text) (now : ℕ) (c : Counters) (xs : List Index) (best : ℕ)
    → Full up key now c xs
    → Served up key now c xs (give_up best)
give_up-Served up key now c xs best h = elim (Bool-cases (ltb 0 best)) [
  | inl l ↦ rw l h
  | inr l ↦ rw l h
]

Served-cons :
    (up : ProtectionConfig) (key : Text) (now : ℕ) (c : Counters) (i : ℕ) (acc : Account)
    (xs : List Index) (b : Busy) (o : Outcome)
    → try_acquire_slot acc key up now c ≡ (c, busy b)
    → Served up key now c xs o
    → Served up key now c ((i, acc) ∷ xs) o
Served-cons up key now c i acc xs b (acquired a) q h = tt
Served-cons up key now c i acc xs b (all_busy wait) q h = ((b, q), h)
Served-cons up key now c i acc xs b nothing q h = ((b, q), h)

try_each-Served :
    (st : Settings) (up : ProtectionConfig) (key route : Text) (now : ℕ) (all xs : List Index)
    (best : ℕ) (p : AccountPool)
    → Served up key now p.counters xs (try_each st up key route now all xs best p).1
unfolding try_each
try_each-Served st up key route now all [] best p = give_up-Served up key now p.counters [] best tt
try_each-Served st up key route now all ((i, acc) ∷ xs) best p =
    elim (try-cases acc key up now p.counters) [
      | inl (d, g, q) ↦ rw (q, try_each) tt
      | inr (b, q) ↦
          let best' = max best b.retry_after in
          rw (q, try_each)
            (Served-cons up key now p.counters i acc xs b
              (try_each st up key route now all xs best' p).1 q
              (try_each-Served st up key route now all xs best' p))
    ]

-- Without a bound account, a request is turned away only when every account that the pool selects
-- for it is out of slots: no selected account with a free slot is passed over.
pub acquire_by_order-Served :
    (st : Settings) (up : ProtectionConfig) (model route : Text) (excluded : Text → Bool)
    (now best : ℕ) (p : AccountPool)
    → Served up
        (normalize_protection_model model)
        now
        p.counters
        (selection_indexes p st model excluded now)
        (acquire_by_order st up model route excluded now best p).1
unfolding acquire_by_order
acquire_by_order-Served st up model route excluded now best p =
    let all = selection_indexes p st model excluded now in
    try_each-Served st up (normalize_protection_model model) route now all all best p
