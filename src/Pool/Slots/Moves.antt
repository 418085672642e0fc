-- ===== src/Pool/Slots/Moves.antt =====
-- Any sequence of grants, releases, rate limits and successes on the counters of
-- pool/protection.go.
use kiro_go_plus.Base.{
  ℕ, ◌≤◌, ◌<◌, ◌≡◌, refl, subst, ◌⊎◌, inl, inr, false, Option, none, some, List, [], ◌∷◌, ◌++◌,
  arith, nat_eq, bytes_eq, pair_eq, max, beq_refl,
}
use kiro_go_plus.Base.Dict.{lookup, get_or}
use kiro_go_plus.Base.Text.{Text, is_empty, trim_space}
use kiro_go_plus.Pool.Account.{Account}
use kiro_go_plus.Pool.Circuit.{RuntimeState, zero_state, ProtectionConfig, Busy, state_busy}
use kiro_go_plus.Pool.Slots.{
  Counters, Guard, Grant, granted, busy, or_busy, account_check, profile_check, model_check,
  grant_slot, state_at, profile_limit, account_concurrency_limit, account_model_limit,
  try_acquire_slot, release_guard, record_rate_limited, record_success,
}
use kiro_go_plus.Pool.Slots.Counts.{in_flight_at, Agrees, take_slot-Grown, take_slot-Agrees}
use kiro_go_plus.Pool.Slots.Balance.{
  release_guard-Agrees, record_rate_limited-Agrees, record_success-Agrees,
}

-- What the requests do to the counters, under settings that stay.
pub data Move (up : ProtectionConfig) (c : Counters) (gs : List Guard)
    : Counters → List Guard → Type 0 where
  acquire :
      (acc : Account) (model : Text) (now : ℕ) (d : Counters) (g : Guard)
      → try_acquire_slot acc model up now c ≡ (d, granted g)
      → Move up c gs d (g ∷ gs)
  refused :
      (acc : Account) (model : Text) (now : ℕ) (d : Counters) (b : Busy)
      → try_acquire_slot acc model up now c ≡ (d, busy b)
      → Move up c gs d gs
  release :
      (now : ℕ) (xs : List Guard) (g : Guard) (ys : List Guard)
      → gs ≡ xs ++ (g ∷ ys)
      → Move up c gs (release_guard g up now c).1 (xs ++ ((release_guard g up now c).0 ∷ ys))
  limited :
      (a arn model : Text) (now retry_after draw draw' : ℕ)
      → Move up c gs (record_rate_limited a arn model up now retry_after draw draw' c).0 gs
  succeed : (a arn model : Text) → Move up c gs (record_success a arn model c) gs

or_busy-cases :
    (o p q : Option Busy) (next : Counters × Grant) (c : Counters)
    → ((or_busy o (or_busy p (or_busy q next c) c) c ≡ next) × (o ≡ none) × (p ≡ none) × (q ≡ none))
      ⊎ ((b : Busy) × (or_busy o (or_busy p (or_busy q next c) c) c ≡ (c, busy b)))
or_busy-cases (some b) p q next c = inr (b, refl)
or_busy-cases none (some b) q next c = inr (b, refl)
or_busy-cases none none (some b) next c = inr (b, refl)
or_busy-cases none none none next c = inl (refl, refl, refl, refl)

-- A slot is granted when no check says busy, and otherwise nothing changes.
pub try_acquire_slot-cases :
    (acc : Account) (model : Text) (up : ProtectionConfig) (now : ℕ) (c : Counters)
    → let arn = trim_space acc.profile_arn in
      ((try_acquire_slot acc model up now c ≡ grant_slot acc model up now c)
        × (account_check acc up now c ≡ none)
        × (profile_check arn model (profile_limit up arn model) now c ≡ none)
        × (model_check acc model up now c ≡ none))
      ⊎ ((b : Busy) × (try_acquire_slot acc model up now c ≡ (c, busy b)))
unfolding try_acquire_slot
try_acquire_slot-cases acc model up now c =
    let arn = trim_space acc.profile_arn in
    or_busy-cases (account_check acc up now c)
      (profile_check arn model (profile_limit up arn model) now c) (model_check acc model up now c)
      (grant_slot acc model up now c) c

-- Every move keeps the counters right.
pub Move-Agrees :
    (up : ProtectionConfig) (c d : Counters) (gs hs : List Guard)
    → Move up c gs d hs
    → Agrees up c gs
    → Agrees up d hs
Move-Agrees up c d gs hs (acquire acc model now _ g e) v =
    elim (try_acquire_slot-cases acc model up now c) [
      | inl (q, _, _, _) ↦
          let taken = take_slot-Agrees up acc (trim_space acc.profile_arn) model now c gs v in
          subst (λ e. Agrees up e (g ∷ gs)) (ground arith)
            (subst (λ h. Agrees up (grant_slot acc model up now c).0 (h ∷ gs)) (ground arith) taken)
      | inr (b, q) ↦ absurd (ground arith)
    ]
Move-Agrees up c d gs hs (refused acc model now _ b e) v =
    elim (try_acquire_slot-cases acc model up now c) [
      | inl (q, _, _, _) ↦ absurd (ground arith)
      | inr (b', q) ↦ subst (λ e. Agrees up e gs) (ground arith) v
    ]
Move-Agrees up c d gs hs (release now xs g ys e) v =
    release_guard-Agrees up now c xs g ys (subst (Agrees up c) e v)
Move-Agrees up c d gs hs (limited a arn model now retry_after draw draw') v =
    record_rate_limited-Agrees up a arn model now retry_after draw draw' c gs v
Move-Agrees up c d gs hs (succeed a arn model) v = record_success-Agrees up a arn model c gs v

pub data Reach (up : ProtectionConfig) : Counters → List Guard → Type 0 where
  start : Reach up (record { accounts = []; models = []; profiles = [] }) []
  next :
      {c : Counters} {gs : List Guard} (d : Counters) (hs : List Guard)
      → Reach up c gs
      → Move up c gs d hs
      → Reach up d hs

-- However the requests of a pool interleave, under settings that stay: each counter is the number
-- of guards that are out under its key, so that releasing twice counts once, and no slot is lost
-- or made up.
pub Reach-Agrees :
    (up : ProtectionConfig) {c : Counters} {gs : List Guard} → Reach up c gs → Agrees up c gs
unfolding get_or lookup
Reach-Agrees up start = record {
  by_account = λ id. refl;
  by_model = λ id name. ground arith;
  by_profile = λ p name. ground arith;
}
Reach-Agrees up (next {c} {gs} d hs r m) = Move-Agrees up c d gs hs m (Reach-Agrees up r)

busy_below :
    (s : RuntimeState) (bound now : ℕ) → state_busy s bound now ≡ none → s.in_flight < max 1 bound
unfolding state_busy
busy_below s bound now h = ground arith

-- Within the limits of the account, of the model and of the profile. A limit of 0 that reaches a
-- check counts as 1.
abbrev pub WithinLimits : Account → Text → ProtectionConfig → Counters → Type 0
WithinLimits acc model up d =
    let arn = trim_space acc.profile_arn in
    (in_flight_at acc.id d.accounts ≤ max 1 (account_concurrency_limit up acc))
    × (is_empty model ≡ false
        → in_flight_at (acc.id, model) d.models ≤ max 1 (account_model_limit up model))
    × (0 < profile_limit up arn model
        → in_flight_at (arn, model) d.profiles ≤ profile_limit up arn model)

grant_slot-WithinLimits :
    (acc : Account) (model : Text) (up : ProtectionConfig) (now : ℕ) (c : Counters)
    → let arn = trim_space acc.profile_arn in
      account_check acc up now c ≡ none
      → profile_check arn model (profile_limit up arn model) now c ≡ none
      → model_check acc model up now c ≡ none
      → WithinLimits acc model up (grant_slot acc model up now c).0
grant_slot-WithinLimits acc model up now c a p m =
    let arn = trim_space acc.profile_arn in
    let g = take_slot-Grown acc arn (profile_limit up arn model) model now c in
    (
      ground (
        arith,
        g.accounts acc.id,
        beq_refl acc.id,
        busy_below (get_or acc.id zero_state c.accounts) (account_concurrency_limit up acc) now a,
      ),
      (λ named. ground (
        arith,
        g.models acc.id model,
        beq_refl acc.id,
        beq_refl model,
        busy_below (state_at acc.id model c.models) (account_model_limit up model) now,
      )),
      (λ counted. ground (
        arith,
        g.profiles arn model,
        beq_refl arn,
        beq_refl model,
        busy_below (state_at arn model c.profiles) (profile_limit up arn model) now,
      )),
    )

-- A grant leaves the counters within the limits, a refusal leaves them as they were.
abbrev pub Bounded : Account → Text → ProtectionConfig → Counters → Counters × Grant → Type 0
Bounded acc model up c (d, granted g) = WithinLimits acc model up d
Bounded acc model up c (d, busy b) = d ≡ c

-- A grant leaves the counters within the limits of the account, the model and the profile, where a
-- limit of 0 of an account or a model counts as 1, and a refusal leaves all counters as they were.
pub try_acquire_slot_bounds :
    (acc : Account) (model : Text) (up : ProtectionConfig) (now : ℕ) (c : Counters)
    → Bounded acc model up c (try_acquire_slot acc model up now c)
try_acquire_slot_bounds acc model up now c = elim (try_acquire_slot-cases acc model up now c) [
  | inl (q, a, p, m) ↦ rw q (grant_slot-WithinLimits acc model up now c a p m)
  | inr (b, q) ↦ rw q refl
]
