-- ===== src/Pool/Slots.antt =====
-- Upstream slots (pool/protection.go): the limits, the grant of a slot on up to three counters, and
-- its release.
pub mod Counts
pub mod Balance
pub mod Moves
use kiro_go_plus.Base.{
  ℕ, suc, ◌+◌, ◌-◌, Bool, true, false, not, ◌&&◌, ◌||◌, Option, none, some, ltb, max, if◌then◌else◌,
  ◌==◌, nat_eq, bytes_eq, pair_eq, [],
}
use kiro_go_plus.Base.Dict.{Dict, lookup, insert, delete, get_or}
use kiro_go_plus.Base.Text.{Text, codes, is_empty, trim_space, to_lower, equal_fold}
use kiro_go_plus.Pool.Account.{Account}
use kiro_go_plus.Pool.Circuit.{
  RuntimeState, zero_state, ProtectionConfig, Busy, state_busy, occupy, vacate,
  protection_state_idle, apply_protection_cooldown, close_protection_circuit,
}

unfoldable pub normalize_protection_model : Text → Text
normalize_protection_model model = to_lower (trim_space model)

abbrev pub is_adaptive : ProtectionConfig → Bool
is_adaptive up = not (equal_fold (trim_space up.concurrency_mode) (codes "hard"))

-- The soft limit in adaptive mode, where it is set and lower.
unfoldable pub soften : ProtectionConfig → ℕ → ℕ → ℕ
soften up soft hard = if is_adaptive up && (ltb 0 soft && ltb soft hard) then soft else hard

unfoldable pub account_concurrency_limit : ProtectionConfig → Account → ℕ
account_concurrency_limit up account = soften up up.soft_max_per_account_concurrency (
    if ltb 0 account.max_concurrency
    then account.max_concurrency
    else if ltb 0 up.max_per_account_concurrency
    then up.max_per_account_concurrency
    else 10)

unfoldable pub account_model_limit : ProtectionConfig → Text → ℕ
account_model_limit up model =
    let limit = get_or (normalize_protection_model model) 0 up.per_model_concurrency in
    soften up up.soft_max_per_account_model_concurrency (
      if ltb 0 limit
      then limit
      else if ltb 0 up.max_per_account_model_concurrency
      then up.max_per_account_model_concurrency
      else 5)

-- 0 is no limit.
unfoldable pub profile_limit : ProtectionConfig → Text → Text → ℕ
profile_limit up profile_arn model =
    if is_empty profile_arn
    then 0
    else get_or (normalize_protection_model model) 0
        (get_or profile_arn [] up.per_profile_model_concurrency)

-- The three counters of the pool.
pub record Counters : Type 0 where
  pub accounts : Dict Text RuntimeState
  pub models : Dict (Text × Text) RuntimeState
  pub profiles : Dict (Text × Text) RuntimeState

-- UpstreamRequestGuard; `released` is its atomic flag.
pub record Guard : Type 0 where
  pub account_id : Text
  pub profile_arn : Text
  pub model : Text
  pub released : Bool

pub data Grant : Type 0 where
  granted : Guard → Grant
  busy : Busy → Grant

abbrev pub state_at : Text → Text → Dict (Text × Text) RuntimeState → RuntimeState
state_at a b m = get_or (a, b) zero_state m

-- The writes of tryAcquireSlotLocked, after its checks. The account's counter has no circuit.
unfoldable pub take_slot : Account → Text → ℕ → Text → ℕ → Counters → Counters
take_slot acc arn profile_limit_value model now c = record {
  accounts =
      let s = get_or acc.id zero_state c.accounts in
      insert acc.id (record s { in_flight = s.in_flight + 1 }) c.accounts;
  models =
      if is_empty model
      then c.models
      else insert (acc.id, model) (occupy (state_at acc.id model c.models) now) c.models;
  profiles =
      if profile_limit_value == 0
      then c.profiles
      else insert (arn, model) (occupy (state_at arn model c.profiles) now) c.profiles;
}

abbrev pub or_busy : Option Busy → Counters × Grant → Counters → Counters × Grant
or_busy none next c = next
or_busy (some b) next c = (c, busy b)

-- The three checks of tryAcquireSlotLocked, in its order.
abbrev pub account_check : Account → ProtectionConfig → ℕ → Counters → Option Busy
account_check acc up now c =
    state_busy (get_or acc.id zero_state c.accounts) (account_concurrency_limit up acc) now

abbrev pub profile_check : Text → Text → ℕ → ℕ → Counters → Option Busy
profile_check arn model limit now c =
    if limit == 0 then none else state_busy (state_at arn model c.profiles) limit now

abbrev pub model_check : Account → Text → ProtectionConfig → ℕ → Counters → Option Busy
model_check acc model up now c =
    if is_empty model
    then none
    else state_busy (state_at acc.id model c.models) (account_model_limit up model) now

abbrev pub grant_slot : Account → Text → ProtectionConfig → ℕ → Counters → Counters × Grant
grant_slot acc model up now c =
    let arn = trim_space acc.profile_arn in
    (
      take_slot acc arn (profile_limit up arn model) model now c,
      granted (record { account_id = acc.id; profile_arn = arn; model = model; released = false }),
    )

-- tryAcquireSlotLocked
unfoldable pub try_acquire_slot :
    Account → Text → ProtectionConfig → ℕ → Counters → Counters × Grant
try_acquire_slot acc model up now c =
    let arn = trim_space acc.profile_arn in
    or_busy (account_check acc up now c)
      (or_busy (profile_check arn model (profile_limit up arn model) now c)
        (or_busy (model_check acc model up now c) (grant_slot acc model up now c) c) c)
      c

-- The state is put back, or its entry dropped when nothing is left to remember.
abbrev pub put_back :
    Text × Text → RuntimeState → Dict (Text × Text) RuntimeState → Dict (Text × Text) RuntimeState
put_back key s m = if protection_state_idle s then delete key m else insert key s m

-- releaseUpstreamSlot
unfoldable pub release_upstream_slot :
    Text → Text → Text → ProtectionConfig → ℕ → Counters → Counters
release_upstream_slot account_id arn model up now c = record {
  accounts =
      let s = get_or account_id zero_state c.accounts in
      let t = record s { in_flight = s.in_flight - 1 } in
      if t.in_flight == 0 then delete account_id c.accounts else insert account_id t c.accounts;
  models =
      if is_empty model
      then c.models
      else put_back (account_id, model) (vacate (state_at account_id model c.models) up now)
          c.models;
  profiles =
      if is_empty arn
      then c.profiles
      else put_back (arn, model) (vacate (state_at arn model c.profiles) up now) c.profiles;
}

-- Guard.Release
unfoldable pub release_guard : Guard → ProtectionConfig → ℕ → Counters → Guard × Counters
release_guard g up now c = if g.released then (g, c) else (
  record g { released = true },
  release_upstream_slot g.account_id g.profile_arn g.model up now c,
)

-- The part of RecordUpstreamRateLimitedWithRetryAfter on the counters, with protection enabled: the
-- counters and the cooldown. The two cooldowns draw their jitter apart.
unfoldable pub record_rate_limited :
    Text → Text → Text → ProtectionConfig → ℕ → ℕ → ℕ → ℕ → Counters → Counters × ℕ
record_rate_limited account_id profile_arn model up now retry_after draw draw' c =
    let key = normalize_protection_model model in
    let arn = trim_space profile_arn in
    let (s, cooldown) =
      apply_protection_cooldown (state_at account_id key c.models) up now retry_after draw in
    let (t, cooldown') =
      apply_protection_cooldown (state_at arn key c.profiles) up now retry_after draw' in
    let limited : Counters = record c { models = insert (account_id, key) s c.models } in
    if not (is_empty arn) && ltb 0 (profile_limit up arn key)
    then (record limited { profiles = insert (arn, key) t c.profiles }, max cooldown cooldown')
    else (limited, cooldown)

abbrev pub close_at :
    Text × Text → Dict (Text × Text) RuntimeState → Dict (Text × Text) RuntimeState
close_at key m =
    let s = close_protection_circuit (get_or key zero_state m) in
    if s.in_flight == 0 then delete key m else insert key s m

-- The part of RecordUpstreamSuccess on the counters, with protection enabled.
unfoldable pub record_success : Text → Text → Text → Counters → Counters
record_success account_id profile_arn model c =
    let key = normalize_protection_model model in
    let arn = trim_space profile_arn in
    if is_empty key then c else record c {
      models = close_at (account_id, key) c.models;
      profiles = if is_empty arn then c.profiles else close_at (arn, key) c.profiles;
    }
