-- ===== src/Refresh.antt =====
-- The refresh of tokens (proxy/refresh_coordinator.go): one call for each account, and a bound on the
-- calls that run at once. The refresh itself is a call of the identity provider, and its result is
-- stored by the configuration.
pub mod Totals
pub mod Counts
use kiro_go_plus.Base.{
  ℕ, ◌+◌, ◌-◌, ◌*◌, ◌++◌, Bool, true, false, not, ◌&&◌, ◌||◌, Option, none, some, List, [], ◌∷◌,
  ltb, leb, max, if◌then◌else◌, ◌==◌, nat_eq, bytes_eq,
}
use kiro_go_plus.Base.Dict.{Dict, lookup, insert, delete}
use kiro_go_plus.Base.Text.{Text, codes, is_empty, trim_space}
use kiro_go_plus.Base.Time.{second, unix}
use kiro_go_plus.Pool.Account.{Account}
use kiro_go_plus.Pool.Errors.{contains_any}
use kiro_go_plus.Pool.Select.{token_refresh_skew_seconds}

-- Where the goroutine of a call stands: it waits for a slot, it has one, or its result is there.
pub data Place : Type 0 where
  queued running over : Place

-- tokenRefreshCoordinator; the channel that wakes the waiting goroutines is left out, for each may
-- try again at any time.
pub record TokenRefreshCoordinator : Type 0 where
  pub in_flight : Dict Text Place
  pub active : ℕ
  pub waiting : ℕ
  pub upstream_blocked_until : ℕ

abbrev pub refresh_upstream_block_cooldown : ℕ
refresh_upstream_block_cooldown = 30 * second

-- refreshUpstreamBlockError, with whether it returns an error.
unfoldable pub refresh_upstream_block_error :
    ℕ → TokenRefreshCoordinator → TokenRefreshCoordinator × Bool
refresh_upstream_block_error now c =
    if leb c.upstream_blocked_until now
    then (record c { upstream_blocked_until = 0 }, false)
    else (c, true)

-- markRefreshUpstreamBlocked
unfoldable pub mark_refresh_upstream_blocked :
    ℕ → ℕ → TokenRefreshCoordinator → TokenRefreshCoordinator
mark_refresh_upstream_blocked now duration c =
    let until = now + (if duration == 0 then refresh_upstream_block_cooldown else duration) in
    if ltb c.upstream_blocked_until until then record c { upstream_blocked_until = until } else c

-- tokenStillValid; a margin that is not positive reads as 0.
unfoldable pub token_still_valid : Account → ℕ → ℕ → Bool
token_still_valid acc before now =
    let margin = if before == 0 then token_refresh_skew_seconds else before in
    if is_empty acc.access_token
    then false
    else if acc.expires_at == 0
    then true
    else ltb (unix now + margin) acc.expires_at

-- copyRuntimeCredentialFields, from the pool's account if it has one.
abbrev pub copied_credentials : Option Account → Account → Account
copied_credentials none acc = acc
copied_credentials (some latest) acc = record acc {
  access_token = latest.access_token;
  refresh_token = latest.refresh_token;
  expires_at = latest.expires_at;
  profile_arn = latest.profile_arn;
}

-- What RefreshContext answers before it waits for a call.
pub data Answer : Type 0 where
  still_valid missing_token upstream_blocked queue_full : Answer
  joins starts : Text → Answer

-- The part of RefreshContext that holds the mutex, up to the start of the goroutine.
unfoldable pub start_refresh : ℕ → Text → TokenRefreshCoordinator → TokenRefreshCoordinator × Answer
start_refresh capacity key c = elim (lookup key c.in_flight) [
  | some place ↦ (c, joins key)
  | none ↦ if leb capacity c.waiting then (c, queue_full) else (
    record c { in_flight = insert key queued c.in_flight; waiting = c.waiting + 1 },
    starts key,
  )
]

abbrev pub call_key : Account → Text
call_key acc =
    if is_empty (trim_space acc.id)
    then codes "refresh:" ++ acc.refresh_token
    else trim_space acc.id

-- RefreshContext up to its wait, for an account that is no API key; `latest` is the pool's.
unfoldable pub refresh_context :
    ℕ
    → ℕ
    → Bool
    → Option Account
    → Account
    → ℕ
    → TokenRefreshCoordinator
    → TokenRefreshCoordinator × Answer
refresh_context capacity before force latest acc now c =
    let current = copied_credentials latest acc in
    let (d, blocked) = refresh_upstream_block_error now c in
    if is_empty (trim_space acc.refresh_token)
    then (c, missing_token)
    else if not force && token_still_valid current before now
    then (c, still_valid)
    else if blocked
    then (d, upstream_blocked)
    else start_refresh capacity (call_key current) d

abbrev goes : Text → Place → TokenRefreshCoordinator → TokenRefreshCoordinator
goes key place c = record c { in_flight = insert key place c.in_flight }

-- dropQueuedRefresh, and the end of acquireSlot when its context has ended.
unfoldable pub drop_queued_refresh : Text → TokenRefreshCoordinator → TokenRefreshCoordinator
drop_queued_refresh key c = record (goes key over c) { waiting = c.waiting - 1 }

-- One round of acquireSlot; without a slot the goroutine waits on.
unfoldable pub acquire_slot : ℕ → Text → TokenRefreshCoordinator → TokenRefreshCoordinator
acquire_slot limit key c =
    if ltb c.active (max limit 1)
    then record (goes key running c) { active = c.active + 1; waiting = c.waiting - 1 }
    else c

-- releaseSlot
unfoldable pub release_slot : Text → TokenRefreshCoordinator → TokenRefreshCoordinator
release_slot key c = record (goes key over c) { active = c.active - 1 }

-- The last lines of run.
unfoldable pub finish_run : Text → TokenRefreshCoordinator → TokenRefreshCoordinator
finish_run key c = record c { in_flight = delete key c.in_flight }

-- coordinatedRefreshResult, with whether it is an error.
pub record RefreshResult : Type 0 where
  pub access_token : Text
  pub refresh_token : Text
  pub expires_at : ℕ
  pub profile_arn : Text
  pub failed : Bool

-- applyCoordinatedRefreshResult
unfoldable pub apply_refresh_result : RefreshResult → Account → Account
apply_refresh_result r acc = if r.failed then acc else record acc {
  access_token = r.access_token;
  refresh_token = if is_empty r.refresh_token then acc.refresh_token else r.refresh_token;
  expires_at = r.expires_at;
  profile_arn = if is_empty r.profile_arn then acc.profile_arn else r.profile_arn;
}

-- isRevokedRefreshCredentialError
unfoldable pub is_revoked_refresh_credential_error : Text → Bool
is_revoked_refresh_credential_error lower =
    contains_any
      (codes "invalid_grant"
        ∷ codes "invalid grant"
        ∷ codes "bad credentials"
        ∷ codes "refresh token revoked"
        ∷ codes "refresh token is revoked"
        ∷ codes "token has been revoked"
        ∷ codes "invalid_token"
        ∷ codes "invalid refresh token"
        ∷ codes "refresh token invalid"
        ∷ codes "refresh token has expired"
        ∷ codes "refresh token expired"
        ∷ [])
      lower
