-- ===== src/Failover/Failures.antt =====
-- What a failed request does to its account (proxy/account_failover.go): the pool's records and the
-- dispatch state of the configuration. Logs and alerts are left out.
pub mod Bans
pub mod Others
use kiro_go_plus.Base.{
  ℕ, ◌+◌, Bool, true, false, not, ◌&&◌, ◌||◌, Option, none, some, List, [], ◌∷◌, if◌then◌else◌,
  ◌==◌, nat_eq, bytes_eq,
}
use kiro_go_plus.Base.Dict.{Dict}
use kiro_go_plus.Base.Text.{Text, codes, to_lower, trim_space, is_empty, equal_fold}
use kiro_go_plus.Base.Time.{unix}
use kiro_go_plus.Failover.Messages.{
  is_quota_error_message, is_rate_limit_error_message, is_overage_error_message,
  is_suspension_error_message, is_profile_unavailable_error_message, is_auth_error_message,
}
use kiro_go_plus.Config.Accounts.{
  StoredAccount, AccountStatusPatch, patch_account_status, update_account_overage_status,
}
use kiro_go_plus.Pool.{AccountPool, RouteAffinity, Settings}
use kiro_go_plus.Pool.Reload.{reload}
use kiro_go_plus.Pool.Circuit.{ProtectionConfig}
use kiro_go_plus.Pool.Cooldowns.{record_error, record_model_unavailable}
use kiro_go_plus.Pool.Errors.{has_status_token, contains_text, contains_any, is_auth_failure}
use kiro_go_plus.Pool.Slots.{Counters, record_rate_limited}

pub data UpstreamErrorKind : Type 0 where
  unknown_error token_expired auth_revoked forbidden suspended quota_exceeded rate_limit
        model_unavailable client_request endpoint_unavailable transient_error first_token_timeout
        stream_idle_timeout actionable_timeout tool_assembly_timeout tool_output_truncated canceled
        empty_response stream_truncated retry_budget local_configuration :
      UpstreamErrorKind

-- What the failover reads of an error: the UpstreamError in its chain, if there is one, with the
-- time it asks for, and its text.
pub record Failure : Type 0 where
  pub upstream : Option (UpstreamErrorKind × ℕ)
  pub message : Text

-- What the failover changes: the pool, and the accounts of the configuration.
pub record Dispatch : Type 0 where
  pub pool : AccountPool
  pub stored : List StoredAccount

-- What it reads: the settings, the clock, whether the configuration is saved with the change and with
-- the statistics, the overage status
-- that the upstream answers with, and the draws of the jitter.
pub record Readings : Type 0 where
  pub settings : Settings
  pub protection : ProtectionConfig
  pub model_ttl_seconds : ℕ
  pub now : ℕ
  pub saved : Bool
  pub stats_saved : Bool
  pub overage : Option Text
  pub draw : ℕ
  pub draw' : ℕ

abbrev pub ban_patch : ℕ → Text → Text → AccountStatusPatch
ban_patch now status reason = record {
  enabled = some false;
  ban_status = some status;
  ban_reason = some reason;
  ban_time = some (unix now);
}

abbrev pub reload_if {ℓ} : {A : Type ℓ} → Readings → Option A → Dispatch → Dispatch
reload_if r none d = d
reload_if r (some a) d =
    let (pool, stored) = reload r.settings r.stats_saved d.pool d.stored in
    record { pool = pool; stored = stored }

-- disableAccount; the first argument is the request's copy of the account.
unfoldable pub disable_account : StoredAccount → Text → Text → Readings → Dispatch → Dispatch
disable_account a status reason r d =
    let (stored, updated) =
      patch_account_status r.saved a.account.id (ban_patch r.now status reason) d.stored in
    if not a.enabled && a.ban_status == status && a.ban_reason == reason
    then d
    else reload_if r updated (record d { stored = stored })

-- disableAccountOverage
unfoldable pub disable_account_overage : StoredAccount → Readings → Dispatch → Dispatch
disable_account_overage a r d = elim r.overage [
  | none ↦ d
  | some status ↦
      let (stored, ok) = update_account_overage_status r.saved a.account.id status d.stored in
      reload_if r (if ok then some ok else none) (record d { stored = stored })
]

-- What the switch and the chain of tests of handleAccountFailure choose between.
pub data Reaction : Type 0 where
  leave : Reaction
  count : Bool → Reaction
  count_if_own_proxy : Reaction
  refresh_overage : Bool → Reaction
  ban : Text → Reaction

-- The tests on the text.
unfoldable pub reaction_to_message : Text → Reaction
reaction_to_message msg =
    if is_overage_error_message msg
    then refresh_overage false
    else if is_quota_error_message msg
    then count true
    else if is_suspension_error_message msg
    then ban (codes "AWS temporarily suspended - unusual user activity detected")
    else if is_profile_unavailable_error_message msg
    then count false
    else if is_auth_error_message msg
    then ban (codes "Authentication failed - token invalid or expired")
    else count false

-- The switch; an unknown kind goes on to the text.
unfoldable pub reaction_to : Option UpstreamErrorKind → Text → Reaction
reaction_to none msg = reaction_to_message msg
reaction_to (some unknown_error) msg = reaction_to_message msg
reaction_to (some client_request) msg = leave
reaction_to (some retry_budget) msg = leave
reaction_to (some model_unavailable) msg = leave
reaction_to (some canceled) msg = leave
reaction_to (some local_configuration) msg = leave
reaction_to (some quota_exceeded) msg = refresh_overage true
reaction_to (some rate_limit) msg = count false
reaction_to (some suspended) msg =
    ban (codes "AWS temporarily suspended - unusual user activity detected")
reaction_to (some auth_revoked) msg = ban (codes "Authentication credentials were revoked")
reaction_to (some token_expired) msg = count false
reaction_to (some forbidden) msg = count false
reaction_to (some transient_error) msg = count_if_own_proxy
reaction_to (some endpoint_unavailable) msg = leave
reaction_to (some first_token_timeout) msg = leave
reaction_to (some stream_idle_timeout) msg = leave
reaction_to (some actionable_timeout) msg = leave
reaction_to (some tool_assembly_timeout) msg = leave
reaction_to (some tool_output_truncated) msg = leave
reaction_to (some empty_response) msg = leave
reaction_to (some stream_truncated) msg = leave

abbrev pub counted : StoredAccount → Bool → Readings → Dispatch → Dispatch
counted a is_quota r d = record d { pool = record_error a.account.id is_quota r.now d.pool }

abbrev pub has_own_proxy : StoredAccount → Bool
has_own_proxy a =
    not (is_empty (trim_space a.proxy_url))
    && not (equal_fold (trim_space a.proxy_url) (codes "direct"))

unfoldable pub react : Reaction → StoredAccount → Readings → Dispatch → Dispatch
react leave a r d = d
react (count is_quota) a r d = counted a is_quota r d
react count_if_own_proxy a r d = if has_own_proxy a then counted a false r d else d
react (refresh_overage is_quota) a r d = counted a is_quota r (disable_account_overage a r d)
react (ban reason) a r d = disable_account a (codes "BANNED") reason r d

abbrev pub kind_of : Failure → Option UpstreamErrorKind
kind_of f = elim f.upstream [ none ↦ none | some e ↦ some e.0 ]

-- handleAccountFailure
unfoldable pub handle_account_failure : Failure → StoredAccount → Readings → Dispatch → Dispatch
handle_account_failure f a r d = react (reaction_to (kind_of f) f.message) a r d

-- The routes that are bound to an account are dropped.
unfoldable pub without_account : Text → Dict Text RouteAffinity → Dict Text RouteAffinity
without_account id [] = []
without_account id ((key, entry) ∷ m) =
    let rest = without_account id m in if entry.account_id == id then rest else (key, entry) ∷ rest

-- RecordUpstreamRateLimitedWithRetryAfter (pool/protection.go)
unfoldable pub record_upstream_rate_limited :
    StoredAccount → Text → ℕ → Readings → AccountPool → AccountPool
record_upstream_rate_limited a model retry_after r p =
    if not r.protection.enabled then p else record p {
      counters =
          (record_rate_limited a.account.id a.account.profile_arn model r.protection r.now
            retry_after r.draw r.draw' p.counters).0;
      affinity = without_account a.account.id p.affinity;
    }

-- The last test of handleAccountFailureForModel, on the text.
abbrev pub handle_by_message : Failure → StoredAccount → Text → Readings → Dispatch → Dispatch
handle_by_message f a model r d =
    if is_rate_limit_error_message f.message
    then record d { pool = record_upstream_rate_limited a model 0 r d.pool }
    else handle_account_failure f a r d

abbrev pub is_model_unavailable : UpstreamErrorKind → Bool
is_model_unavailable model_unavailable = true
is_model_unavailable kind = false

abbrev pub is_rate_limit : UpstreamErrorKind → Bool
is_rate_limit rate_limit = true
is_rate_limit kind = false

-- The switch of handleAccountFailureForModel.
abbrev pub handle_by_kind :
    Option (UpstreamErrorKind × ℕ) → Failure → StoredAccount → Text → Readings → Dispatch → Dispatch
handle_by_kind none f a model r d = handle_by_message f a model r d
handle_by_kind (some (kind, retry_after)) f a model r d =
    if is_model_unavailable kind
    then record d {
      pool = (record_model_unavailable a.account.id model r.model_ttl_seconds r.now d.pool).0;
    }
    else if is_rate_limit kind
    then record d { pool = record_upstream_rate_limited a model retry_after r d.pool }
    else handle_by_message f a model r d

-- handleAccountFailureForModel
unfoldable pub handle_account_failure_for_model :
    Failure → StoredAccount → Text → Readings → Dispatch → Dispatch
handle_account_failure_for_model f a model r d = handle_by_kind f.upstream f a model r d
