-- ===== src/Pool/Select.antt =====
-- Which accounts may serve a request (pool/account.go). `now` is the clock's reading; a set of
-- excluded accounts is a test.
pub mod Sound
use kiro_go_plus.Base.{
  ℕ, zero, suc, ◌+◌, ◌-◌, Bool, true, false, not, ◌&&◌, ◌||◌, Option, none, some, List, [], ◌∷◌,
  length, get_elem?, ltb, leb, if◌then◌else◌, ◌==◌, nat_eq, bytes_eq, pair_eq,
}
use kiro_go_plus.Base.Dict.{Dict, lookup, insert, get_or}
use kiro_go_plus.Base.Text.{Text, is_empty, trim_space, to_lower}
use kiro_go_plus.Base.Time.{unix}
use kiro_go_plus.Pool.{AccountPool, RoutingMode, priority, balanced, weighted, other_mode, Settings}
use kiro_go_plus.Pool.Account.{Account, is_quota_blocked}

abbrev pub model_key : Text → Text
model_key model = to_lower (trim_space model)

-- `ok && now.Before(until)` on an optional time.
abbrev pub is_before : ℕ → Option ℕ → Bool
is_before now none = false
is_before now (some until) = ltb now until

unfoldable pub account_has_model : AccountPool → Text → Text → ℕ → Bool
account_has_model p id model now =
    not (is_before now (lookup (id, model_key model) p.model_negative))

abbrev pub has_text : Text → List Text → Bool
has_text t [] = false
has_text t (u ∷ us) = u == t || has_text t us

unfoldable pub account_advertises_model : AccountPool → Text → Text → Bool
account_advertises_model p id model =
    not (is_empty (model_key model)) && has_text (model_key model) (get_or id [] p.model_lists)

abbrev pub is_blank : Text → Bool
is_blank t = is_empty (trim_space t)

abbrev pub token_refresh_skew_seconds : ℕ
token_refresh_skew_seconds = 120

-- tokenRefreshSafetyWindowSecondsForAccount
unfoldable pub safety_window : Settings → Account → ℕ
safety_window st acc =
    if is_blank acc.refresh_token
    then token_refresh_skew_seconds
    else if ltb 0 st.token_refresh_before_seconds
    then st.token_refresh_before_seconds
    else token_refresh_skew_seconds

-- `now.Unix() >= acc.ExpiresAt - window` is written as a sum.
unfoldable pub account_token_needs_refresh : Settings → Account → ℕ → Bool
account_token_needs_refresh st acc now =
    not (is_blank acc.refresh_token) && is_blank acc.access_token
    || ltb 0 acc.expires_at && leb acc.expires_at (unix now + safety_window st acc)

-- A missing failure time is the zero time, which is not after `now`.
abbrev pub refresh_failed : AccountPool → Text → ℕ → Bool
refresh_failed p id now = ltb now (get_or id 0 p.refresh_failures)

-- The account is not to be tried for a fresh token.
abbrev pub cannot_refresh : AccountPool → Bool → Account → ℕ → Bool
cannot_refresh p allow_refresh acc now =
    not allow_refresh || is_blank acc.refresh_token || refresh_failed p acc.id now

-- accountSelectableBasicLocked
unfoldable pub account_selectable :
    AccountPool → Settings → Account → Text → (Text → Bool) → ℕ → Bool → Bool
account_selectable p st acc model excluded now allow_refresh =
    if excluded acc.id
    then false
    else if not (is_empty model) && not (account_has_model p acc.id model now)
    then false
    else if is_before now (lookup acc.id p.cooldowns)
    then false
    else if account_token_needs_refresh st acc now && cannot_refresh p allow_refresh acc now
    then false
    else not (is_quota_blocked acc st.allow_over_usage)

unfoldable pub account_token_routable : AccountPool → Settings → Account → ℕ → Bool
account_token_routable p st acc now =
    if not (account_token_needs_refresh st acc now)
    then true
    else if is_blank acc.refresh_token
    then false
    else not (refresh_failed p acc.id now)

-- An index into the accounts, with the account that it names.
abbrev pub Index : Type 0
Index = ℕ × Account

abbrev pub drops_duplicates : RoutingMode → Bool
drops_duplicates priority = true
drops_duplicates balanced = true
drops_duplicates weighted = false
drops_duplicates other_mode = false

-- The loops of selectionIndexesForTokenStateLocked, from index i; `seen` matters where duplicates
-- are dropped.
unfoldable pub select_from : (Account → Bool) → Bool → ℕ → List Text → List Account → List Index
select_from keep unique i seen [] = []
select_from keep unique i seen (acc ∷ accs) =
    let rest = select_from keep unique (suc i) (acc.id ∷ seen) accs in
    if unique && has_text acc.id seen then rest else if keep acc then (i, acc) ∷ rest else rest

unfoldable pub selection_indexes_for_token_state :
    AccountPool → Settings → Text → (Text → Bool) → ℕ → Bool → List Index
selection_indexes_for_token_state p st model excluded now allow_refresh =
    select_from (λ acc. account_selectable p st acc model excluded now allow_refresh)
      (drops_duplicates st.mode) 0 [] p.accounts

abbrev pub or_else {ℓ} : {A : Type ℓ} → List A → List A → List A
or_else [] ys = ys
or_else (x ∷ xs) ys = x ∷ xs

-- The first part of selectionIndexesLocked, before the order.
unfoldable pub selection_candidates : AccountPool → Settings → Text → (Text → Bool) → ℕ → List Index
selection_candidates p st model excluded now =
    or_else (selection_indexes_for_token_state p st model excluded now false)
      (selection_indexes_for_token_state p st model excluded now true)

-- The account whose cooldown ends first, of those that are not ruled out; one without a cooldown is
-- taken at once. `best` is the account found so far with its time.
unfoldable pub soonest :
    AccountPool → (Account → Bool) → Option (Account × ℕ) → List Account → Option Account
soonest p keep none [] = none
soonest p keep (some (acc, until)) [] = some acc
soonest p keep best (acc ∷ accs) = elim (keep acc) [
  | false ↦ soonest p keep best accs
  | true ↦ elim (lookup acc.id p.cooldowns) [
    | none ↦ some acc
    | some until ↦ elim best [
      | none ↦ soonest p keep (some (acc, until)) accs
      | some (acc', earliest) ↦ elim (ltb until earliest) [
        | true ↦ soonest p keep (some (acc, until)) accs
        | false ↦ soonest p keep (some (acc', earliest)) accs
      ]
    ]
  ]
]

abbrev pub fallback_ok : AccountPool → Settings → Bool → Text → (Text → Bool) → ℕ → Account → Bool
fallback_ok p st for_model model excluded now acc =
    not (excluded acc.id)
    && (not for_model || account_has_model p acc.id model now)
    && not (is_quota_blocked acc st.allow_over_usage)
    && account_token_routable p st acc now
