-- ===== src/Pool/Changes.antt =====
-- Changes of the pool that are not outcomes of requests (pool/account.go): a new list of accounts,
-- model lists, refresh failures and the cursor of the refresh.
use kiro_go_plus.Base.{
  ℕ, suc, ◌+◌, ◌||◌, ◌&&◌, List, [], ◌∷◌, ltb, leb, if◌then◌else◌, nat_eq, bytes_eq,
}
use kiro_go_plus.Base.Dict.{Dict, lookup, insert, delete, get_or}
use kiro_go_plus.Base.Int.{ℤ, pos}
use kiro_go_plus.Base.Text.{Text, is_empty}
use kiro_go_plus.Base.Time.{unix}
use kiro_go_plus.Pool.{AccountPool, Settings, RoutingMode, priority, balanced, weighted, other_mode}
use kiro_go_plus.Pool.Account.{Account, has_account, is_quota_blocked, effective_weight}
use kiro_go_plus.Pool.Cooldowns.{add_text}
use kiro_go_plus.Pool.Select.{model_key, has_text, safety_window, is_before}

-- The loop of Reload over the enabled accounts.
unfoldable pub usable_accounts : Settings → List Account → List Account
usable_accounts st [] = []
usable_accounts st (acc ∷ accs) =
    let rest = usable_accounts st accs in
    if is_quota_blocked acc st.allow_over_usage
    then rest
    else record acc { weight = pos (effective_weight acc.weight) } ∷ rest

-- The positions from i on; the last account of an id is the one that counts here.
unfoldable pub positions : ℕ → List Account → Dict Text ℕ → Dict Text ℕ
positions i [] m = m
positions i (acc ∷ accs) m = positions (suc i) accs (insert acc.id i m)

unfoldable pub keep_active : List Account → Dict Text ℤ → Dict Text ℤ
keep_active accs [] = []
keep_active accs ((id, w) ∷ m) =
    let rest = keep_active accs m in if has_account id accs then (id, w) ∷ rest else rest

abbrev pub keep_if_weighted : RoutingMode → Dict Text ℤ → Dict Text ℤ
keep_if_weighted weighted m = m
keep_if_weighted priority m = []
keep_if_weighted balanced m = []
keep_if_weighted other_mode m = []

-- Reload after it has stored the statistics, with the enabled accounts of the configuration.
unfoldable pub rebuild : Settings → List Account → AccountPool → AccountPool
rebuild st enabled p =
    let accs = usable_accounts st enabled in
    record p {
      accounts = accs;
      account_index = positions 0 accs [];
      weighted_current = keep_if_weighted st.mode (keep_active accs p.weighted_current);
    }

abbrev pub add_models : List Text → List Text → List Text
add_models [] set = set
add_models (m ∷ ms) set =
    add_models ms (if is_empty (model_key m) then set else add_text (model_key m) set)

-- SetModelList, GetModelList
unfoldable pub set_model_list : Text → List Text → AccountPool → AccountPool
set_model_list id models p = record p {
  model_lists = insert id (add_models models (get_or id [] p.model_lists)) p.model_lists;
}

unfoldable pub get_model_list : Text → AccountPool → List Text
get_model_list id p = get_or id [] p.model_lists

-- SetRefreshCursor, with a negative cursor as 0.
unfoldable pub set_refresh_cursor : ℕ → AccountPool → AccountPool
set_refresh_cursor cursor p = record p { refresh_cursor = cursor }

-- SetRefreshFailureCooldown, ClearRefreshFailureCooldown, RefreshFailureCooldowns
unfoldable pub set_refresh_failure_cooldown : Text → ℕ → AccountPool → AccountPool
set_refresh_failure_cooldown id until p = record p {
  refresh_failures = insert id until p.refresh_failures;
}

unfoldable pub clear_refresh_failure_cooldown : Text → AccountPool → AccountPool
clear_refresh_failure_cooldown id p = record p { refresh_failures = delete id p.refresh_failures }

unfoldable pub running_cooldowns : ℕ → Dict Text ℕ → Dict Text ℕ
running_cooldowns now [] = []
running_cooldowns now ((id, until) ∷ m) =
    let rest = running_cooldowns now m in if ltb now until then (id, unix until) ∷ rest else rest

-- AvailableCount
unfoldable pub count_available : AccountPool → Settings → ℕ → List Text → List Account → ℕ
count_available p st now seen [] = 0
count_available p st now seen (acc ∷ accs) =
    let rest = count_available p st now (acc.id ∷ seen) accs in
    let skipped =
      has_text acc.id seen
      || is_before now (lookup acc.id p.cooldowns)
      || ltb 0 acc.expires_at && leb acc.expires_at (unix now + safety_window st acc)
      || is_quota_blocked acc st.allow_over_usage in
    if skipped then rest else suc rest

unfoldable pub available_count : AccountPool → Settings → ℕ → ℕ
available_count p st now = count_available p st now [] p.accounts
