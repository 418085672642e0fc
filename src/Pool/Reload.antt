-- ===== src/Pool/Reload.antt =====
-- Reload (pool/account.go), which stores the counts of errors before it reads the accounts again, and
-- the operations that end with it. The configuration is the one that the pool was loaded from: its
-- generation stays. `saved` says whether the write of the statistics succeeds; timers are left out.
pub mod Frames
use kiro_go_plus.Base.{ℕ, ◌+◌, ◌*◌, Bool, List, [], ◌∷◌, if◌then◌else◌, bytes_eq}
use kiro_go_plus.Base.Dict.{Dict, insert}
use kiro_go_plus.Base.Text.{Text}
use kiro_go_plus.Base.Time.{hour}
use kiro_go_plus.Config.Accounts.{StoredAccount, update_account_stats_batch, enabled_accounts}
use kiro_go_plus.Pool.{AccountPool, Settings, quota, disabled}
use kiro_go_plus.Pool.Changes.{rebuild}
use kiro_go_plus.Pool.Cooldowns.{set_cooldown, account_stats}

-- The loop of flushAccountStats over the ids whose count is not stored.
unfoldable pub stats_updates : List Text → AccountPool → AccountPool × Dict Text ℕ
stats_updates [] p = (p, [])
stats_updates (id ∷ ids) p =
    let (q, n) = account_stats id p in
    let (r, updates) = stats_updates ids q in (r, insert id n updates)

-- flushAccountStats
unfoldable pub flush_account_stats :
    Bool → AccountPool → List StoredAccount → AccountPool × List StoredAccount
flush_account_stats saved p stored =
    let (q, updates) = stats_updates p.dirty_stats p in
    let (kept, ok) = update_account_stats_batch saved updates stored in
    (record q { dirty_stats = if ok then [] else p.dirty_stats }, kept)

-- Reload
unfoldable pub reload :
    Settings → Bool → AccountPool → List StoredAccount → AccountPool × List StoredAccount
reload st saved p stored =
    let (q, kept) = flush_account_stats saved p stored in
    (rebuild st (enabled_accounts kept) q, kept)

-- DisableAccount, once the ban is written, and MarkOverLimit.
unfoldable pub disable_account :
    Settings → Bool → Text → ℕ → AccountPool → List StoredAccount → AccountPool × List StoredAccount
disable_account st saved id now p stored =
    reload st saved (set_cooldown id (now + 24 * hour) disabled p) stored

unfoldable pub mark_over_limit :
    Settings → Bool → Text → ℕ → AccountPool → List StoredAccount → AccountPool × List StoredAccount
mark_over_limit st saved id now p stored =
    reload st saved (set_cooldown id (now + hour) quota p) stored
