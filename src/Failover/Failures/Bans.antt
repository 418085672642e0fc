-- ===== src/Failover/Failures/Bans.antt =====
-- What a ban does to its account (proxy/account_failover.go).
use kiro_go_plus.Base.{◌≡◌, refl, ◌∙◌, map, Bool, true, false, bytes_eq, nat_eq, arith}
use kiro_go_plus.Base.Text.{Text, codes}
use kiro_go_plus.Config.Accounts.{
  StoredAccount, with_stats, update_account_stats_batch, patch_account_status, enabled_accounts,
}
use kiro_go_plus.Config.Accounts.Frames.{
  is_stored, DistinctIds, usable-absent, disabled-absent, patch-answers,
}
use kiro_go_plus.Pool.Account.{has_account}
use kiro_go_plus.Pool.Changes.{rebuild}
use kiro_go_plus.Pool.Reload.{stats_updates, flush_account_stats, reload}
use kiro_go_plus.Pool.Reload.Frames.{enabled-stats}
use kiro_go_plus.Failover.Failures.{
  Failure, Dispatch, Readings, ban_patch, disable_account, Reaction, leave, count,
  count_if_own_proxy, refresh_overage, ban, reaction_to, react, kind_of, handle_account_failure,
}

abbrev pub is_ban : Reaction → Bool
is_ban (ban reason) = true
is_ban leave = false
is_ban (count is_quota) = false
is_ban count_if_own_proxy = false
is_ban (refresh_overage is_quota) = false

disable_account-gone :
    (a : StoredAccount) (status reason : Text) (r : Readings) (d : Dispatch)
    → a.enabled ≡ true
    → r.saved ≡ true
    → DistinctIds d.stored
    → is_stored a.account.id d.stored ≡ true
    → has_account a.account.id (disable_account a status reason r d).pool.accounts ≡ false
unfolding disable_account reload flush_account_stats update_account_stats_batch rebuild
disable_account-gone a status reason r d enabled saved distinct known =
    let patch = ban_patch r.now status reason in
    let (b, answers) = patch-answers a.account.id patch d.stored known in
    let gone = disabled-absent a.account.id patch d.stored refl distinct in
    let stored = (patch_account_status true a.account.id patch d.stored).0 in
    let updates = (stats_updates d.pool.dirty_stats d.pool).1 in
    rw (enabled, saved, answers)
      (usable-absent r.settings a.account.id (enabled_accounts (map (with_stats updates) stored))
        (enabled-stats a.account.id updates stored ∙ gone))

react-gone :
    (reaction : Reaction) (a : StoredAccount) (r : Readings) (d : Dispatch)
    → is_ban reaction ≡ true
    → a.enabled ≡ true
    → r.saved ≡ true
    → DistinctIds d.stored
    → is_stored a.account.id d.stored ≡ true
    → has_account a.account.id (react reaction a r d).pool.accounts ≡ false
unfolding react
react-gone leave a r d bans enabled saved distinct known = ground (arith, bans)
react-gone (count is_quota) a r d bans enabled saved distinct known = ground (arith, bans)
react-gone count_if_own_proxy a r d bans enabled saved distinct known = ground (arith, bans)
react-gone (refresh_overage is_quota) a r d bans enabled saved distinct known = ground (arith, bans)
react-gone (ban reason) a r d bans enabled saved distinct known =
    disable_account-gone a (codes "BANNED") reason r d enabled saved distinct known

-- A failure that bans an account, of a request whose copy of the account is enabled, takes it out of
-- the pool: no account that the pool selects from has its id any more. The configuration is saved,
-- has the account, and no two accounts of one id.
pub handle_account_failure-gone :
    (f : Failure) (a : StoredAccount) (r : Readings) (d : Dispatch)
    → is_ban (reaction_to (kind_of f) f.message) ≡ true
    → a.enabled ≡ true
    → r.saved ≡ true
    → DistinctIds d.stored
    → is_stored a.account.id d.stored ≡ true
    → has_account a.account.id (handle_account_failure f a r d).pool.accounts ≡ false
unfolding handle_account_failure
handle_account_failure-gone f a r d = react-gone (reaction_to (kind_of f) f.message) a r d
