-- ===== src/Pool/Reload/Frames.antt =====
-- What Reload (pool/account.go) leaves alone.
use kiro_go_plus.Base.{
  ℕ, ◌≡◌, refl, ◌∙◌, Bool, false, Option, none, some, List, [], ◌∷◌, map, bytes_eq, arith, same→eq,
}
use kiro_go_plus.Base.Dict.{Dict, lookup, lookup-insert}
use kiro_go_plus.Base.Text.{Text}
use kiro_go_plus.Config.Accounts.{
  StoredAccount, with_stats, update_account_stats_batch, enabled_accounts,
}
use kiro_go_plus.Config.Accounts.Frames.{find_stored}
use kiro_go_plus.Pool.{AccountPool, Settings}
use kiro_go_plus.Pool.Account.{has_account}
use kiro_go_plus.Pool.Changes.{rebuild}
use kiro_go_plus.Pool.Cooldowns.{account_index, account_stats}
use kiro_go_plus.Pool.Reload.{stats_updates, flush_account_stats, reload}
use kiro_go_plus.Pool.Select.{has_text}

-- A stored account without its count of errors.
abbrev pub but_errors : StoredAccount → StoredAccount
but_errors a = record a { account = record a.account { error_count = 0 } }

abbrev pub found_but_errors : Option StoredAccount → Option StoredAccount
found_but_errors none = none
found_but_errors (some a) = some (but_errors a)

account_stats-keeps :
    (id : Text) (p : AccountPool)
    → ((account_stats id p).0.cooldowns ≡ p.cooldowns)
      × ((account_stats id p).0.error_counts ≡ p.error_counts)
unfolding account_stats account_index
account_stats-keeps id p = ground arith

stats_updates-keeps :
    (ids : List Text) (p : AccountPool)
    → ((stats_updates ids p).0.cooldowns ≡ p.cooldowns)
      × ((stats_updates ids p).0.error_counts ≡ p.error_counts)
unfolding stats_updates
stats_updates-keeps [] p = (refl, refl)
stats_updates-keeps (id ∷ ids) p =
    let q = (account_stats id p).0 in
    let (a, b) = account_stats-keeps id p in
    let (c, d) = stats_updates-keeps ids q in (c ∙ a, d ∙ b)

stats_updates-clean :
    (j : Text) (ids : List Text) (p : AccountPool)
    → has_text j ids ≡ false
    → lookup j (stats_updates ids p).1 ≡ none
unfolding stats_updates lookup
stats_updates-clean j [] p h = refl
stats_updates-clean j (id ∷ ids) p h =
    let (q, n) = account_stats id p in
    let updates = (stats_updates ids q).1 in
    ground (arith, h, lookup-insert id j n updates, stats_updates-clean j ids q)

find_stored-stats :
    (j : Text) (updates : Dict Text ℕ) (accs : List StoredAccount)
    → found_but_errors (find_stored j (map (with_stats updates) accs))
      ≡ found_but_errors (find_stored j accs)
unfolding find_stored with_stats
find_stored-stats j updates [] = refl
find_stored-stats j updates (a ∷ accs) = ground (arith, find_stored-stats j updates accs)

find_stored-clean :
    (j : Text) (updates : Dict Text ℕ) (accs : List StoredAccount)
    → lookup j updates ≡ none
    → find_stored j (map (with_stats updates) accs) ≡ find_stored j accs
unfolding find_stored with_stats
find_stored-clean j updates [] h = refl
find_stored-clean j updates (a ∷ accs) h =
    ground (arith, h, find_stored-clean j updates accs h, same→eq a.account.id j)

pub enabled-stats :
    (id : Text) (updates : Dict Text ℕ) (accs : List StoredAccount)
    → has_account id (enabled_accounts (map (with_stats updates) accs))
      ≡ has_account id (enabled_accounts accs)
unfolding enabled_accounts with_stats
enabled-stats id updates [] = refl
enabled-stats id updates (a ∷ accs) = ground (arith, enabled-stats id updates accs)

-- What is kept of the account j, before and after: its cooldown, its errors in a row, and its stored
-- account but for the count of errors. That count stays as well, and stays up to date, if it is.
pub record Spared (j : Text) (p : AccountPool) (stored : List StoredAccount) (q : AccountPool)
    (kept : List StoredAccount) : Type 0 where
  pub cooldown : lookup j q.cooldowns ≡ lookup j p.cooldowns
  pub in_a_row : lookup j q.error_counts ≡ lookup j p.error_counts
  pub same_stored : found_but_errors (find_stored j kept) ≡ found_but_errors (find_stored j stored)
  pub same_count :
      has_text j p.dirty_stats ≡ false
      → (find_stored j kept ≡ find_stored j stored) × (has_text j q.dirty_stats ≡ false)

pub Spared-trans :
    (j : Text) (p q r : AccountPool) (stored kept last : List StoredAccount)
    → Spared j p stored q kept
    → Spared j q kept r last
    → Spared j p stored r last
Spared-trans j p q r stored kept last h k = record {
  cooldown = k.cooldown ∙ h.cooldown;
  in_a_row = k.in_a_row ∙ h.in_a_row;
  same_stored = k.same_stored ∙ h.same_stored;
  same_count =
      λ clean. let (a, b) = h.same_count clean in let (c, d) = k.same_count b in (c ∙ a, d);
}

-- Reload spares every account.
pub reload-Spared :
    (st : Settings) (saved : Bool) (j : Text) (p : AccountPool) (stored : List StoredAccount)
    → let (q, kept) = reload st saved p stored in Spared j p stored q kept
unfolding reload flush_account_stats update_account_stats_batch rebuild
reload-Spared st saved j p stored =
    let (q, updates) = stats_updates p.dirty_stats p in
    let (same, same') = stats_updates-keeps p.dirty_stats p in
    record {
      cooldown = ground (arith, same);
      in_a_row = ground (arith, same');
      same_stored = find_stored-stats j updates stored;
      same_count = λ clean. (
        find_stored-clean j updates stored (stats_updates-clean j p.dirty_stats p clean),
        ground (arith, clean),
      );
    }
