-- ===== src/Config/Accounts.antt =====
-- The stored accounts and their dispatch state (config/config.go). `saved` says whether Save
-- succeeds.
pub mod Frames
use kiro_go_plus.Base.{
  ℕ, Bool, true, false, not, ◌&&◌, ◌||◌, Option, none, some, List, [], ◌∷◌, map, ltb, if◌then◌else◌,
  ◌==◌, bytes_eq, nat_eq,
}
use kiro_go_plus.Base.Dict.{Dict, lookup}
use kiro_go_plus.Base.Text.{Text, codes, is_empty, to_lower, trim_space}
use kiro_go_plus.Pool.Account.{Account}
use kiro_go_plus.Pool.Errors.{contains_text}

-- An account of the configuration: what the pool reads, and whether it is dispatched.
pub record StoredAccount : Type 0 where
  pub account : Account
  pub enabled : Bool
  pub ban_status : Text
  pub ban_reason : Text
  pub ban_time : ℕ
  pub proxy_url : Text

pub record AccountStatusPatch : Type 0 where
  pub enabled : Option Bool
  pub ban_status : Option Text
  pub ban_reason : Option Text
  pub ban_time : Option ℕ

-- An omitted value leaves the old one.
abbrev pub or_kept {ℓ} : {A : Type ℓ} → Option A → A → A
or_kept none old = old
or_kept (some new) old = new

unfoldable pub patched_status : AccountStatusPatch → StoredAccount → StoredAccount
patched_status patch a = record a {
  enabled = or_kept patch.enabled a.enabled;
  ban_status = or_kept patch.ban_status a.ban_status;
  ban_reason = or_kept patch.ban_reason a.ban_reason;
  ban_time = or_kept patch.ban_time a.ban_time;
}

-- The loops of this file: the first account of an id is changed, and given back when there is one.
-- A change that is not saved is undone.
unfoldable pub change_first :
    (StoredAccount → StoredAccount)
    → Bool
    → Text
    → List StoredAccount
    → List StoredAccount × Option StoredAccount
change_first change saved id [] = ([], none)
change_first change saved id (a ∷ accs) =
    let (rest, answer) = change_first change saved id accs in
    if a.account.id == id
    then if saved then (change a ∷ accs, some (change a)) else (a ∷ accs, none)
    else (a ∷ rest, answer)

-- PatchAccountStatus; none is an error.
unfoldable pub patch_account_status :
    Bool
    → Text
    → AccountStatusPatch
    → List StoredAccount
    → List StoredAccount × Option StoredAccount
patch_account_status saved id patch accs = change_first (patched_status patch) saved id accs

-- The loop of ClearAccountBan over the fragments.
abbrev pub matches_fragment : Text → List Text → Bool
matches_fragment reason [] = false
matches_fragment reason (fragment ∷ fragments) =
    let rest = matches_fragment reason fragments in
    let part = to_lower (trim_space fragment) in
    if not (is_empty part) && contains_text part reason then true else rest

unfoldable pub unbanned : List Text → StoredAccount → StoredAccount
unbanned fragments a = record a {
  enabled = if matches_fragment (to_lower a.ban_reason) fragments then true else a.enabled;
  ban_status = codes "ACTIVE";
  ban_reason = [];
  ban_time = 0;
}

-- ClearAccountBan
unfoldable pub clear_account_ban :
    Bool → Text → List Text → List StoredAccount → List StoredAccount × Option StoredAccount
clear_account_ban saved id fragments accs = change_first (unbanned fragments) saved id accs

-- UpdateAccountOverageStatus, of the status: without an undo, and without an error when no account
-- has the id.
unfoldable pub with_overage_status : Text → StoredAccount → StoredAccount
with_overage_status status a =
    if is_empty status
    then a
    else record a { account = record a.account { overage_status = status } }

unfoldable pub update_account_overage_status :
    Bool → Text → Text → List StoredAccount → List StoredAccount × Bool
update_account_overage_status saved id status [] = ([], true)
update_account_overage_status saved id status (a ∷ accs) =
    let (rest, ok) = update_account_overage_status saved id status accs in
    if a.account.id == id then (with_overage_status status a ∷ accs, saved) else (a ∷ rest, ok)

-- UpdateAccountStatsBatch, of the counts of errors and without the test of the generation: false is an
-- error of the write, after which the new counts stay.
unfoldable pub with_stats : Dict Text ℕ → StoredAccount → StoredAccount
with_stats updates a = elim (lookup a.account.id updates) [
  | none ↦ a
  | some n ↦ record a { account = record a.account { error_count = n } }
]

abbrev pub has_update : Dict Text ℕ → List StoredAccount → Bool
has_update updates [] = false
has_update updates (a ∷ accs) =
    let rest = has_update updates accs in
    elim (lookup a.account.id updates) [ none ↦ rest | some n ↦ true ]

unfoldable pub update_account_stats_batch :
    Bool → Dict Text ℕ → List StoredAccount → List StoredAccount × Bool
update_account_stats_batch saved updates accs =
    (map (with_stats updates) accs, not (has_update updates accs) || saved)

-- GetEnabledAccounts
unfoldable pub enabled_accounts : List StoredAccount → List Account
enabled_accounts [] = []
enabled_accounts (a ∷ accs) =
    let rest = enabled_accounts accs in if a.enabled then a.account ∷ rest else rest
