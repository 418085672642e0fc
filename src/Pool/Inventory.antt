-- ===== src/Pool/Inventory.antt =====
-- The inventory of the accounts (pool/inventory.go): rows of the configuration, counted by identity.
pub mod Sums
use kiro_go_plus.Base.{
  ℕ, suc, ◌+◌, ◌-◌, ◌++◌, Bool, true, false, not, ◌&&◌, ◌||◌, Option, none, some, List, [], ◌∷◌,
  map, length, ltb, leb, if◌then◌else◌, ◌==◌, nat_eq, bytes_eq,
}
use kiro_go_plus.Base.Dict.{Dict, lookup, insert, get_or}
use kiro_go_plus.Base.Text.{Text, codes, is_empty, trim_space, to_lower, equal_fold}
use kiro_go_plus.Base.Time.{unix}
use kiro_go_plus.Config.Accounts.{StoredAccount}
use kiro_go_plus.Pool.{AccountPool, Settings}
use kiro_go_plus.Pool.Account.{has_account, is_quota_blocked}
use kiro_go_plus.Pool.Errors.{contains_any}
use kiro_go_plus.Pool.Select.{safety_window}

-- A row of the configuration, with the fields that only the inventory reads.
pub record Row : Type 0 where
  pub stored : StoredAccount
  pub provider : Text
  pub user_id : Text
  pub credential_fingerprint : Text
  pub email : Text
  pub kiro_api_key : Text
  pub auth_method : Text

pub data AccountInventoryState : Type 0 where
  routable cooling quota_blocked credential_issue profile_issue not_enabled banned :
      AccountInventoryState

-- The constants are numbered in this order.
abbrev pub rank : AccountInventoryState → ℕ
rank routable = 0
rank cooling = 1
rank quota_blocked = 2
rank credential_issue = 3
rank profile_issue = 4
rank not_enabled = 5
rank banned = 6

abbrev upper_byte : ℕ → ℕ
upper_byte c = if leb 97 c && leb c 122 then c - 32 else c

unfoldable pub to_upper : Text → Text
to_upper = map upper_byte

unfoldable pub has_persisted_profile_issue : Text → Bool
has_persisted_profile_issue reason =
    contains_any
      (codes "no available kiro profile"
        ∷ codes "no available profile"
        ∷ codes "profile arn unsupported"
        ∷ codes "profile unavailable"
        ∷ [])
      (to_lower (trim_space reason))

-- `now.Unix() >= expires - window` is a sum.
unfoldable pub has_credential_issue : Settings → Row → ℕ → Bool
has_credential_issue st row now =
    let acc = row.stored.account in
    let key = trim_space row.kiro_api_key in
    let token = trim_space acc.access_token in
    let refresh = trim_space acc.refresh_token in
    if not (is_empty key)
      || equal_fold (trim_space row.auth_method) (codes "api_key")
      || equal_fold (trim_space row.auth_method) (codes "apikey")
    then is_empty key && is_empty token
    else if is_empty token && is_empty refresh
    then true
    else ltb 0 acc.expires_at
      && leb acc.expires_at (unix now + safety_window st acc)
      && is_empty refresh

-- classifyInventoryAccount
unfoldable pub classify_inventory_account : Settings → Row → Bool → Bool → ℕ → AccountInventoryState
classify_inventory_account st row resident cools now =
    let status = to_upper (trim_space row.stored.ban_status) in
    if status == codes "BANNED" || status == codes "SUSPENDED"
    then banned
    else if has_persisted_profile_issue row.stored.ban_reason
    then profile_issue
    else if not row.stored.enabled
    then not_enabled
    else if has_credential_issue st row now
    then credential_issue
    else if is_quota_blocked row.stored.account st.allow_over_usage
    then quota_blocked
    else if cools || not resident
    then cooling
    else routable

-- inventoryIdentity; the parts are put together with a zero byte.
unfoldable pub inventory_identity : Row → Text
inventory_identity row =
    let user = trim_space row.user_id in
    let fingerprint = trim_space row.credential_fingerprint in
    let email = to_lower (trim_space row.email) in
    if not (is_empty user)
    then codes "user" ++ (0 ∷ user)
    else if not (is_empty fingerprint)
    then codes "credential" ++ (0 ∷ fingerprint)
    else if not (is_empty email)
    then codes "email" ++ (0 ∷ to_lower (trim_space row.provider) ++ (0 ∷ email))
    else codes "id" ++ (0 ∷ row.stored.account.id)

-- The account has a cooldown, of either map, that still runs.
abbrev pub is_cooling : AccountPool → ℕ → Text → Bool
is_cooling p now id = ltb now (get_or id 0 p.cooldowns) || ltb now (get_or id 0 p.refresh_failures)

abbrev pub row_state : AccountPool → Settings → ℕ → Row → AccountInventoryState
row_state p st now row =
    let id = row.stored.account.id in
    classify_inventory_account st row (has_account id p.accounts) (is_cooling p now id) now

abbrev pub keep_best :
    Text → AccountInventoryState → Dict Text AccountInventoryState → Dict Text AccountInventoryState
keep_best identity state best = elim (lookup identity best) [
  | none ↦ insert identity state best
  | some current ↦ if ltb (rank state) (rank current) then insert identity state best else best
]

-- The loop of InventorySnapshot over the rows.
unfoldable pub best_states :
    AccountPool
    → Settings
    → ℕ
    → List Row
    → Dict Text AccountInventoryState
    → Dict Text AccountInventoryState
best_states p st now [] best = best
best_states p st now (row ∷ rows) best =
    best_states p st now rows (keep_best (inventory_identity row) (row_state p st now row) best)

pub record AccountInventory : Type 0 where
  pub total : ℕ
  pub configured_rows : ℕ
  pub routables : ℕ
  pub coolings : ℕ
  pub quota_blockeds : ℕ
  pub banneds : ℕ
  pub disableds : ℕ
  pub credential_issues : ℕ
  pub profile_issues : ℕ

abbrev pub counted_in : AccountInventoryState → AccountInventory → AccountInventory
counted_in routable r = record r { routables = suc r.routables }
counted_in cooling r = record r { coolings = suc r.coolings }
counted_in quota_blocked r = record r { quota_blockeds = suc r.quota_blockeds }
counted_in credential_issue r = record r { credential_issues = suc r.credential_issues }
counted_in profile_issue r = record r { profile_issues = suc r.profile_issues }
counted_in not_enabled r = record r { disableds = suc r.disableds }
counted_in banned r = record r { banneds = suc r.banneds }

-- The loop over the states.
unfoldable pub count_states : Dict Text AccountInventoryState → AccountInventory → AccountInventory
count_states [] r = r
count_states ((identity, state) ∷ best) r = count_states best (counted_in state r)

abbrev pub no_counts : ℕ → ℕ → AccountInventory
no_counts total rows = record {
  total = total;
  configured_rows = rows;
  routables = 0;
  coolings = 0;
  quota_blockeds = 0;
  banneds = 0;
  disableds = 0;
  credential_issues = 0;
  profile_issues = 0;
}

-- InventorySnapshot
unfoldable pub inventory_snapshot : AccountPool → Settings → ℕ → List Row → AccountInventory
inventory_snapshot p st now rows =
    let best = best_states p st now rows [] in
    count_states best (no_counts (length best) (length rows))
