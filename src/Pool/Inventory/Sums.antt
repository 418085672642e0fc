-- ===== src/Pool/Inventory/Sums.antt =====
-- What the counts of pool/inventory.go add up to, and which state an identity counts with.
use kiro_go_plus.Base.{ℕ, ◌+◌, ◌≤◌, ◌≡◌, some, bytes_eq}
use kiro_go_plus.Base.Dict.{Dict, lookup}
use kiro_go_plus.Base.Text.{Text}
use kiro_go_plus.Pool.Inventory.{AccountInventoryState, rank, AccountInventory}

-- The sum over the states.
abbrev pub all_counts : AccountInventory → ℕ
all_counts r =
    r.routables + r.coolings + r.quota_blockeds + r.banneds + r.disableds + r.credential_issues
    + r.profile_issues

-- The recorded state of an identity is at least as good as this one.
abbrev pub Records : Dict Text AccountInventoryState → Text → AccountInventoryState → Type 0
Records best identity state =
    (b : AccountInventoryState) × (lookup identity best ≡ some b) × (rank b ≤ rank state)
