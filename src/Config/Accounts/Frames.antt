-- ===== src/Config/Accounts/Frames.antt =====
-- What a change of one stored account does to the list of them (config/config.go).
use kiro_go_plus.Base.{
  ◌≡◌, refl, subst, Bool, true, false, Option, none, some, List, [], ◌∷◌, if◌then◌else◌, ◌==◌,
  bytes_eq, same→eq, Bool-cases, inl, inr, arith,
}
use kiro_go_plus.Base.Text.{Text}
use kiro_go_plus.Pool.{Settings}
use kiro_go_plus.Pool.Account.{Account, has_account}
use kiro_go_plus.Pool.Changes.{usable_accounts}
use kiro_go_plus.Config.Accounts.{
  StoredAccount, AccountStatusPatch, patched_status, change_first, patch_account_status,
  with_overage_status, update_account_overage_status, enabled_accounts,
}

-- The first stored account of an id.
unfoldable pub find_stored : Text → List StoredAccount → Option StoredAccount
find_stored id [] = none
find_stored id (a ∷ accs) = if a.account.id == id then some a else find_stored id accs

abbrev pub is_stored : Text → List StoredAccount → Bool
is_stored id [] = false
is_stored id (a ∷ accs) = let rest = is_stored id accs in if a.account.id == id then true else rest

abbrev pub DistinctIds : List StoredAccount → Type 0
DistinctIds [] = Unit
DistinctIds (a ∷ accs) = (is_stored a.account.id accs ≡ false) × DistinctIds accs

pub find_stored-patch :
    (saved : Bool) (id j : Text) (patch : AccountStatusPatch) (accs : List StoredAccount)
    → (id == j) ≡ false
    → find_stored j (patch_account_status saved id patch accs).0 ≡ find_stored j accs
unfolding find_stored patch_account_status change_first patched_status
find_stored-patch saved id j patch [] other = refl
find_stored-patch saved id j patch (a ∷ accs) other =
    ground (arith, find_stored-patch saved id j patch accs other, other, same→eq a.account.id id)

pub find_stored-overage :
    (saved : Bool) (id j status : Text) (accs : List StoredAccount)
    → (id == j) ≡ false
    → find_stored j (update_account_overage_status saved id status accs).0 ≡ find_stored j accs
unfolding find_stored update_account_overage_status with_overage_status
find_stored-overage saved id j status [] other = refl
find_stored-overage saved id j status (a ∷ accs) other =
    ground (arith, find_stored-overage saved id j status accs other, other, same→eq a.account.id id)

enabled-absent :
    (id : Text) (accs : List StoredAccount)
    → is_stored id accs ≡ false
    → has_account id (enabled_accounts accs) ≡ false
unfolding enabled_accounts
enabled-absent id [] h = refl
enabled-absent id (a ∷ accs) h = ground (arith, h, enabled-absent id accs)

pub usable-absent :
    (st : Settings) (id : Text) (accs : List Account)
    → has_account id accs ≡ false
    → has_account id (usable_accounts st accs) ≡ false
unfolding usable_accounts
usable-absent st id [] h = refl
usable-absent st id (acc ∷ accs) h = ground (arith, h, usable-absent st id accs)

-- Once an account is patched to be disabled, and that is saved, no enabled account has its id.
pub disabled-absent :
    (id : Text) (patch : AccountStatusPatch) (accs : List StoredAccount)
    → patch.enabled ≡ some false
    → DistinctIds accs
    → has_account id (enabled_accounts (patch_account_status true id patch accs).0) ≡ false
unfolding enabled_accounts patch_account_status change_first patched_status
disabled-absent id patch [] off distinct = refl
disabled-absent id patch (a ∷ accs) off (absent, distinct) =
    elim (Bool-cases (a.account.id == id)) [
      | inl same ↦
          rw (same, off)
            (enabled-absent id accs
              (subst (λ k. is_stored k accs ≡ false) (same→eq a.account.id id same) absent))
      | inr other ↦ ground (arith, other, disabled-absent id patch accs off distinct)
    ]

pub patch-answers :
    (id : Text) (patch : AccountStatusPatch) (accs : List StoredAccount)
    → is_stored id accs ≡ true
    → (b : StoredAccount) × ((patch_account_status true id patch accs).1 ≡ some b)
unfolding patch_account_status change_first
patch-answers id patch [] h = ground (arith, h)
patch-answers id patch (a ∷ accs) h = elim (Bool-cases (a.account.id == id)) [
  | inl same ↦ (patched_status patch a, ground (arith, same))
  | inr other ↦
      let (b, found) = patch-answers id patch accs (ground (arith, h, other)) in
      (b, ground (arith, other, found))
]
