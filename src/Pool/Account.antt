-- ===== src/Pool/Account.antt =====
-- config.Account (config/config.go), and the quota test of pool/account.go.
use kiro_go_plus.Base.{
  ℕ, Bool, true, false, not, ◌&&◌, List, [], ◌∷◌, ltb, leb, if◌then◌else◌, ◌==◌, bytes_eq,
}
use kiro_go_plus.Base.Int.{ℤ, pos, negsuc}
use kiro_go_plus.Base.Text.{Text, codes, equal_fold}

-- The fields of config.Account that the pool reads or writes. Usage is in a fixed fraction of a
-- credit.
pub record Account : Type 0 where
  pub id : Text
  pub access_token : Text
  pub refresh_token : Text
  pub expires_at : ℕ
  pub profile_arn : Text
  pub weight : ℤ
  pub priority : ℤ
  pub max_concurrency : ℕ
  pub overage_status : Text
  pub usage_current : ℕ
  pub usage_limit : ℕ
  pub error_count : ℕ

unfoldable pub is_over_usage_limit : Account → Bool
is_over_usage_limit acc = ltb 0 acc.usage_limit && leb acc.usage_limit acc.usage_current

unfoldable pub is_upstream_overage_enabled : Account → Bool
is_upstream_overage_enabled acc = equal_fold acc.overage_status (codes "ENABLED")

unfoldable pub is_quota_blocked : Account → Bool → Bool
is_quota_blocked acc allow_over_usage =
    is_over_usage_limit acc && not (is_upstream_overage_enabled acc) && not allow_over_usage

-- At least 1 and at most maxAccountWeight.
unfoldable pub effective_weight : ℤ → ℕ
effective_weight (negsuc n) = 1
effective_weight (pos n) = if ltb n 1 then 1 else if ltb 100 n then 100 else n

abbrev pub has_account : Text → List Account → Bool
has_account id [] = false
has_account id (acc ∷ accs) = let rest = has_account id accs in if acc.id == id then true else rest
