-- ===== src/Failover/Messages.antt =====
-- The reading of error texts by the failover (proxy/account_failover.go).
use kiro_go_plus.Base.{Bool, ◌&&◌, ◌||◌, [], ◌∷◌}
use kiro_go_plus.Base.Text.{Text, codes, to_lower}
use kiro_go_plus.Pool.Errors.{has_status_token, contains_text, contains_any, is_auth_failure}

unfoldable pub is_quota_error_message : Text → Bool
is_quota_error_message msg =
    has_status_token (to_lower msg) (codes "429") || contains_text (codes "quota") (to_lower msg)

unfoldable pub is_rate_limit_error_message : Text → Bool
is_rate_limit_error_message msg =
    has_status_token (to_lower msg) (codes "429")
    || contains_any (codes "too many requests" ∷ codes "rate limit" ∷ []) (to_lower msg)

unfoldable pub is_overage_error_message : Text → Bool
is_overage_error_message msg =
    has_status_token (to_lower msg) (codes "402") && contains_text (codes "overage") (to_lower msg)

unfoldable pub is_suspension_error_message : Text → Bool
is_suspension_error_message msg =
    contains_any
      (codes "temporarily_suspended"
        ∷ codes "temporarily is suspended"
        ∷ codes "account suspended"
        ∷ [])
      (to_lower msg)

unfoldable pub is_profile_unavailable_error_message : Text → Bool
is_profile_unavailable_error_message msg =
    contains_text (codes "no available kiro profile") (to_lower msg)

unfoldable pub is_auth_error_message : Text → Bool
is_auth_error_message msg =
    is_auth_failure msg
    || contains_any
        (codes "authentication failed"
          ∷ codes "token invalid"
          ∷ codes "access token expired"
          ∷ codes "refresh token expired"
          ∷ [])
        (to_lower msg)
