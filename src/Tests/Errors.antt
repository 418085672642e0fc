-- ===== src/Tests/Errors.antt =====
-- The reading of error texts (pool/account.go).
use kiro_go_plus.Base.{◌≡◌, ◌↔◌, refl, true, false, nat_eq}
use kiro_go_plus.Base.Text.{codes, to_lower}
use kiro_go_plus.Pool.Errors.{
  has_status_token, token_from, token_here, is_auth_failure, contains_text,
}
use kiro_go_plus.Pool.Errors.Tokens.{Occurs, has_status_token-Occurs}

standing_alone : is_auth_failure (codes "HTTP 401 from x") ≡ true
unfolding is_auth_failure has_status_token token_from token_here
standing_alone = refl

part_of_a_number : is_auth_failure (codes "id 14013") ≡ false
unfolding is_auth_failure has_status_token token_from token_here contains_text to_lower
part_of_a_number = refl

has_status_token-Occurs_example :
    (has_status_token (codes "HTTP 401") (codes "401") ≡ true)
    ↔ Occurs true (codes "HTTP 401") (codes "401")
has_status_token-Occurs_example = has_status_token-Occurs (codes "HTTP 401") (codes "401") refl
