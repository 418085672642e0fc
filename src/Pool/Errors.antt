-- ===== src/Pool/Errors.antt =====
-- The reading of upstream error texts (pool/account.go): status codes that stand as tokens.
pub mod Tokens
use kiro_go_plus.Base.{
  ℕ, ◌≡◌, Bool, true, false, not, ◌&&◌, ◌||◌, List, [], ◌∷◌, leb, if◌then◌else◌, ◌==◌, nat_eq, drop,
  length,
}
use kiro_go_plus.Base.Text.{Text, codes, to_lower, is_empty}

abbrev pub is_digit : ℕ → Bool
is_digit b = leb 48 b && leb b 57

abbrev pub is_alpha_num : ℕ → Bool
is_alpha_num b = is_digit b || leb 97 b && leb b 122 || leb 65 b && leb b 90

-- What follows, or what the text begins with, does not go on with a letter or a digit.
abbrev pub is_boundary : Text → Bool
is_boundary [] = true
is_boundary (b ∷ s) = not (is_alpha_num b)

-- The status, if it stands at the start, is cut off.
unfoldable pub token_here : Text → Text → Bool
token_here [] s = is_boundary s
token_here (a ∷ status) [] = false
token_here (a ∷ status) (b ∷ s) = let rest = token_here status s in a == b && rest

-- The loop over the offsets of HasStatusToken; `left` says that no letter or digit comes before.
unfoldable pub token_from : Text → Bool → Text → Bool
token_from status left [] = false
token_from status left (b ∷ s) =
    let rest = token_from status (not (is_alpha_num b)) s in
    if left && token_here status (b ∷ s) then true else rest

-- HasStatusToken
unfoldable pub has_status_token : Text → Text → Bool
has_status_token s status = if is_empty status then false else token_from status true s

-- strings.HasPrefix, strings.Contains
abbrev pub starts_with : Text → Text → Bool
starts_with [] s = true
starts_with (a ∷ part) [] = false
starts_with (a ∷ part) (b ∷ s) = let rest = starts_with part s in a == b && rest

unfoldable pub contains_text : Text → Text → Bool
contains_text part [] = is_empty part
contains_text part (b ∷ s) = let rest = contains_text part s in starts_with part (b ∷ s) || rest

abbrev pub contains_any : List Text → Text → Bool
contains_any [] s = false
contains_any (part ∷ parts) s = let rest = contains_any parts s in contains_text part s || rest

abbrev pub auth_phrases : List Text
auth_phrases =
    codes "bad credentials"
    ∷ codes "invalid_grant"
    ∷ codes "invalid grant"
    ∷ codes "invalid_token"
    ∷ codes "invalid token"
    ∷ codes "token expired"
    ∷ codes "token has expired"
    ∷ codes "unauthorized"
    ∷ []

-- IsAuthFailure, on the text of an error.
unfoldable pub is_auth_failure : Text → Bool
is_auth_failure msg =
    has_status_token msg (codes "401")
    || has_status_token msg (codes "403")
    || contains_any auth_phrases (to_lower msg)

-- IsSuspensionError
unfoldable pub is_suspension_error : Text → Bool
is_suspension_error msg =
    contains_any
      (codes "temporarily_suspended"
        ∷ codes "temporarily suspended"
        ∷ codes "no available kiro profile"
        ∷ [])
      (to_lower msg)
