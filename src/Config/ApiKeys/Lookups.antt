-- ===== src/Config/ApiKeys/Lookups.antt =====
-- What a client's key finds after a key was added (config/apikeys.go).
use kiro_go_plus.Base.{
  ℕ, ◌≡◌, refl, Bool, false, none, some, List, [], ◌∷◌, ◌++◌, if◌then◌else◌, ◌==◌, nat_eq, bytes_eq,
  bytes_eqb_iff, Bool-cases, inl, inr, arith, ◌⊎◌,
}
use kiro_go_plus.Base.Text.{Text, is_empty, trim_space}
use kiro_go_plus.Config.ApiKeys.{
  ApiKeyEntry, Keys, done, failed, ConfigError, has_key, find_by_key, completed, add_api_key,
  find_api_key_by_value,
}

find_by_key-append :
    (j : Text) (es : List ApiKeyEntry) (e : ApiKeyEntry)
    → has_key e.key es ≡ false
    → find_by_key j (es ++ (e ∷ [])) ≡ (if e.key == j then some e else find_by_key j es)
unfolding find_by_key
find_by_key-append j [] e h = refl
find_by_key-append j (g ∷ es) e h = ground (
  arith,
  bytes_eqb_iff g.key j,
  bytes_eqb_iff e.key j,
  bytes_eqb_iff g.key e.key,
  find_by_key-append j es e,
)

-- Adding a key either makes the key, trimmed, find the new entry and leaves every other key's
-- answer as it was, or is refused and leaves the configuration as it was: no third outcome.
pub find_api_key_by_value-add_api_key :
    (saved : Bool) (uuid : Text) (now : ℕ) (e : ApiKeyEntry) (c : Keys)
    → let r = add_api_key saved uuid now e c in
      ((made : ApiKeyEntry) × (r.1 ≡ done made)
        × (made.key ≡ trim_space e.key)
        × ((j : Text)
            → find_api_key_by_value j r.0
              ≡ (if trim_space e.key == j then some made else find_api_key_by_value j c)))
      ⊎ ((why : ConfigError) × (r ≡ (c, failed why)))
unfolding add_api_key find_api_key_by_value
find_api_key_by_value-add_api_key saved uuid now e none = inr (ConfigError.not_initialized, refl)
find_api_key_by_value-add_api_key saved uuid now e (some es) =
    let k = trim_space e.key in
    elim (Bool-cases (is_empty k)) [
      | inl blank ↦ inr (ConfigError.empty_key, rw blank refl)
      | inr named ↦ elim (Bool-cases (has_key k es)) [
        | inl taken ↦ inr (ConfigError.already_exists, rw (named, taken) refl)
        | inr free ↦ elim (Bool-cases saved) [
          | inl s ↦ inl (
            completed uuid now k e,
            rw (named, free, s) refl,
            refl,
            λ j.
                rw (named, free, s)
                  (ground (
                    arith,
                    named,
                    bytes_eqb_iff k j,
                    find_by_key-append j es (completed uuid now k e) free,
                  )),
          )
          | inr s ↦ inr (ConfigError.save_failed, rw (named, free, s) refl)
        ]
      ]
    ]
