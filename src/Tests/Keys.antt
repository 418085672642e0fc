-- ===== src/Tests/Keys.antt =====
-- The API keys of config/apikeys.go: a configuration of two keys.
use kiro_go_plus.Base.{
  ◌≡◌, ◌⊎◌, refl, true, false, none, some, List, [], ◌∷◌, if◌then◌else◌, ◌==◌, bytes_eq,
}
use kiro_go_plus.Base.Text.{Text, codes, trim_space}
use kiro_go_plus.Config.ApiKeys.{
  ApiKeyEntry, ConfigError, collision, done, failed, find_by_id, modify_first, other_has_key,
  add_api_key, find_api_key_by_value, update_api_key, get_api_key_entry, mask_api_key,
  api_key_over_limit,
}
use kiro_go_plus.Config.ApiKeys.Lookups.{find_api_key_by_value-add_api_key}
use kiro_go_plus.Config.ApiKeys.Unique.{DistinctKeys}
use kiro_go_plus.Config.ApiKeys.Patches.{Answered, update_api_key-Answered}
use kiro_go_plus.Config.ApiKeys.Updates.{add, Change-DistinctKeys}

abbrev entry : Text → Text → Text → ApiKeyEntry
entry id name key = record {
  id = id;
  name = name;
  key = key;
  enabled = true;
  model_fallback_enabled = none;
  migrated = false;
  created_at = 1;
  last_used_at = 0;
  token_limit = 100;
  credit_limit = 0;
  requests_per_minute = 0;
  tokens_per_minute = 0;
  max_concurrency = 0;
  queue_capacity = 0;
  queue_timeout_ms = 0;
  tokens_used = 100;
  credits_used = 0;
  requests_count = 7;
}

abbrev first : ApiKeyEntry
first = entry (codes "1") (codes "one") (codes "sk-one")

abbrev entries : List ApiKeyEntry
entries = first ∷ entry (codes "2") (codes "two") (codes "sk-two") ∷ []

abbrev third : ApiKeyEntry
third = entry [] (codes "three") (codes " sk-three ")

Change-DistinctKeys_example : DistinctKeys (add_api_key true (codes "u") 5 third (some entries)).0
Change-DistinctKeys_example =
    Change-DistinctKeys {c = some entries} (add true (codes "u") 5 third) ((refl, tt), (tt, tt))

find_api_key_by_value-add_api_key_example :
    let r = add_api_key true (codes "u") 5 third (some entries) in
    ((made : ApiKeyEntry) × (r.1 ≡ done made)
      × (made.key ≡ trim_space third.key)
      × ((j : Text)
          → find_api_key_by_value j r.0 ≡ (
              if trim_space third.key == j
              then some made
              else find_api_key_by_value j (some entries))))
    ⊎ ((why : ConfigError) × (r ≡ (some entries, failed why)))
find_api_key_by_value-add_api_key_example =
    find_api_key_by_value-add_api_key true (codes "u") 5 third (some entries)

abbrev colliding : ApiKeyEntry
colliding = entry [] (codes "new name") (codes "sk-two ")

update_api_key-Answered_example :
    Answered
      (codes "1")
      colliding
      entries
      (update_api_key true (codes "1") colliding (some entries))
    × ((j : Text)
        → (codes "1" == j) ≡ false
        → get_api_key_entry j (update_api_key true (codes "1") colliding (some entries)).0
          ≡ find_by_id j entries)
update_api_key-Answered_example = update_api_key-Answered true (codes "1") colliding entries

-- Refused, and renamed all the same.
renamed_anyway : update_api_key true (codes "1") colliding (some entries) ≡ (
  some (
      record first { name = codes "new name" }
      ∷ entry (codes "2") (codes "two") (codes "sk-two")
      ∷ []),
  failed collision,
)
unfolding update_api_key find_by_id other_has_key trim_space modify_first
renamed_anyway = refl

masked : mask_api_key (codes "sk-0123456789") ≡ codes "sk-012****6789"
unfolding mask_api_key
masked = refl

over : api_key_over_limit first ≡ (true, false)
unfolding api_key_over_limit
over = refl
