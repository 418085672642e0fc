-- ===== src/Config/ApiKeys.antt =====
-- The API keys of the configuration (config/apikeys.go). Whether the file could be written, a fresh
-- id and the clock's reading are arguments. Credits are in a fixed fraction; the cumulative
-- counters do not wrap.
pub mod Unique
pub mod Lookups
pub mod Updates
pub mod Patches
use kiro_go_plus.Base.{
  ℕ, ◌+◌, ◌-◌, Bool, true, false, not, ◌&&◌, ◌||◌, Option, none, some, List, [], ◌∷◌, ◌++◌, take,
  drop, length, ltb, leb, if◌then◌else◌, ◌==◌, nat_eq, bytes_eq,
}
use kiro_go_plus.Base.Text.{Text, codes, is_empty, trim_space}

pub record ApiKeyEntry : Type 0 where
  pub id : Text
  pub name : Text
  pub key : Text
  pub enabled : Bool
  pub model_fallback_enabled : Option Bool
  pub migrated : Bool
  pub created_at : ℕ
  pub last_used_at : ℕ
  pub token_limit : ℕ
  pub credit_limit : ℕ
  pub requests_per_minute : ℕ
  pub tokens_per_minute : ℕ
  pub max_concurrency : ℕ
  pub queue_capacity : ℕ
  pub queue_timeout_ms : ℕ
  pub tokens_used : ℕ
  pub credits_used : ℕ
  pub requests_count : ℕ

pub data ConfigError : Type 0 where
  not_initialized empty_key already_exists not_found collision save_failed : ConfigError

pub data Outcome (A : Type 0) : Type 0 where
  done : A → Outcome A
  failed : ConfigError → Outcome A

-- cfg.ApiKeys, with no configuration before it is loaded.
abbrev pub Keys : Type 0
Keys = Option (List ApiKeyEntry)

abbrev pub has_key : Text → List ApiKeyEntry → Bool
has_key k [] = false
has_key k (e ∷ es) = let rest = has_key k es in e.key == k || rest

unfoldable pub find_by_id : Text → List ApiKeyEntry → Option ApiKeyEntry
find_by_id id [] = none
find_by_id id (e ∷ es) = let rest = find_by_id id es in if e.id == id then some e else rest

unfoldable pub find_by_key : Text → List ApiKeyEntry → Option ApiKeyEntry
find_by_key k [] = none
find_by_key k (e ∷ es) = let rest = find_by_key k es in if e.key == k then some e else rest

-- The first entry of an id, changed.
unfoldable pub modify_first :
    Text → (ApiKeyEntry → ApiKeyEntry) → List ApiKeyEntry → List ApiKeyEntry
modify_first id f [] = []
modify_first id f (e ∷ es) =
    let rest = modify_first id f es in if e.id == id then f e ∷ es else e ∷ rest

-- GetApiKeyEntry, FindApiKeyByValue, HasApiKeys
unfoldable pub get_api_key_entry : Text → Keys → Option ApiKeyEntry
get_api_key_entry id none = none
get_api_key_entry id (some es) = find_by_id id es

unfoldable pub find_api_key_by_value : Text → Keys → Option ApiKeyEntry
find_api_key_by_value k none = none
find_api_key_by_value k (some es) = if is_empty k then none else find_by_key k es

unfoldable pub has_api_keys : Keys → Bool
has_api_keys none = false
has_api_keys (some es) = ltb 0 (length es)

-- What AddApiKey and AddApiKeys fill in.
abbrev pub completed : Text → ℕ → Text → ApiKeyEntry → ApiKeyEntry
completed uuid now k e = record e {
  key = k;
  id = if is_empty e.id then uuid else e.id;
  created_at = if e.created_at == 0 then now else e.created_at;
}

-- AddApiKey: a write that fails is rolled back.
unfoldable pub add_api_key : Bool → Text → ℕ → ApiKeyEntry → Keys → Keys × Outcome ApiKeyEntry
add_api_key saved uuid now e none = (none, failed not_initialized)
add_api_key saved uuid now e (some es) =
    let k = trim_space e.key in
    if is_empty k
    then (some es, failed empty_key)
    else if has_key k es
    then (some es, failed already_exists)
    else if saved
    then (some (es ++ (completed uuid now k e ∷ [])), done (completed uuid now k e))
    else (some es, failed save_failed)

-- The loop of AddApiKeys; `held` are the entries whose keys are taken, `uuids` gives an id for
-- each entry.
unfoldable pub collect_new :
    (ℕ → Text) → ℕ → List ApiKeyEntry → List ApiKeyEntry → List ApiKeyEntry × List Text
collect_new uuids now held [] = ([], [])
collect_new uuids now held (e ∷ es) =
    let k = trim_space e.key in
    let made = completed (uuids (length es)) now k e in
    let rest = collect_new uuids now held es in
    let (created, skipped) = collect_new uuids now (made ∷ held) es in
    if is_empty k
    then rest
    else if has_key k held
    then (rest.0, k ∷ rest.1)
    else (made ∷ created, skipped)

unfoldable pub add_api_keys :
    Bool → (ℕ → Text) → ℕ → List ApiKeyEntry → Keys → Keys × Outcome (List ApiKeyEntry × List Text)
add_api_keys saved uuids now entries none = (none, failed not_initialized)
add_api_keys saved uuids now entries (some es) =
    let (created, skipped) = collect_new uuids now es entries in
    if length created == 0
    then (some es, done ([], skipped))
    else if saved
    then (some (es ++ created), done (created, skipped))
    else (some es, failed save_failed)

-- Whether an entry other than the first of the id has the key.
unfoldable pub other_has_key : Text → Text → List ApiKeyEntry → Bool
other_has_key id k [] = false
other_has_key id k (e ∷ es) =
    let rest = other_has_key id k es in if e.id == id then has_key k es else e.key == k || rest

abbrev pub renamed : ApiKeyEntry → ApiKeyEntry → ApiKeyEntry
renamed patch e = record e { name = if is_empty patch.name then e.name else patch.name }

abbrev pub patched : ApiKeyEntry → ApiKeyEntry → ApiKeyEntry
patched patch e = record (renamed patch e) {
  key = if is_empty patch.key then e.key else trim_space patch.key;
  enabled = patch.enabled;
  token_limit = patch.token_limit;
  credit_limit = patch.credit_limit;
  requests_per_minute = patch.requests_per_minute;
  tokens_per_minute = patch.tokens_per_minute;
  max_concurrency = patch.max_concurrency;
  queue_capacity = patch.queue_capacity;
  queue_timeout_ms = patch.queue_timeout_ms;
  model_fallback_enabled = patch.model_fallback_enabled;
  migrated = patch.migrated || e.migrated;
}

-- saveLocked, with nothing rolled back.
abbrev pub saved_or : {A : Type 0} → Bool → A → Outcome A
saved_or true x = done x
saved_or false x = failed save_failed

-- UpdateApiKey
unfoldable pub update_api_key : Bool → Text → ApiKeyEntry → Keys → Keys × Outcome (Unit {0})
update_api_key saved id patch none = (none, failed not_initialized)
update_api_key saved id patch (some es) = elim (find_by_id id es) [
  | none ↦ (some es, failed not_found)
  | some e ↦
      if not (is_empty patch.key) && other_has_key id (trim_space patch.key) es
      then (some (modify_first id (renamed patch) es), failed collision)
      else (some (modify_first id (patched patch) es), saved_or saved tt)
]

abbrev pub remove_first : Text → List ApiKeyEntry → List ApiKeyEntry
remove_first id [] = []
remove_first id (e ∷ es) = let rest = remove_first id es in if e.id == id then es else e ∷ rest

-- DeleteApiKey
unfoldable pub delete_api_key : Bool → Text → Keys → Keys × Outcome (Unit {0})
delete_api_key saved id none = (none, failed not_initialized)
delete_api_key saved id (some es) = elim (find_by_id id es) [
  | none ↦ (some es, done tt)
  | some e ↦ (some (remove_first id es), saved_or saved tt)
]

abbrev pub used : ℕ → ℕ → ℕ → ApiKeyEntry → ApiKeyEntry
used tokens credits now e = record e {
  tokens_used = e.tokens_used + tokens;
  credits_used = e.credits_used + credits;
  requests_count = e.requests_count + 1;
  last_used_at = now;
}

-- RecordApiKeyUsage; a count that is not positive is 0 here. The write is put off.
unfoldable pub record_api_key_usage : Text → ℕ → ℕ → ℕ → Keys → Keys × Outcome (Unit {0})
record_api_key_usage id tokens credits now none = (none, failed not_initialized)
record_api_key_usage id tokens credits now (some es) = elim (find_by_id id es) [
  | none ↦ (some es, failed not_found)
  | some e ↦ (some (modify_first id (used tokens credits now) es), done tt)
]

abbrev pub unused : ApiKeyEntry → ApiKeyEntry
unused e = record e { tokens_used = 0; credits_used = 0; requests_count = 0 }

-- ResetApiKeyUsage
unfoldable pub reset_api_key_usage : Bool → Text → Keys → Keys × Outcome (Unit {0})
reset_api_key_usage saved id none = (none, failed not_initialized)
reset_api_key_usage saved id (some es) = elim (find_by_id id es) [
  | none ↦ (some es, failed not_found)
  | some e ↦ (some (modify_first id unused es), saved_or saved tt)
]

-- MaskApiKey
unfoldable pub mask_api_key : Text → Text
mask_api_key k =
    if leb (length k) 10 then k else take 6 k ++ (codes "****" ++ drop (length k - 4) k)

-- ApiKeyOverLimit
unfoldable pub api_key_over_limit : ApiKeyEntry → Bool × Bool
api_key_over_limit e = (
  ltb 0 e.token_limit && leb e.token_limit e.tokens_used,
  ltb 0 e.credit_limit && leb e.credit_limit e.credits_used,
)
