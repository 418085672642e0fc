-- ===== src/Config/ApiKeys/Patches.antt =====
-- What UpdateApiKey (config/apikeys.go) leaves in the entries, and in which case it refuses.
use kiro_go_plus.Base.{
  ◌≡◌, refl, sym, subst, ap, ◌⊎◌, inl, inr, Bool, true, false, not, ◌&&◌, none, some, List, [], ◌∷◌,
  ◌==◌, nat_eq, bytes_eq, same→eq, Bool-cases, Option-cases, arith,
}
use kiro_go_plus.Base.Text.{Text, is_empty, trim_space}
use kiro_go_plus.Config.ApiKeys.{
  ApiKeyEntry, Keys, Outcome, done, failed, not_initialized, empty_key, already_exists, not_found,
  collision, save_failed, find_by_id, modify_first, other_has_key, renamed, patched, saved_or,
  update_api_key, get_api_key_entry,
}

-- The entry g is what a patch makes of the entry e: empty texts of the patch change nothing, its
-- limits always count, a migrated entry stays migrated, and the counters stay.
pub record PatchOf (patch e g : ApiKeyEntry) : Type 0 where
  pub name_kept : is_empty patch.name ≡ true → g.name ≡ e.name
  pub name_set : is_empty patch.name ≡ false → g.name ≡ patch.name
  pub key_kept : is_empty patch.key ≡ true → g.key ≡ e.key
  pub key_set : is_empty patch.key ≡ false → g.key ≡ trim_space patch.key
  pub limits :
      (g.enabled ≡ patch.enabled)
      × (g.token_limit ≡ patch.token_limit)
      × (g.credit_limit ≡ patch.credit_limit)
      × (g.requests_per_minute ≡ patch.requests_per_minute)
      × (g.tokens_per_minute ≡ patch.tokens_per_minute)
      × (g.max_concurrency ≡ patch.max_concurrency)
      × (g.queue_capacity ≡ patch.queue_capacity)
      × (g.queue_timeout_ms ≡ patch.queue_timeout_ms)
      × (g.model_fallback_enabled ≡ patch.model_fallback_enabled)
  pub stays_migrated : e.migrated ≡ true → g.migrated ≡ true
  pub counters :
      (g.tokens_used ≡ e.tokens_used)
      × (g.credits_used ≡ e.credits_used)
      × (g.requests_count ≡ e.requests_count)
      × (g.last_used_at ≡ e.last_used_at)
      × (g.created_at ≡ e.created_at)
      × (g.id ≡ e.id)

-- The entry g is e under the patch's name, if that has one.
pub record RenameOf (patch e g : ApiKeyEntry) : Type 0 where
  pub name_kept : is_empty patch.name ≡ true → g.name ≡ e.name
  pub name_set : is_empty patch.name ≡ false → g.name ≡ patch.name
  pub rest : record g { name = e.name } ≡ e

-- The entry of the id was there, and is now related to what it was.
abbrev pub Became : (ApiKeyEntry → ApiKeyEntry → Type 0) → Text → List ApiKeyEntry → Keys → Type 0
Became R id es d =
    (e : ApiKeyEntry) × (g : ApiKeyEntry) × (find_by_id id es ≡ some e)
    × (get_api_key_entry id d ≡ some g)
    × R e g

-- Whether the patch asks for the key of another entry.
abbrev pub Collides : Text → ApiKeyEntry → List ApiKeyEntry → Type 0
Collides id patch es =
    (is_empty patch.key ≡ false) × (other_has_key id (trim_space patch.key) es ≡ true)

abbrev pub Fits : Text → ApiKeyEntry → List ApiKeyEntry → Type 0
Fits id patch es =
    (is_empty patch.key ≡ true) ⊎ (other_has_key id (trim_space patch.key) es ≡ false)

-- What holds for each answer of UpdateApiKey.
abbrev pub Answered : Text → ApiKeyEntry → List ApiKeyEntry → Keys × Outcome (Unit {0}) → Type 0
Answered id patch es (d, done x) = Fits id patch es × Became (PatchOf patch) id es d
Answered id patch es (d, failed save_failed) = Fits id patch es × Became (PatchOf patch) id es d
Answered id patch es (d, failed collision) = Collides id patch es × Became (RenameOf patch) id es d
Answered id patch es (d, failed not_found) = (find_by_id id es ≡ none) × (d ≡ some es)
Answered id patch es (d, failed not_initialized) = ⊥
Answered id patch es (d, failed empty_key) = ⊥
Answered id patch es (d, failed already_exists) = ⊥

find-modified :
    (id : Text) (f : ApiKeyEntry → ApiKeyEntry) (e : ApiKeyEntry) (es : List ApiKeyEntry)
    → ((g : ApiKeyEntry) → (f g).id ≡ g.id)
    → find_by_id id es ≡ some e
    → find_by_id id (modify_first id f es) ≡ some (f e)
unfolding find_by_id modify_first
find-modified id f e [] keeps h = absurd (ground arith)
find-modified id f e (g ∷ es) keeps h = elim (Bool-cases (g.id == id)) [
  | inl here ↦
      let same : g ≡ e = ground (arith, here, h) in
      let hit = subst (λ k. (k == id) ≡ true) (sym (keeps g)) here in
      rw (here, hit) (ap (λ (x : ApiKeyEntry). some (f x)) same)
  | inr there ↦ rw (there, there) (find-modified id f e es keeps (ground (arith, there, h)))
]

find-modified_other :
    (id j : Text) (f : ApiKeyEntry → ApiKeyEntry) (es : List ApiKeyEntry)
    → ((g : ApiKeyEntry) → (f g).id ≡ g.id)
    → (id == j) ≡ false
    → find_by_id j (modify_first id f es) ≡ find_by_id j es
unfolding find_by_id modify_first
find-modified_other id j f [] keeps other = refl
find-modified_other id j f (g ∷ es) keeps other =
    ground (arith, other, keeps g, same→eq g.id id, find-modified_other id j f es keeps other)

patched-PatchOf : (patch e : ApiKeyEntry) → PatchOf patch e (patched patch e)
patched-PatchOf patch e = record {
  name_kept = λ h. rw h refl;
  name_set = λ h. rw h refl;
  key_kept = λ h. rw h refl;
  key_set = λ h. rw h refl;
  limits = (refl, refl, refl, refl, refl, refl, refl, refl, refl);
  stays_migrated = λ h. ground (arith, h);
  counters = (refl, refl, refl, refl, refl, refl);
}

renamed-RenameOf : (patch e : ApiKeyEntry) → RenameOf patch e (renamed patch e)
renamed-RenameOf patch e = record {
  name_kept = λ h. rw h refl;
  name_set = λ h. rw h refl;
  rest = refl;
}

saved_or-Answered :
    (saved : Bool) (id : Text) (patch : ApiKeyEntry) (es : List ApiKeyEntry) (d : Keys)
    → Fits id patch es
    → Became (PatchOf patch) id es d
    → Answered id patch es (d, saved_or saved tt)
saved_or-Answered true id patch es d fits became = (fits, became)
saved_or-Answered false id patch es d fits became = (fits, became)

-- An update of an initialized configuration leaves what is found under other ids as it was. It is
-- refused as not found only when no entry has the id, and then changes nothing. It is refused as a
-- collision only when another entry has the key that it asks for; the entry has then been renamed, if
-- the patch has a name, and is otherwise as it was. In all other cases the entry is what the patch
-- makes of it, also when the write fails: an empty name or key leaves the old one, a key is trimmed,
-- and the limits and the switch always come from the patch, while the counters stay.
pub update_api_key-Answered :
    (saved : Bool) (id : Text) (patch : ApiKeyEntry) (es : List ApiKeyEntry)
    → Answered id patch es (update_api_key saved id patch (some es))
      × ((j : Text)
          → (id == j) ≡ false
          → get_api_key_entry j (update_api_key saved id patch (some es)).0 ≡ find_by_id j es)
unfolding update_api_key get_api_key_entry
update_api_key-Answered saved id patch es =
    let asks = not (is_empty patch.key) && other_has_key id (trim_space patch.key) es in
    elim (Option-cases (find_by_id id es)) [
      | inl missing ↦ rw (missing, update_api_key) ((missing, refl), λ j other. refl)
      | inr (e, found) ↦ elim (Bool-cases asks) [
        | inl bad ↦
            rw (found, bad, update_api_key)
              (
                (
                  (ground (arith, bad), ground (arith, bad)),
                  (
                    e,
                    renamed patch e,
                    found,
                    find-modified id (renamed patch) e es (λ g. refl) found,
                    renamed-RenameOf patch e,
                  ),
                ),
                λ j other. find-modified_other id j (renamed patch) es (λ g. refl) other,
              )
        | inr fine ↦
            let fits : Fits id patch es = elim (Bool-cases (is_empty patch.key)) [
              | inl kept ↦ inl kept
              | inr given ↦ inr (ground (arith, given, fine))
            ] in
            rw (found, fine, update_api_key)
              (
                saved_or-Answered saved id patch es (some (modify_first id (patched patch) es)) fits
                    (
                      e,
                      patched patch e,
                      found,
                      find-modified id (patched patch) e es (λ g. refl) found,
                      patched-PatchOf patch e,
                    ),
                λ j other. find-modified_other id j (patched patch) es (λ g. refl) other,
              )
      ]
    ]
