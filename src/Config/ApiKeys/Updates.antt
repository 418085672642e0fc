-- ===== src/Config/ApiKeys/Updates.antt =====
-- Every operation of config/apikeys.go on the keys, whatever becomes of the write.
use kiro_go_plus.Base.{
  ℕ, ◌≡◌, refl, Bool, false, not, ◌&&◌, none, some, List, [], ◌∷◌, length, ◌==◌, nat_eq, bytes_eq,
  Bool-cases, Option-cases, inl, inr, arith,
}
use kiro_go_plus.Base.Text.{Text, is_empty, trim_space}
use kiro_go_plus.Config.ApiKeys.{
  ApiKeyEntry, Keys, has_key, find_by_id, modify_first, completed, add_api_key, collect_new,
  add_api_keys, other_has_key, renamed, patched, update_api_key, delete_api_key, used,
  record_api_key_usage, unused, reset_api_key_usage,
}
use kiro_go_plus.Config.ApiKeys.Unique.{
  Distinct, DistinctKeys, has_key-Fresh, Distinct-append, collect_new-Distinct,
  Distinct-modify_first, Distinct-rekey, Distinct-remove_first,
}

-- A call of one of the operations; `saved` is whether the file could be written.
pub data Change (c : Keys) : Keys → Type 0 where
  add :
      (saved : Bool) (uuid : Text) (now : ℕ) (e : ApiKeyEntry)
      → Change c (add_api_key saved uuid now e c).0
  add_all :
      (saved : Bool) (uuids : ℕ → Text) (now : ℕ) (es : List ApiKeyEntry)
      → Change c (add_api_keys saved uuids now es c).0
  update :
      (saved : Bool) (id : Text) (patch : ApiKeyEntry)
      → Change c (update_api_key saved id patch c).0
  remove : (saved : Bool) (id : Text) → Change c (delete_api_key saved id c).0
  use_key :
      (id : Text) (tokens credits now : ℕ)
      → Change c (record_api_key_usage id tokens credits now c).0
  reset : (saved : Bool) (id : Text) → Change c (reset_api_key_usage saved id c).0

add-Distinct :
    (saved : Bool) (uuid : Text) (now : ℕ) (e : ApiKeyEntry) (es : List ApiKeyEntry)
    → Distinct es
    → DistinctKeys (add_api_key saved uuid now e (some es)).0
unfolding add_api_key
add-Distinct saved uuid now e es d =
    let k = trim_space e.key in
    elim (Bool-cases (is_empty k)) [
      | inl blank ↦ rw blank d
      | inr named ↦ elim (Bool-cases (has_key k es)) [
        | inl taken ↦ rw (named, taken) d
        | inr free ↦ elim (Bool-cases saved) [
          | inl s ↦
              rw (named, free, s)
                (Distinct-append es (completed uuid now k e ∷ []) d (tt, tt)
                  (has_key-Fresh k es free, tt))
          | inr s ↦ rw (named, free, s) d
        ]
      ]
    ]

add_all-Distinct :
    (saved : Bool) (uuids : ℕ → Text) (now : ℕ) (new es : List ApiKeyEntry)
    → Distinct es
    → DistinctKeys (add_api_keys saved uuids now new (some es)).0
unfolding add_api_keys
add_all-Distinct saved uuids now new es d =
    let created = (collect_new uuids now es new).0 in
    let (fresh, apart) = collect_new-Distinct uuids now es new in
    elim (Bool-cases (length created == 0)) [
      | inl nothing_new ↦ rw nothing_new d
      | inr some_new ↦ elim (Bool-cases saved) [
        | inl s ↦ rw (some_new, s) (Distinct-append es created d fresh apart)
        | inr s ↦ rw (some_new, s) d
      ]
    ]

patched-Distinct :
    (id : Text) (patch : ApiKeyEntry) (es : List ApiKeyEntry)
    → (not (is_empty patch.key) && other_has_key id (trim_space patch.key) es) ≡ false
    → Distinct es
    → Distinct (modify_first id (patched patch) es)
patched-Distinct id patch es h d = elim (Bool-cases (is_empty patch.key)) [
  | inl kept ↦ Distinct-modify_first id (patched patch) es (λ e. rw kept refl) d
  | inr given ↦
      Distinct-rekey id (trim_space patch.key) (patched patch) es (λ e. rw given refl)
        (ground (arith, given, h)) d
]

update-Distinct :
    (saved : Bool) (id : Text) (patch : ApiKeyEntry) (es : List ApiKeyEntry)
    → Distinct es
    → DistinctKeys (update_api_key saved id patch (some es)).0
unfolding update_api_key
update-Distinct saved id patch es d =
    let clash = not (is_empty patch.key) && other_has_key id (trim_space patch.key) es in
    elim (Option-cases (find_by_id id es)) [
      | inl missing ↦ rw (missing, update_api_key) d
      | inr (e, found) ↦ elim (Bool-cases clash) [
        | inl bad ↦
            rw (found, bad, update_api_key)
              (Distinct-modify_first id (renamed patch) es (λ g. refl) d)
        | inr fine ↦ rw (found, fine, update_api_key) (patched-Distinct id patch es fine d)
      ]
    ]

remove-Distinct :
    (saved : Bool) (id : Text) (es : List ApiKeyEntry)
    → Distinct es
    → DistinctKeys (delete_api_key saved id (some es)).0
unfolding delete_api_key
remove-Distinct saved id es d = elim (Option-cases (find_by_id id es)) [
  | inl missing ↦ rw (missing, delete_api_key) d
  | inr (e, found) ↦ rw (found, delete_api_key) (Distinct-remove_first id es d)
]

use_key-Distinct :
    (id : Text) (tokens credits now : ℕ) (es : List ApiKeyEntry)
    → Distinct es
    → DistinctKeys (record_api_key_usage id tokens credits now (some es)).0
unfolding record_api_key_usage
use_key-Distinct id tokens credits now es d = elim (Option-cases (find_by_id id es)) [
  | inl missing ↦ rw (missing, record_api_key_usage) d
  | inr (e, found) ↦
      rw (found, record_api_key_usage)
        (Distinct-modify_first id (used tokens credits now) es (λ g. refl) d)
]

reset-Distinct :
    (saved : Bool) (id : Text) (es : List ApiKeyEntry)
    → Distinct es
    → DistinctKeys (reset_api_key_usage saved id (some es)).0
unfolding reset_api_key_usage
reset-Distinct saved id es d = elim (Option-cases (find_by_id id es)) [
  | inl missing ↦ rw (missing, reset_api_key_usage) d
  | inr (e, found) ↦
      rw (found, reset_api_key_usage) (Distinct-modify_first id unused es (λ g. refl) d)
]

-- Whatever is added, updated, deleted, used or reset, and whether or not the file can be written:
-- no two entries get the same key.
pub Change-DistinctKeys : {c d : Keys} → Change c d → DistinctKeys c → DistinctKeys d
unfolding add_api_key add_api_keys update_api_key delete_api_key record_api_key_usage
    reset_api_key_usage
Change-DistinctKeys {c = none} (add saved uuid now e) h = tt
Change-DistinctKeys {c = some es} (add saved uuid now e) h = add-Distinct saved uuid now e es h
Change-DistinctKeys {c = none} (add_all saved uuids now new) h = tt
Change-DistinctKeys {c = some es} (add_all saved uuids now new) h =
    add_all-Distinct saved uuids now new es h
Change-DistinctKeys {c = none} (update saved id patch) h = tt
Change-DistinctKeys {c = some es} (update saved id patch) h = update-Distinct saved id patch es h
Change-DistinctKeys {c = none} (remove saved id) h = tt
Change-DistinctKeys {c = some es} (remove saved id) h = remove-Distinct saved id es h
Change-DistinctKeys {c = none} (use_key id tokens credits now) h = tt
Change-DistinctKeys {c = some es} (use_key id tokens credits now) h =
    use_key-Distinct id tokens credits now es h
Change-DistinctKeys {c = none} (reset saved id) h = tt
Change-DistinctKeys {c = some es} (reset saved id) h = reset-Distinct saved id es h
