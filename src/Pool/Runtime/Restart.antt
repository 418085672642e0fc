-- ===== src/Pool/Runtime/Restart.antt =====
-- What a restart keeps of the pool's state (pool/runtime_state.go).
use kiro_go_plus.Base.{
  ℕ, ◌≡◌, refl, sym, ap, subst, ◌∙◌, Bool, true, false, ◌&&◌, Option, none, some, [], ◌∷◌, ltb,
  if◌then◌else◌, ◌==◌, nat_eq, bytes_eq, pair_eq, same→eq, Bool-cases, Option-cases, inl, inr,
  arith,
}
use kiro_go_plus.Base.Dict.{Dict, lookup, insert, get_or, lookup-insert}
use kiro_go_plus.Base.Keys.{NoDup, insert-NoDup}
use kiro_go_plus.Base.Text.{Text}
use kiro_go_plus.Base.Time.{unix, from_unix}
use kiro_go_plus.Pool.{AccountPool}
use kiro_go_plus.Pool.Runtime.{
  PersistedAccount, unix_if_after, no_account, persisted_account, save_accounts, save_refreshes,
  save_runtime_state, load_account, load_accounts, load_runtime_state,
}

abbrev until : Option PersistedAccount → ℕ
until none = 0
until (some e) = e.cooldown_until

abbrev is_some : {A : Type 0} → Option A → Bool
is_some none = false
is_some (some a) = true

save_accounts-NoDup :
    (p : AccountPool) (now : ℕ) (m : Dict Text ℕ) (saved : Dict Text PersistedAccount)
    → NoDup saved
    → NoDup (save_accounts p now m saved)
unfolding save_accounts
save_accounts-NoDup p now [] saved h = h
save_accounts-NoDup p now ((id, errors) ∷ m) saved h =
    save_accounts-NoDup p now m (insert id (persisted_account p now id errors) saved)
      (insert-NoDup id (persisted_account p now id errors) saved h)

save_refreshes-NoDup :
    (now : ℕ) (m : Dict Text ℕ) (saved : Dict Text PersistedAccount)
    → NoDup saved
    → NoDup (save_refreshes now m saved)
unfolding save_refreshes
save_refreshes-NoDup now [] saved h = h
save_refreshes-NoDup now ((id, t) ∷ m) saved h =
    let entry : PersistedAccount = record no_account { refresh_cooldown_until = unix t } in
    elim (Option-cases (lookup id saved)) [
      | inr (e, found) ↦ rw (found, save_refreshes) (save_refreshes-NoDup now m saved h)
      | inl missing ↦ elim (Bool-cases (ltb now t)) [
        | inl l ↦
            rw (missing, l, save_refreshes)
              (save_refreshes-NoDup now m (insert id entry saved) (insert-NoDup id entry saved h))
        | inr l ↦ rw (missing, l, save_refreshes) (save_refreshes-NoDup now m saved h)
      ]
    ]

until-save_accounts :
    (p : AccountPool) (now : ℕ) (id : Text) (m : Dict Text ℕ) (saved : Dict Text PersistedAccount)
    → until (lookup id (save_accounts p now m saved)) ≡ (
        if is_some (lookup id m)
        then unix_if_after now (get_or id 0 p.cooldowns)
        else until (lookup id saved))
unfolding save_accounts lookup persisted_account
until-save_accounts p now id [] saved = refl
until-save_accounts p now id ((j, errors) ∷ m) saved =
    let e = persisted_account p now j errors in
    let law = lookup-insert j id e saved in
    let rest = until-save_accounts p now id m (insert j e saved) in
    elim (Bool-cases (j == id)) [
      | inl same ↦
          let here : until (lookup id (insert j e saved))
              ≡ unix_if_after now (get_or id 0 p.cooldowns) =
            ap until (rw same at law)
            ∙ ap (λ (k : Text). unix_if_after now (get_or k 0 p.cooldowns)) (same→eq j id same) in
          rw same (ground (arith, rest, here))
      | inr other ↦
          let there : until (lookup id (insert j e saved)) ≡ until (lookup id saved) =
            ap until (rw other at law) in
          rw other (ground (arith, rest, there))
    ]

until-save_refreshes :
    (now : ℕ) (id : Text) (m : Dict Text ℕ) (saved : Dict Text PersistedAccount)
    → until (lookup id (save_refreshes now m saved)) ≡ until (lookup id saved)
unfolding save_refreshes
until-save_refreshes now id [] saved = refl
until-save_refreshes now id ((j, t) ∷ m) saved =
    let entry : PersistedAccount = record no_account { refresh_cooldown_until = unix t } in
    elim (Option-cases (lookup j saved)) [
      | inr (e, found) ↦ rw (found, save_refreshes) (until-save_refreshes now id m saved)
      | inl missing ↦ elim (Bool-cases (ltb now t)) [
        | inr l ↦ rw (missing, l, save_refreshes) (until-save_refreshes now id m saved)
        | inl l ↦
            let law = lookup-insert j id entry saved in
            let same : until (lookup id (insert j entry saved)) ≡ until (lookup id saved) =
              elim (Bool-cases (j == id)) [
                | inl eq ↦
                    ap until (rw eq at law)
                    ∙ sym (ap until (subst (λ k. lookup k saved ≡ none) (same→eq j id eq) missing))
                | inr ne ↦ ap until (rw ne at law)
              ] in
            rw (missing, l, save_refreshes)
              (until-save_refreshes now id m (insert j entry saved) ∙ same)
      ]
    ]

load_account-cooldown :
    (now : ℕ) (j id : Text) (e : PersistedAccount) (p : AccountPool)
    → lookup id (load_account now j e p).cooldowns ≡ (
        if (j == id) && ltb (unix now) e.cooldown_until
        then some (from_unix e.cooldown_until)
        else lookup id p.cooldowns)
unfolding load_account
load_account-cooldown now j id e p = elim (Bool-cases (ltb (unix now) e.cooldown_until)) [
  | inl l ↦ rw l (ground (arith, lookup-insert j id (from_unix e.cooldown_until) p.cooldowns))
  | inr l ↦ rw l (ground arith)
]

load_accounts-cooldown :
    (now : ℕ) (id : Text) (m : Dict Text PersistedAccount) (p : AccountPool)
    → NoDup m
    → lookup id (load_accounts now m p).cooldowns ≡ (
        let u = until (lookup id m) in
        if ltb (unix now) u then some (from_unix u) else lookup id p.cooldowns)
unfolding load_accounts lookup
load_accounts-cooldown now id [] p h = ground arith
load_accounts-cooldown now id ((j, e) ∷ m) p (absent, h) =
    let rest = load_accounts-cooldown now id m (load_account now j e p) h in
    let step = load_account-cooldown now j id e p in
    elim (Bool-cases (j == id)) [
      | inl same ↦
          let gone = subst (λ k. lookup k m ≡ none) (same→eq j id same) absent in
          rw same (rest ∙ ground (arith, step, gone, same))
      | inr other ↦ rw other (rest ∙ ground (arith, step, other))
    ]

-- What saveRuntimeStateTo writes of an account's cooldown.
abbrev pub kept_cooldown : ℕ → AccountPool → Text → ℕ
kept_cooldown now p id =
    if is_some (lookup id p.error_counts) then unix_if_after now (get_or id 0 p.cooldowns) else 0

until-saved :
    (now : ℕ) (p : AccountPool) (id : Text)
    → until (lookup id (save_runtime_state now p).accounts) ≡ kept_cooldown now p id
unfolding save_runtime_state lookup
until-saved now p id =
    until-save_refreshes now id p.refresh_failures (save_accounts p now p.error_counts [])
    ∙ until-save_accounts p now id p.error_counts []

saved-NoDup : (now : ℕ) (p : AccountPool) → NoDup (save_runtime_state now p).accounts
unfolding save_runtime_state
saved-NoDup now p =
    save_refreshes-NoDup now p.refresh_failures (save_accounts p now p.error_counts [])
      (save_accounts-NoDup p now p.error_counts [] tt)

-- A pool saved at one time and loaded at a later one into a pool that has no cooldown for an
-- account: the account's cooldown is what was saved of it, in whole seconds, when that has not
-- ended in the meantime, and none otherwise. Saved is a cooldown that still ran, of an account that
-- has a count of errors.
pub restart-cooldown :
    (now later : ℕ) (p fresh : AccountPool) (id : Text)
    → lookup id fresh.cooldowns ≡ none
    → lookup id (load_runtime_state later (some (save_runtime_state now p)) fresh).cooldowns ≡ (
        if ltb (unix later) (kept_cooldown now p id)
        then some (from_unix (kept_cooldown now p id))
        else none)
unfolding load_runtime_state save_runtime_state
restart-cooldown now later p fresh id absent =
    let saved = (save_runtime_state now p).accounts in
    load_accounts-cooldown later id saved fresh (saved-NoDup now p)
    ∙ (rw (until-saved now p id, absent) refl)
