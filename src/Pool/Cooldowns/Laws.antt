-- ===== src/Pool/Cooldowns/Laws.antt =====
-- The cooldowns of pool/account.go: how long an account rests, and what ends its rest.
use kiro_go_plus.Base.{
  ℕ, ◌+◌, ◌*◌, ◌≤◌, ◌<◌, ◌≡◌, refl, inl, inr, Bool, true, false, none, some, ltb, leb, max,
  if◌then◌else◌, ◌==◌, nat_eq, bytes_eq, pair_eq, beq_refl, Bool-cases, Option-cases, arith,
}
use kiro_go_plus.Base.Dict.{lookup, insert, get_or, lookup-insert, lookup-delete, get_or-insert}
use kiro_go_plus.Base.Text.{Text}
use kiro_go_plus.Base.Time.{minute, hour}
use kiro_go_plus.Pool.{AccountPool, CooldownKind, unknown, transient, quota, disabled}
use kiro_go_plus.Pool.Cooldowns.{
  count_error, set_cooldown, clears, clear_transient_cooldown, record_success, record_error,
}

-- Setting a cooldown leaves the later of the two times, so that none is shortened, and changes no
-- other account's.
pub set_cooldown-max :
    (id : Text) (until : ℕ) (kind : CooldownKind) (p : AccountPool)
    → (get_or id 0 (set_cooldown id until kind p).cooldowns ≡ max (get_or id 0 p.cooldowns) until)
      × ((j : Text)
          → (id == j) ≡ false
          → lookup j (set_cooldown id until kind p).cooldowns ≡ lookup j p.cooldowns)
unfolding set_cooldown get_or
set_cooldown-max id until kind p =
    let same = lookup-insert id id until p.cooldowns in
    elim (Option-cases (lookup id p.cooldowns)) [
      | inl n ↦ (
        rw n (ground (arith, same, beq_refl id)),
        λ j other. rw n (ground (arith, lookup-insert id j until p.cooldowns)),
      )
      | inr (current, s) ↦ elim (Bool-cases (ltb until current)) [
        | inl l ↦ (rw (s, l, get_or) (ground arith), λ j other. rw (s, l) refl)
        | inr l ↦ (
          rw (s, l) (ground (arith, same, beq_refl id)),
          λ j other. rw (s, l) (ground (arith, lookup-insert id j until p.cooldowns)),
        )
      ]
    ]

-- How long an error puts its account aside: an hour for a quota error, a minute from the third
-- error in a row on.
abbrev pub rest_of : Bool → ℕ → ℕ
rest_of quota_error n = if quota_error then hour else if leb 3 n then minute else 0

pub record_error-rest :
    (id : Text) (quota_error : Bool) (now : ℕ) (p : AccountPool)
    → 0 < rest_of quota_error (get_or id 0 p.error_counts + 1)
    → now + rest_of quota_error (get_or id 0 p.error_counts + 1)
      ≤ get_or id 0 (record_error id quota_error now p).cooldowns
unfolding record_error
record_error-rest id quota_error now p =
    let n = get_or id 0 p.error_counts + 1 in
    let q = count_error id (record p { error_counts = insert id n p.error_counts }) in
    λ some_rest. ground (
      arith,
      (set_cooldown-max id (now + hour) quota q).0,
      (set_cooldown-max id (now + minute) transient q).0,
    )

-- Of the cooldowns in the future, a success ends the transient ones and the unknown ones of at most
-- ten minutes.
abbrev pub ends : CooldownKind → ℕ → ℕ → Bool
ends transient until now = true
ends unknown until now = leb until (now + 10 * minute)
ends quota until now = false
ends disabled until now = false

clears-ends :
    (kind : CooldownKind) (until now : ℕ)
    → now < until
    → clears kind until now ≡ ends kind until now
clears-ends transient until now l = ground arith
clears-ends unknown until now l = ground arith
clears-ends quota until now l = ground arith
clears-ends disabled until now l = ground arith

-- A success sets the errors in a row back to 0 and leaves a cooldown that lies in the future alone
-- unless its kind says that it ends: one for a used-up quota or a disabled account stays.
pub record_success-cooldowns :
    (id : Text) (now until : ℕ) (p : AccountPool)
    → lookup id p.cooldowns ≡ some until
    → now < until
    → (lookup id (record_success id now p).cooldowns
        ≡ (if ends (get_or id unknown p.cooldown_kinds) until now then none else some until))
      × (get_or id 0 (record_success id now p).error_counts ≡ 0)
unfolding record_success clear_transient_cooldown
record_success-cooldowns id now until p h l =
    let kind = get_or id unknown p.cooldown_kinds in
    let same = clears-ends kind until now l in
    elim (Bool-cases (clears kind until now)) [
      | inl c ↦
          rw (h, c, clear_transient_cooldown)
            (ground (
              arith,
              same,
              lookup-delete id id p.cooldowns,
              get_or-insert id id 0 0 p.error_counts,
              beq_refl id,
            ))
      | inr c ↦
          rw (h, c, clear_transient_cooldown)
            (ground (arith, same, get_or-insert id id 0 0 p.error_counts, beq_refl id))
    ]
