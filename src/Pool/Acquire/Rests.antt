-- ===== src/Pool/Acquire/Rests.antt =====
-- What RecordError (pool/account.go) means for the requests that follow it.
use kiro_go_plus.Base.{
  ℕ, ◌+◌, ◌<◌, ◌≤◌, ◌≡◌, sym, subst, Bool, true, false, some, List, [], ◌∷◌, All, ◌==◌, nat_eq,
  bytes_eq, same→eq, Bool-cases, Option-cases, inl, inr, arith,
}
use kiro_go_plus.Base.Dict.{lookup, get_or}
use kiro_go_plus.Base.Text.{Text}
use kiro_go_plus.Pool.{AccountPool, Settings}
use kiro_go_plus.Pool.Account.{Account}
use kiro_go_plus.Pool.Acquire.{Outcome, acquired, all_busy, nothing, acquire_for_model}
use kiro_go_plus.Pool.Acquire.Requests.{acquire_for_model-Fair}
use kiro_go_plus.Pool.Acquire.Sound.{Fair}
use kiro_go_plus.Pool.Circuit.{ProtectionConfig}
use kiro_go_plus.Pool.Cooldowns.{record_error}
use kiro_go_plus.Pool.Cooldowns.Laws.{rest_of, record_error-rest}
use kiro_go_plus.Pool.Select.{Index, selection_candidates}
use kiro_go_plus.Pool.Select.Sound.{Serves, Offered, selection_candidates-Offered}
use kiro_go_plus.Pool.Slots.{normalize_protection_model}

-- An account that serves a request does not rest.
Serves-apart :
    (p : AccountPool) (st : Settings) (model : Text) (excluded : Text → Bool) (t until : ℕ)
    (may_refresh : Bool) (acc : Account) (id : Text)
    → until ≤ get_or id 0 p.cooldowns
    → t < until
    → Serves p st model excluded t may_refresh acc
    → (acc.id == id) ≡ false
unfolding get_or
Serves-apart p st model excluded t until may_refresh acc id rest running s =
    elim (Bool-cases (acc.id == id)) [
      | inr other ↦ other
      | inl same ↦
          let here = same→eq acc.id id same in
          elim (Option-cases (lookup id p.cooldowns)) [
            | inl missing ↦ absurd (ground (arith, missing, rest, running))
            | inr (u, found) ↦
                let over =
                  s.not_cooling u (subst (λ k. lookup k p.cooldowns ≡ some u) (sym here) found) in
                absurd (ground (arith, found, rest, running, over))
          ]
    ]

abbrev pub NotOf : Text → Outcome → Type 0
NotOf id (acquired a) = (a.account.id == id) ≡ false
NotOf id (all_busy wait) = Unit
NotOf id nothing = Unit

module _ (st : Settings) (model : Text) (excluded : Text → Bool) (t until : ℕ) (id : Text)
    (p : AccountPool) (rest : until ≤ get_or id 0 p.cooldowns) (running : t < until) where
  Fair-NotOf :
      (up : ProtectionConfig) (r : AccountPool × Outcome)
      → Fair
          (Serves p st model excluded t true)
          up
          (normalize_protection_model model)
          t
          p.counters
          r
      → NotOf id r.1
  Fair-NotOf up (q, acquired a) (fit, slot) =
      Serves-apart p st model excluded t until true a.account id rest running fit
  Fair-NotOf up (q, all_busy wait) fair = tt
  Fair-NotOf up (q, nothing) fair = tt

  Offered-apart :
      (may_refresh : Bool) (xs : List Index)
      → All (Offered p st model excluded t may_refresh) xs
      → All (λ x. (x.1.id == id) ≡ false) xs
  Offered-apart may_refresh [] h = tt
  Offered-apart may_refresh (x ∷ xs) ((fit, found), hs) = (
    Serves-apart p st model excluded t until may_refresh x.1 id rest running fit,
    Offered-apart may_refresh xs hs,
  )

  candidates-apart : All (λ x. (x.1.id == id) ≡ false) (selection_candidates p st model excluded t)
  candidates-apart = elim (selection_candidates-Offered p st model excluded t) [
    | inl ready ↦ Offered-apart false (selection_candidates p st model excluded t) ready
    | inr (empty, stale) ↦ Offered-apart true (selection_candidates p st model excluded t) stale
  ]

-- RecordError puts the account to rest, for an hour on a quota error and for a minute from the third
-- error in a row on. In the pool as it leaves it, and until that rest is over, the account is not
-- among those that the selection offers, for any model and exclusions, and a request under protection
-- is not given the account, its route bound to it or not. The fallback of a request without
-- protection, to the account that rests the shortest, is not part of this.
pub acquire_for_model-record_error :
    (st : Settings) (up : ProtectionConfig) (model route : Text) (excluded : Text → Bool)
    (id : Text) (quota_error : Bool) (now t : ℕ) (p : AccountPool)
    → now ≤ t
    → t < now + rest_of quota_error (get_or id 0 p.error_counts + 1)
    → let q = record_error id quota_error now p in
      All (λ x. (x.1.id == id) ≡ false) (selection_candidates q st model excluded t)
      × NotOf id (acquire_for_model st up model route excluded t q).1
acquire_for_model-record_error st up model route excluded id quota_error now t p h l =
    let q = record_error id quota_error now p in
    let until = now + rest_of quota_error (get_or id 0 p.error_counts + 1) in
    let rest = record_error-rest id quota_error now p (omega (arith, h, l)) in
    (
      candidates-apart st model excluded t until id q rest l,
      Fair-NotOf st model excluded t until id q rest l up
          (acquire_for_model st up model route excluded t q)
          (acquire_for_model-Fair st up model route excluded t q),
    )
