-- ===== src/Pool/Acquire/Next.antt =====
-- The account that GetNextForModelExcluding (pool/account.go) returns.
use kiro_go_plus.Base.{
  ℕ, ◌≤◌, ◌≡◌, refl, subst, ◌⊎◌, inl, inr, Bool, true, false, Option, none, some, List, [], ◌∷◌,
  All, ltb, Bool-cases, Option-cases, arith, nat_eq, bytes_eq,
}
use kiro_go_plus.Base.Dict.{lookup, get_or}
use kiro_go_plus.Base.Text.{Text}
use kiro_go_plus.Pool.{AccountPool, Settings}
use kiro_go_plus.Pool.Account.{Account, is_quota_blocked}
use kiro_go_plus.Pool.Acquire.{take_first, get_next_for_model_excluding}
use kiro_go_plus.Pool.Acquire.Requests.{serve_all}
use kiro_go_plus.Pool.Order.{selection_indexes}
use kiro_go_plus.Pool.Order.Permutes.{All-order_selection_indexes}
use kiro_go_plus.Pool.Select.{
  Index, account_has_model, account_token_routable, fallback_ok, soonest, selection_candidates,
}
use kiro_go_plus.Pool.Select.Sound.{Serves, selection_candidates-Offered}

-- When the account's cooldown ends, with 0 for one that has none.
unfoldable pub rests_until : AccountPool → Account → ℕ
rests_until p acc = get_or acc.id 0 p.cooldowns

-- No account of the list that is kept rests for a shorter time.
abbrev pub Shortest : AccountPool → (Account → Bool) → Account → List Account → Type 0
Shortest p keep a accs = All (λ x. keep x ≡ true → rests_until p a ≤ rests_until p x) accs

rests_until-none :
    (p : AccountPool) (acc : Account) → lookup acc.id p.cooldowns ≡ none → rests_until p acc ≡ 0
unfolding rests_until get_or
rests_until-none p acc h = ground (arith, h)

rests_until-some :
    (p : AccountPool) (acc : Account) (until : ℕ)
    → lookup acc.id p.cooldowns ≡ some until
    → until ≡ rests_until p acc
unfolding rests_until get_or
rests_until-some p acc until h = ground (arith, h)

module _ (p : AccountPool) (keep : Account → Bool) where
  -- The best account so far, with its time.
  abbrev IsBest : Option (Account × ℕ) → Type 0
  IsBest none = Unit
  IsBest (some (b, until)) = (keep b ≡ true) × (until ≡ rests_until p b)

  abbrev NotAfter : Option (Account × ℕ) → Account → Type 0
  NotAfter none a = Unit
  NotAfter (some (b, until)) a = rests_until p a ≤ until

  at_once : (a : Account) (accs : List Account) → rests_until p a ≡ 0 → Shortest p keep a accs
  at_once a [] h = tt
  at_once a (x ∷ accs) h = (λ kept. omega (arith, h), at_once a accs h)

  not_after : (best : Option (Account × ℕ)) (a : Account) → rests_until p a ≡ 0 → NotAfter best a
  not_after none a h = tt
  not_after (some (b, until)) a h = omega (arith, h)

  abbrev Least : Option (Account × ℕ) → List Account → Account → Type 0
  Least best accs a = (keep a ≡ true) × Shortest p keep a accs × NotAfter best a

  taken :
      (best : Option (Account × ℕ)) (acc a : Account) (accs : List Account)
      → acc ≡ a
      → keep acc ≡ true
      → rests_until p acc ≡ 0
      → Least best (acc ∷ accs) a
  taken best acc a accs same kept free =
      subst (Least best (acc ∷ accs)) same
        (kept, at_once acc (acc ∷ accs) free, not_after best acc free)

  soonest-Shortest :
      (best : Option (Account × ℕ)) (accs : List Account) (a : Account)
      → IsBest best
      → soonest p keep best accs ≡ some a
      → Least best accs a
  unfolding soonest
  soonest-Shortest none [] a is_best h = absurd (ground arith)
  soonest-Shortest (some (b, until)) [] a (kept, time) h =
      let same : b ≡ a = ground arith in
      subst (Least (some (b, until)) []) same (kept, tt, omega (arith, time))
  soonest-Shortest none (acc ∷ accs) a is_best h = elim (Bool-cases (keep acc)) [
    | inr out ↦
        let h' : soonest p keep none accs ≡ some a = ground (arith, out, h) in
        let (k, s, _) = soonest-Shortest none accs a tt h' in
        (k, (λ kept. absurd (ground (arith, out, kept)), s), tt)
    | inl kept ↦ elim (Option-cases (lookup acc.id p.cooldowns)) [
      | inl free ↦
          let same : acc ≡ a = ground (arith, kept, free, h) in
          taken none acc a accs same kept (rests_until-none p acc free)
      | inr (until, found) ↦
          let time = rests_until-some p acc until found in
          let h' : soonest p keep (some (acc, until)) accs ≡ some a =
            ground (arith, kept, found, h) in
          let (k, s, n) = soonest-Shortest (some (acc, until)) accs a (kept, time) h' in
          (k, (λ kept'. omega (arith, n, time), s), tt)
    ]
  ]
  soonest-Shortest (some (b, earliest)) (acc ∷ accs) a (good, when) h =
      elim (Bool-cases (keep acc)) [
        | inr out ↦
            let h' : soonest p keep (some (b, earliest)) accs ≡ some a = ground (arith, out, h) in
            let (k, s, n) = soonest-Shortest (some (b, earliest)) accs a (good, when) h' in
            (k, (λ kept. absurd (ground (arith, out, kept)), s), n)
        | inl kept ↦ elim (Option-cases (lookup acc.id p.cooldowns)) [
          | inl free ↦
              let same : acc ≡ a = ground (arith, kept, free, h) in
              taken (some (b, earliest)) acc a accs same kept (rests_until-none p acc free)
          | inr (until, found) ↦
              let time = rests_until-some p acc until found in
              elim (Bool-cases (ltb until earliest)) [
                | inl sooner ↦
                    let h' : soonest p keep (some (acc, until)) accs ≡ some a =
                      ground (arith, kept, found, sooner, h) in
                    let (k, s, n) = soonest-Shortest (some (acc, until)) accs a (kept, time) h' in
                    (k, (λ kept'. omega (arith, n, time), s), ground (arith, n, sooner))
                | inr later ↦
                    let h' : soonest p keep (some (b, earliest)) accs ≡ some a =
                      ground (arith, kept, found, later, h) in
                    let (k, s, n) = soonest-Shortest (some (b, earliest)) accs a (good, when) h' in
                    (k, (λ kept'. ground (arith, n, later, time), s), n)
              ]
        ]
      ]

module _ (p : AccountPool) (st : Settings) (model : Text) (excluded : Text → Bool) (now : ℕ) where
  -- An account of the fallback: no account is selected, and this one, which has the model and a quota
  -- and a token that will do, rests for no longer than any other such account.
  abbrev pub Fallback : Account → Type 0
  Fallback acc =
      (selection_indexes p st model excluded now ≡ [])
      × (excluded acc.id ≡ false)
      × (account_has_model p acc.id model now ≡ true)
      × (is_quota_blocked acc st.allow_over_usage ≡ false)
      × (account_token_routable p st acc now ≡ true)
      × Shortest p (fallback_ok p st true model excluded now) acc p.accounts

  -- The account is fit to serve the model, or the fallback.
  abbrev pub IsNext : Option Account → Type 0
  IsNext none = Unit
  IsNext (some acc) = Serves p st model excluded now true acc ⊎ Fallback acc

  selection_indexes-Serves :
      All (λ x. Serves p st model excluded now true x.1) (selection_indexes p st model excluded now)
  unfolding selection_indexes
  selection_indexes-Serves =
      let chosen = selection_candidates p st model excluded now in
      let fits : All (λ x. Serves p st model excluded now true x.1) chosen =
        elim (selection_candidates-Offered p st model excluded now) [
          | inl h ↦ serve_all p p.affinity p.account_index st model excluded now false chosen h
          | inr (_, h) ↦ serve_all p p.affinity p.account_index st model excluded now true chosen h
        ] in
      All-order_selection_indexes (λ x. Serves p st model excluded now true x.1) p st.mode model
        chosen fits

  take_first-IsNext :
      (xs : List Index)
      → selection_indexes p st model excluded now ≡ xs
      → All (λ x. Serves p st model excluded now true x.1) xs
      → IsNext (take_first p st true model excluded now xs).1
  take_first-IsNext ((i, acc) ∷ xs) e (fit, fits) = inl fit
  take_first-IsNext [] e fits =
      let ok = fallback_ok p st true model excluded now in
      elim (Option-cases (soonest p ok none p.accounts)) [
        | inl missing ↦ rw missing tt
        | inr (acc, found) ↦
            let (kept, least, _) = soonest-Shortest p ok none p.accounts acc tt found in
            rw found (
              inr (
                e,
                ground (arith, kept),
                ground (arith, kept),
                ground (arith, kept),
                ground (arith, kept),
                least,
              ))
      ]

  pub get_next_for_model_excluding-IsNext :
      IsNext (get_next_for_model_excluding p st model excluded now).1
  unfolding get_next_for_model_excluding
  get_next_for_model_excluding-IsNext =
      take_first-IsNext (selection_indexes p st model excluded now) refl selection_indexes-Serves
