-- ===== src/Pool/Select/Sound.antt =====
-- The accounts that selectionIndexesLocked (pool/account.go) offers, and their order.
use kiro_go_plus.Base.{
  ℕ, suc, ◌+◌, ◌≤◌, ◌≡◌, refl, sym, subst, ◌⊎◌, inl, inr, Bool, true, false, ◌&&◌, Option, none,
  some, List, [], ◌∷◌, All, get_elem?, Bool-cases, arith, bytes_eq, pair_eq, nat_eq,
}
use kiro_go_plus.Base.Dict.{lookup}
use kiro_go_plus.Base.Text.{Text, is_empty}
use kiro_go_plus.Pool.{AccountPool, Settings}
use kiro_go_plus.Pool.Account.{Account, is_quota_blocked}
use kiro_go_plus.Pool.Select.{
  Index, account_has_model, is_before, account_token_needs_refresh, is_blank, refresh_failed,
  account_selectable, select_from, selection_indexes_for_token_state, selection_candidates, or_else,
  has_text, drops_duplicates,
}

-- What makes an account fit for a request: nobody has ruled it out, it has the model if one is
-- asked for, its cooldown is over, its quota is not used up, and its token is fresh or may be
-- refreshed.
pub record Serves (p : AccountPool) (st : Settings) (model : Text) (excluded : Text → Bool)
    (now : ℕ) (may_refresh : Bool) (acc : Account) : Type 0 where
  pub not_excluded : excluded acc.id ≡ false
  pub has_model : is_empty model ≡ false → account_has_model p acc.id model now ≡ true
  pub not_cooling : (until : ℕ) → lookup acc.id p.cooldowns ≡ some until → until ≤ now
  pub has_quota : is_quota_blocked acc st.allow_over_usage ≡ false
  pub has_token :
      (account_token_needs_refresh st acc now ≡ false)
      ⊎ ((may_refresh ≡ true)
          × (is_blank acc.refresh_token ≡ false)
          × (refresh_failed p acc.id now ≡ false))

is_before-le :
    (now until : ℕ) (o : Option ℕ) → is_before now o ≡ false → o ≡ some until → until ≤ now
is_before-le now until none h e = ground arith
is_before-le now until (some t) h e = ground arith

pub account_selectable-Serves :
    (p : AccountPool) (st : Settings) (acc : Account) (model : Text) (excluded : Text → Bool)
    (now : ℕ) (may_refresh : Bool)
    → account_selectable p st acc model excluded now may_refresh ≡ true
    → Serves p st model excluded now may_refresh acc
unfolding account_selectable
account_selectable-Serves p st acc model excluded now may_refresh h = record {
  not_excluded = ground arith;
  has_model = λ named. ground arith;
  not_cooling = λ until e. is_before-le now until (lookup acc.id p.cooldowns) (ground arith) e;
  has_quota = ground arith;
  has_token = elim (Bool-cases (account_token_needs_refresh st acc now)) [
    | inl t ↦ inr (ground arith)
    | inr t ↦ inl t
  ];
}

-- Stands where the index says, and is kept.
abbrev pub Chosen : (Account → Bool) → ℕ → List Account → Index → Type 0
Chosen keep i accs x = (keep x.1 ≡ true) × ((k : ℕ) × (x.0 ≡ i + k) × (get_elem? accs k ≡ some x.1))

later :
    (keep : Account → Bool) (i : ℕ) (acc : Account) (accs : List Account) (xs : List Index)
    → All (Chosen keep (suc i) accs) xs
    → All (Chosen keep i (acc ∷ accs)) xs
later keep i acc accs [] h = tt
later keep i acc accs (x ∷ xs) ((kept, (k, place, found)), hs) =
    ((kept, (suc k, omega arith, found)), later keep i acc accs xs hs)

pub select_from-Chosen :
    (keep : Account → Bool) (unique : Bool) (i : ℕ) (seen : List Text) (accs : List Account)
    → All (Chosen keep i accs) (select_from keep unique i seen accs)
unfolding select_from
select_from-Chosen keep unique i seen [] = tt
select_from-Chosen keep unique i seen (acc ∷ accs) =
    let rest =
      later keep i acc accs (select_from keep unique (suc i) (acc.id ∷ seen) accs)
        (select_from-Chosen keep unique (suc i) (acc.id ∷ seen) accs) in
    elim (Bool-cases (unique && has_text acc.id seen)) [
      | inl dup ↦ rw dup rest
      | inr new ↦ elim (Bool-cases (keep acc)) [
        | inl k ↦ rw (new, k) ((k, (0, omega arith, refl)), rest)
        | inr k ↦ rw (new, k) rest
      ]
    ]

-- A selected index names an account of the pool that serves.
abbrev pub Offered : AccountPool → Settings → Text → (Text → Bool) → ℕ → Bool → Index → Type 0
Offered p st model excluded now may_refresh x =
    Serves p st model excluded now may_refresh x.1 × (get_elem? p.accounts x.0 ≡ some x.1)

offer :
    (p : AccountPool) (st : Settings) (model : Text) (excluded : Text → Bool) (now : ℕ)
    (may_refresh : Bool) (xs : List Index)
    → let keep = λ (acc : Account). account_selectable p st acc model excluded now may_refresh in
      All (Chosen keep 0 p.accounts) xs → All (Offered p st model excluded now may_refresh) xs
offer p st model excluded now may_refresh [] h = tt
offer p st model excluded now may_refresh (x ∷ xs) ((kept, (k, place, found)), hs) = (
  (
    account_selectable-Serves p st x.1 model excluded now may_refresh kept,
    subst (λ j. get_elem? p.accounts j ≡ some x.1) (omega arith) found,
  ),
  offer p st model excluded now may_refresh xs hs,
)

token_state-Offered :
    (p : AccountPool) (st : Settings) (model : Text) (excluded : Text → Bool) (now : ℕ)
    (may_refresh : Bool)
    → All
        (Offered p st model excluded now may_refresh)
        (selection_indexes_for_token_state p st model excluded now may_refresh)
unfolding selection_indexes_for_token_state
token_state-Offered p st model excluded now may_refresh =
    let keep = λ (acc : Account). account_selectable p st acc model excluded now may_refresh in
    let unique = drops_duplicates st.mode in
    offer p st model excluded now may_refresh (select_from keep unique 0 [] p.accounts)
      (select_from-Chosen keep unique 0 [] p.accounts)

or_else-cases :
    {A : Type 0} (xs ys : List A) → (or_else xs ys ≡ xs) ⊎ ((xs ≡ []) × (or_else xs ys ≡ ys))
or_else-cases [] ys = inr (refl, refl)
or_else-cases (x ∷ xs) ys = inl refl

-- Every account that the pool offers for a request is one of its accounts and fit for it. Accounts
-- whose token must be refreshed are offered only when the selection without a refresh is empty:
-- otherwise all offered accounts have a fresh token.
pub selection_candidates-Offered :
    (p : AccountPool) (st : Settings) (model : Text) (excluded : Text → Bool) (now : ℕ)
    → All (Offered p st model excluded now false) (selection_candidates p st model excluded now)
      ⊎ ((selection_indexes_for_token_state p st model excluded now false ≡ [])
          × All
              (Offered p st model excluded now true)
              (selection_candidates p st model excluded now))
unfolding selection_candidates
selection_candidates-Offered p st model excluded now =
    let ready = selection_indexes_for_token_state p st model excluded now false in
    let stale = selection_indexes_for_token_state p st model excluded now true in
    elim (or_else-cases ready stale) [
      | inl q ↦ inl (
          subst (All (Offered p st model excluded now false)) (sym q)
            (token_state-Offered p st model excluded now false))
      | inr (none_ready, q) ↦ inr (
        none_ready,
        subst (All (Offered p st model excluded now true)) (sym q)
            (token_state-Offered p st model excluded now true),
      )
    ]
