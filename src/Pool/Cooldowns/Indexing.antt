-- ===== src/Pool/Cooldowns/Indexing.antt =====
-- accountIndexLocked (pool/account.go): a cache of positions that is checked and built again.
use kiro_go_plus.Base.{
  ℕ, suc, ◌+◌, ◌≡◌, refl, sym, ap, subst, ◌∙◌, ◌⊎◌, inl, inr, true, false, Option, none, some, List,
  [], ◌∷◌, All, get_elem?, if◌then◌else◌, ◌==◌, nat_eq, bytes_eq, same→eq, Bool-cases, Option-cases,
  arith,
}
use kiro_go_plus.Base.Dict.{Dict, lookup, insert, lookup-insert}
use kiro_go_plus.Base.Text.{Text}
use kiro_go_plus.Pool.{AccountPool}
use kiro_go_plus.Pool.Account.{Account}
use kiro_go_plus.Pool.Cooldowns.{index_accounts, names, account_index}

-- The position of the first account of an id, counted from i.
unfoldable pub first_at : ℕ → Text → List Account → Option ℕ
first_at i id [] = none
first_at i id (acc ∷ accs) = if acc.id == id then some i else first_at (suc i) id accs

abbrev or_first : Option ℕ → Option ℕ → Option ℕ
or_first none o = o
or_first (some j) o = some j

keep_first :
    (acc : Account) (i : ℕ) (id : Text) (m : Dict Text ℕ) (o : Option ℕ)
    → or_first (lookup id (elim (lookup acc.id m) [ none ↦ insert acc.id i m | some j ↦ m ])) o
      ≡ or_first (lookup id m) (if acc.id == id then some i else o)
keep_first acc i id m o = elim (Option-cases (lookup acc.id m)) [
  | inl n ↦ elim (Bool-cases (acc.id == id)) [
    | inl e ↦
        let absent : lookup id m ≡ none = subst (λ k. lookup k m ≡ none) (same→eq acc.id id e) n in
        rw n (ground (arith, lookup-insert acc.id id i m, e, absent))
    | inr e ↦ rw n (ground (arith, lookup-insert acc.id id i m, e))
  ]
  | inr (j, s) ↦ elim (Bool-cases (acc.id == id)) [
    | inl e ↦
        let present : lookup id m ≡ some j =
          subst (λ k. lookup k m ≡ some j) (same→eq acc.id id e) s in
        rw s (ground (arith, e, present))
    | inr e ↦ rw s (ground (arith, e))
  ]
]

lookup-index_accounts :
    (i : ℕ) (id : Text) (accs : List Account) (m : Dict Text ℕ)
    → lookup id (index_accounts i accs m) ≡ or_first (lookup id m) (first_at i id accs)
unfolding index_accounts first_at
lookup-index_accounts i id [] m = ground arith
lookup-index_accounts i id (acc ∷ accs) m =
    lookup-index_accounts (suc i) id accs
      (elim (lookup acc.id m) [ none ↦ insert acc.id i m | some j ↦ m ])
    ∙ keep_first acc i id m (first_at (suc i) id accs)

-- At the position stands an account of the id, or there is none.
abbrev pub Locates : Text → List Account → Option ℕ → Type 0
Locates id accs none = All (λ acc. (acc.id == id) ≡ false) accs
Locates id accs (some i) = (acc : Account) × (get_elem? accs i ≡ some acc) × ((acc.id == id) ≡ true)

first_at-Locates :
    (i : ℕ) (id : Text) (accs : List Account)
    → ((first_at i id accs ≡ none) × Locates id accs none)
      ⊎ ((k : ℕ) × (first_at i id accs ≡ some (i + k)) × Locates id accs (some k))
unfolding first_at
first_at-Locates i id [] = inl (refl, tt)
first_at-Locates i id (acc ∷ accs) = elim (Bool-cases (acc.id == id)) [
  | inl e ↦ inr (0, rw e (ap some (omega arith)), (acc, refl, e))
  | inr e ↦ elim (first_at-Locates (suc i) id accs) [
    | inl (q, h) ↦ inl (rw e q, (e, h))
    | inr (k, q, h) ↦ inr (suc k, rw e (q ∙ ap some (omega arith)), h)
  ]
]

names-Locates :
    (id : Text) (accs : List Account) (o : Option ℕ) → names accs o id ≡ true → Locates id accs o
names-Locates id accs none h = absurd (ground arith)
names-Locates id accs (some i) h = elim (Option-cases (get_elem? accs i)) [
  | inl n ↦ absurd (ground arith)
  | inr (acc, s) ↦ (acc, s, ground arith)
]

-- Whatever the cache holds, the answer is right: a position at which an account of the id stands,
-- or none, and then no account of the pool has the id.
pub account_index-Locates :
    (id : Text) (p : AccountPool) → Locates id p.accounts (account_index id p).1
unfolding account_index lookup
account_index-Locates id p = elim (Bool-cases (names p.accounts (lookup id p.account_index) id)) [
  | inl c ↦ rw c (names-Locates id p.accounts (lookup id p.account_index) c)
  | inr c ↦
      let built = lookup-index_accounts 0 id p.accounts [] in
      elim (first_at-Locates 0 id p.accounts) [
        | inl (q, h) ↦ rw c (subst (Locates id p.accounts) (sym (built ∙ ap (or_first none) q)) h)
        | inr (k, q, h) ↦ rw c (
            subst (Locates id p.accounts)
              (sym (built ∙ (ap (or_first none) q ∙ ap some (omega arith)))) h)
      ]
]
