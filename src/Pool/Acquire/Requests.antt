-- ===== src/Pool/Acquire/Requests.antt =====
-- AcquireForModel (pool/protection.go) as a whole.
use kiro_go_plus.Base.{
  ℕ, ◌≡◌, refl, sym, ap, subst, ◌∙◌, inl, inr, Bool, true, false, Option, none, some, List, [], ◌∷◌,
  All, if◌then◌else◌, get_elem?, Bool-cases, Option-cases, nat_eq, bytes_eq, pair_eq,
}
use kiro_go_plus.Base.Dict.{Dict, lookup}
use kiro_go_plus.Base.Text.{Text, is_empty, trim_space}
use kiro_go_plus.Pool.{AccountPool, RouteAffinity, Settings}
use kiro_go_plus.Pool.Account.{Account}
use kiro_go_plus.Pool.Circuit.{ProtectionConfig}
use kiro_go_plus.Pool.Cooldowns.{
  account_index, names, index_accounts, prune_affinity, affinity_ttl, prune_route_affinity,
}
use kiro_go_plus.Pool.Order.{selection_indexes}
use kiro_go_plus.Pool.Order.Permutes.{All-order_selection_indexes}
use kiro_go_plus.Pool.Select.{Index, account_has_model, account_selectable, selection_candidates}
use kiro_go_plus.Pool.Select.Sound.{
  Serves, Offered, account_selectable-Serves, selection_candidates-Offered,
}
use kiro_go_plus.Pool.Slots.{Counters, Grant, granted, normalize_protection_model, try_acquire_slot}
use kiro_go_plus.Pool.Acquire.{
  find_selectable_account, found_at, checked_at, acquire_by_order, acquire_bound, acquire_for_model,
}
use kiro_go_plus.Pool.Acquire.Sound.{Fair, try-cases, try_each-Fair, remember-counters}

-- The pool with another affinity and another cache of positions.
abbrev pub aside : AccountPool → Dict Text RouteAffinity → Dict Text ℕ → AccountPool
aside p a m = record p { affinity = a; account_index = m }

Serves-aside :
    (p : AccountPool) (a : Dict Text RouteAffinity) (m : Dict Text ℕ) (st : Settings) (model : Text)
    (excluded : Text → Bool) (now : ℕ) (may_refresh : Bool) (acc : Account)
    → Serves (aside p a m) st model excluded now may_refresh acc
    → Serves p st model excluded now true acc
unfolding account_has_model
Serves-aside p a m st model excluded now may_refresh acc s = record {
  not_excluded = s.not_excluded;
  has_model = s.has_model;
  not_cooling = s.not_cooling;
  has_quota = s.has_quota;
  has_token = elim s.has_token [ inl h ↦ inl h | inr (_, h, k) ↦ inr (refl, h, k) ];
}

pub serve_all :
    (p : AccountPool) (a : Dict Text RouteAffinity) (m : Dict Text ℕ) (st : Settings) (model : Text)
    (excluded : Text → Bool) (now : ℕ) (may_refresh : Bool) (xs : List Index)
    → All (Offered (aside p a m) st model excluded now may_refresh) xs
    → All (λ x. Serves p st model excluded now true x.1) xs
serve_all p a m st model excluded now r [] h = tt
serve_all p a m st model excluded now r (x ∷ xs) ((s, _), hs) = (
  Serves-aside p a m st model excluded now r x.1 s,
  serve_all p a m st model excluded now r xs hs,
)

by_order-Fair :
    (p : AccountPool) (a : Dict Text RouteAffinity) (m : Dict Text ℕ) (st : Settings)
    (up : ProtectionConfig) (model route : Text) (excluded : Text → Bool) (now best : ℕ)
    → Fair
        (Serves p st model excluded now true)
        up
        (normalize_protection_model model)
        now
        p.counters
        (acquire_by_order st up model route excluded now best (aside p a m))
unfolding acquire_by_order selection_indexes
by_order-Fair p a m st up model route excluded now best =
    let q = aside p a m in
    let chosen = selection_candidates q st model excluded now in
    let fits : All (λ x. Serves p st model excluded now true x.1) chosen =
      elim (selection_candidates-Offered q st model excluded now) [
        | inl h ↦ serve_all p a m st model excluded now false chosen h
        | inr (_, h) ↦ serve_all p a m st model excluded now true chosen h
      ] in
    try_each-Fair (Serves p st model excluded now true) st up (normalize_protection_model model)
      route now (selection_indexes q st model excluded now)
      (selection_indexes q st model excluded now) best q
      (All-order_selection_indexes (λ x. Serves p st model excluded now true x.1) q st.mode model
        chosen fits)

account_index-aside :
    (id : Text) (p : AccountPool) (a : Dict Text RouteAffinity) (m : Dict Text ℕ)
    → (n : Dict Text ℕ) × (o : Option ℕ) × (account_index id (aside p a m) ≡ (aside p a n, o))
unfolding account_index
account_index-aside id p a m = elim (Bool-cases (names p.accounts (lookup id m) id)) [
  | inl c ↦ (m, lookup id m, rw c refl)
  | inr c ↦ let n = index_accounts 0 p.accounts [] in (n, lookup id n, rw c refl)
]

-- The bound account, if there is one, is fit; looking it up changes no more than the cache.
abbrev Found :
    AccountPool
    → Dict Text RouteAffinity
    → Settings
    → Text
    → (Text → Bool)
    → ℕ
    → AccountPool × Option Account
    → Type 0
Found p a st model excluded now (q, none) = (n : Dict Text ℕ) × (q ≡ aside p a n)
Found p a st model excluded now (q, some acc) =
    ((n : Dict Text ℕ) × (q ≡ aside p a n)) × Serves p st model excluded now true acc

checked-Found :
    (p : AccountPool) (a : Dict Text RouteAffinity) (n : Dict Text ℕ) (st : Settings) (model : Text)
    (excluded : Text → Bool) (now : ℕ) (acc : Account) (b : Bool)
    → account_selectable (aside p a n) st acc model excluded now false ≡ b
    → Found p a st model excluded now (aside p a n, (if b then some acc else none))
checked-Found p a n st model excluded now acc false h = (n, refl)
checked-Found p a n st model excluded now acc true h = (
  (n, refl),
  Serves-aside p a n st model excluded now false acc
      (account_selectable-Serves (aside p a n) st acc model excluded now false h),
)

element-Found :
    (p : AccountPool) (a : Dict Text RouteAffinity) (n : Dict Text ℕ) (st : Settings) (model : Text)
    (excluded : Text → Bool) (now : ℕ) (o : Option Account)
    → Found p a st model excluded now (checked_at (aside p a n) st model excluded now o)
element-Found p a n st model excluded now none = (n, refl)
element-Found p a n st model excluded now (some acc) =
    checked-Found p a n st model excluded now acc
      (account_selectable (aside p a n) st acc model excluded now false) refl

found_at-Found :
    (p : AccountPool) (a : Dict Text RouteAffinity) (n : Dict Text ℕ) (st : Settings) (model : Text)
    (excluded : Text → Bool) (now : ℕ) (o : Option ℕ)
    → Found p a st model excluded now (found_at st model excluded now (aside p a n, o))
found_at-Found p a n st model excluded now none = (n, refl)
found_at-Found p a n st model excluded now (some i) =
    element-Found p a n st model excluded now (get_elem? p.accounts i)

find-Found :
    (p : AccountPool) (a : Dict Text RouteAffinity) (m : Dict Text ℕ) (st : Settings)
    (id model : Text) (excluded : Text → Bool) (now : ℕ)
    → Found p a st model excluded now
        (find_selectable_account (aside p a m) st id model excluded now)
unfolding find_selectable_account
find-Found p a m st id model excluded now =
    let (n, o, e) = account_index-aside id p a m in
    subst
      (λ (k : AccountPool × Option ℕ).
        Found p a st model excluded now (found_at st model excluded now k))
      (sym e) (found_at-Found p a n st model excluded now o)

bound_some-Fair :
    (p : AccountPool) (a : Dict Text RouteAffinity) (n : Dict Text ℕ) (st : Settings)
    (up : ProtectionConfig) (model route : Text) (excluded : Text → Bool) (now : ℕ) (acc : Account)
    → Serves p st model excluded now true acc
    → Fair
        (Serves p st model excluded now true)
        up
        (normalize_protection_model model)
        now
        p.counters
        (acquire_bound st up model route excluded now (aside p a n, some acc))
unfolding acquire_bound
bound_some-Fair p a n st up model route excluded now acc fit =
    let key = normalize_protection_model model in
    elim (try-cases acc key up now p.counters) [
      | inl (d, g, t) ↦
          let taken = (try_acquire_slot acc key up now p.counters).0 in
          let r : AccountPool = record (aside p a n) { counters = taken } in
          let kept =
            remember-counters route acc.id now up r ∙ ap (λ (e : Counters × Grant). e.0) t in
          rw (t, acquire_bound) (fit, t ∙ ap (λ (c : Counters). (c, granted g)) (sym kept))
      | inr (b, t) ↦
          rw (t, acquire_bound) (by_order-Fair p a n st up model route excluded now b.retry_after)
    ]

bound-Fair :
    (p : AccountPool) (a : Dict Text RouteAffinity) (st : Settings) (up : ProtectionConfig)
    (model route : Text) (excluded : Text → Bool) (now : ℕ) (r : AccountPool × Option Account)
    → Found p a st model excluded now r
    → Fair
        (Serves p st model excluded now true)
        up
        (normalize_protection_model model)
        now
        p.counters
        (acquire_bound st up model route excluded now r)
unfolding acquire_bound
bound-Fair p a st up model route excluded now (q, none) (n, e) =
    rw e (by_order-Fair p a n st up model route excluded now 0)
bound-Fair p a st up model route excluded now (q, some acc) ((n, e), fit) =
    rw e (bound_some-Fair p a n st up model route excluded now acc fit)

-- The account that a request gets was fit for it when it came, and it got one slot on the pool's
-- counters by the limits of that account; a request that gets none leaves the counters as they
-- were, and a wait that it is told is not 0.
pub acquire_for_model-Fair :
    (st : Settings) (up : ProtectionConfig) (model route_key : Text) (excluded : Text → Bool)
    (now : ℕ) (p : AccountPool)
    → Fair
        (Serves p st model excluded now true)
        up
        (normalize_protection_model model)
        now
        p.counters
        (acquire_for_model st up model route_key excluded now p)
unfolding acquire_for_model prune_route_affinity
acquire_for_model-Fair st up model route_key excluded now p =
    let route = trim_space route_key in
    let a = prune_affinity now (affinity_ttl up) p.affinity in
    elim (Option-cases (if is_empty route then none else lookup route a)) [
      | inl n ↦
          rw (n, acquire_for_model)
            (by_order-Fair p a p.account_index st up model route excluded now 0)
      | inr (entry, s) ↦
          rw (s, acquire_for_model)
            (bound-Fair p a st up model route excluded now
              (find_selectable_account (aside p a p.account_index) st entry.account_id model
                excluded now)
              (find-Found p a p.account_index st entry.account_id model excluded now))
    ]
