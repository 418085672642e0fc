-- ===== src/Config/ApiKeys/Unique.antt =====
-- No two API keys of the configuration (config/apikeys.go) are the same.
use kiro_go_plus.Base.{
  ℕ, ◌≡◌, false, none, some, List, [], ◌∷◌, ◌++◌, All, length, ◌==◌, nat_eq, bytes_eq,
  bytes_eqb_iff, Bool-cases, inl, inr, arith,
}
use kiro_go_plus.Base.Text.{Text, is_empty, trim_space}
use kiro_go_plus.Config.ApiKeys.{
  ApiKeyEntry, Keys, has_key, modify_first, completed, collect_new, other_has_key, remove_first,
}

-- No entry of the list has the key.
abbrev pub Fresh : Text → List ApiKeyEntry → Type 0
Fresh k = All (λ e. (e.key == k) ≡ false)

abbrev pub Distinct : List ApiKeyEntry → Type 0
Distinct [] = Unit
Distinct (e ∷ es) = Fresh e.key es × Distinct es

abbrev pub DistinctKeys : Keys → Type 0
DistinctKeys none = Unit
DistinctKeys (some es) = Distinct es

swapped : (a b : Text) → (a == b) ≡ false → (b == a) ≡ false
swapped a b h = ground (arith, bytes_eqb_iff a b, bytes_eqb_iff b a)

pub has_key-Fresh : (k : Text) (es : List ApiKeyEntry) → has_key k es ≡ false → Fresh k es
has_key-Fresh k [] h = tt
has_key-Fresh k (e ∷ es) h = (ground (arith, h), has_key-Fresh k es (ground (arith, h)))

Fresh-append : (k : Text) (es fs : List ApiKeyEntry) → Fresh k es → Fresh k fs → Fresh k (es ++ fs)
Fresh-append k [] fs h g = g
Fresh-append k (e ∷ es) fs (h, hs) g = (h, Fresh-append k es fs hs g)

-- Two lists with no key in common.
abbrev pub Apart : List ApiKeyEntry → List ApiKeyEntry → Type 0
Apart es fs = All (λ f. Fresh f.key es) fs

Apart-head :
    (e : ApiKeyEntry) (es fs : List ApiKeyEntry) → Apart (e ∷ es) fs → Fresh e.key fs × Apart es fs
Apart-head e es [] h = (tt, tt)
Apart-head e es (f ∷ fs) ((h, hs), rest) =
    let (g, gs) = Apart-head e es fs rest in ((swapped e.key f.key h, g), (hs, gs))

pub Distinct-append :
    (es fs : List ApiKeyEntry) → Distinct es → Distinct fs → Apart es fs → Distinct (es ++ fs)
Distinct-append [] fs d g a = g
Distinct-append (e ∷ es) fs (h, d) g a =
    let (fresh, rest) = Apart-head e es fs a in
    (Fresh-append e.key es fs h fresh, Distinct-append es fs d g rest)

-- What AddApiKeys collects is new and without repetition.
pub collect_new-Distinct :
    (uuids : ℕ → Text) (now : ℕ) (held es : List ApiKeyEntry)
    → Distinct (collect_new uuids now held es).0 × Apart held (collect_new uuids now held es).0
unfolding collect_new
collect_new-Distinct uuids now held [] = (tt, tt)
collect_new-Distinct uuids now held (e ∷ es) =
    let k = trim_space e.key in
    let made = completed (uuids (length es)) now k e in
    let rest = collect_new-Distinct uuids now held es in
    elim (Bool-cases (is_empty k)) [
      | inl blank ↦ rw blank rest
      | inr named ↦ elim (Bool-cases (has_key k held)) [
        | inl taken ↦ rw (named, taken) rest
        | inr free ↦
            let (d, a) = collect_new-Distinct uuids now (made ∷ held) es in
            let (first, others) =
              Apart-head made held (collect_new uuids now (made ∷ held) es).0 a in
            rw (named, free) ((first, d), (has_key-Fresh k held free, others))
      ]
    ]

-- A change of one entry that leaves its key alone.
Fresh-modify_first :
    (k id : Text) (f : ApiKeyEntry → ApiKeyEntry) (es : List ApiKeyEntry)
    → ((e : ApiKeyEntry) → (e.key == k) ≡ false → ((f e).key == k) ≡ false)
    → Fresh k es
    → Fresh k (modify_first id f es)
unfolding modify_first
Fresh-modify_first k id f [] keep h = tt
Fresh-modify_first k id f (e ∷ es) keep (h, hs) = elim (Bool-cases (e.id == id)) [
  | inl here ↦ rw here (keep e h, hs)
  | inr there ↦ rw there (h, Fresh-modify_first k id f es keep hs)
]

pub Distinct-modify_first :
    (id : Text) (f : ApiKeyEntry → ApiKeyEntry) (es : List ApiKeyEntry)
    → ((e : ApiKeyEntry) → (f e).key ≡ e.key)
    → Distinct es
    → Distinct (modify_first id f es)
unfolding modify_first
Distinct-modify_first id f [] same d = tt
Distinct-modify_first id f (e ∷ es) same (h, d) = elim (Bool-cases (e.id == id)) [
  | inl here ↦ rw (here, same e) (h, d)
  | inr there ↦ rw there (
    Fresh-modify_first e.key id f es (λ g k. rw (same g) k) h,
    Distinct-modify_first id f es same d,
  )
]

-- A change that gives the entry a key which no other entry has.
pub Distinct-rekey :
    (id k : Text) (f : ApiKeyEntry → ApiKeyEntry) (es : List ApiKeyEntry)
    → ((e : ApiKeyEntry) → (f e).key ≡ k)
    → other_has_key id k es ≡ false
    → Distinct es
    → Distinct (modify_first id f es)
unfolding modify_first other_has_key
Distinct-rekey id k f [] to free d = tt
Distinct-rekey id k f (e ∷ es) to free (h, d) = elim (Bool-cases (e.id == id)) [
  | inl here ↦ rw (here, to e) (has_key-Fresh k es (ground (arith, here, free)), d)
  | inr there ↦
      let apart : (e.key == k) ≡ false = ground (arith, there, free) in
      rw there (
        Fresh-modify_first e.key id f es (λ g x. rw (to g) (swapped e.key k apart)) h,
        Distinct-rekey id k f es to (ground (arith, there, free)) d,
      )
]

Fresh-remove_first :
    (k id : Text) (es : List ApiKeyEntry) → Fresh k es → Fresh k (remove_first id es)
Fresh-remove_first k id [] h = tt
Fresh-remove_first k id (e ∷ es) (h, hs) = elim (Bool-cases (e.id == id)) [
  | inl here ↦ rw here hs
  | inr there ↦ rw there (h, Fresh-remove_first k id es hs)
]

pub Distinct-remove_first :
    (id : Text) (es : List ApiKeyEntry) → Distinct es → Distinct (remove_first id es)
Distinct-remove_first id [] d = tt
Distinct-remove_first id (e ∷ es) (h, d) = elim (Bool-cases (e.id == id)) [
  | inl here ↦ rw here d
  | inr there ↦ rw there (Fresh-remove_first e.key id es h, Distinct-remove_first id es d)
]
