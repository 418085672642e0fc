-- ===== src/Pool/Errors/Tokens.antt =====
-- What HasStatusToken (pool/account.go) finds, said without its loop.
use kiro_go_plus.Base.{
  ℕ, ◌≡◌, ◌↔◌, refl, sym, ap, subst, inl, inr, Bool, true, false, not, ◌&&◌, [], ◌∷◌, ◌++◌, arith,
  nat_eq, beq_refl, same→eq, Bool-cases,
}
use kiro_go_plus.Base.Text.{Text, is_empty}
use kiro_go_plus.Pool.Errors.{is_alpha_num, is_boundary, token_here, token_from, has_status_token}

-- No letter or digit stands at the end, given whether one stood before.
abbrev pub ends_clear : Bool → Text → Bool
ends_clear left [] = left
ends_clear left (b ∷ s) = ends_clear (not (is_alpha_num b)) s

abbrev pub Occurs : Bool → Text → Text → Type 0
Occurs left s status =
    (before : Text) × (after : Text) × (s ≡ before ++ (status ++ after))
    × (ends_clear left before ≡ true)
    × (is_boundary after ≡ true)

token_here-split :
    (status s : Text)
    → token_here status s ≡ true
    → (after : Text) × (s ≡ status ++ after) × (is_boundary after ≡ true)
unfolding token_here
token_here-split [] s h = (s, refl, h)
token_here-split (a ∷ status) [] h = absurd (ground arith)
token_here-split (a ∷ status) (b ∷ s) h =
    let (after, q, clear) = token_here-split status s (ground (arith, h)) in
    (after, cc (q, same→eq a b (ground (arith, h))), clear)

token_here-append :
    (status after : Text) → is_boundary after ≡ true → token_here status (status ++ after) ≡ true
unfolding token_here
token_here-append [] after h = h
token_here-append (a ∷ status) after h = rw (beq_refl a) (token_here-append status after h)

found :
    (status : Text) (left : Bool) (s : Text)
    → token_from status left s ≡ true
    → Occurs left s status
unfolding token_from
found status left [] h = absurd (ground arith)
found status left (b ∷ s) h = elim (Bool-cases (left && token_here status (b ∷ s))) [
  | inl here ↦
      let (after, q, clear) = token_here-split status (b ∷ s) (ground (arith, here)) in
      ([], after, q, ground (arith, here), clear)
  | inr there ↦
      let (before, after, q, l, r) =
        found status (not (is_alpha_num b)) s (ground (arith, h, there)) in
      (b ∷ before, after, ap (◌∷◌ b) q, l, r)
]

find :
    (a : ℕ) (status before after : Text) (left : Bool)
    → ends_clear left before ≡ true
    → is_boundary after ≡ true
    → token_from (a ∷ status) left (before ++ ((a ∷ status) ++ after)) ≡ true
unfolding token_from
find a status [] after left l r = rw (l, token_here-append (a ∷ status) after r) refl
find a status (b ∷ before) after left l r =
    let rest = find a status before after (not (is_alpha_num b)) l r in
    elim (Bool-cases (left && token_here (a ∷ status) (b ∷ (before ++ ((a ∷ status) ++ after))))) [
      | inl here ↦ rw here refl
      | inr there ↦ rw there rest
    ]

-- A status that is not empty is found exactly when it stands somewhere in the text with no letter
-- or digit right before it and none right after it.
pub has_status_token-Occurs :
    (s status : Text)
    → is_empty status ≡ false
    → (has_status_token s status ≡ true) ↔ Occurs true s status
unfolding has_status_token
has_status_token-Occurs s [] h = absurd (ground arith)
has_status_token-Occurs s (a ∷ status) h = (
  found (a ∷ status) true s,
  λ o.
      let (before, after, q, l, r) = o in
      subst (λ t. token_from (a ∷ status) true t ≡ true) (sym q)
        (find a status before after true l r),
)
