-- ===== src/Base/Dict.antt =====
-- Go's maps as association lists. The order of the entries stands for one order of iteration.
use mathlib.Core.List.{List, [], ◌∷◌}
use mathlib.Core.Option.{Option, none, some}
use mathlib.Core.Path.{◌≡◌, refl}
use native.Mathlib.Omega.{arith}
use kiro_go_plus.Base.Equality.{Eq, ◌==◌}
use kiro_go_plus.Base.Tests.{if◌then◌else◌}

abbrev pub Dict {ℓ κ} : Type ℓ → Type κ → Type (ℓ ⊔ κ)
Dict K V = List (K × V)

module _ {ℓ κ} {K : Type ℓ} {V : Type κ} ⦃e : Eq K⦄ where
  -- v, ok := m[k]
  unfoldable pub lookup : K → Dict K V → Option V
  lookup k [] = none
  lookup k ((j, v) ∷ m) = if j == k then some v else lookup k m

  -- m[k] = v
  unfoldable pub insert : K → V → Dict K V → Dict K V
  insert k v [] = (k, v) ∷ []
  insert k v ((j, w) ∷ m) = let rest = insert k v m in if j == k then (k, v) ∷ m else (j, w) ∷ rest

  -- delete(m, k)
  unfoldable pub delete : K → Dict K V → Dict K V
  delete k [] = []
  delete k ((j, w) ∷ m) = let rest = delete k m in if j == k then rest else (j, w) ∷ rest

  -- m[k], with the zero value where the key is missing.
  unfoldable pub get_or : K → V → Dict K V → V
  get_or k d m = elim (lookup k m) [ none ↦ d | some v ↦ v ]

  pub lookup-insert :
      (written key : K) (v : V) (m : Dict K V)
      → lookup key (insert written v m) ≡ (if written == key then some v else lookup key m)
  unfolding insert lookup
  lookup-insert written key v [] = refl
  lookup-insert written key v ((k, old) ∷ m) = ground (
    arith,
    lookup-insert written key v m,
    e.same_iff written key,
    e.same_iff k written,
    e.same_iff k key,
  )

  pub lookup-delete :
      (k j : K) (m : Dict K V) → lookup j (delete k m) ≡ (if k == j then none else lookup j m)
  unfolding lookup delete
  lookup-delete k j [] = ground arith
  lookup-delete k j ((i, w) ∷ m) =
      ground (arith, e.same_iff k j, e.same_iff i k, e.same_iff i j, lookup-delete k j m)

  pub get_or-insert :
      (k j : K) (d v : V) (m : Dict K V)
      → get_or j d (insert k v m) ≡ (if k == j then v else get_or j d m)
  unfolding get_or
  get_or-insert k j d v m = ground (arith, lookup-insert k j v m)

  pub get_or-delete :
      (k j : K) (d : V) (m : Dict K V)
      → get_or j d (delete k m) ≡ (if k == j then d else get_or j d m)
  unfolding get_or
  get_or-delete k j d m = ground (arith, lookup-delete k j m)

pub ruleset dict_laws = (lookup-insert, lookup-delete, get_or-insert, get_or-delete)
