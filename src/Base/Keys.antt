-- ===== src/Base/Keys.antt =====
-- Association lists in which each key has one entry.
use mathlib.Core.List.{[], ◌∷◌}
use mathlib.Core.Logic.{inl, inr}
use mathlib.Core.Option.{none}
use mathlib.Core.Path.{◌≡◌, refl, subst}
use native.Mathlib.Omega.{arith}
use kiro_go_plus.Base.Dict.{Dict, lookup, insert, delete, lookup-insert, lookup-delete}
use kiro_go_plus.Base.Equality.{Eq, ◌==◌, same→eq}
use kiro_go_plus.Base.Tests.{Bool-cases}

-- A map without a second entry for a key.
module _ {K V : Type 0} ⦃q : Eq K⦄ where
  abbrev pub NoDup : Dict K V → Type 0
  NoDup [] = Unit
  NoDup ((k, v) ∷ m) = (lookup k m ≡ none) × NoDup m

  pub insert-NoDup : (k : K) (v : V) (m : Dict K V) → NoDup m → NoDup (insert k v m)
  unfolding insert lookup
  insert-NoDup k v [] h = (refl, tt)
  insert-NoDup k v ((j, w) ∷ m) (absent, h) = elim (Bool-cases (j == k)) [
    | inl same ↦ rw same (subst (λ i. lookup i m ≡ none) (same→eq j k same) absent, h)
    | inr other ↦
        let law = lookup-insert k j v m in
        rw other
          (ground (arith, law, absent, other, q.same_iff j k, q.same_iff k j), insert-NoDup k v m h)
  ]

  pub delete-NoDup : (k : K) (m : Dict K V) → NoDup m → NoDup (delete k m)
  unfolding delete lookup
  delete-NoDup k [] h = h
  delete-NoDup k ((j, w) ∷ m) (absent, h) = elim (Bool-cases (j == k)) [
    | inl same ↦ rw same (delete-NoDup k m h)
    | inr other ↦
        let law = lookup-delete k j m in rw other (ground (arith, law, absent), delete-NoDup k m h)
  ]
