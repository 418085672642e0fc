-- ===== src/Base/Sizes.antt =====
-- The size of a map under insertion and deletion.
use Prim.Native.Nat.{suc, ◌≤◌, ◌<◌}
use mathlib.Core.Bool.{true, false}
use mathlib.Core.List.{[], ◌∷◌}
use mathlib.Core.Logic.{inl, inr}
use mathlib.Core.Option.{some}
use mathlib.Core.Path.{◌≡◌, refl, ap, ◌∙◌}
use native.Mathlib.Omega.{arith}
use kiro_go_plus.Base.Dict.{Dict, lookup, insert, delete}
use kiro_go_plus.Base.Equality.{◌==◌, bytes_eq}
use kiro_go_plus.Base.Lists.{length}
use kiro_go_plus.Base.Tests.{Bool-cases}
use kiro_go_plus.Base.Text.{Text}

module _ {V : Type 0} where
  pub length-insert_le :
      (k : Text) (v : V) (m : Dict Text V) → length (insert k v m) ≤ suc (length m)
  unfolding insert
  length-insert_le k v [] = ground arith
  length-insert_le k v ((j, w) ∷ m) = ground (arith, length-insert_le k v m)

  pub length-insert_present :
      (k : Text) (v w : V) (m : Dict Text V)
      → lookup k m ≡ some w
      → length (insert k v m) ≡ length m
  unfolding insert lookup
  length-insert_present k v w [] h = absurd (ground arith)
  length-insert_present k v w ((j, u) ∷ m) h = elim (Bool-cases (j == k)) [
    | inl e ↦ rw e refl
    | inr e ↦ rw e (ap suc (length-insert_present k v w m (ground (arith, e, h))))
  ]

  pub length-delete_le : (k : Text) (m : Dict Text V) → length (delete k m) ≤ length m
  unfolding delete
  length-delete_le k [] = omega arith
  length-delete_le k ((j, w) ∷ m) = ground (arith, length-delete_le k m)

  pub length-delete_present :
      (k : Text) (w : V) (m : Dict Text V) → lookup k m ≡ some w → length (delete k m) < length m
  unfolding delete lookup
  length-delete_present k w [] h = absurd (ground arith)
  length-delete_present k w ((j, u) ∷ m) h = elim (Bool-cases (j == k)) [
    | inl e ↦ rw e (omega (arith, length-delete_le k m))
    | inr e ↦ rw e (omega (arith, length-delete_present k w m (ground (arith, e, h))))
  ]

  pub lookup_head :
      (k j : Text) (v : V) (m : Dict Text V) → (k == j) ≡ true → lookup j ((k, v) ∷ m) ≡ some v
  unfolding lookup
  lookup_head k j v m e = rw e refl

  pub lookup_tail :
      (k j : Text) (v : V) (m : Dict Text V) → (k == j) ≡ false → lookup j ((k, v) ∷ m) ≡ lookup j m
  unfolding lookup
  lookup_tail k j v m e = rw e refl

  -- What is in the tail is in the map, perhaps with another value.
  pub present_below :
      (k j : Text) (v w : V) (m : Dict Text V)
      → lookup j m ≡ some w
      → (u : V) × (lookup j ((k, v) ∷ m) ≡ some u)
  present_below k j v w m found = elim (Bool-cases (k == j)) [
    | inl e ↦ (v, lookup_head k j v m e)
    | inr e ↦ (w, lookup_tail k j v m e ∙ found)
  ]
