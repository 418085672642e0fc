-- ===== src/ToolAssembly/Entries.antt =====
-- What holds of each state that the watch of proxy/tool_assembly.go keeps.
use kiro_go_plus.Base.{
  ℕ, ◌≤◌, ◌≡◌, sym, subst, ◌∙◌, some, ◌==◌, nat_eq, bytes_eq, same→eq, Bool-cases, inl, inr, arith,
}
use kiro_go_plus.Base.Dict.{Dict, lookup, insert, delete, lookup-insert, lookup-delete}
use kiro_go_plus.Base.Text.{Text}
use kiro_go_plus.ToolAssembly.{ToolAssemblyActive}

-- A state stands under its id, within the maxima, and was active since it began.
abbrev pub Fits : ℕ → ℕ → ℕ → Text → ToolAssemblyActive → Type 0
Fits bytes fragments t id s =
    (s.tool_use_id ≡ id)
    × (s.bytes ≤ bytes)
    × (s.fragments ≤ fragments)
    × (s.started_at ≤ s.last_activity_at)
    × (s.last_activity_at ≤ t)

abbrev pub Entries : ℕ → ℕ → ℕ → Dict Text ToolAssemblyActive → Type 0
Entries bytes fragments t m =
    (id : Text) (s : ToolAssemblyActive) → lookup id m ≡ some s → Fits bytes fragments t id s

module _ (b f t now : ℕ) (m : Dict Text ToolAssemblyActive) (entries : Entries b f t m)
    (later : t ≤ now) where
  pub insert-Entries :
      (b' f' : ℕ) (id : Text) (s : ToolAssemblyActive)
      → b ≤ b'
      → f ≤ f'
      → Fits b' f' now id s
      → Entries b' f' now (insert id s m)
  insert-Entries b' f' id s more more' fits k e at =
      let law = lookup-insert id k s m in
      elim (Bool-cases (id == k)) [
        | inl same ↦
            let here : some s ≡ some e = sym (rw same at law) ∙ at in
            let eq : s ≡ e = ground (arith, here) in
            subst (λ i. Fits b' f' now i e) (same→eq id k same)
              (subst (λ x. Fits b' f' now id x) eq fits)
        | inr other ↦
            let kept = entries k e (sym (rw other at law) ∙ at) in
            ground (arith, kept, more, more', later)
      ]

  pub delete-Entries : (id : Text) → Entries b f now (delete id m)
  delete-Entries id k e at =
      let law = lookup-delete id k m in
      elim (Bool-cases (id == k)) [
        | inl same ↦ ground (arith, same, law, at)
        | inr other ↦
            let kept = entries k e (sym (rw other at law) ∙ at) in ground (arith, kept, later)
      ]

  pub later-Entries : Entries b f now m
  later-Entries k e at = let kept = entries k e at in ground (arith, kept, later)
