-- ===== src/Pool/Cooldowns/Routes.antt =====
-- The bounded memory of which account served a route (pool/protection.go).
use kiro_go_plus.Base.{
  ℕ, ◌≤◌, ◌<◌, ◌≡◌, refl, ◌⊎◌, inl, inr, false, ◌&&◌, some, [], ◌∷◌, length, ltb, leb, ◌==◌, nat_eq,
  bytes_eq, beq_refl, Bool-cases, Option-cases, arith,
}
use kiro_go_plus.Base.Dict.{Dict, lookup, get_or, lookup-insert}
use kiro_go_plus.Base.Sizes.{
  length-insert_le, length-insert_present, length-delete_present, lookup_head, present_below,
}
use kiro_go_plus.Base.Text.{Text, is_empty}
use kiro_go_plus.Pool.{AccountPool, RouteAffinity}
use kiro_go_plus.Pool.Circuit.{ProtectionConfig}
use kiro_go_plus.Pool.Cooldowns.{oldest_entry, evict_oldest, no_route, remember_route_affinity}

-- The key that is found is one of the map, or the one that was there before.
oldest_entry-present :
    (b : Text) (s : ℕ) (m : Dict Text RouteAffinity)
    → (oldest_entry (some (b, s)) m ≡ some b)
      ⊎ ((k : Text) × (w : RouteAffinity) × (oldest_entry (some (b, s)) m ≡ some k)
          × (lookup k m ≡ some w))
unfolding oldest_entry
oldest_entry-present b s [] = inl refl
oldest_entry-present b s ((k, e) ∷ m) = elim (Bool-cases (ltb e.last_seen s)) [
  | inl l ↦ elim (oldest_entry-present k e.last_seen m) [
    | inl q ↦ inr (k, e, rw (l, oldest_entry) q, lookup_head k k e m (beq_refl k))
    | inr (j, w, q, found) ↦
        let (u, at) = present_below k j e w m found in inr (j, u, rw (l, oldest_entry) q, at)
  ]
  | inr l ↦ elim (oldest_entry-present b s m) [
    | inl q ↦ inl (rw (l, oldest_entry) q)
    | inr (j, w, q, found) ↦
        let (u, at) = present_below k j e w m found in inr (j, u, rw (l, oldest_entry) q, at)
  ]
]

evict_oldest-length :
    (m : Dict Text RouteAffinity) → 0 < length m → length (evict_oldest m) < length m
unfolding oldest_entry
evict_oldest-length [] h = absurd (omega arith)
evict_oldest-length ((k, e) ∷ m) h = elim (oldest_entry-present k e.last_seen m) [
  | inl q ↦
      rw (q, oldest_entry)
        (length-delete_present k e ((k, e) ∷ m) (lookup_head k k e m (beq_refl k)))
  | inr (j, w, q, found) ↦
      let (u, at) = present_below k j e w m found in
      rw (q, oldest_entry) (length-delete_present j u ((k, e) ∷ m) at)
]

present :
    (key : Text) (m : Dict Text RouteAffinity)
    → is_empty (get_or key no_route m).account_id ≡ false
    → (w : RouteAffinity) × (lookup key m ≡ some w)
unfolding get_or
present key m h = elim (Option-cases (lookup key m)) [
  | inl n ↦ absurd (ground arith)
  | inr (w, s) ↦ (w, s)
]

-- With a size configured and a map within it, remembering a route that has a name keeps the map
-- within that size, and the route is then bound to its account as of now.
pub remember_route_affinity_bound :
    (key id : Text) (now : ℕ) (up : ProtectionConfig) (p : AccountPool)
    → is_empty key ≡ false
    → 0 < up.route_affinity_max_entries
    → length p.affinity ≤ up.route_affinity_max_entries
    → let q = remember_route_affinity key id now up p in
      (length q.affinity ≤ up.route_affinity_max_entries)
      × (lookup key q.affinity ≡ some (record { account_id = id; last_seen = now }))
unfolding remember_route_affinity
remember_route_affinity_bound key id now up p named bounded small =
    let entry : RouteAffinity = record { account_id = id; last_seen = now } in
    let missing = is_empty (get_or key no_route p.affinity).account_id in
    let bound : (up.route_affinity_max_entries == 0) ≡ false = ground arith in
    elim (Bool-cases (leb up.route_affinity_max_entries (length p.affinity) && missing)) [
      | inl full ↦
          let shorter = evict_oldest-length p.affinity (ground arith) in
          rw (named, bound, full)
            (
              omega (arith, length-insert_le key entry (evict_oldest p.affinity)),
              ground (arith, lookup-insert key key entry (evict_oldest p.affinity), beq_refl key),
            )
      | inr room ↦
          let stored = lookup-insert key key entry p.affinity in
          elim (Bool-cases missing) [
            | inl m ↦
                rw (named, bound, room)
                  (
                    ground (arith, length-insert_le key entry p.affinity),
                    ground (arith, stored, beq_refl key),
                  )
            | inr m ↦
                let (w, found) = present key p.affinity m in
                rw (named, bound, room)
                  (
                    omega (arith, length-insert_present key entry w p.affinity found),
                    ground (arith, stored, beq_refl key),
                  )
          ]
    ]
