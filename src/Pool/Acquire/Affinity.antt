-- ===== src/Pool/Acquire/Affinity.antt =====
-- The binding of a route to an account: made by AcquireForModel, undone by ForgetAffinity
-- (pool/protection.go).
use kiro_go_plus.Base.{
  ℕ, ◌<◌, ◌≤◌, ◌≡◌, false, ◌&&◌, none, some, arith, length, if◌then◌else◌, ◌==◌, nat_eq, bytes_eq,
  beq_refl, inl, inr, Bool-cases,
}
use kiro_go_plus.Base.Dict.{lookup, lookup-delete}
use kiro_go_plus.Base.Text.{Text, is_empty}
use kiro_go_plus.Pool.{AccountPool, RouteAffinity}
use kiro_go_plus.Pool.Circuit.{ProtectionConfig}
use kiro_go_plus.Pool.Cooldowns.{remember_route_affinity}
use kiro_go_plus.Pool.Cooldowns.Routes.{remember_route_affinity_bound}
use kiro_go_plus.Pool.Acquire.{Acquired, forget_affinity}

forget_affinity-lookup :
    (a : Acquired) (p : AccountPool) (entry : RouteAffinity)
    → is_empty a.route_key ≡ false
    → lookup a.route_key p.affinity ≡ some entry
    → lookup a.route_key (forget_affinity a p).affinity ≡ (
        if entry.account_id == a.guard.account_id && entry.last_seen == a.route_seen
        then none
        else some entry)
unfolding forget_affinity
forget_affinity-lookup a p entry named bound =
    elim (Bool-cases (entry.account_id == a.guard.account_id && entry.last_seen == a.route_seen)) [
      | inl own ↦
          rw (named, bound, own, forget_affinity)
            (ground (arith, lookup-delete a.route_key a.route_key p.affinity, beq_refl a.route_key))
      | inr other ↦ rw (named, bound, other, forget_affinity) bound
    ]

-- A request that fails takes back its own binding of a named route and no other. With a size
-- configured and a map within it: after the route was bound to an account as of some time,
-- forgetting unbinds it if that is the binding that the request made, and leaves it as it is if
-- another request has bound it since.
pub forget_affinity-remember :
    (a : Acquired) (id : Text) (now : ℕ) (up : ProtectionConfig) (p : AccountPool)
    → is_empty a.route_key ≡ false
    → 0 < up.route_affinity_max_entries
    → length p.affinity ≤ up.route_affinity_max_entries
    → lookup a.route_key
        (forget_affinity a (remember_route_affinity a.route_key id now up p)).affinity
      ≡ (if id == a.guard.account_id && now == a.route_seen
          then none
          else some (record { account_id = id; last_seen = now }))
forget_affinity-remember a id now up p named bounded small =
    forget_affinity-lookup a (remember_route_affinity a.route_key id now up p)
      (record { account_id = id; last_seen = now }) named
      (remember_route_affinity_bound a.route_key id now up p named bounded small).1
