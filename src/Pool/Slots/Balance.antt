-- ===== src/Pool/Slots/Balance.antt =====
-- Slots are given back to the counters they were taken from (pool/protection.go).
use kiro_go_plus.Base.{
  ℕ, ◌+◌, ◌-◌, ◌≡◌, refl, ◌⊎◌, inl, inr, Bool, true, false, not, ◌&&◌, List, [], ◌∷◌, ◌++◌, arith,
  if◌then◌else◌, ◌==◌, nat_eq, bytes_eq, pair_eq, same→eq,
}
use kiro_go_plus.Base.Dict.{Dict, insert, get_or}
use kiro_go_plus.Base.Text.{Text, is_empty, trim_space}
use kiro_go_plus.Pool.Circuit.{
  RuntimeState, zero_state, ProtectionConfig, vacate, apply_protection_cooldown,
}
use kiro_go_plus.Pool.Slots.{
  Counters, Guard, put_back, profile_limit, release_upstream_slot, release_guard,
  record_rate_limited, record_success, normalize_protection_model,
}
use kiro_go_plus.Pool.Slots.Counts.{
  in_flight_at, held, of_account, of_model, of_profile, Agrees, vacate-in_flight,
  in_flight_at-insert, in_flight_at-delete, in_flight_at-put_back, in_flight_at-close,
}

-- The counters after a release: one less under the guard's keys, where anything is counted.
record Shrunk (a arn model : Text) (c d : Counters) : Type 0 where
  accounts :
      (id : Text)
      → in_flight_at id d.accounts ≡ in_flight_at id c.accounts - (if a == id then 1 else 0)
  models :
      (id name : Text)
      → in_flight_at (id, name) d.models
        ≡ in_flight_at (id, name) c.models
          - (if not (is_empty model) && (a == id && model == name) then 1 else 0)
  profiles :
      (p name : Text)
      → in_flight_at (p, name) d.profiles
        ≡ in_flight_at (p, name) c.profiles
          - (if not (is_empty arn) && (arn == p && model == name) then 1 else 0)

in_flight_at-vacate :
    (k q : Text × Text) (up : ProtectionConfig) (now : ℕ) (m : Dict (Text × Text) RuntimeState)
    → in_flight_at q (put_back k (vacate (get_or k zero_state m) up now) m)
      ≡ in_flight_at q m - (if k == q then 1 else 0)
in_flight_at-vacate k q up now m = ground (
  arith,
  same→eq k q,
  in_flight_at-put_back k q (vacate (get_or k zero_state m) up now) m,
  vacate-in_flight (get_or k zero_state m) up now,
)

release-Shrunk :
    (a arn model : Text) (up : ProtectionConfig) (now : ℕ) (c : Counters)
    → Shrunk a arn model c (release_upstream_slot a arn model up now c)
unfolding release_upstream_slot
release-Shrunk a arn model up now c = record {
  accounts = λ id. ground (
    arith,
    same→eq a id,
    in_flight_at-delete a id c.accounts,
    in_flight_at-insert a id
        (record (get_or a zero_state c.accounts) {
          in_flight = (get_or a zero_state c.accounts).in_flight - 1;
        })
        c.accounts,
  );
  models = λ id name. ground (arith, in_flight_at-vacate (a, model) (id, name) up now c.models);
  profiles = λ p name. ground (arith, in_flight_at-vacate (arn, model) (p, name) up now c.profiles);
}

profile_limit-empty :
    (up : ProtectionConfig) (arn model : Text)
    → is_empty arn ≡ true
    → profile_limit up arn model ≡ 0
unfolding profile_limit
profile_limit-empty up arn model h = ground arith

-- A guard of a list marked released: the others count as before.
held-release :
    (p : Guard → Bool) (xs : List Guard) (g : Guard) (ys : List Guard)
    → g.released ≡ false
    → p (record g { released = true }) ≡ p g
    → held p (xs ++ (g ∷ ys))
      ≡ held p (xs ++ (record g { released = true } ∷ ys)) + (if p g then 1 else 0)
held-release p [] g ys h e = ground arith
held-release p (x ∷ xs) g ys h e = ground (arith, held-release p xs g ys h e)

release-Agrees :
    (up : ProtectionConfig) (now : ℕ) (c : Counters) (xs : List Guard) (g : Guard) (ys : List Guard)
    → g.released ≡ false
    → Agrees up c (xs ++ (g ∷ ys))
    → Agrees up
        (release_upstream_slot g.account_id g.profile_arn g.model up now c)
        (xs ++ (record g { released = true } ∷ ys))
release-Agrees up now c xs g ys h v =
    let s = release-Shrunk g.account_id g.profile_arn g.model up now c in
    record {
      by_account = λ id.
          ground
            (arith, s.accounts id, v.by_account id, held-release (of_account id) xs g ys h refl);
      by_model = λ id name. ground (
        arith,
        s.models id name,
        v.by_model id name,
        same→eq g.model name,
        held-release (of_model id name) xs g ys h refl,
      );
      by_profile = λ p name. ground (
        arith,
        s.profiles p name,
        v.by_profile p name,
        same→eq g.profile_arn p,
        profile_limit-empty up p name,
        held-release (of_profile p name) xs g ys h refl,
      );
    }

release_guard-cases :
    (g : Guard) (up : ProtectionConfig) (now : ℕ) (c : Counters)
    → (release_guard g up now c ≡ (g, c))
      ⊎ ((g.released ≡ false)
          × (release_guard g up now c ≡ (
            record g { released = true },
            release_upstream_slot g.account_id g.profile_arn g.model up now c,
          )))
unfolding release_guard
release_guard-cases g up now c = ground arith

pub release_guard-Agrees :
    (up : ProtectionConfig) (now : ℕ) (c : Counters) (xs : List Guard) (g : Guard) (ys : List Guard)
    → Agrees up c (xs ++ (g ∷ ys))
    → Agrees up (release_guard g up now c).1 (xs ++ ((release_guard g up now c).0 ∷ ys))
release_guard-Agrees up now c xs g ys v = elim (release_guard-cases g up now c) [
  | inl q ↦ rw q v
  | inr (out, q) ↦ rw q (release-Agrees up now c xs g ys out v)
]

-- A rate limit changes a circuit and not its requests in flight.
in_flight_at-limited :
    (k q : Text × Text) (up : ProtectionConfig) (now retry_after draw : ℕ)
    (m : Dict (Text × Text) RuntimeState)
    → in_flight_at q
        (insert k (apply_protection_cooldown (get_or k zero_state m) up now retry_after draw).0 m)
      ≡ in_flight_at q m
unfolding apply_protection_cooldown
in_flight_at-limited k q up now retry_after draw m = ground (
  arith,
  same→eq k q,
  in_flight_at-insert k q
      (apply_protection_cooldown (get_or k zero_state m) up now retry_after draw).0 m,
)

-- What a circuit is told of a rate limit leaves its requests in flight.
pub record_rate_limited-Agrees :
    (up : ProtectionConfig) (a arn model : Text) (now retry_after draw draw' : ℕ) (c : Counters)
    (gs : List Guard)
    → Agrees up c gs
    → Agrees up (record_rate_limited a arn model up now retry_after draw draw' c).0 gs
unfolding record_rate_limited
record_rate_limited-Agrees up a arn model now retry_after draw draw' c gs v =
    let key = normalize_protection_model model in
    record {
      by_account = λ id. ground (arith, v.by_account id);
      by_model = λ id name. ground (
        arith,
        v.by_model id name,
        in_flight_at-limited (a, key) (id, name) up now retry_after draw c.models,
      );
      by_profile = λ p name. ground (
        arith,
        v.by_profile p name,
        in_flight_at-limited (trim_space arn, key) (p, name) up now retry_after draw' c.profiles,
      );
    }

pub record_success-Agrees :
    (up : ProtectionConfig) (a arn model : Text) (c : Counters) (gs : List Guard)
    → Agrees up c gs
    → Agrees up (record_success a arn model c) gs
unfolding record_success
record_success-Agrees up a arn model c gs v = record {
  by_account = λ id. ground (arith, v.by_account id);
  by_model = λ id name. ground (
    arith,
    v.by_model id name,
    in_flight_at-close (a, normalize_protection_model model) (id, name) c.models,
  );
  by_profile = λ p name. ground (
    arith,
    v.by_profile p name,
    in_flight_at-close (trim_space arn, normalize_protection_model model) (p, name) c.profiles,
  );
}
