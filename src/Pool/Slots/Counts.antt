-- ===== src/Pool/Slots/Counts.antt =====
-- The three counters of pool/protection.go against the guards that are out.
use kiro_go_plus.Base.{
  ℕ, suc, ◌+◌, ◌-◌, ◌≡◌, Bool, false, not, ◌&&◌, List, [], ◌∷◌, arith, if◌then◌else◌, ◌==◌, Eq,
  nat_eq, bytes_eq, pair_eq, same→eq,
}
use kiro_go_plus.Base.Dict.{Dict, insert, delete, get_or, get_or-insert, get_or-delete}
use kiro_go_plus.Base.Text.{Text, is_empty}
use kiro_go_plus.Pool.Account.{Account}
use kiro_go_plus.Pool.Circuit.{
  RuntimeState, zero_state, ProtectionConfig, occupy, vacate, protection_state_idle,
  activate_half_open_probe, reopen_abandoned_half_open_probe, close_protection_circuit,
}
use kiro_go_plus.Pool.Slots.{Counters, Guard, put_back, profile_limit, take_slot, close_at}

-- The requests in flight under a key.
abbrev pub in_flight_at {ℓ} : {K : Type ℓ} ⦃e : Eq K⦄ → K → Dict K RuntimeState → ℕ
in_flight_at k m = (get_or k zero_state m).in_flight

-- How many guards that are out satisfy a test.
abbrev pub held : (Guard → Bool) → List Guard → ℕ
held p [] = 0
held p (g ∷ gs) = if not g.released && p g then suc (held p gs) else held p gs

abbrev pub of_account : Text → Guard → Bool
of_account id g = g.account_id == id

abbrev pub of_model : Text → Text → Guard → Bool
of_model id model g = g.account_id == id && g.model == model

abbrev pub of_profile : Text → Text → Guard → Bool
of_profile arn model g = g.profile_arn == arn && g.model == model

-- Each counter is the number of guards that are out under its key. Nothing is counted for an empty
-- model, nor for a profile without a limit.
pub record Agrees (up : ProtectionConfig) (c : Counters) (gs : List Guard) : Type 0 where
  pub by_account : (id : Text) → in_flight_at id c.accounts ≡ held (of_account id) gs
  pub by_model :
      (id model : Text)
      → in_flight_at (id, model) c.models
        ≡ (if is_empty model then 0 else held (of_model id model) gs)
  pub by_profile :
      (arn model : Text)
      → in_flight_at (arn, model) c.profiles
        ≡ (if profile_limit up arn model == 0 then 0 else held (of_profile arn model) gs)

pub occupy-in_flight : (s : RuntimeState) (now : ℕ) → (occupy s now).in_flight ≡ s.in_flight + 1
unfolding occupy activate_half_open_probe
occupy-in_flight s now = ground arith

pub vacate-in_flight :
    (s : RuntimeState) (up : ProtectionConfig) (now : ℕ)
    → (vacate s up now).in_flight ≡ s.in_flight - 1
unfolding vacate reopen_abandoned_half_open_probe
vacate-in_flight s up now = ground arith

module _ {ℓ} {K : Type ℓ} ⦃e : Eq K⦄ where
  pub in_flight_at-insert :
      (k q : K) (s : RuntimeState) (m : Dict K RuntimeState)
      → in_flight_at q (insert k s m) ≡ (if k == q then s.in_flight else in_flight_at q m)
  in_flight_at-insert k q s m = ground (arith, get_or-insert k q zero_state s m)

  pub in_flight_at-delete :
      (k q : K) (m : Dict K RuntimeState)
      → in_flight_at q (delete k m) ≡ (if k == q then 0 else in_flight_at q m)
  in_flight_at-delete k q m = ground (arith, get_or-delete k q zero_state m)

pub in_flight_at-put_back :
    (k q : Text × Text) (s : RuntimeState) (m : Dict (Text × Text) RuntimeState)
    → in_flight_at q (put_back k s m) ≡ (if k == q then s.in_flight else in_flight_at q m)
unfolding protection_state_idle
in_flight_at-put_back k q s m =
    ground (arith, in_flight_at-insert k q s m, in_flight_at-delete k q m)

pub in_flight_at-close :
    (k q : Text × Text) (m : Dict (Text × Text) RuntimeState)
    → in_flight_at q (close_at k m) ≡ in_flight_at q m
unfolding close_protection_circuit
in_flight_at-close k q m = ground (
  arith,
  same→eq k q,
  in_flight_at-insert k q (close_protection_circuit (get_or k zero_state m)) m,
  in_flight_at-delete k q m,
)

-- The counters after a grant: one more under the guard's keys.
pub record Grown (limit : ℕ) (arn : Text) (acc : Account) (model : Text) (c d : Counters)
    : Type 0 where
  pub accounts :
      (id : Text)
      → in_flight_at id d.accounts ≡ in_flight_at id c.accounts + (if acc.id == id then 1 else 0)
  pub models :
      (id name : Text)
      → in_flight_at (id, name) d.models
        ≡ in_flight_at (id, name) c.models
          + (if not (is_empty model) && (acc.id == id && model == name) then 1 else 0)
  pub profiles :
      (a name : Text)
      → in_flight_at (a, name) d.profiles
        ≡ in_flight_at (a, name) c.profiles
          + (if not (limit == 0) && (arn == a && model == name) then 1 else 0)

-- One more under a key.
in_flight_at-occupy :
    (k q : Text × Text) (now : ℕ) (m : Dict (Text × Text) RuntimeState)
    → in_flight_at q (insert k (occupy (get_or k zero_state m) now) m)
      ≡ in_flight_at q m + (if k == q then 1 else 0)
in_flight_at-occupy k q now m = ground (
  arith,
  same→eq k q,
  in_flight_at-insert k q (occupy (get_or k zero_state m) now) m,
  occupy-in_flight (get_or k zero_state m) now,
)

pub take_slot-Grown :
    (acc : Account) (arn : Text) (limit : ℕ) (model : Text) (now : ℕ) (c : Counters)
    → Grown limit arn acc model c (take_slot acc arn limit model now c)
unfolding take_slot
take_slot-Grown acc arn limit model now c = record {
  accounts = λ id. ground (
    arith,
    same→eq acc.id id,
    in_flight_at-insert acc.id id
        (record (get_or acc.id zero_state c.accounts) {
          in_flight = (get_or acc.id zero_state c.accounts).in_flight + 1;
        })
        c.accounts,
  );
  models = λ id name. ground (arith, in_flight_at-occupy (acc.id, model) (id, name) now c.models);
  profiles = λ a name. ground (arith, in_flight_at-occupy (arn, model) (a, name) now c.profiles);
}

-- A grant keeps the counters right.
pub take_slot-Agrees :
    (up : ProtectionConfig) (acc : Account) (arn model : Text) (now : ℕ) (c : Counters)
    (gs : List Guard)
    → Agrees up c gs
    → Agrees up
        (take_slot acc arn (profile_limit up arn model) model now c)
        (record { account_id = acc.id; profile_arn = arn; model = model; released = false } ∷ gs)
take_slot-Agrees up acc arn model now c gs v =
    let g = take_slot-Grown acc arn (profile_limit up arn model) model now c in
    record {
      by_account = λ id. ground (arith, g.accounts id, v.by_account id);
      by_model =
          λ id name. ground (arith, g.models id name, v.by_model id name, same→eq model name);
      by_profile = λ a name.
          ground (arith, g.profiles a name, v.by_profile a name, same→eq model name, same→eq arn a);
    }
