-- ===== src/Tests/Slots.antt =====
-- The slots of pool/protection.go: two requests on one account, and a guard that is released twice.
use kiro_go_plus.Base.{◌≡◌, refl, false, [], ◌∷◌, nat_eq, bytes_eq, pair_eq}
use kiro_go_plus.Base.Dict.{lookup, insert, get_or}
use kiro_go_plus.Base.Int.{pos}
use kiro_go_plus.Base.Text.{Text, codes, trim_space, equal_fold}
use kiro_go_plus.Base.Time.{second}
use kiro_go_plus.Pool.Account.{Account}
use kiro_go_plus.Pool.Circuit.{state_busy, occupy, activate_half_open_probe}
use kiro_go_plus.Pool.Slots.{
  Counters, Guard, granted, try_acquire_slot, release_guard, take_slot, account_concurrency_limit,
  account_model_limit, profile_limit, soften, normalize_protection_model,
}
use kiro_go_plus.Pool.Slots.Counts.{Agrees}
use kiro_go_plus.Pool.Slots.Moves.{
  Reach, start, next, acquire, release, Reach-Agrees, Bounded, try_acquire_slot_bounds,
}
use kiro_go_plus.Tests.Circuits.{settings}

abbrev pub account_named : Text → Account
account_named id = record {
  id = id;
  access_token = codes "t";
  refresh_token = codes "r";
  expires_at = 0;
  profile_arn = [];
  weight = pos 1;
  priority = pos 0;
  max_concurrency = 0;
  overage_status = [];
  usage_current = 0;
  usage_limit = 0;
  error_count = 0;
}

abbrev pub alpha : Account
alpha = account_named (codes "a")

abbrev pub no_counters : Counters
no_counters = record { accounts = []; models = []; profiles = [] }

abbrev guard : Guard
guard = record { account_id = codes "a"; profile_arn = []; model = codes "m"; released = false }

abbrev held_once : Counters
held_once = (try_acquire_slot alpha (codes "m") settings second no_counters).0

alpha_granted :
    try_acquire_slot alpha (codes "m") settings second no_counters ≡ (held_once, granted guard)
unfolding try_acquire_slot state_busy account_concurrency_limit account_model_limit profile_limit
    soften take_slot occupy activate_half_open_probe get_or lookup insert normalize_protection_model
    trim_space equal_fold
alpha_granted = refl

alpha_reached :
    Reach settings
      (release_guard guard settings second held_once).1
      ((release_guard guard settings second held_once).0 ∷ [])
alpha_reached =
    next (release_guard guard settings second held_once).1
      ((release_guard guard settings second held_once).0 ∷ [])
      (next held_once (guard ∷ []) start
        (acquire alpha (codes "m") second held_once guard alpha_granted))
      (release second [] guard [] refl)

Reach-Agrees_example :
    Agrees settings
      (release_guard guard settings second held_once).1
      ((release_guard guard settings second held_once).0 ∷ [])
Reach-Agrees_example = Reach-Agrees settings alpha_reached

try_acquire_slot_bounds_example :
    Bounded alpha
      (codes "m")
      settings
      no_counters
      (try_acquire_slot alpha (codes "m") settings second no_counters)
try_acquire_slot_bounds_example =
    try_acquire_slot_bounds alpha (codes "m") settings second no_counters
