-- ===== src/Pool.antt =====
-- Package pool: the accounts, their cooldowns and the local protection of the upstream. An int
-- that the code tests only for being positive is a natural number here, as is a time.
pub mod Account
pub mod Circuit
pub mod Slots
pub mod Select
pub mod Order
pub mod Cooldowns
pub mod Acquire
pub mod Errors
pub mod Runtime
pub mod Changes
pub mod Reload
pub mod Inventory
use kiro_go_plus.Base.{ℕ, Bool, List}
use kiro_go_plus.Base.Dict.{Dict}
use kiro_go_plus.Base.Int.{ℤ}
use kiro_go_plus.Base.Text.{Text}
use kiro_go_plus.Pool.Slots.{Counters}

pub data CooldownKind : Type 0 where
  unknown transient quota disabled : CooldownKind

pub record RouteAffinity : Type 0 where
  pub account_id : Text
  pub last_seen : ℕ

-- A missing key of a map reads as its zero value, as in Go.
pub record AccountPool : Type 0 where
  pub accounts : List Account.Account
  pub account_index : Dict Text ℕ
  pub current_index : ℕ
  pub cooldowns : Dict Text ℕ
  pub cooldown_kinds : Dict Text CooldownKind
  pub error_counts : Dict Text ℕ
  pub model_lists : Dict Text (List Text)
  pub counters : Counters
  pub weighted_current : Dict Text ℤ
  pub affinity : Dict Text RouteAffinity
  pub model_negative : Dict (Text × Text) ℕ
  pub last_success : Dict Text ℕ
  pub refresh_failures : Dict Text ℕ
  pub refresh_cursor : ℕ
  pub dirty_stats : List Text

pub data RoutingMode : Type 0 where
  priority balanced weighted other_mode : RoutingMode

-- What the pool reads of the configuration when it selects.
pub record Settings : Type 0 where
  pub allow_over_usage : Bool
  pub mode : RoutingMode
  pub token_refresh_before_seconds : ℕ
