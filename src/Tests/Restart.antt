-- ===== src/Tests/Restart.antt =====
-- A restart of the pool (pool/runtime_state.go), with a cooldown that still runs.
use kiro_go_plus.Base.{◌≡◌, refl, none, some, [], ◌∷◌, ltb, if◌then◌else◌, bytes_eq}
use kiro_go_plus.Base.Dict.{lookup}
use kiro_go_plus.Base.Text.{codes}
use kiro_go_plus.Base.Time.{unix, from_unix}
use kiro_go_plus.Pool.{AccountPool}
use kiro_go_plus.Pool.Runtime.{save_runtime_state, load_runtime_state}
use kiro_go_plus.Pool.Runtime.Restart.{kept_cooldown, restart-cooldown}
use kiro_go_plus.Tests.Selection.{pair}

-- The first account rests until the ninth second after 1970, the second one has no error counted.
abbrev resting : AccountPool
resting = record pair { cooldowns = (codes "a", from_unix 9) ∷ (codes "b", from_unix 9) ∷ [] }

abbrev restarted : AccountPool
restarted = record pair { cooldowns = []; error_counts = [] }

no_cooldown : lookup (codes "a") restarted.cooldowns ≡ none
unfolding lookup
no_cooldown = refl

restart-cooldown_example :
    lookup
      (codes "a")
      (load_runtime_state
        (from_unix 3)
        (some (save_runtime_state (from_unix 2) resting))
        restarted).cooldowns
    ≡ (if ltb (unix (from_unix 3)) (kept_cooldown (from_unix 2) resting (codes "a"))
        then some (from_unix (kept_cooldown (from_unix 2) resting (codes "a")))
        else none)
restart-cooldown_example =
    restart-cooldown (from_unix 2) (from_unix 3) resting restarted (codes "a") no_cooldown
