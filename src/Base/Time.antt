-- ===== src/Base/Time.antt =====
-- Package time: an instant is the nanoseconds since Go's zero time, so `IsZero` is a test for 0.
use Prim.Native.Nat.{ℕ, ◌+◌, ◌-◌, ◌*◌, ◌/◌}
use mathlib.Core.Bool.{Bool}
use kiro_go_plus.Base.Equality.{◌==◌, nat_eq}

abbrev pub millisecond : ℕ
millisecond = 1_000_000

abbrev pub second : ℕ
second = 1_000_000_000

abbrev pub minute : ℕ
minute = 60 * second

abbrev pub hour : ℕ
hour = 60 * minute

abbrev pub is_zero_time : ℕ → Bool
is_zero_time t = t == 0

-- The Unix time of the instants from 1970 on; 62135596800 s lie between the two epochs.
abbrev pub unix : ℕ → ℕ
unix t = t / second - 62_135_596_800

-- time.Unix(s, 0)
abbrev pub from_unix : ℕ → ℕ
from_unix s = (s + 62_135_596_800) * second
