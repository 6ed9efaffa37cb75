-- ===== src/Base/Clock.antt =====
-- `time.Time` as the nanoseconds since the zero time, so that `IsZero` is the test for 0, and
-- `time.Duration` as nanoseconds.
use Prim.Native.Nat.{ℕ, ◌-◌, ◌*◌, ◌^◌, min}
use mathlib.Core.Bool.{Bool}
use ai_model_gateway.Base.Tests.{ltb, if◌then◌else◌, ◌==◌}

abbrev pub Time : Type 0
Time = ℕ

abbrev pub Duration : Type 0
Duration = ℕ

abbrev pub millisecond : Duration
millisecond = 1_000_000

abbrev pub second : Duration
second = 1_000_000_000

abbrev pub minute : Duration
minute = 60 * second

abbrev pub max_duration : Duration
max_duration = 2 ^ 63 - 1

-- `now.Sub(t)`, which saturates. Go's result is negative where `now` is before `t`; it is only
-- ever compared with a duration that is not negative, and 0 stands for it there.
unfoldable pub since : Time → Time → Duration
since now t = min (now - t) max_duration

-- `a.After(b)`
unfoldable pub after : Time → Time → Bool
after a b = ltb b a

unfoldable pub is_zero : Time → Bool
is_zero t = t == 0

unfoldable pub max_time : Time → Time → Time
unfolding after
max_time a b = if after a b then a else b
