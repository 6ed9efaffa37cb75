-- ===== src/Base.antt =====
-- The names that the other modules share: those of the libraries, passed on, and those of the
-- children: Boolean tests, lists over the native numbers, Go's `int`, maps, texts and times.
mod Tests
mod Lists
mod Members
mod Int
mod Maps
mod Text
mod Trim
mod Clock
mod Results
pub use Tests.*
pub use Lists.*
pub use Members.*
pub use Int.{ℤ, pos, negsuc, max_zero, is_pos, pos_part, neg_part, sub_ℕ, ltb_ℤ, +ℤ_comm, +ℤ_assoc}
unfoldable pub use Int.{◌+ℤ◌}
pub use Results.*
unfoldable pub use Maps.{get, put, delete, keep_if, has}
pub use Maps.{
  Map, keep_value, get-put, get-delete, get-keep_if, has-put, length-delete-le, length-keep_if-le,
  length-put-le, length-put_old, Unique, delete-Unique, put-Unique,
}
unfoldable pub use Text.{trim_space, is_space, trim_left, trim_right, push_unless_space}
pub use Text.{str_eq}
pub use Trim.{trim_space_twice, trim_space-between}
unfoldable pub use Clock.{since, after, is_zero, max_time}
pub use Clock.{Time, Duration, millisecond, second, minute, max_duration}
pub use Prim.Native.Nat.{ℕ, zero, suc, ◌+◌, ◌-◌, ◌*◌, ◌/◌, ◌%◌, ◌^◌, ◌≤◌, ◌<◌, min, max}
pub use Prim.Native.String.{String}
pub use mathlib.Core.Path.{◌≡◌, refl, sym, ap, ◌∙◌}
pub use mathlib.Core.Logic.{◌≢◌, ◌↔◌, ◌⊎◌, inl, inr}
pub use mathlib.Core.Bool.{Bool, true, false, not, ◌&&◌, ◌||◌}
pub use mathlib.Core.Option.{Option, none, some}
pub use mathlib.Core.List.{List, [], ◌∷◌, ◌++◌, map}
pub use native.Mathlib.Omega.{arith}
pub use text.Mathlib.TextEquality.{eq_iff}
