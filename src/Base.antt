-- ===== src/Base.antt =====
-- Names that every module shares: the libraries', passed on, and those of the children.
mod Tests
mod Results
mod Lists
mod Division
mod Panics
pub use Tests.*
unfoldable pub use Results.*
unfoldable pub use Lists.*
pub use Division.*
pub use Panics.*
pub use Prim.Native.Nat.{ℕ, zero, suc, ◌+◌, ◌-◌, ◌*◌, ◌/◌, ◌%◌, ◌^◌, ◌≤◌, ◌<◌, min}
pub use Prim.Native.String.{String}
pub use mathlib.Core.Path.{◌≡◌, refl, sym, ap, ◌∙◌, subst}
pub use mathlib.Core.Logic.{◌≢◌, ◌↔◌, ◌⊎◌, inl, inr}
pub use mathlib.Core.Bool.{Bool, true, false, not, ◌&&◌, ◌||◌}
pub use mathlib.Core.Option.{Option, none, some}
pub use mathlib.Core.List.{List, [], ◌∷◌, ◌++◌, map, append_assoc, append-nil, map-append}
pub use native.Mathlib.Omega.{arith}
pub use native.Mathlib.Nat.{
  mul-le-mul_left, mul-le-mul_right, mul-le-mul, mul-pos, le_of_mul-le-mul_left,
  le_of_mul-le-mul_right, lt_of_mul-lt-mul_right, le_trans, one-mul, mod-eq_of_lt, div-le_self,
  div-le_of_le-mul,
}
