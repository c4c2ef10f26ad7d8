-- ===== src/Prelude.antt =====
-- What the modules share: names of the libraries, Boolean tests, lists by native index, integers,
-- Go strings as bytes, and results.
mod Tests
mod Lists
pub mod Int
mod Text
mod Results
pub mod Sort
pub mod Floats
pub mod Utf8
pub mod Strings
pub use Tests.*
pub use Lists.*
pub use Prim.Native.Nat.{ℕ, zero, suc, ◌+◌, ◌-◌, ◌*◌, ◌/◌, ◌%◌, ◌^◌, ◌≤◌, ◌<◌, min, max}
pub use mathlib.Core.Path.{◌≡◌, refl, sym, ap, ◌∙◌, subst}
pub use mathlib.Core.Logic.{◌≢◌, ◌↔◌, ◌⊎◌, inl, inr}
pub use mathlib.Core.Bool.{Bool, true, false, not, ◌&&◌, ◌||◌}
pub use mathlib.Core.Option.{Option, none, some}
pub use mathlib.Core.List.{List, [], ◌∷◌, ◌++◌, map}
pub use native.Mathlib.Omega.{arith}
pub use Text.{
  Bytes, codes, Bytes-discrete, eqb_refl, eqb_eq, eqb_iff, ltb_bytes_irrefl, ltb_bytes_trans,
  ltb_bytes_total, ltb_bytes_neg_trans,
}
unfoldable pub use Text.{eqb, ltb_bytes, has_prefix, join}
pub use Results.*
