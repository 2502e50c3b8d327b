-- ===== src/Common.antt =====
-- The names that the other modules share: the libraries', passed on, and those of three children.
pub mod Tests
pub mod Lists
pub mod Text
pub mod Int
pub mod Chain
pub use Tests.*
pub use Lists.*
pub use Chain.*
pub use Int.{ℤ, pos, negsuc, pos_part, neg_part, sub_ℕ, ltb_ℤ, eqb_ℤ}
pub use Text.{Bytes, str_eq_iff, str_eq_refl, ne_of_str_eq}
unfoldable pub use Int.{int64}
unfoldable pub use Text.{bytes, str_eq, is_empty}
pub use Prim.Native.Nat.{ℕ, zero, suc, ◌+◌, ◌-◌, ◌*◌, ◌/◌, ◌%◌, ◌^◌, ◌≤◌, ◌<◌}
pub use mathlib.Core.Path.{◌≡◌, refl, sym, ap, ◌∙◌}
pub use mathlib.Core.Logic.{◌≢◌, ◌↔◌, ◌⊎◌, inl, inr}
pub use mathlib.Core.Bool.{Bool, true, false, not, ◌&&◌, ◌||◌}
pub use mathlib.Core.Option.{Option, none, some}
pub use mathlib.Core.List.{List, [], ◌∷◌, ◌++◌, map}
pub use native.Mathlib.Omega.{arith}
unfoldable pub use native.Mathlib.Decide.{dec_lt, ℕ_discrete}
