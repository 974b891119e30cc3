-- ===== src/Common.antt =====
-- Shared by all modules: library names passed on, Boolean tests and tables (`Common/Tests`,
-- `Common/Tables`, `Common/Keys`), text, and the type of the service methods (`Common/Action`).
mod Tests
mod Action
mod Tables
mod Keys
mod Counts
mod ReadOnly
pub mod Int
mod Text
pub use Tests.*
pub use Action.*
pub use Tables.*
pub use Keys.*
pub use Counts.*
pub use ReadOnly.*
unfoldable pub use Text.{Bytes, codes, bytes_eq, is_nil, trim_space, is_empty}
pub use Prim.Native.Nat.{ℕ, zero, suc, ◌+◌, ◌-◌, ◌*◌, ◌/◌, ◌%◌, ◌^◌, ◌≤◌, ◌<◌, pred}
pub use Prim.Native.String.{String}
pub use text.Mathlib.Text.{◌==◌ as str_eq}
pub use text.Mathlib.TextPositions.{eq_refl as str_eq_refl}
pub use text.Mathlib.TextEquality.{eq_iff as str_eq_iff}
pub use mathlib.Core.Path.{◌≡◌, refl, sym, ap, ◌∙◌}
pub use mathlib.Core.Logic.{◌≢◌, ◌↔◌, ◌⊎◌, inl, inr}
pub use mathlib.Core.Bool.{Bool, true, false, not, ◌&&◌, ◌||◌}
pub use mathlib.Core.Option.{Option, none, some}
pub use mathlib.Core.List.{List, [], ◌∷◌, ◌++◌, map}
pub use native.Mathlib.Omega.{arith}
