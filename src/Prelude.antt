-- ===== src/Prelude.antt =====
-- The names that the other modules share: those of the libraries, passed on, and those of the
-- children for tests, lists and machine words.
mod Tests
mod Lists
mod Slices
mod Words
pub mod Order
pub use Tests.*
pub use Lists.*
pub use Slices.*
unfoldable pub use Words.{add16, add32, sub32, add64, sub64, mul64}
pub use Words.{u16_mod, u32_mod, u64_mod, IsByte, IsU16, IsU32, IsU64, is_negative, All}
pub use Words.{All-append, All-drop, All-take}
pub use Prim.Native.Nat.{ℕ, zero, suc, ◌+◌, ◌-◌, ◌*◌, ◌/◌, ◌%◌, ◌^◌, ◌≤◌, ◌<◌, min}
pub use mathlib.Core.Path.{◌≡◌, refl, sym, ap, ◌∙◌, subst}
pub use mathlib.Core.Logic.{◌≢◌, ◌↔◌, ◌⊎◌, inl, inr}
pub use mathlib.Core.Bool.{Bool, true, false, not, ◌&&◌, ◌||◌}
pub use mathlib.Core.Option.{Option, none, some}
pub use mathlib.Core.List.{List, [], ◌∷◌, ◌++◌, map, append-nil, append_assoc}
pub use native.Mathlib.Omega.{arith}
