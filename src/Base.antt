-- ===== src/Base.antt =====
-- The names that the other modules share: the libraries', passed on, and those of the children.
mod Tests
mod Lists
mod Int
mod Text
pub mod Sort
pub mod Occurs
pub use Tests.*
pub use Lists.*
unfoldable pub use Sort.{insert_by, sort_by}
unfoldable pub use Int.{◌+ℤ◌}
pub use Int.{ℤ, pos, negsuc, pos_part, neg_part, ◌≤ℤ◌, ltb_ℤ, +ℤ_parts, eq_of_parts, int_laws}
unfoldable pub use Text.{strip, decimal, join, upper, lower}
pub use Text.{is_empty, starts_with, take_text, text_length}
pub use Prim.Native.Nat.{ℕ, zero, suc, ◌+◌, ◌-◌, ◌*◌, ◌/◌, ◌%◌, ◌^◌, ◌≤◌, ◌<◌}
pub use Prim.Native.String.{String}
pub use mathlib.Core.Path.{◌≡◌, refl, sym, ap, ◌∙◌}
pub use mathlib.Core.Logic.{◌≢◌, ◌↔◌, ◌⊎◌, inl, inr}
pub use mathlib.Core.Bool.{Bool, true, false, not, ◌&&◌, ◌||◌}
pub use mathlib.Core.Option.{Option, none, some}
pub use mathlib.Core.List.{List, [], ◌∷◌, ◌++◌, map}
pub use native.Mathlib.Omega.{arith}
pub use text.Mathlib.Text.{◌==◌ as str_eq}
pub use text.Mathlib.TextEquality.{eq_iff}
