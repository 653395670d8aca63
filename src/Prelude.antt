-- ===== src/Prelude.antt =====
-- The names that the other modules share: the libraries', passed on, and those of the children.
mod Tests
mod Lists
mod Filter
pub mod Strings
pub mod Map
pub mod Int
pub mod Float
pub mod Sorting
pub use Tests.*
unfoldable pub use Tests.{text_beq}
pub use Lists.*
pub use Filter.*
pub use Strings.{Text, codes}
pub use Int.{ℤ, pos, negsuc, sub_ℕ}
pub use Prim.Native.Nat.{ℕ, zero, suc, ◌+◌, ◌-◌, ◌*◌, ◌/◌, ◌%◌, ◌^◌, ◌≤◌, ◌<◌}
pub use mathlib.Core.Path.{◌≡◌, refl, sym, ap, ◌∙◌, subst}
pub use mathlib.Core.Logic.{◌≢◌, ◌↔◌, ◌⊎◌, inl, inr}
pub use mathlib.Core.Bool.{Bool, true, false, not, ◌&&◌, ◌||◌}
pub use mathlib.Core.Option.{Option, none, some}
pub use mathlib.Core.List.{List, [], ◌∷◌, ◌++◌, map, foldl, reverse, Mem}
pub use mathlib.Core.List.{append-nil, append_assoc}
pub use native.Mathlib.Omega.{arith}

-- Appends to the right, without the empty list, and out of a filter.
pub ruleset list_laws = (append-nil, append_assoc, filter-append)
