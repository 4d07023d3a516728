-- ===== src/Prelude.antt =====
-- The names that the other modules share: the libraries' and those of the children.
mod Tests
mod Lists
mod Texts
mod Sort
mod Ints
pub use Tests.*
pub use Lists.*
unfoldable pub use Texts.{text_beq, text_lt, has_prefix}
pub use Texts.{
  Text, codes, comparable_text, text_beq_iff, text_lt_asymm, text_lt_trans, text_lt_total,
}
unfoldable pub use Sort.*
pub use Ints.*
pub use Prim.Native.Nat.{◌/◌, ℕ, zero, suc, ◌+◌, ◌-◌, ◌*◌, ◌≤◌, ◌<◌}
pub use Prim.Native.String.{String}
pub use mathlib.Core.Path.{◌≡◌, refl, sym, ap, ◌∙◌, subst}
pub use mathlib.Core.Logic.{◌≢◌, ◌↔◌, ◌⊎◌, inl, inr}
pub use mathlib.Core.Bool.{Bool, true, false, not, ◌&&◌, ◌||◌}
pub use mathlib.Core.Option.{Option, none, some}
pub use mathlib.Core.List.{
  List, [], ◌∷◌, ◌++◌, map, reverse, append-nil, append_assoc, Perm, map-append,
}
pub use native.Mathlib.Omega.{arith}
