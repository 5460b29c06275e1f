-- ===== src/Prelude.antt =====
-- The names that the modules of the library share: those of the antt libraries, passed on, and
-- those of the children: Boolean tests, lists measured by native numbers, texts as lists of code
-- units, and the association lists that stand for a JavaScript `Map` or `Set`.
mod Tests
mod Lists
mod Eq
mod Texts
mod Strings
mod Dict
mod Sets
mod Sorts
mod Int
pub use Tests.*
pub use Lists.*
pub use Eq.{Equality, ◌==◌, nat_eq, text_eq, contains, beq_refl}
pub use Texts.*
pub use Strings.{
  is_empty, is_none, drop_space, drop_end, trim_space, value_from, value_from-decimal,
  decimal-longer,
}
unfoldable pub use Strings.{is_space, decimal}
pub use Dict.*
pub use Sets.{delete, add, contains-delete, contains-add, or_false, or_assoc}
pub use Sorts.*
pub use Int.{ℤ, pos, negsuc, pos_part, neg_part, sub_ℕ, ◌≤ℤ◌, ltb_ℤ}
unfoldable pub use Int.{◌+ℤ◌}
pub use Prim.Native.Nat.{ℕ, zero, suc, ◌+◌, ◌-◌, ◌*◌, ◌/◌, ◌%◌, ◌^◌, ◌≤◌, ◌<◌, min, max}
pub use Prim.Native.String.{String}
pub use mathlib.Core.Path.{◌≡◌, refl, sym, subst, ap, ap₂, ◌∙◌, ◌≡⟨◌⟩◌, ◌∎}
pub use mathlib.Core.Logic.{◌≢◌, ◌↔◌, ◌⊎◌, inl, inr}
pub use mathlib.Core.Bool.{Bool, true, false, not, ◌&&◌, ◌||◌}
pub use mathlib.Core.Option.{Option, none, some}
pub use mathlib.Core.List.{List, [], ◌∷◌, ◌++◌, map, append-nil, append_assoc}
pub use native.Mathlib.Omega.{arith}
