-- ===== src/Prelude.antt =====
-- The names that the other modules share: the libraries', passed on, and those of the children.
mod Tests
mod Lists
mod Maps
mod Texts
mod Sets
mod Chars
mod Parts
mod Groups
pub mod Int
pub use Tests.*
pub use Lists.*
unfoldable pub use Maps.{lookup, insert, append_at, group, group_by, members}
pub use Maps.{
  lookup-insert, group-append_at, group-group_by, In-group_by, In-append_at_new, In-append_at_old,
  Grouped, append_at-Grouped, Grouped-In, length-members-append_at,
}
unfoldable pub use Sets.{contains, times}
pub use Sets.{Unique, length-le_of_Unique, keys, contains-keys, length-keys-insert, In-of_contains}
unfoldable pub use Texts.{format}
pub use Chars.*
pub use Parts.*
pub use Groups.{group_by-Grouped, All-append_inv, All-concat_inv}
pub use Prim.Native.Nat.{ℕ, zero, suc, ◌+◌, ◌-◌, ◌*◌, ◌/◌, ◌%◌, ◌^◌, ◌≤◌, ◌<◌, min, max}
pub use Prim.Native.String.{String}
pub use mathlib.Core.Path.{◌≡◌, refl, sym, ap, ◌∙◌, subst, fun_ext}
pub use mathlib.Core.Logic.{◌≢◌, ◌↔◌, ◌⊎◌, inl, inr}
pub use mathlib.Core.Bool.{Bool, true, false, not, ◌&&◌, ◌||◌}
pub use mathlib.Core.Option.{Option, none, some}
pub use mathlib.Core.List.{List, [], ◌∷◌, ◌++◌, map}
pub use mathlib.Core.List.{Permᴰ, append-nil, append_assoc}
pub use native.Mathlib.Omega.{arith}
pub use native.Mathlib.Decide.{ℕ_discrete}
