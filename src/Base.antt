-- ===== src/Base.antt =====
-- The names that the other modules share: the libraries', passed on, and those of its children.
mod Tests
mod Lists
mod Places
mod Assoc
mod Int
mod Monad
mod Floats
mod Texts
mod Numbers
mod Every
mod Sorts
pub use Tests.*
pub use Lists.*
pub use Places.*
pub use Int.*
pub use Every.*
pub use Sorts.{Sorted, sort_nonempty, sort-Permᴰ, sort-Sorted}
unfoldable pub use Sorts.{sort}
pub use Monad.*
pub use Floats.*
unfoldable pub use Texts.{has_prefix, trim_prefix, contains, split_slash, behind, itoa, digits}
unfoldable pub use Numbers.{parse_int, format_int, scan, scan_all}
pub use Texts.{has_prefix-nil, contains-nil}
unfoldable pub use Assoc.{lookup, insert, delete, has_key}
pub use Assoc.{keys, values, lookup-insert, lookup-insert_self, has_key-insert, lookup-delete}
pub use Prim.Native.Nat.{ℕ, zero, suc, ◌+◌, ◌-◌, ◌*◌, ◌/◌, ◌%◌, ◌^◌, ◌≤◌, ◌<◌, min, max}
pub use Prim.Native.String.{String}
pub use mathlib.Core.Path.{◌≡◌, refl, sym, ap, ap₂, ◌∙◌, subst, fun_ext, ◌≡⟨◌⟩◌, ◌∎}
pub use mathlib.Core.Logic.{◌≢◌, ◌↔◌, ◌⊎◌, inl, inr}
pub use mathlib.Core.Bool.{Bool, true, false, not, ◌&&◌, ◌||◌}
pub use mathlib.Core.Option.{Option, none, some, some-injective}
pub use mathlib.Core.List.{
  List, [], ◌∷◌, ◌++◌, map, append-nil, append_assoc, map-append, Memᴰ, Permᴰ,
}
pub use native.Mathlib.Omega.{arith}
