-- ===== src/Common.antt =====
-- The names that the other modules share: the libraries', passed on, and those of the children.
mod Tests
mod Lists
mod Counts
mod Equality
mod Maps
mod Text
pub mod Int
pub use Tests.*
pub use Lists.*
pub use Equality.*
unfoldable pub use Maps.{find, insert, erase}
pub use Maps.{
  Map, Unique, find-insert, find-erase, length-insert, length-insert_present, length-erase,
  Unique-insert, Unique-erase,
}
unfoldable pub use Counts.{count, tally}
pub use Counts.{
  weight_at, tally-insert, tally-erase, tally_pos, count-insert, count-erase, count_pos_of_find,
  hit,
}
pub use Int.{ℤ, pos, negsuc, int_eq, leℤ}
unfoldable pub use Text.{Bytes, codes, is_prefix, prefix_rest, split_at_byte}
pub use Text.{append_nil, is_prefix-append, prefix_rest-append, split_at_byte-append, Lacks, lacks}
pub use Prim.Native.Nat.{ℕ, zero, suc, ◌+◌, ◌-◌, ◌*◌, ◌/◌, ◌%◌, ◌^◌, ◌≤◌, ◌<◌, min, max}
pub use mathlib.Core.Path.{◌≡◌, refl, sym, ap, ◌∙◌, subst}
pub use mathlib.Core.Logic.{◌≢◌, ◌↔◌, ◌⊎◌, inl, inr}
pub use mathlib.Core.Bool.{Bool, true, false, not, ◌&&◌, ◌||◌}
pub use mathlib.Core.Option.{Option, none, some}
pub use mathlib.Core.List.{List, [], ◌∷◌, ◌++◌, map}
pub use native.Mathlib.Omega.{arith}
