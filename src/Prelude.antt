-- ===== src/Prelude.antt =====
-- The names that the other modules share: the libraries', passed on, and those of the children.
mod Tests
mod Lists
pub mod Bits
mod Decimal
mod Xor
pub mod Sort
pub use Tests.{
  ltb, leb, ◌==◌, if◌then◌else◌, ==_iff, ltb→lt, lt→ltb, leb→le, Bool-cases, Option-cases, Bytes,
  bytes_eq_iff, bytes_eq_refl, Eq, bytes_key, nat_key,
}
unfoldable pub use Tests.{text, bytes_eq}
pub use Lists.{
  length, set, get_or, replicate, All, length-append, length-take, length-drop, take-append_length,
  drop-append_length, take_of_length-le, take-append_le, drop-append_le, drop-append_ge,
  take-take_le, take-append_ge,
}
unfoldable pub use Lists.{take, drop}
unfoldable pub use Sort.{sort, insert_sorted, bytes_lt}
unfoldable pub use Decimal.{decimal, decimal_loop}
pub use Xor.{bit_xor-lt, bit_xor_cancel_right, bit_xor_cancel_left}
pub use Prim.Native.Nat.{
  ℕ, zero, suc, ◌+◌, ◌-◌, ◌*◌, ◌/◌, ◌%◌, ◌^◌, ◌≤◌, ◌<◌, min, max, bit_and, bit_or, bit_xor,
}
pub use Prim.Native.String.{String}
pub use mathlib.Core.Path.{◌≡◌, refl, sym, ap, ◌∙◌}
pub use mathlib.Core.Logic.{◌≢◌, ◌↔◌, ◌⊎◌, inl, inr}
pub use mathlib.Core.Bool.{Bool, true, false, not, ◌&&◌, ◌||◌}
pub use mathlib.Core.Option.{Option, none, some}
pub use mathlib.Core.List.{List, [], ◌∷◌, ◌++◌, map, append-nil, append_assoc}
pub use native.Mathlib.Omega.{arith}
