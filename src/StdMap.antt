-- ===== src/StdMap.antt =====
-- `std::map` with string keys, and `std::set` of strings: the entries in the order of their keys.
mod Order
pub mod Cursor
mod Laws
pub mod Ext
pub use Laws.*
pub use Order.{
  Above, Above-find, IsSorted, insert-IsSorted, assign-IsSorted, erase-IsSorted, find-erase,
}
unfoldable pub use Defs.{find, place, insert, assign, erase, add}
pub use Defs.{StdMap, has}
mod Defs
pub mod Values
pub mod Iterator
