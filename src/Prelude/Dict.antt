-- ===== src/Prelude/Dict.antt =====
-- Go's maps with string keys as association lists. A key is bound once; a range loop over a map
-- visits the entries in the order of the list, which stands for any order.
mod Laws
mod Entries
pub use Laws.*
pub use Entries.*
pub use Defs.{Dict}
unfoldable pub use Defs.{lookup, insert, has_key, keys, insert_all}
mod Defs
