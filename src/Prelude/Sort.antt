-- ===== src/Prelude/Sort.antt =====
-- sort.Slice: what it promises, one function that keeps the promise, and the uniqueness of the
-- result under an order that tells the elements apart.
mod Defs
pub mod Insertion
pub mod Uniqueness
pub use Defs.*
