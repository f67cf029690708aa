-- ===== src/Value.antt =====
-- The values of a claim as the code sees them after JSON is read, with Python's `==`, truth, `in`
-- and `set`.
mod Json
mod Sets
mod Subscript
unfoldable pub use Json.*
unfoldable pub use Sets.*
unfoldable pub use Subscript.*
