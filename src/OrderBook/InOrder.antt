-- ===== src/OrderBook/InOrder.antt =====
-- The traversal in order, which is what the tree means.
mod Insert
mod Delete
unfoldable pub use Insert.*
pub use Delete.*
