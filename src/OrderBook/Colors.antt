-- ===== src/OrderBook/Colors.antt =====
-- The colour invariants of the tree, and that insertion and deletion keep them.
mod Defs
mod Insert
mod Whole
mod Delete
pub use Defs.*
pub use Delete.*
pub use Whole.*
pub use Insert.*
