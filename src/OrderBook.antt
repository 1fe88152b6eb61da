-- ===== src/OrderBook.antt =====
-- orderbook/rb_tree.py and orderbook/l2_order_book.py. Prices and quantities are whole numbers of
-- the smallest unit. A node with its parent pointers is a subtree with the path of its ancestors.
pub mod Tree
pub mod Insert
pub mod Delete
pub mod InOrder
pub mod Spec
pub mod Refinement
pub mod Colors
pub mod Height
pub mod Book
pub mod Levels
pub mod Reads
mod Tests
