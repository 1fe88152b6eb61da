-- ===== src/Matching.antt =====
-- execution/models.py (orders and trades) and execution/matching_engine.py.
-- Prices, quantities and timestamps are whole numbers of the smallest unit, identifiers are
-- numbers, and the book owns its orders: what the code writes to a shared order is in the result.
pub mod Order
pub mod Sort
pub mod Engine
pub mod Quantity
pub mod Books
pub mod Refusal
pub mod Trades
mod Tests
