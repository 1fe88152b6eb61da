-- ===== src/Matching/Books.antt =====
-- The two sides of the book: price-time priority, and no bid at or above an ask.
mod Priority
mod Crossing
mod Valid
pub use Priority.*
pub use Valid.*
pub use Crossing.*
