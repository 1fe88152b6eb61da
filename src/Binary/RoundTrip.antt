-- ===== src/Binary/RoundTrip.antt =====
-- What the deserializers read from the bytes that the serializers wrote.
mod Wire
mod Front
mod FlatTrade
mod FlatQuote
pub mod Messages
