-- ===== src/Binary.antt =====
-- market_data/deserializers/binary.py: the messages, and what the codecs take from the platform.
-- Bytes are lists of numbers. A text is its UTF-8 bytes, so that to encode it does nothing, and to
-- decode bytes is to test them. `DeserializationError` is a subclass of `ValueError`.
pub mod Varint
pub mod Protobuf
pub mod Words
pub mod FlatBuffers
pub mod Frame
pub mod Slices
pub mod Fields
pub mod Tables
pub mod RoundTrip
pub mod Errors
mod Tests
use nexus_smarttrading.Prelude.{
  ℕ, ◌≡◌, Bool, true, false, List, [], ◌∷◌, ◌&&◌, ◌==◌, length, Result, ok, raise, Option, some,
  none, value_error,
}
use nexus_smarttrading.Prelude.Int.{ℤ}

abbrev pub Bytes : Type 0
Bytes = List ℕ

-- The bytes that are UTF-8, and a double with its eight bytes of `struct.pack("<d", ...)`.
pub record Platform : Type 1 where
  pub Double : Type 0
  pub is_utf8 : Bytes → Bool
  pub pack_double : Double → Bytes
  pub unpack_double : Bytes → Double
  pub length-pack_double : (d : Double) → length (pack_double d) ≡ 8
  pub unpack-pack_double : (d : Double) → unpack_double (pack_double d) ≡ d

pub data Side : Type 0 where
  buy sell : Side

pub data BinaryProtocolType : Type 0 where
  protobuf flatbuffers : BinaryProtocolType

pub record Trade (D : Type 0) : Type 0 where
  pub symbol : Bytes
  pub price : D
  pub size : D
  pub timestamp_ns : ℤ
  pub trade_id : Bytes
  pub side : Side

pub record Quote (D : Type 0) : Type 0 where
  pub symbol : Bytes
  pub bid_price : D
  pub bid_size : D
  pub ask_price : D
  pub ask_size : D
  pub timestamp_ns : ℤ

abbrev pub same_bytes : Bytes → Bytes → Bool
same_bytes [] [] = true
same_bytes [] (b ∷ bs) = false
same_bytes (a ∷ as') [] = false
same_bytes (a ∷ as') (b ∷ bs) = a == b && same_bytes as' bs

-- `1 if side == Side.BUY else 2`
abbrev pub side_value : Side → ℕ
side_value buy = 1
side_value sell = 2

-- A field that was never set makes the message incomplete.
abbrev pub or_incomplete {ℓ} : {A : Type ℓ} → Option A → Result A
or_incomplete none = raise value_error
or_incomplete (some a) = ok a
