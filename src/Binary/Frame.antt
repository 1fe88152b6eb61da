-- ===== src/Binary/Frame.antt =====
-- `BinaryMarketDataSerializer` and `BinaryMarketDataDeserializer`: a header of a magic byte, the type
-- of the message, and the length of the body in four bytes, the highest first.
use nexus_smarttrading.Prelude.{
  ℕ, ◌+◌, ◌||◌, [], ◌∷◌, ◌++◌, ◌==◌, leb, if◌then◌else◌, length, take, drop, Result, ok, raise,
  value_error, ◌>>=◌, ◌>>◌, guard,
}
use mathlib.Core.List.{reverse}
use nexus_smarttrading.Binary.{
  Bytes, Platform, BinaryProtocolType, protobuf, flatbuffers, Trade, Quote,
}
use nexus_smarttrading.Binary.Words.{pack_unsigned, from_little}
use nexus_smarttrading.Binary.Protobuf
use nexus_smarttrading.Binary.FlatBuffers

abbrev pub magic_of : BinaryProtocolType → ℕ
magic_of protobuf = 0x01
magic_of flatbuffers = 0x02

abbrev pub msg_trade : ℕ
msg_trade = 0x01

abbrev pub msg_quote : ℕ
msg_quote = 0x02

pub data Message (D : Type 0) : Type 0 where
  trade : Trade D → Message D
  quote : Quote D → Message D

-- `struct.pack(_HEADER_FORMAT, magic, msg_type, len(body)) + body`
unfoldable pub framed : ℕ → ℕ → Bytes → Result Bytes
framed magic msg_type body = do
  size ← pack_unsigned 4 (length body)
  ok (magic ∷ msg_type ∷ (reverse size ++ body))

-- `_parse_and_validate`: the type of the message, and the body.
unfoldable pub parse_and_validate : ℕ → Bytes → Result (ℕ × Bytes)
parse_and_validate own_magic [] = raise value_error
parse_and_validate own_magic (magic ∷ []) = raise value_error
parse_and_validate own_magic (magic ∷ msg_type ∷ rest) = do
  guard (leb 4 (length rest)) value_error
  guard (magic == own_magic) value_error
  guard (msg_type == msg_trade || msg_type == msg_quote) value_error
  guard (length rest == 4 + from_little (reverse (take 4 rest))) value_error
  ok (msg_type, drop 4 rest)

module _ (platform : Platform) (protocol : BinaryProtocolType) where
  open platform use {Double}

  unfoldable pub serialize_trade : Trade Double → Result Bytes
  serialize_trade t = do
    body ← elim protocol [
      | protobuf ↦ Protobuf.serialize_trade platform t
      | flatbuffers ↦ FlatBuffers.serialize_trade platform t
    ]
    framed (magic_of protocol) msg_trade body

  unfoldable pub serialize_quote : Quote Double → Result Bytes
  serialize_quote q = do
    body ← elim protocol [
      | protobuf ↦ Protobuf.serialize_quote platform q
      | flatbuffers ↦ FlatBuffers.serialize_quote platform q
    ]
    framed (magic_of protocol) msg_quote body

  unfoldable pub serialize : Message Double → Result Bytes
  serialize (trade t) = serialize_trade t
  serialize (quote q) = serialize_quote q

  -- The trade or the quote of a body.
  unfoldable pub trade_body : Bytes → Result (Trade Double)
  trade_body body = elim protocol [
    | protobuf ↦ Protobuf.deserialize_trade platform body
    | flatbuffers ↦ FlatBuffers.deserialize_trade platform body
  ]

  unfoldable pub quote_body : Bytes → Result (Quote Double)
  quote_body body = elim protocol [
    | protobuf ↦ Protobuf.deserialize_quote platform body
    | flatbuffers ↦ FlatBuffers.deserialize_quote platform body
  ]

  unfoldable pub deserialize_trade : Bytes → Result (Trade Double)
  deserialize_trade payload = do
    (msg_type, body) ← parse_and_validate (magic_of protocol) payload
    guard (msg_type == msg_trade) value_error
    trade_body body

  unfoldable pub deserialize_quote : Bytes → Result (Quote Double)
  deserialize_quote payload = do
    (msg_type, body) ← parse_and_validate (magic_of protocol) payload
    guard (msg_type == msg_quote) value_error
    quote_body body

  unfoldable pub deserialize : Bytes → Result (Message Double)
  deserialize payload = do
    (msg_type, body) ← parse_and_validate (magic_of protocol) payload
    if msg_type == msg_trade
        then (do t ← trade_body body; ok (trade t))
        else if msg_type == msg_quote
        then (do q ← quote_body body; ok (quote q))
        else raise value_error
