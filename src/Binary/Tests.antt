-- ===== src/Binary/Tests.antt =====
-- A trade and a quote through both protocols.
use nexus_smarttrading.Prelude.{
  ◌≡◌, refl, Bool, true, false, [], ◌∷◌, ltb, if◌then◌else◌, length, ok, raise, Error, value_error,
  arith,
}
use nexus_smarttrading.Prelude.Int.{pos, negsuc}
use nexus_smarttrading.Binary.{Bytes, Platform, protobuf, flatbuffers, Quote, sell, same_bytes}
use nexus_smarttrading.Binary.Frame.{Message, serialize, deserialize}
use nexus_smarttrading.Binary.RoundTrip.Messages.{
  deserialize-serialize, deserialize-negative, with_time,
}
use nexus_smarttrading.Binary.Errors.Payloads.{deserialize-raises}
use nexus_smarttrading.Binary.Varint.{groups, encode_varint, decode_varint, decode_loop}
use nexus_smarttrading.Binary.Words.{little, from_little, pack_unsigned, pack_long}
use nexus_smarttrading.Binary.Protobuf
use nexus_smarttrading.Binary.FlatBuffers
use nexus_smarttrading.Binary.FlatBuffers.{string_data}
use nexus_smarttrading.Binary.Frame.{
  trade_body, serialize_trade, serialize_quote, framed, parse_and_validate,
}

-- The doubles 0.0 and 1.0.
data Sample : Type 0 where
  nought one : Sample

sample_bytes : Sample → Bytes
sample_bytes nought = 0 ∷ 0 ∷ 0 ∷ 0 ∷ 0 ∷ 0 ∷ 0 ∷ 0 ∷ []
sample_bytes one = 0 ∷ 0 ∷ 0 ∷ 0 ∷ 0 ∷ 0 ∷ 0xF0 ∷ 0x3F ∷ []

bytes_sample : Bytes → Sample
bytes_sample bytes = if same_bytes bytes (sample_bytes one) then one else nought

all_ascii : Bytes → Bool
all_ascii [] = true
all_ascii (b ∷ bs) = if ltb b 128 then all_ascii bs else false

length-sample_bytes : (d : Sample) → length (sample_bytes d) ≡ 8
unfolding sample_bytes
length-sample_bytes nought = refl
length-sample_bytes one = refl

bytes_sample-sample_bytes : (d : Sample) → bytes_sample (sample_bytes d) ≡ d
unfolding sample_bytes bytes_sample
bytes_sample-sample_bytes nought = refl
bytes_sample-sample_bytes one = refl

abbrev ascii : Platform
ascii = record {
  Double = Sample;
  is_utf8 = all_ascii;
  pack_double = sample_bytes;
  unpack_double = bytes_sample;
  length-pack_double = length-sample_bytes;
  unpack-pack_double = bytes_sample-sample_bytes;
}

abbrev btc : Bytes
btc = b'B' ∷ b'T' ∷ b'C' ∷ []

abbrev a_trade : Message Sample
a_trade = Message.trade (record {
  symbol = btc;
  price = one;
  size = nought;
  timestamp_ns = pos 300;
  trade_id = b'x' ∷ [];
  side = sell;
})

abbrev quote_of : Quote Sample
quote_of = record {
  symbol = btc;
  bid_price = one;
  bid_size = nought;
  ask_price = one;
  ask_size = one;
  timestamp_ns = negsuc 4;
}

abbrev a_quote : Message Sample
a_quote = Message.quote quote_of

abbrev trade_payload : Bytes
trade_payload =
    1 ∷ 1 ∷ 0 ∷ 0 ∷ 0 ∷ 31 ∷ 10 ∷ 3 ∷ b'B' ∷ b'T' ∷ b'C' ∷ 17 ∷ 0 ∷ 0 ∷ 0 ∷ 0 ∷ 0 ∷ 0 ∷ 0xF0 ∷ 0x3F
    ∷ 25 ∷ 0 ∷ 0 ∷ 0 ∷ 0 ∷ 0 ∷ 0 ∷ 0 ∷ 0 ∷ 32 ∷ 172 ∷ 2 ∷ 42 ∷ 1 ∷ b'x' ∷ 48 ∷ 2 ∷ []

-- 300 is written as 44 + 128 and 2.
trade_serialized : serialize ascii protobuf a_trade ≡ ok trade_payload
unfolding serialize serialize_trade Protobuf.serialize_trade encode_varint groups framed
    pack_unsigned little sample_bytes
trade_serialized = refl

-- The quote's time is negative.
abbrev quote_payload : Bytes
quote_payload =
    2 ∷ 2 ∷ 0 ∷ 0 ∷ 0 ∷ 76 ∷ 20 ∷ 0 ∷ 0 ∷ 0 ∷ 16 ∷ 0 ∷ 48 ∷ 0 ∷ 4 ∷ 0 ∷ 8 ∷ 0 ∷ 16 ∷ 0 ∷ 24 ∷ 0 ∷ 32
    ∷ 0 ∷ 40 ∷ 0 ∷ 16 ∷ 0 ∷ 0 ∷ 0 ∷ 44 ∷ 0 ∷ 0 ∷ 0 ∷ 0 ∷ 0 ∷ 0 ∷ 0 ∷ 0 ∷ 0 ∷ 0xF0 ∷ 0x3F ∷ 0 ∷ 0 ∷ 0
    ∷ 0 ∷ 0 ∷ 0 ∷ 0 ∷ 0 ∷ 0 ∷ 0 ∷ 0 ∷ 0 ∷ 0 ∷ 0 ∷ 0xF0 ∷ 0x3F ∷ 0 ∷ 0 ∷ 0 ∷ 0 ∷ 0 ∷ 0 ∷ 0xF0 ∷ 0x3F
    ∷ 0xFB ∷ 0xFF ∷ 0xFF ∷ 0xFF ∷ 0xFF ∷ 0xFF ∷ 0xFF ∷ 0xFF ∷ 3 ∷ 0 ∷ 0 ∷ 0 ∷ b'B' ∷ b'T' ∷ b'C' ∷ 0
    ∷ []

quote_serialized : serialize ascii flatbuffers a_quote ≡ ok quote_payload
unfolding serialize serialize_quote FlatBuffers.serialize_quote string_data pack_long framed
    pack_unsigned little sample_bytes
quote_serialized = refl

deserialize-serialize_example : deserialize ascii flatbuffers quote_payload ≡ ok a_quote
unfolding all_ascii
deserialize-serialize_example =
    deserialize-serialize ascii flatbuffers a_quote quote_payload quote_serialized refl refl

protobuf_trade_read : deserialize ascii protobuf trade_payload ≡ ok a_trade
unfolding all_ascii
protobuf_trade_read =
    deserialize-serialize ascii protobuf a_trade trade_payload trade_serialized refl refl

-- A body that ends in a varint.
truncated : deserialize ascii protobuf (1 ∷ 1 ∷ 0 ∷ 0 ∷ 0 ∷ 1 ∷ 200 ∷ []) ≡ raise value_error
unfolding deserialize parse_and_validate trade_body from_little Protobuf.deserialize_trade
    Protobuf.fields_loop Protobuf.read_field decode_varint decode_loop
truncated = refl

deserialize-raises_example : ◌≡◌ {A = Error} value_error value_error
deserialize-raises_example =
    deserialize-raises ascii protobuf (1 ∷ 1 ∷ 0 ∷ 0 ∷ 0 ∷ 1 ∷ 200 ∷ []) value_error truncated

-- A quote five nanoseconds before the epoch: nine groups of 127 but the first, and a last of 1.
abbrev early_payload : Bytes
early_payload =
    1 ∷ 2 ∷ 0 ∷ 0 ∷ 0 ∷ 52 ∷ 10 ∷ 3 ∷ b'B' ∷ b'T' ∷ b'C' ∷ 17 ∷ 0 ∷ 0 ∷ 0 ∷ 0 ∷ 0 ∷ 0 ∷ 0xF0 ∷ 0x3F
    ∷ 25 ∷ 0 ∷ 0 ∷ 0 ∷ 0 ∷ 0 ∷ 0 ∷ 0 ∷ 0 ∷ 33 ∷ 0 ∷ 0 ∷ 0 ∷ 0 ∷ 0 ∷ 0 ∷ 0xF0 ∷ 0x3F ∷ 41 ∷ 0 ∷ 0 ∷ 0
    ∷ 0 ∷ 0 ∷ 0 ∷ 0xF0 ∷ 0x3F ∷ 48 ∷ 251 ∷ 255 ∷ 255 ∷ 255 ∷ 255 ∷ 255 ∷ 255 ∷ 255 ∷ 255 ∷ 1 ∷ []

early_serialized : serialize ascii protobuf (with_time ascii (negsuc 4) a_quote) ≡ ok early_payload
unfolding serialize serialize_quote Protobuf.serialize_quote encode_varint groups framed
    pack_unsigned little sample_bytes
early_serialized = refl

deserialize-negative_example :
    deserialize ascii protobuf early_payload
    ≡ ok (with_time ascii (pos 18446744073709551611) a_quote)
unfolding all_ascii
deserialize-negative_example =
    deserialize-negative ascii a_quote 4 early_payload (omega arith) early_serialized refl
