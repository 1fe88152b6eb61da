-- ===== src/Binary/Protobuf.antt =====
-- `_ProtobufCodec`. A body is read from its front: `body[offset:]` stands for `body` and `offset`.
use nexus_smarttrading.Prelude.{
  ℕ, zero, suc, ◌/◌, ◌%◌, Bool, ◌||◌, Option, none, some, [], ◌∷◌, ◌++◌, ◌==◌, leb, if◌then◌else◌,
  length, take, drop, Result, ok, raise, value_error, out_of_fuel, ◌>>=◌, ◌>>◌, guard,
}
use nexus_smarttrading.Prelude.Int.{pos}
use nexus_smarttrading.Binary.{
  Bytes, Platform, Side, buy, sell, Trade, Quote, same_bytes, side_value, or_incomplete,
}
use nexus_smarttrading.Binary.Varint.{encode_varint, decode_varint}

-- A field of the wire with its number.
pub data Field (D : Type 0) : Type 0 where
  number : ℕ → ℕ → Field D
  double : ℕ → D → Field D
  text : ℕ → Bytes → Field D
  skipped : Field D

-- The variables of the two loops.
pub record PartialTrade (D : Type 0) : Type 0 where
  pub symbol : Option Bytes
  pub price : Option D
  pub size : Option D
  pub timestamp_ns : Option ℕ
  pub trade_id : Option Bytes
  pub side : Option Side

pub record PartialQuote (D : Type 0) : Type 0 where
  pub symbol : Option Bytes
  pub bid_price : Option D
  pub bid_size : Option D
  pub ask_price : Option D
  pub ask_size : Option D
  pub timestamp_ns : Option ℕ

abbrev pub no_trade : {D : Type 0} → PartialTrade D
no_trade = record {
  symbol = none;
  price = none;
  size = none;
  timestamp_ns = none;
  trade_id = none;
  side = none;
}

abbrev pub no_quote : {D : Type 0} → PartialQuote D
no_quote = record {
  symbol = none;
  bid_price = none;
  bid_size = none;
  ask_price = none;
  ask_size = none;
  timestamp_ns = none;
}

-- "BUY", "Side.BUY", "SELL" and "Side.SELL".
abbrev pub is_buy : Bytes → Bool
is_buy s =
    same_bytes s (b'B' ∷ b'U' ∷ b'Y' ∷ [])
    || same_bytes s (b'S' ∷ b'i' ∷ b'd' ∷ b'e' ∷ b'.' ∷ b'B' ∷ b'U' ∷ b'Y' ∷ [])

abbrev pub is_sell : Bytes → Bool
is_sell s =
    same_bytes s (b'S' ∷ b'E' ∷ b'L' ∷ b'L' ∷ [])
    || same_bytes s (b'S' ∷ b'i' ∷ b'd' ∷ b'e' ∷ b'.' ∷ b'S' ∷ b'E' ∷ b'L' ∷ b'L' ∷ [])

module _ {D : Type 0} where
  -- What the loop of `deserialize_trade` does with a field.
  unfoldable pub assign_trade : Field D → PartialTrade D → Result (PartialTrade D)
  assign_trade (number n val) p =
      if n == 4
      then ok (record p { timestamp_ns = some val })
      else if n == 6
      then (if val == 1
          then ok (record p { side = some buy })
          else if val == 2
          then ok (record p { side = some sell })
          else raise value_error)
      else ok p
  assign_trade (double n val) p =
      if n == 2
      then ok (record p { price = some val })
      else if n == 3
      then ok (record p { size = some val })
      else ok p
  assign_trade (text n val) p =
      if n == 1
      then ok (record p { symbol = some val })
      else if n == 5
      then ok (record p { trade_id = some val })
      else if n == 6
      then (if is_buy val
          then ok (record p { side = some buy })
          else if is_sell val
          then ok (record p { side = some sell })
          else raise value_error)
      else ok p
  assign_trade skipped p = ok p

  -- The same for `deserialize_quote`, which takes any text for the symbol.
  unfoldable pub assign_quote : Field D → PartialQuote D → Result (PartialQuote D)
  assign_quote (number n val) p = if n == 6 then ok (record p { timestamp_ns = some val }) else ok p
  assign_quote (double n val) p =
      if n == 2
      then ok (record p { bid_price = some val })
      else if n == 3
      then ok (record p { bid_size = some val })
      else if n == 4
      then ok (record p { ask_price = some val })
      else if n == 5
      then ok (record p { ask_size = some val })
      else ok p
  assign_quote (text n val) p = ok (record p { symbol = some val })
  assign_quote skipped p = ok p

  unfoldable pub finish_trade : PartialTrade D → Result (Trade D)
  finish_trade p = do
    symbol ← or_incomplete p.symbol
    price ← or_incomplete p.price
    size ← or_incomplete p.size
    timestamp_ns ← or_incomplete p.timestamp_ns
    trade_id ← or_incomplete p.trade_id
    side ← or_incomplete p.side
    ok (record {
      symbol = symbol;
      price = price;
      size = size;
      timestamp_ns = pos timestamp_ns;
      trade_id = trade_id;
      side = side;
    })

  unfoldable pub finish_quote : PartialQuote D → Result (Quote D)
  finish_quote p = do
    symbol ← or_incomplete p.symbol
    bid_price ← or_incomplete p.bid_price
    bid_size ← or_incomplete p.bid_size
    ask_price ← or_incomplete p.ask_price
    ask_size ← or_incomplete p.ask_size
    timestamp_ns ← or_incomplete p.timestamp_ns
    ok (record {
      symbol = symbol;
      bid_price = bid_price;
      bid_size = bid_size;
      ask_price = ask_price;
      ask_size = ask_size;
      timestamp_ns = pos timestamp_ns;
    })

module _ (platform : Platform) where
  open platform use {Double, is_utf8, pack_double, unpack_double}

  -- The part of the loop's body that reads a field, by its wire type.
  unfoldable pub read_value : ℕ → ℕ → Bytes → Result (Field Double × Bytes)
  read_value field_num wire_type body =
      if wire_type == 0
      then (do (val, rest) ← decode_varint body; ok (number field_num val, rest))
      else if wire_type == 1
      then (do
        guard (leb 8 (length body)) value_error
        ok (double field_num (unpack_double (take 8 body)), drop 8 body))
      else if wire_type == 2
      then (do
        (size, rest) ← decode_varint body
        guard (leb size (length rest)) value_error
        guard (is_utf8 (take size rest)) value_error
        ok (text field_num (take size rest), drop size rest))
      else if wire_type == 5
      then (do guard (leb 4 (length body)) value_error; ok (skipped, drop 4 body))
      else raise value_error

  unfoldable pub read_field : Bytes → Result (Field Double × Bytes)
  read_field body = do (tag, rest) ← decode_varint body; read_value (tag / 8) (tag % 8) rest

  -- The `while` loop: on fuel, and over what it does with a field.
  unfoldable pub fields_loop :
      {P : Type 0} → (Field Double → P → Result P) → ℕ → Bytes → P → Result P
  fields_loop assign fuel [] p = ok p
  fields_loop assign zero (b ∷ body) p = raise out_of_fuel
  fields_loop assign (suc fuel) (b ∷ body) p = do
    (field, rest) ← read_field (b ∷ body)
    p' ← assign field p
    fields_loop assign fuel rest p'

  unfoldable pub deserialize_trade : Bytes → Result (Trade Double)
  deserialize_trade body = do
    p ← fields_loop assign_trade (length body) body no_trade
    finish_trade p

  unfoldable pub deserialize_quote : Bytes → Result (Quote Double)
  deserialize_quote body = do
    p ← fields_loop assign_quote (length body) body no_quote
    finish_quote p

  unfoldable pub serialize_trade : Trade Double → Result Bytes
  serialize_trade t = do
    symbol_length ← encode_varint (pos (length t.symbol))
    timestamp ← encode_varint t.timestamp_ns
    id_length ← encode_varint (pos (length t.trade_id))
    side ← encode_varint (pos (side_value t.side))
    ok (
        (0x0A ∷ symbol_length)
        ++ (t.symbol
            ++ ((0x11 ∷ pack_double t.price)
                ++ ((0x19 ∷ pack_double t.size)
                    ++ ((0x20 ∷ timestamp)
                        ++ ((0x2A ∷ id_length) ++ (t.trade_id ++ (0x30 ∷ side))))))))

  unfoldable pub serialize_quote : Quote Double → Result Bytes
  serialize_quote q = do
    symbol_length ← encode_varint (pos (length q.symbol))
    timestamp ← encode_varint q.timestamp_ns
    ok (
        (0x0A ∷ symbol_length)
        ++ (q.symbol
            ++ ((0x11 ∷ pack_double q.bid_price)
                ++ ((0x19 ∷ pack_double q.bid_size)
                    ++ ((0x21 ∷ pack_double q.ask_price)
                        ++ ((0x29 ∷ pack_double q.ask_size) ++ (0x30 ∷ timestamp)))))))
