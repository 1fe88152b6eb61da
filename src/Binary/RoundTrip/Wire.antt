-- ===== src/Binary/RoundTrip/Wire.antt =====
-- What `_ProtobufCodec` reads from the bytes that it wrote.
use nexus_smarttrading.Prelude.{
  ℕ, suc, ◌/◌, ◌%◌, ◌^◌, ◌≤◌, ◌<◌, ◌≡◌, refl, true, List, [], ◌∷◌, ◌++◌, length, length-append, ok,
  arith, ◌>>=◌,
}
use mathlib.Core.Path.{subst}
use mathlib.Core.List.{append-nil}
use nexus_smarttrading.Prelude.Int.{pos}
use nexus_smarttrading.Binary.{Bytes, Platform, Trade, Quote, side_value}
use nexus_smarttrading.Binary.Varint.{groups, encode_varint}
use nexus_smarttrading.Binary.Protobuf
use nexus_smarttrading.Binary.Protobuf.{
  Field, number, double, text, fields_loop, assign_trade, assign_quote, finish_trade, finish_quote,
  no_trade, no_quote,
}
use nexus_smarttrading.Binary.Fields.{
  Wire, number-Wire, double-Wire, text-Wire, loop-Wire, assign_all,
}

module _ (platform : Platform) where
  open platform use {Double, is_utf8, pack_double}

  trade_fields : Trade Double → ℕ → List (Field Double)
  trade_fields t timestamp =
      text 1 t.symbol
      ∷ double 2 t.price
      ∷ double 3 t.size
      ∷ number 4 timestamp
      ∷ text 5 t.trade_id
      ∷ number 6 (side_value t.side)
      ∷ []

  varint : ℕ → Bytes
  varint v = groups (suc v) v

  pub trade_bytes : Trade Double → ℕ → Bytes
  unfolding varint
  trade_bytes t timestamp =
      0x0A
      ∷ (varint (length t.symbol)
          ++ (t.symbol
              ++ (0x11
                  ∷ (pack_double t.price
                      ++ (0x19
                          ∷ (pack_double t.size
                              ++ (0x20
                                  ∷ (varint timestamp
                                      ++ (0x2A
                                          ∷ (varint (length t.trade_id)
                                              ++ (t.trade_id
                                                  ++ (0x30 ∷ varint (side_value t.side)))))))))))))

  last-Wire :
      (tag value : ℕ)
      → tag < 128
      → tag % 8 ≡ 0
      → value < 2 ^ 77
      → Wire platform (number (tag / 8) value ∷ []) (tag ∷ varint value)
  unfolding varint
  last-Wire tag value h w v =
      subst (λ l. Wire platform (number (tag / 8) value ∷ []) (tag ∷ l)) (append-nil (varint value))
        (number-Wire platform tag value [] [] h w v Wire.done)

  trade-Wire :
      (t : Trade Double) (timestamp : ℕ)
      → length t.symbol < 2 ^ 77
      → length t.trade_id < 2 ^ 77
      → timestamp < 2 ^ 77
      → is_utf8 t.symbol ≡ true
      → is_utf8 t.trade_id ≡ true
      → Wire platform (trade_fields t timestamp) (trade_bytes t timestamp)
  unfolding trade_fields trade_bytes
  trade-Wire t timestamp a b c u v = text-Wire platform 0x0A t.symbol _ _ (omega arith) refl a u (
      double-Wire platform 0x11 t.price _ _ (omega arith) refl (
        double-Wire platform 0x19 t.size _ _ (omega arith) refl (
          number-Wire platform 0x20 timestamp _ _ (omega arith) refl c (
            text-Wire platform 0x2A t.trade_id _ _ (omega arith) refl b v
              (last-Wire 0x30 (side_value t.side) (omega arith) refl (ground arith))))))

  read-trade :
      (t : Trade Double) (timestamp : ℕ)
      → t.timestamp_ns ≡ pos timestamp
      → (assign_all platform assign_trade (trade_fields t timestamp) no_trade >>= finish_trade)
        ≡ ok t
  unfolding trade_fields assign_trade finish_trade
  read-trade t timestamp e = ground (arith, e)

  pub trade-serialized :
      (t : Trade Double) (timestamp : ℕ)
      → t.timestamp_ns ≡ pos timestamp
      → Protobuf.serialize_trade platform t ≡ ok (trade_bytes t timestamp)
  unfolding Protobuf.serialize_trade trade_bytes encode_varint
  trade-serialized t timestamp e = rw e refl

  pub protobuf-trade :
      (t : Trade Double) (timestamp : ℕ)
      → t.timestamp_ns ≡ pos timestamp
      → length t.symbol < 2 ^ 77
      → length t.trade_id < 2 ^ 77
      → timestamp < 2 ^ 77
      → is_utf8 t.symbol ≡ true
      → is_utf8 t.trade_id ≡ true
      → Protobuf.deserialize_trade platform (trade_bytes t timestamp) ≡ ok t
  unfolding Protobuf.deserialize_trade
  protobuf-trade t timestamp e a b c u v =
      rw
        (loop-Wire platform assign_trade (trade_fields t timestamp)
          (length (trade_bytes t timestamp)) (trade_bytes t timestamp) no_trade
          (trade-Wire t timestamp a b c u v) (omega arith))
        (read-trade t timestamp e)

  quote_fields : Quote Double → ℕ → List (Field Double)
  quote_fields q timestamp =
      text 1 q.symbol
      ∷ double 2 q.bid_price
      ∷ double 3 q.bid_size
      ∷ double 4 q.ask_price
      ∷ double 5 q.ask_size
      ∷ number 6 timestamp
      ∷ []

  pub quote_bytes : Quote Double → ℕ → Bytes
  unfolding varint
  quote_bytes q timestamp =
      0x0A
      ∷ (varint (length q.symbol)
          ++ (q.symbol
              ++ (0x11
                  ∷ (pack_double q.bid_price
                      ++ (0x19
                          ∷ (pack_double q.bid_size
                              ++ (0x21
                                  ∷ (pack_double q.ask_price
                                      ++ (0x29
                                          ∷ (pack_double q.ask_size
                                              ++ (0x30 ∷ varint timestamp)))))))))))

  quote-Wire :
      (q : Quote Double) (timestamp : ℕ)
      → length q.symbol < 2 ^ 77
      → timestamp < 2 ^ 77
      → is_utf8 q.symbol ≡ true
      → Wire platform (quote_fields q timestamp) (quote_bytes q timestamp)
  unfolding quote_fields quote_bytes
  quote-Wire q timestamp a c u = text-Wire platform 0x0A q.symbol _ _ (omega arith) refl a u (
      double-Wire platform 0x11 q.bid_price _ _ (omega arith) refl (
        double-Wire platform 0x19 q.bid_size _ _ (omega arith) refl (
          double-Wire platform 0x21 q.ask_price _ _ (omega arith) refl (
            double-Wire platform 0x29 q.ask_size _ _ (omega arith) refl
              (last-Wire 0x30 timestamp (omega arith) refl c)))))

  read-quote :
      (q : Quote Double) (timestamp : ℕ)
      → q.timestamp_ns ≡ pos timestamp
      → (assign_all platform assign_quote (quote_fields q timestamp) no_quote >>= finish_quote)
        ≡ ok q
  unfolding quote_fields assign_quote finish_quote
  read-quote q timestamp e = ground (arith, e)

  pub quote-serialized :
      (q : Quote Double) (timestamp : ℕ)
      → q.timestamp_ns ≡ pos timestamp
      → Protobuf.serialize_quote platform q ≡ ok (quote_bytes q timestamp)
  unfolding Protobuf.serialize_quote quote_bytes encode_varint
  quote-serialized q timestamp e = rw e refl

  pub protobuf-quote :
      (q : Quote Double) (timestamp : ℕ)
      → q.timestamp_ns ≡ pos timestamp
      → length q.symbol < 2 ^ 77
      → timestamp < 2 ^ 77
      → is_utf8 q.symbol ≡ true
      → Protobuf.deserialize_quote platform (quote_bytes q timestamp) ≡ ok q
  unfolding Protobuf.deserialize_quote
  protobuf-quote q timestamp e a c u =
      rw
        (loop-Wire platform assign_quote (quote_fields q timestamp)
          (length (quote_bytes q timestamp)) (quote_bytes q timestamp) no_quote
          (quote-Wire q timestamp a c u) (omega arith))
        (read-quote q timestamp e)

  pub trade_texts :
      (t : Trade Double) (timestamp : ℕ)
      → (length t.symbol ≤ length (trade_bytes t timestamp))
        × (length t.trade_id ≤ length (trade_bytes t timestamp))
  unfolding trade_bytes
  trade_texts t timestamp = simp (length-append) (ground arith)

  pub quote_text :
      (q : Quote Double) (timestamp : ℕ) → length q.symbol ≤ length (quote_bytes q timestamp)
  unfolding quote_bytes
  quote_text q timestamp = simp (length-append) (ground arith)
