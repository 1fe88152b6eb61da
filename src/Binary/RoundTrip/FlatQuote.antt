-- ===== src/Binary/RoundTrip/FlatQuote.antt =====
-- What `_FlatBuffersCodec` reads from the bytes of a quote that it wrote.
use nexus_smarttrading.Prelude.{
  ok_injective, ℕ, ◌+◌, ◌^◌, ◌≤◌, ◌<◌, ◌≡◌, refl, sym, ap, ◌∙◌, true, List, [], ◌∷◌, ◌++◌, length,
  ok, arith, >>=-eq-ok,
}
use nexus_smarttrading.Prelude.Int.{ℤ}
use nexus_smarttrading.Binary.{Bytes, Platform, Quote}
use nexus_smarttrading.Binary.Words.{little, from_little, pack_long, signed}
use nexus_smarttrading.Binary.FlatBuffers
use nexus_smarttrading.Binary.FlatBuffers.{Table, get_field, string_data}
use nexus_smarttrading.Binary.Slices.{total, packed_long}
use nexus_smarttrading.Binary.Tables.{
  table_of, open_table-front, read_double_lem, read_long_lem, read_str_lem,
}
use nexus_smarttrading.Binary.RoundTrip.Front.{
  entry, body, front_field, rest_slice, rest_number, string_data_ok,
}

module _ (platform : Platform) where
  open platform use {
    Double, is_utf8, pack_double, unpack_double, length-pack_double, unpack-pack_double,
  }

  -- The segments of a quote behind the first word of the table, for its packed time.
  quote_rest : Quote Double → Bytes → List Bytes
  quote_rest q timestamp =
      little 4 44
      ∷ pack_double q.bid_price
      ∷ pack_double q.bid_size
      ∷ pack_double q.ask_price
      ∷ pack_double q.ask_size
      ∷ timestamp
      ∷ little 4 (length q.symbol)
      ∷ q.symbol
      ∷ (0 ∷ [])
      ∷ []

  abbrev quote_body : Quote Double → Bytes → Bytes
  quote_body q timestamp = body 48 4 8 16 24 32 40 (quote_rest q timestamp)

  -- The bytes of a quote, once its parts were packed.
  packed_quote :
      (q : Quote Double) (str timestamp : Bytes)
      → str ≡ little 4 (length q.symbol) ++ (q.symbol ++ (0 ∷ []))
      → little 4 20
          ++ (FlatBuffers.vtable 48 4 8 16 24 32 40
              ++ (little 4 16
                  ++ (little 4 44
                      ++ (pack_double q.bid_price
                          ++ (pack_double q.bid_size
                              ++ (pack_double q.ask_price
                                  ++ (pack_double q.ask_size ++ (timestamp ++ str))))))))
        ≡ quote_body q timestamp
  unfolding body quote_rest little
  packed_quote q str timestamp a = rw a refl

  module _ (q : Quote Double) (timestamp : Bytes) (eight : length timestamp ≡ 8)
      (symbol_small : length q.symbol < 256 ^ 4) where
    total-quote : total (quote_rest q timestamp) ≡ 44 + 5 + length q.symbol
    unfolding quote_rest little
    total-quote = omega (
      arith,
      eight,
      length-pack_double q.bid_price,
      length-pack_double q.bid_size,
      length-pack_double q.ask_price,
      length-pack_double q.ask_size,
    )

    quote_field :
        (idx size : ℕ)
        → idx < 6
        → 0 < entry 4 8 16 24 32 40 idx
        → entry 4 8 16 24 32 40 idx + size ≤ 48
        → get_field (table_of (quote_body q timestamp) 48) idx size
          ≡ ok (20 + entry 4 8 16 24 32 40 idx)
    quote_field idx size h p e =
        front_field 48 4 8 16 24 32 40 (quote_rest q timestamp) idx size h (omega arith) p e
          (omega (arith, total-quote))

    read_symbol :
        is_utf8 q.symbol ≡ true
        → FlatBuffers.read_str platform (table_of (quote_body q timestamp) 48) 0 ≡ ok q.symbol
    unfolding quote_rest
    read_symbol u =
        let a = length-pack_double q.bid_price in
        let b = length-pack_double q.bid_size in
        let c = length-pack_double q.ask_price in
        let d = length-pack_double q.ask_size in
        let first : List Bytes =
          little 4 44
          ∷ pack_double q.bid_price
          ∷ pack_double q.bid_size
          ∷ pack_double q.ask_price
          ∷ pack_double q.ask_size
          ∷ timestamp
          ∷ [] in
        read_str_lem platform (table_of (quote_body q timestamp) 48) 0 24 44 q.symbol
          (unfold entry in quote_field 0 4 (omega arith) (omega arith) (omega arith))
          (rest_number 48 4 8 16 24 32 40 [] 4 44 _ 24 refl (omega arith))
          (rest_number 48 4 8 16 24 32 40 first 4 (length q.symbol) (q.symbol ∷ (0 ∷ []) ∷ []) 68
            (unfold little in omega (arith, eight, a, b, c, d)) symbol_small)
          (rest_slice 48 4 8 16 24 32 40 (first ++ (little 4 (length q.symbol) ∷ [])) q.symbol
            ((0 ∷ []) ∷ []) (length q.symbol) 72 (unfold little in omega (arith, eight, a, b, c, d))
            refl)
          u

    read_bid_price :
        FlatBuffers.read_double platform (table_of (quote_body q timestamp) 48) 1 ≡ ok q.bid_price
    unfolding quote_rest
    read_bid_price =
        read_double_lem platform (table_of (quote_body q timestamp) 48) 1 28 q.bid_price
          (unfold entry in quote_field 1 8 (omega arith) (omega arith) (omega arith))
          (rest_slice 48 4 8 16 24 32 40 (little 4 44 ∷ []) (pack_double q.bid_price) _ 8 28
            (unfold little in refl) (length-pack_double q.bid_price))

    read_bid_size :
        FlatBuffers.read_double platform (table_of (quote_body q timestamp) 48) 2 ≡ ok q.bid_size
    unfolding quote_rest
    read_bid_size =
        let a = length-pack_double q.bid_price in
        read_double_lem platform (table_of (quote_body q timestamp) 48) 2 36 q.bid_size
          (unfold entry in quote_field 2 8 (omega arith) (omega arith) (omega arith))
          (rest_slice 48 4 8 16 24 32 40 (little 4 44 ∷ pack_double q.bid_price ∷ [])
            (pack_double q.bid_size) _ 8 36 (unfold little in omega (arith, a))
            (length-pack_double q.bid_size))

    read_ask_price :
        FlatBuffers.read_double platform (table_of (quote_body q timestamp) 48) 3 ≡ ok q.ask_price
    unfolding quote_rest
    read_ask_price =
        let a = length-pack_double q.bid_price in
        let b = length-pack_double q.bid_size in
        read_double_lem platform (table_of (quote_body q timestamp) 48) 3 44 q.ask_price
          (unfold entry in quote_field 3 8 (omega arith) (omega arith) (omega arith))
          (rest_slice 48 4 8 16 24 32 40
            (little 4 44 ∷ pack_double q.bid_price ∷ pack_double q.bid_size ∷ [])
            (pack_double q.ask_price) _ 8 44 (unfold little in omega (arith, a, b))
            (length-pack_double q.ask_price))

    read_ask_size :
        FlatBuffers.read_double platform (table_of (quote_body q timestamp) 48) 4 ≡ ok q.ask_size
    unfolding quote_rest
    read_ask_size =
        let a = length-pack_double q.bid_price in
        let b = length-pack_double q.bid_size in
        let c = length-pack_double q.ask_price in
        read_double_lem platform (table_of (quote_body q timestamp) 48) 4 52 q.ask_size
          (unfold entry in quote_field 4 8 (omega arith) (omega arith) (omega arith))
          (rest_slice 48 4 8 16 24 32 40
            (little 4 44
              ∷ pack_double q.bid_price
              ∷ pack_double q.bid_size
              ∷ pack_double q.ask_price
              ∷ [])
            (pack_double q.ask_size) _ 8 52 (unfold little in omega (arith, a, b, c))
            (length-pack_double q.ask_size))

    read_time :
        (value : ℤ)
        → signed (2 ^ 63) (from_little timestamp) ≡ value
        → FlatBuffers.read_long platform (table_of (quote_body q timestamp) 48) 5 ≡ ok value
    unfolding quote_rest
    read_time value v =
        let a = length-pack_double q.bid_price in
        let b = length-pack_double q.bid_size in
        let c = length-pack_double q.ask_price in
        let d = length-pack_double q.ask_size in
        read_long_lem platform (table_of (quote_body q timestamp) 48) 5 60 timestamp value
          (unfold entry in quote_field 5 8 (omega arith) (omega arith) (omega arith))
          (rest_slice 48 4 8 16 24 32 40
            (little 4 44
              ∷ pack_double q.bid_price
              ∷ pack_double q.bid_size
              ∷ pack_double q.ask_price
              ∷ pack_double q.ask_size
              ∷ [])
            timestamp _ 8 60 (unfold little in omega (arith, a, b, c, d)) eight)
          v

    quote-opens :
        FlatBuffers.open_table (quote_body q timestamp) ≡ ok (table_of (quote_body q timestamp) 48)
    unfolding body
    quote-opens =
        open_table-front 48 4 8 16 24 32 40 (quote_rest q timestamp) (omega arith)
          (omega (arith, total-quote))

    quote-read :
        is_utf8 q.symbol ≡ true
        → signed (2 ^ 63) (from_little timestamp) ≡ q.timestamp_ns
        → FlatBuffers.deserialize_quote platform (quote_body q timestamp) ≡ ok q
    unfolding FlatBuffers.deserialize_quote
    quote-read u time =
        rw
          (
            quote-opens,
            read_symbol u,
            read_bid_price,
            read_bid_size,
            read_ask_price,
            read_ask_size,
            read_time q.timestamp_ns time,
          )
          refl

  pub flat-quote :
      (q : Quote Double) (bytes : Bytes)
      → FlatBuffers.serialize_quote platform q ≡ ok bytes
      → is_utf8 q.symbol ≡ true
      → FlatBuffers.deserialize_quote platform bytes ≡ ok q
  unfolding FlatBuffers.serialize_quote
  flat-quote q bytes h u =
      let (str, p1, h1) = >>=-eq-ok (string_data q.symbol) _ h in
      let (timestamp, p2, h2) = >>=-eq-ok (pack_long q.timestamp_ns) _ h1 in
      let (small, e1) = string_data_ok q.symbol str p1 in
      let (eight, time) = packed_long q.timestamp_ns timestamp p2 in
      let same : quote_body q timestamp ≡ bytes =
        sym (packed_quote q str timestamp e1) ∙ ok_injective h2 in
      ap (FlatBuffers.deserialize_quote platform) (sym same)
      ∙ quote-read q timestamp eight small u time
