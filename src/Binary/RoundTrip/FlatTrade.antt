-- ===== src/Binary/RoundTrip/FlatTrade.antt =====
-- What `_FlatBuffersCodec` reads from the bytes of a trade that it wrote.
use nexus_smarttrading.Prelude.{
  ok_injective, ℕ, ◌+◌, ◌-◌, ◌^◌, ◌≤◌, ◌<◌, ◌≡◌, refl, sym, ap, ◌∙◌, true, List, [], ◌∷◌, ◌++◌,
  length, ok, arith, >>=-eq-ok,
}
use mathlib.Core.List.{append_assoc}
use nexus_smarttrading.Prelude.Int.{ℤ}
use nexus_smarttrading.Binary.{Bytes, Platform, Trade, side_value}
use nexus_smarttrading.Binary.Words.{little, from_little, pack_unsigned, pack_long, signed}
use nexus_smarttrading.Binary.FlatBuffers
use nexus_smarttrading.Binary.FlatBuffers.{Table, get_field, string_data}
use nexus_smarttrading.Binary.Slices.{total, packed_unsigned, packed_long}
use nexus_smarttrading.Binary.Tables.{
  table_of, open_table-front, read_double_lem, read_long_lem, read_side_lem, read_str_lem,
}
use nexus_smarttrading.Binary.RoundTrip.Front.{
  entry, body, front_field, rest_slice, rest_number, string_data_ok, string_data-length,
}

module _ (platform : Platform) where
  open platform use {
    Double, is_utf8, pack_double, unpack_double, length-pack_double, unpack-pack_double,
  }

  -- The segments of a trade behind the first word of the table, for its packed time.
  trade_rest : Trade Double → Bytes → List Bytes
  trade_rest t timestamp =
      little 4 33
      ∷ pack_double t.price
      ∷ pack_double t.size
      ∷ timestamp
      ∷ little 4 (10 + length t.symbol)
      ∷ little 1 (side_value t.side)
      ∷ little 4 (length t.symbol)
      ∷ t.symbol
      ∷ (0 ∷ [])
      ∷ little 4 (length t.trade_id)
      ∷ t.trade_id
      ∷ (0 ∷ [])
      ∷ []

  abbrev trade_body : Trade Double → Bytes → Bytes
  trade_body t timestamp = body 37 4 8 16 24 32 36 (trade_rest t timestamp)

  module _ (t : Trade Double) (timestamp : Bytes) (eight : length timestamp ≡ 8)
      (symbol_small : length t.symbol < 256 ^ 4) (id_small : length t.trade_id < 256 ^ 4)
      (offset_small : 10 + length t.symbol < 256 ^ 4) where
    total-trade : total (trade_rest t timestamp) ≡ 33 + 10 + length t.symbol + length t.trade_id
    unfolding trade_rest little
    total-trade = omega (arith, eight, length-pack_double t.price, length-pack_double t.size)

    trade_field :
        (idx size : ℕ)
        → idx < 6
        → 0 < entry 4 8 16 24 32 36 idx
        → entry 4 8 16 24 32 36 idx + size ≤ 37
        → get_field (table_of (trade_body t timestamp) 37) idx size
          ≡ ok (20 + entry 4 8 16 24 32 36 idx)
    trade_field idx size h p q =
        front_field 37 4 8 16 24 32 36 (trade_rest t timestamp) idx size h (omega arith) p q
          (omega (arith, total-trade))

    read_symbol :
        is_utf8 t.symbol ≡ true
        → FlatBuffers.read_str platform (table_of (trade_body t timestamp) 37) 0 ≡ ok t.symbol
    unfolding trade_rest
    read_symbol u =
        let price = length-pack_double t.price in
        let size = length-pack_double t.size in
        read_str_lem platform (table_of (trade_body t timestamp) 37) 0 24 33 t.symbol
          (unfold entry in trade_field 0 4 (omega arith) (omega arith) (omega arith))
          (rest_number 37 4 8 16 24 32 36 [] 4 33 _ 24 refl (omega arith))
          (rest_number 37 4 8 16 24 32 36
            (little 4 33
              ∷ pack_double t.price
              ∷ pack_double t.size
              ∷ timestamp
              ∷ little 4 (10 + length t.symbol)
              ∷ little 1 (side_value t.side)
              ∷ [])
            4 (length t.symbol) _ 57 (unfold little in omega (arith, eight, price, size))
            symbol_small)
          (rest_slice 37 4 8 16 24 32 36
            (little 4 33
              ∷ pack_double t.price
              ∷ pack_double t.size
              ∷ timestamp
              ∷ little 4 (10 + length t.symbol)
              ∷ little 1 (side_value t.side)
              ∷ little 4 (length t.symbol)
              ∷ [])
            t.symbol _ (length t.symbol) 61 (unfold little in omega (arith, eight, price, size))
            refl)
          u

    read_id :
        is_utf8 t.trade_id ≡ true
        → FlatBuffers.read_str platform (table_of (trade_body t timestamp) 37) 4 ≡ ok t.trade_id
    unfolding trade_rest
    read_id u =
        let price = length-pack_double t.price in
        let size = length-pack_double t.size in
        let first : List Bytes =
          little 4 33
          ∷ pack_double t.price
          ∷ pack_double t.size
          ∷ timestamp
          ∷ little 4 (10 + length t.symbol)
          ∷ little 1 (side_value t.side)
          ∷ little 4 (length t.symbol)
          ∷ t.symbol
          ∷ (0 ∷ [])
          ∷ [] in
        read_str_lem platform (table_of (trade_body t timestamp) 37) 4 52 (10 + length t.symbol)
          t.trade_id (unfold entry in trade_field 4 4 (omega arith) (omega arith) (omega arith))
          (rest_number 37 4 8 16 24 32 36
            (little 4 33 ∷ pack_double t.price ∷ pack_double t.size ∷ timestamp ∷ []) 4
            (10 + length t.symbol) _ 52 (unfold little in omega (arith, eight, price, size))
            offset_small)
          (rest_number 37 4 8 16 24 32 36 first 4 (length t.trade_id) _
            (52 + (10 + length t.symbol)) (unfold little in omega (arith, eight, price, size))
            id_small)
          (rest_slice 37 4 8 16 24 32 36 (first ++ (little 4 (length t.trade_id) ∷ [])) t.trade_id
            ((0 ∷ []) ∷ []) (length t.trade_id) (52 + (10 + length t.symbol) + 4)
            (unfold little in omega (arith, eight, price, size)) refl)
          u

    read_price :
        FlatBuffers.read_double platform (table_of (trade_body t timestamp) 37) 1 ≡ ok t.price
    unfolding trade_rest
    read_price =
        read_double_lem platform (table_of (trade_body t timestamp) 37) 1 28 t.price
          (unfold entry in trade_field 1 8 (omega arith) (omega arith) (omega arith))
          (rest_slice 37 4 8 16 24 32 36 (little 4 33 ∷ []) (pack_double t.price) _ 8 28
            (unfold little in refl) (length-pack_double t.price))

    read_size :
        FlatBuffers.read_double platform (table_of (trade_body t timestamp) 37) 2 ≡ ok t.size
    unfolding trade_rest
    read_size =
        let price = length-pack_double t.price in
        read_double_lem platform (table_of (trade_body t timestamp) 37) 2 36 t.size
          (unfold entry in trade_field 2 8 (omega arith) (omega arith) (omega arith))
          (rest_slice 37 4 8 16 24 32 36 (little 4 33 ∷ pack_double t.price ∷ [])
            (pack_double t.size) _ 8 36 (unfold little in omega (arith, price))
            (length-pack_double t.size))

    read_time :
        (value : ℤ)
        → signed (2 ^ 63) (from_little timestamp) ≡ value
        → FlatBuffers.read_long platform (table_of (trade_body t timestamp) 37) 3 ≡ ok value
    unfolding trade_rest
    read_time value v =
        let price = length-pack_double t.price in
        let size = length-pack_double t.size in
        read_long_lem platform (table_of (trade_body t timestamp) 37) 3 44 timestamp value
          (unfold entry in trade_field 3 8 (omega arith) (omega arith) (omega arith))
          (rest_slice 37 4 8 16 24 32 36
            (little 4 33 ∷ pack_double t.price ∷ pack_double t.size ∷ []) timestamp _ 8 44
            (unfold little in omega (arith, price, size)) eight)
          v

    read_side : FlatBuffers.read_side platform (table_of (trade_body t timestamp) 37) 5 ≡ ok t.side
    unfolding trade_rest
    read_side =
        let price = length-pack_double t.price in
        let size = length-pack_double t.size in
        read_side_lem platform (table_of (trade_body t timestamp) 37) 5 56 t.side
          (unfold entry in trade_field 5 1 (omega arith) (omega arith) (omega arith))
          (rest_number 37 4 8 16 24 32 36
            (little 4 33
              ∷ pack_double t.price
              ∷ pack_double t.size
              ∷ timestamp
              ∷ little 4 (10 + length t.symbol)
              ∷ [])
            1 (side_value t.side) _ 56 (unfold little in omega (arith, eight, price, size))
            (ground arith))

    trade-opens :
        FlatBuffers.open_table (trade_body t timestamp) ≡ ok (table_of (trade_body t timestamp) 37)
    unfolding body
    trade-opens =
        open_table-front 37 4 8 16 24 32 36 (trade_rest t timestamp) (omega arith)
          (omega (arith, total-trade))

    flat-read :
        is_utf8 t.symbol ≡ true
        → is_utf8 t.trade_id ≡ true
        → signed (2 ^ 63) (from_little timestamp) ≡ t.timestamp_ns
        → FlatBuffers.deserialize_trade platform (trade_body t timestamp) ≡ ok t
    unfolding FlatBuffers.deserialize_trade
    flat-read u v time =
        rw
          (
            trade-opens,
            read_symbol u,
            read_price,
            read_size,
            read_time t.timestamp_ns time,
            read_id v,
            read_side,
          )
          refl

  -- The bytes of a trade, once its parts were packed.
  packed_trade :
      (t : Trade Double) (str1 str2 timestamp str2_offset : Bytes)
      → str1 ≡ little 4 (length t.symbol) ++ (t.symbol ++ (0 ∷ []))
      → str2 ≡ little 4 (length t.trade_id) ++ (t.trade_id ++ (0 ∷ []))
      → str2_offset ≡ little 4 (10 + length t.symbol)
      → little 4 20
          ++ (FlatBuffers.vtable 37 4 8 16 24 32 36
              ++ (little 4 16
                  ++ (little 4 33
                      ++ (pack_double t.price
                          ++ (pack_double t.size
                              ++ (timestamp
                                  ++ (str2_offset
                                      ++ (little 1 (side_value t.side) ++ (str1 ++ str2)))))))))
        ≡ trade_body t timestamp
  unfolding body trade_rest little
  packed_trade t str1 str2 timestamp str2_offset a b c = rw (a, b, c) (simp (append_assoc) refl)

  -- The packed parts of a message that was serialized.
  pub flat-trade :
      (t : Trade Double) (bytes : Bytes)
      → FlatBuffers.serialize_trade platform t ≡ ok bytes
      → is_utf8 t.symbol ≡ true
      → is_utf8 t.trade_id ≡ true
      → FlatBuffers.deserialize_trade platform bytes ≡ ok t
  unfolding FlatBuffers.serialize_trade
  flat-trade t bytes h u v =
      let (str1, p1, h1) = >>=-eq-ok (string_data t.symbol) _ h in
      let (str2, p2, h2) = >>=-eq-ok (string_data t.trade_id) _ h1 in
      let (timestamp, p3, h3) = >>=-eq-ok (pack_long t.timestamp_ns) _ h2 in
      let (offset, p4, h4) = >>=-eq-ok (pack_unsigned 4 (57 + length str1 - 52)) _ h3 in
      let (small1, e1) = string_data_ok t.symbol str1 p1 in
      let (small2, e2) = string_data_ok t.trade_id str2 p2 in
      let (eight, time) = packed_long t.timestamp_ns timestamp p3 in
      let (small4, e4) = packed_unsigned 4 (57 + length str1 - 52) offset p4 in
      let short : length str1 ≡ 5 + length t.symbol = rw e1 (string_data-length t.symbol) in
      let place : 57 + length str1 - 52 ≡ 10 + length t.symbol = omega (arith, short) in
      let body = packed_trade t str1 str2 timestamp offset e1 e2 (e4 ∙ ap (little 4) place) in
      let same : trade_body t timestamp ≡ bytes = sym body ∙ ok_injective h4 in
      ap (FlatBuffers.deserialize_trade platform) (sym same)
      ∙ flat-read t timestamp eight small1 small2 (omega (arith, place, small4)) u v time
