-- ===== src/Binary/RoundTrip/Messages.antt =====
-- `BinaryMarketDataSerializer.serialize` and `BinaryMarketDataDeserializer.deserialize`.
use nexus_smarttrading.Prelude.{
  ok_injective, ℕ, suc, ◌+◌, ◌-◌, ◌^◌, ◌<◌, ◌≡◌, refl, sym, ap, ◌∙◌, Bool, true, false, ◌&&◌, ◌||◌,
  ◌∷◌, ◌++◌, ◌==◌, ltb, length, take, drop, ok, arith, >>=-eq-ok,
}
use mathlib.Core.List.{reverse}
use nexus_smarttrading.Prelude.Int.{ℤ, pos, negsuc}
use nexus_smarttrading.Binary.{
  Bytes, Platform, BinaryProtocolType, protobuf, flatbuffers, Trade, Quote,
}
use nexus_smarttrading.Binary.Words.{little, pack_unsigned}
use nexus_smarttrading.Binary.Varint.{encode_varint}
use nexus_smarttrading.Binary.Slices.{from_little-little, packed_unsigned}
use nexus_smarttrading.Binary.Protobuf
use nexus_smarttrading.Binary.FlatBuffers
use nexus_smarttrading.Binary.Frame.{
  magic_of, msg_trade, msg_quote, Message, framed, parse_and_validate, serialize, serialize_trade,
  serialize_quote, deserialize, trade_body, quote_body,
}
use nexus_smarttrading.Binary.RoundTrip.Wire.{
  trade_bytes, quote_bytes, trade-serialized, quote-serialized, protobuf-trade, protobuf-quote,
  trade_texts, quote_text,
}
use nexus_smarttrading.Binary.RoundTrip.FlatTrade.{flat-trade}
use nexus_smarttrading.Binary.RoundTrip.FlatQuote.{flat-quote}

-- A varint holds no sign, and at most eleven groups of it are read.
abbrev pub time_in_range : BinaryProtocolType → ℤ → Bool
time_in_range flatbuffers n = true
time_in_range protobuf (pos n) = ltb n (2 ^ 77)
time_in_range protobuf (negsuc n) = false

module _ (platform : Platform) where
  open platform use {Double, is_utf8}

  -- The texts of a message are UTF-8.
  abbrev pub texts_valid : Message Double → Bool
  texts_valid (Message.trade t) = is_utf8 t.symbol && is_utf8 t.trade_id
  texts_valid (Message.quote q) = is_utf8 q.symbol

  abbrev pub timestamp_of : Message Double → ℤ
  timestamp_of (Message.trade t) = t.timestamp_ns
  timestamp_of (Message.quote q) = q.timestamp_ns

-- The bytes of a header and its body.
frame_bytes : ℕ → ℕ → Bytes → Bytes
frame_bytes magic msg_type body = magic ∷ msg_type ∷ (reverse (little 4 (length body)) ++ body)

reversed_size :
    (v : ℕ) (body : Bytes)
    → (take 4 (reverse (little 4 v) ++ body) ≡ reverse (little 4 v))
      × (drop 4 (reverse (little 4 v) ++ body) ≡ body)
      × (reverse (reverse (little 4 v)) ≡ little 4 v)
      × (length (reverse (little 4 v) ++ body) ≡ 4 + length body)
unfolding little
reversed_size v body = (refl, refl, refl, omega arith)

parse-frame :
    (magic msg_type : ℕ) (body : Bytes)
    → length body < 256 ^ 4
    → (msg_type == msg_trade || msg_type == msg_quote) ≡ true
    → parse_and_validate magic (frame_bytes magic msg_type body) ≡ ok (msg_type, body)
unfolding frame_bytes parse_and_validate
parse-frame magic msg_type body small k =
    let (t, d, r, l) = reversed_size (length body) body in
    let number = from_little-little 4 (length body) small in
    rw (t, d, r, l, number, k) (ground arith)

framed-ok :
    (magic msg_type : ℕ) (body payload : Bytes)
    → framed magic msg_type body ≡ ok payload
    → (payload ≡ frame_bytes magic msg_type body) × (length body < 256 ^ 4)
unfolding framed frame_bytes
framed-ok magic msg_type body payload h =
    let (size, p, e) = >>=-eq-ok (pack_unsigned 4 (length body)) _ h in
    let (small, same) = packed_unsigned 4 (length body) size p in
    (sym (ok_injective e) ∙ ap (λ l. magic ∷ msg_type ∷ (reverse l ++ body)) same, small)

module _ (platform : Platform) where
  open platform use {Double, is_utf8, length-pack_double}

  protobuf_trade_body :
      (t : Trade Double) (body : Bytes) (value : ℤ)
      → t.timestamp_ns ≡ value
      → Protobuf.serialize_trade platform t ≡ ok body
      → length body < 256 ^ 4
      → texts_valid platform (Message.trade t) ≡ true
      → time_in_range protobuf value ≡ true
      → Protobuf.deserialize_trade platform body ≡ ok t
  protobuf_trade_body t body (pos timestamp) e h small u w =
      let same : trade_bytes platform t timestamp ≡ body =
        ok_injective (sym (trade-serialized platform t timestamp e) ∙ h) in
      let (a, b) = trade_texts platform t timestamp in
      let size : length (trade_bytes platform t timestamp) ≡ length body = ap length same in
      ap (Protobuf.deserialize_trade platform) (sym same)
      ∙ protobuf-trade platform t timestamp e (omega (arith, a, size, small))
          (omega (arith, b, size, small)) (ground (arith, w)) (ground (arith, u))
          (ground (arith, u))
  protobuf_trade_body t body (negsuc n) e h small u w = absurd (ground arith)

  protobuf_quote_body :
      (q : Quote Double) (body : Bytes) (value : ℤ)
      → q.timestamp_ns ≡ value
      → Protobuf.serialize_quote platform q ≡ ok body
      → length body < 256 ^ 4
      → is_utf8 q.symbol ≡ true
      → time_in_range protobuf value ≡ true
      → Protobuf.deserialize_quote platform body ≡ ok q
  protobuf_quote_body q body (pos timestamp) e h small u w =
      let same : quote_bytes platform q timestamp ≡ body =
        ok_injective (sym (quote-serialized platform q timestamp e) ∙ h) in
      let a = quote_text platform q timestamp in
      let size : length (quote_bytes platform q timestamp) ≡ length body = ap length same in
      ap (Protobuf.deserialize_quote platform) (sym same)
      ∙ protobuf-quote platform q timestamp e (omega (arith, a, size, small)) (ground (arith, w)) u
  protobuf_quote_body q body (negsuc n) e h small u w = absurd (ground arith)

  trade_body-lem :
      (protocol : BinaryProtocolType) (t : Trade Double) (payload : Bytes)
      → serialize_trade platform protocol t ≡ ok payload
      → texts_valid platform (Message.trade t) ≡ true
      → time_in_range protocol t.timestamp_ns ≡ true
      → (body : Bytes) × (parse_and_validate (magic_of protocol) payload ≡ ok (msg_trade, body))
        × (trade_body platform protocol body ≡ ok t)
  unfolding serialize_trade trade_body
  trade_body-lem protobuf t payload h u w =
      let (body, p, e) = >>=-eq-ok (Protobuf.serialize_trade platform t) _ h in
      let (same, small) = framed-ok 0x01 msg_trade body payload e in
      (
        body,
        ap (parse_and_validate 0x01) same ∙ parse-frame 0x01 msg_trade body small refl,
        protobuf_trade_body t body t.timestamp_ns refl p small u w,
      )
  trade_body-lem flatbuffers t payload h u w =
      let (body, p, e) = >>=-eq-ok (FlatBuffers.serialize_trade platform t) _ h in
      let (same, small) = framed-ok 0x02 msg_trade body payload e in
      (
        body,
        ap (parse_and_validate 0x02) same ∙ parse-frame 0x02 msg_trade body small refl,
        flat-trade platform t body p (ground (arith, u)) (ground (arith, u)),
      )

  quote_body-lem :
      (protocol : BinaryProtocolType) (q : Quote Double) (payload : Bytes)
      → serialize_quote platform protocol q ≡ ok payload
      → is_utf8 q.symbol ≡ true
      → time_in_range protocol q.timestamp_ns ≡ true
      → (body : Bytes) × (parse_and_validate (magic_of protocol) payload ≡ ok (msg_quote, body))
        × (quote_body platform protocol body ≡ ok q)
  unfolding serialize_quote quote_body
  quote_body-lem protobuf q payload h u w =
      let (body, p, e) = >>=-eq-ok (Protobuf.serialize_quote platform q) _ h in
      let (same, small) = framed-ok 0x01 msg_quote body payload e in
      (
        body,
        ap (parse_and_validate 0x01) same ∙ parse-frame 0x01 msg_quote body small refl,
        protobuf_quote_body q body q.timestamp_ns refl p small u w,
      )
  quote_body-lem flatbuffers q payload h u w =
      let (body, p, e) = >>=-eq-ok (FlatBuffers.serialize_quote platform q) _ h in
      let (same, small) = framed-ok 0x02 msg_quote body payload e in
      (
        body,
        ap (parse_and_validate 0x02) same ∙ parse-frame 0x02 msg_quote body small refl,
        flat-quote platform q body p u,
      )

  -- When a trade or a quote with UTF-8 texts is serialized, for Protobuf with a time that is not
  -- negative and below 2 ^ 77, then the deserializer of the same protocol reads that message back
  -- from the payload.
  pub deserialize-serialize :
      (protocol : BinaryProtocolType) (m : Message Double) (payload : Bytes)
      → serialize platform protocol m ≡ ok payload
      → texts_valid platform m ≡ true
      → time_in_range protocol (timestamp_of platform m) ≡ true
      → deserialize platform protocol payload ≡ ok m
  unfolding serialize deserialize
  deserialize-serialize protocol (Message.trade t) payload h u w =
      let (body, p, e) = trade_body-lem protocol t payload h u w in rw (p, e) refl
  deserialize-serialize protocol (Message.quote q) payload h u w =
      let (body, p, e) = quote_body-lem protocol q payload h u w in rw (p, e) refl

  encode_varint-negsuc :
      (n : ℕ) → n < 2 ^ 64 → encode_varint (negsuc n) ≡ encode_varint (pos (2 ^ 64 - 1 - n))
  unfolding encode_varint
  encode_varint-negsuc n h =
      let small : ltb n (2 ^ 64) ≡ true = ground arith in
      let fuel : 2 ^ 64 - n ≡ suc (2 ^ 64 - 1 - n) = omega arith in rw (small, fuel) refl

  -- The message at another time.
  abbrev pub with_time : ℤ → Message Double → Message Double
  with_time time (Message.trade t) = Message.trade (record t { timestamp_ns = time })
  with_time time (Message.quote q) = Message.quote (record q { timestamp_ns = time })

  -- A negative time and that time plus 2 ^ 64 have one payload.
  serialize-negsuc :
      (m : Message Double) (n : ℕ)
      → n < 2 ^ 64
      → serialize platform protobuf (with_time (negsuc n) m)
        ≡ serialize platform protobuf (with_time (pos (2 ^ 64 - 1 - n)) m)
  unfolding serialize serialize_trade serialize_quote Protobuf.serialize_trade
      Protobuf.serialize_quote
  serialize-negsuc (Message.trade t) n h = rw (encode_varint-negsuc n h) refl
  serialize-negsuc (Message.quote q) n h = rw (encode_varint-negsuc n h) refl

  with_time-texts :
      (time : ℤ) (m : Message Double)
      → texts_valid platform m ≡ true
      → (texts_valid platform (with_time time m) ≡ true)
        × (timestamp_of platform (with_time time m) ≡ time)
  with_time-texts time (Message.trade t) u = (u, refl)
  with_time-texts time (Message.quote q) u = (u, refl)

  -- When a trade or a quote with UTF-8 texts and with a negative time, not below -(2 ^ 64), is
  -- serialized for Protobuf, then the deserializer reads from the payload the same message at that
  -- time plus 2 ^ 64.
  pub deserialize-negative :
      (m : Message Double) (n : ℕ) (payload : Bytes)
      → n < 2 ^ 64
      → serialize platform protobuf (with_time (negsuc n) m) ≡ ok payload
      → texts_valid platform m ≡ true
      → deserialize platform protobuf payload ≡ ok (with_time (pos (2 ^ 64 - 1 - n)) m)
  deserialize-negative m n payload h e u =
      let time = pos (2 ^ 64 - 1 - n) in
      let (texts, at) = with_time-texts time m u in
      let in_range : time_in_range protobuf time ≡ true = ground arith in
      deserialize-serialize protobuf (with_time time m) payload (sym (serialize-negsuc m n h) ∙ e)
        texts (rw at in_range)
