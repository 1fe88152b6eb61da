-- ===== src/Binary/Errors/Wire.antt =====
-- The exceptions of `_ProtobufCodec`, whose loop has a turn for each byte.
use nexus_smarttrading.Prelude.{
  ℕ, zero, suc, ◌+◌, ◌*◌, ◌/◌, ◌%◌, ◌^◌, ◌≤◌, ◌<◌, Option, none, some, [], ◌∷◌, ◌==◌, ltb, leb,
  length, take, drop, Result, arith,
}
use nexus_smarttrading.Binary.{Bytes, Platform, or_incomplete}
use nexus_smarttrading.Binary.Errors.{
  Returns, returned, refused, Any, >>=-Returns, weaken-Returns, guard-Returns, if-Returns,
}
use nexus_smarttrading.Binary.Varint.{decode_loop, decode_varint}
use nexus_smarttrading.Binary.Protobuf
use nexus_smarttrading.Binary.Protobuf.{
  Field, number, double, text, skipped, PartialTrade, PartialQuote, no_trade, no_quote, is_buy,
  is_sell, assign_trade, assign_quote, finish_trade, finish_quote, read_value, read_field,
  fields_loop,
}

-- What is left is shorter.
ShorterThan : {A : Type 0} → Bytes → A × Bytes → Type 0
ShorterThan body (a, rest) = length rest < length body

AtMost : {A : Type 0} → Bytes → A × Bytes → Type 0
AtMost body (a, rest) = length rest ≤ length body

decode_loop-Returns :
    (res shift : ℕ) (body : Bytes) → Returns (ShorterThan body) (decode_loop res shift body)
unfolding decode_loop ShorterThan
decode_loop-Returns res shift [] = refused
decode_loop-Returns res shift (b ∷ rest) =
    let next = decode_loop-Returns (res + b % 128 * 2 ^ shift) (shift + 7) rest in
    if-Returns (ltb b 128) _ _ (λ h. returned (omega arith))
      (λ h.
        if-Returns (ltb 70 (shift + 7)) _ _ (λ k. refused)
          (λ k. weaken-Returns (λ a p. omega (arith, p)) next))

length-drop : (n : ℕ) (xs : Bytes) → length (drop n xs) ≤ length xs
length-drop zero xs = omega arith
length-drop (suc n) [] = omega arith
length-drop (suc n) (x ∷ xs) = let e = length-drop n xs in omega arith

or_incomplete-Returns : {A : Type 0} (a : Option A) → Returns Any (or_incomplete a)
or_incomplete-Returns none = refused
or_incomplete-Returns (some a) = returned tt

assign_trade-Returns :
    {D : Type 0} (field : Field D) (p : PartialTrade D) → Returns Any (assign_trade field p)
unfolding assign_trade
assign_trade-Returns (number n val) p =
    if-Returns (n == 4) _ _ (λ h. returned tt)
      (λ h.
        if-Returns (n == 6) _ _
          (λ k.
            if-Returns (val == 1) _ _ (λ l. returned tt)
              (λ l. if-Returns (val == 2) _ _ (λ m. returned tt) (λ m. refused)))
          (λ k. returned tt))
assign_trade-Returns (double n val) p =
    if-Returns (n == 2) _ _ (λ h. returned tt)
      (λ h. if-Returns (n == 3) _ _ (λ k. returned tt) (λ k. returned tt))
assign_trade-Returns (text n val) p =
    if-Returns (n == 1) _ _ (λ h. returned tt)
      (λ h.
        if-Returns (n == 5) _ _ (λ k. returned tt)
          (λ k.
            if-Returns (n == 6) _ _
              (λ l.
                if-Returns (is_buy val) _ _ (λ m. returned tt)
                  (λ m. if-Returns (is_sell val) _ _ (λ o. returned tt) (λ o. refused)))
              (λ l. returned tt)))
assign_trade-Returns skipped p = returned tt

assign_quote-Returns :
    {D : Type 0} (field : Field D) (p : PartialQuote D) → Returns Any (assign_quote field p)
unfolding assign_quote
assign_quote-Returns (number n val) p =
    if-Returns (n == 6) _ _ (λ h. returned tt) (λ h. returned tt)
assign_quote-Returns (double n val) p =
    if-Returns (n == 2) _ _ (λ h. returned tt)
      (λ h.
        if-Returns (n == 3) _ _ (λ k. returned tt)
          (λ k.
            if-Returns (n == 4) _ _ (λ l. returned tt)
              (λ l. if-Returns (n == 5) _ _ (λ m. returned tt) (λ m. returned tt))))
assign_quote-Returns (text n val) p = returned tt
assign_quote-Returns skipped p = returned tt

finish_trade-Returns : {D : Type 0} (p : PartialTrade D) → Returns Any (finish_trade p)
unfolding finish_trade
finish_trade-Returns p =
    >>=-Returns (or_incomplete p.symbol) _ (or_incomplete-Returns p.symbol) (λ symbol a.
      >>=-Returns (or_incomplete p.price) _ (or_incomplete-Returns p.price) (λ price b.
        >>=-Returns (or_incomplete p.size) _ (or_incomplete-Returns p.size) (λ size c.
          >>=-Returns (or_incomplete p.timestamp_ns) _ (or_incomplete-Returns p.timestamp_ns)
            (λ time d.
              >>=-Returns (or_incomplete p.trade_id) _ (or_incomplete-Returns p.trade_id) (λ id e.
                >>=-Returns (or_incomplete p.side) _ (or_incomplete-Returns p.side)
                  (λ side f. returned tt))))))

finish_quote-Returns : {D : Type 0} (p : PartialQuote D) → Returns Any (finish_quote p)
unfolding finish_quote
finish_quote-Returns p =
    >>=-Returns (or_incomplete p.symbol) _ (or_incomplete-Returns p.symbol) (λ symbol a.
      >>=-Returns (or_incomplete p.bid_price) _ (or_incomplete-Returns p.bid_price) (λ bid b.
        >>=-Returns (or_incomplete p.bid_size) _ (or_incomplete-Returns p.bid_size) (λ bid_size c.
          >>=-Returns (or_incomplete p.ask_price) _ (or_incomplete-Returns p.ask_price) (λ ask d.
            >>=-Returns (or_incomplete p.ask_size) _ (or_incomplete-Returns p.ask_size)
              (λ ask_size e.
                >>=-Returns (or_incomplete p.timestamp_ns) _ (or_incomplete-Returns p.timestamp_ns)
                  (λ time f. returned tt))))))

module _ (platform : Platform) where
  open platform use {Double, is_utf8, unpack_double}

  read_value-Returns :
      (field_num wire_type : ℕ) (body : Bytes)
      → Returns (AtMost body) (read_value platform field_num wire_type body)
  unfolding read_value decode_varint AtMost ShorterThan
  read_value-Returns field_num wire_type body =
      if-Returns (wire_type == 0) _ _
        (λ h.
          >>=-Returns (decode_varint body) _ (decode_loop-Returns 0 0 body)
            (λ (v, rest) p. returned (omega (arith, p))))
        (λ h.
          if-Returns (wire_type == 1) _ _
            (λ k. guard-Returns (leb 8 (length body)) _ (λ p. returned (length-drop 8 body)))
            (λ k.
              if-Returns (wire_type == 2) _ _
                (λ l.
                  >>=-Returns (decode_varint body) _ (decode_loop-Returns 0 0 body)
                    (λ (size, rest) p. guard-Returns (leb size (length rest)) _ (λ q.
                      guard-Returns (is_utf8 (take size rest)) _
                        (λ u. returned (omega (arith, p, length-drop size rest))))))
                (λ l.
                  if-Returns (wire_type == 5) _ _
                    (λ m.
                      guard-Returns (leb 4 (length body)) _ (λ p. returned (length-drop 4 body)))
                    (λ m. refused))))

  read_field-Returns : (body : Bytes) → Returns (ShorterThan body) (read_field platform body)
  unfolding read_field decode_varint AtMost ShorterThan
  read_field-Returns body =
      >>=-Returns (decode_varint body) _ (decode_loop-Returns 0 0 body) (λ (tag, rest) p.
        weaken-Returns (λ a q. omega (arith, p, q)) (read_value-Returns (tag / 8) (tag % 8) rest))

  -- A turn for each byte is enough.
  fields_loop-Returns :
      {P : Type 0} (assign : Field Double → P → Result P)
      → ((field : Field Double) (p : P) → Returns Any (assign field p))
      → (fuel : ℕ) (body : Bytes) (p : P) → length body ≤ fuel
      → Returns Any (fields_loop platform assign fuel body p)
  unfolding fields_loop ShorterThan
  fields_loop-Returns assign h fuel [] p k = returned tt
  fields_loop-Returns assign h zero (b ∷ body) p k = absurd (omega arith)
  fields_loop-Returns assign h (suc fuel) (b ∷ body) p k =
      >>=-Returns (read_field platform (b ∷ body)) _ (read_field-Returns (b ∷ body))
        (λ (field, rest) s.
          >>=-Returns (assign field p) _ (h field p)
            (λ p' q. fields_loop-Returns assign h fuel rest p' (omega (arith, s))))

  pub protobuf_trade-Returns :
      (body : Bytes) → Returns Any (Protobuf.deserialize_trade platform body)
  unfolding Protobuf.deserialize_trade
  protobuf_trade-Returns body =
      >>=-Returns (fields_loop platform assign_trade (length body) body no_trade) _
        (fields_loop-Returns assign_trade assign_trade-Returns (length body) body no_trade
          (omega arith))
        (λ p q. finish_trade-Returns p)

  pub protobuf_quote-Returns :
      (body : Bytes) → Returns Any (Protobuf.deserialize_quote platform body)
  unfolding Protobuf.deserialize_quote
  protobuf_quote-Returns body =
      >>=-Returns (fields_loop platform assign_quote (length body) body no_quote) _
        (fields_loop-Returns assign_quote assign_quote-Returns (length body) body no_quote
          (omega arith))
        (λ p q. finish_quote-Returns p)
