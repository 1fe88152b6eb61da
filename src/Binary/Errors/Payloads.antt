-- ===== src/Binary/Errors/Payloads.antt =====
-- The exceptions of `BinaryMarketDataDeserializer`.
use nexus_smarttrading.Prelude.{
  ℕ, ◌+◌, ◌≡◌, ◌||◌, [], ◌∷◌, ◌==◌, leb, length, take, raise, Error, value_error,
}
use mathlib.Core.List.{reverse}
use nexus_smarttrading.Binary.{Bytes, Platform, BinaryProtocolType, protobuf, flatbuffers}
use nexus_smarttrading.Binary.Words.{from_little}
use nexus_smarttrading.Binary.Errors.{
  Returns, returned, refused, Any, raised-Returns, >>=-Returns, guard-Returns, if-Returns,
}
use nexus_smarttrading.Binary.Errors.Flat.{flat_trade-Returns, flat_quote-Returns}
use nexus_smarttrading.Binary.Errors.Wire.{protobuf_trade-Returns, protobuf_quote-Returns}
use nexus_smarttrading.Binary.Frame.{
  magic_of, msg_trade, msg_quote, parse_and_validate, deserialize, trade_body, quote_body,
}

parse_and_validate-Returns :
    (magic : ℕ) (payload : Bytes) → Returns Any (parse_and_validate magic payload)
unfolding parse_and_validate
parse_and_validate-Returns own_magic [] = refused
parse_and_validate-Returns own_magic (magic ∷ []) = refused
parse_and_validate-Returns own_magic (magic ∷ msg_type ∷ rest) =
    guard-Returns (leb 4 (length rest)) _ (λ a. guard-Returns (magic == own_magic) _ (λ b.
      guard-Returns (msg_type == msg_trade || msg_type == msg_quote) _ (λ c.
        guard-Returns (length rest == 4 + from_little (reverse (take 4 rest))) _
          (λ d. returned tt))))

module _ (platform : Platform) where
  open platform use {Double}

  trade_body-Returns :
      (protocol : BinaryProtocolType) (body : Bytes)
      → Returns Any (trade_body platform protocol body)
  unfolding trade_body
  trade_body-Returns protobuf body = protobuf_trade-Returns platform body
  trade_body-Returns flatbuffers body = flat_trade-Returns platform body

  quote_body-Returns :
      (protocol : BinaryProtocolType) (body : Bytes)
      → Returns Any (quote_body platform protocol body)
  unfolding quote_body
  quote_body-Returns protobuf body = protobuf_quote-Returns platform body
  quote_body-Returns flatbuffers body = flat_quote-Returns platform body

  deserialize-Returns :
      (protocol : BinaryProtocolType) (payload : Bytes)
      → Returns Any (deserialize platform protocol payload)
  unfolding deserialize
  deserialize-Returns protocol payload =
      >>=-Returns (parse_and_validate (magic_of protocol) payload) _
        (parse_and_validate-Returns (magic_of protocol) payload)
        (λ (msg_type, body) a.
          if-Returns (msg_type == msg_trade) _ _
            (λ b.
              >>=-Returns (trade_body platform protocol body) _ (trade_body-Returns protocol body)
                (λ t c. returned tt))
            (λ b.
              if-Returns (msg_type == msg_quote) _ _
                (λ c.
                  >>=-Returns (quote_body platform protocol body) _
                    (quote_body-Returns protocol body) (λ q d. returned tt))
                (λ c. refused)))

  -- Whatever the bytes of a payload are, the only exception that the deserializer of a protocol
  -- raises is a `ValueError`: no read of `struct` runs out of the body, and the loop over the fields
  -- of a Protobuf body ends within a turn for each byte.
  pub deserialize-raises :
      (protocol : BinaryProtocolType) (payload : Bytes) (e : Error)
      → deserialize platform protocol payload ≡ raise e
      → e ≡ value_error
  deserialize-raises protocol payload e h =
      raised-Returns (deserialize platform protocol payload) e
        (deserialize-Returns protocol payload) h
