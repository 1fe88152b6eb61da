-- ===== src/Binary/RoundTrip/Front.antt =====
-- What the parts of a FlatBuffers body hold: the front, with the vtable, and the segments behind it.
use nexus_smarttrading.Prelude.{
  ok_injective, raise-ne-ok, ℕ, zero, suc, ◌+◌, ◌*◌, ◌^◌, ◌≤◌, ◌<◌, ◌≡◌, refl, sym, ap, ◌∙◌, List,
  [], ◌∷◌, ◌++◌, length, length-append, ok, arith, Result-cases, inl, inr,
}
use nexus_smarttrading.Binary.{Bytes}
use nexus_smarttrading.Binary.Words.{little, slice_from, unpack_unsigned, pack_unsigned}
use nexus_smarttrading.Binary.FlatBuffers.{get_field, string_data}
use nexus_smarttrading.Binary.Slices.{
  concat, total, slice_from-segment, unpack_unsigned-segment, packed_unsigned,
}
use nexus_smarttrading.Binary.Tables.{front, table_of, length-front, get_field_lem}

-- The offset in the vtable, and the field that it leads to.
unfoldable pub entry : ℕ → ℕ → ℕ → ℕ → ℕ → ℕ → ℕ → ℕ
entry a b c d e f zero = a
entry a b c d e f (suc zero) = b
entry a b c d e f (suc (suc zero)) = c
entry a b c d e f (suc (suc (suc zero))) = d
entry a b c d e f (suc (suc (suc (suc zero)))) = e
entry a b c d e f (suc (suc (suc (suc (suc idx))))) = f

module _ (table_len a b c d e f : ℕ) (rest : List Bytes) where
  unfoldable pub body : Bytes
  body = concat (front table_len a b c d e f rest)

  front_entry :
      (idx : ℕ)
      → idx < 6
      → entry a b c d e f idx < 256 ^ 2
      → unpack_unsigned 2 body (8 + 2 * idx) ≡ ok (entry a b c d e f idx)
  unfolding entry body
  front_entry zero h k =
      unpack_unsigned-segment (little 4 20 ∷ little 2 16 ∷ little 2 table_len ∷ []) 2 a
        (little 2 b ∷ little 2 c ∷ little 2 d ∷ little 2 e ∷ little 2 f ∷ little 4 16 ∷ rest) 8
        (unfold little in refl) k
  front_entry (suc zero) h k =
      unpack_unsigned-segment (little 4 20 ∷ little 2 16 ∷ little 2 table_len ∷ little 2 a ∷ []) 2 b
        (little 2 c ∷ little 2 d ∷ little 2 e ∷ little 2 f ∷ little 4 16 ∷ rest) 10
        (unfold little in refl) k
  front_entry (suc (suc zero)) h k =
      unpack_unsigned-segment
        (little 4 20 ∷ little 2 16 ∷ little 2 table_len ∷ little 2 a ∷ little 2 b ∷ []) 2 c
        (little 2 d ∷ little 2 e ∷ little 2 f ∷ little 4 16 ∷ rest) 12 (unfold little in refl) k
  front_entry (suc (suc (suc zero))) h k =
      unpack_unsigned-segment
        (little 4 20 ∷ little 2 16 ∷ little 2 table_len ∷ little 2 a ∷ little 2 b ∷ little 2 c ∷ [])
        2 d (little 2 e ∷ little 2 f ∷ little 4 16 ∷ rest) 14 (unfold little in refl) k
  front_entry (suc (suc (suc (suc zero)))) h k =
      unpack_unsigned-segment
        (little 4 20
          ∷ little 2 16
          ∷ little 2 table_len
          ∷ little 2 a
          ∷ little 2 b
          ∷ little 2 c
          ∷ little 2 d
          ∷ [])
        2 e (little 2 f ∷ little 4 16 ∷ rest) 16 (unfold little in refl) k
  front_entry (suc (suc (suc (suc (suc zero))))) h k =
      unpack_unsigned-segment
        (little 4 20
          ∷ little 2 16
          ∷ little 2 table_len
          ∷ little 2 a
          ∷ little 2 b
          ∷ little 2 c
          ∷ little 2 d
          ∷ little 2 e
          ∷ [])
        2 f (little 4 16 ∷ rest) 18 (unfold little in refl) k
  front_entry (suc (suc (suc (suc (suc (suc idx)))))) h k = absurd (omega arith)

  pub front_field :
      (idx size : ℕ)
      → idx < 6
      → entry a b c d e f idx < 256 ^ 2
      → 0 < entry a b c d e f idx
      → entry a b c d e f idx + size ≤ table_len
      → table_len ≤ 4 + total rest
      → get_field (table_of body table_len) idx size ≡ ok (20 + entry a b c d e f idx)
  front_field idx size h k p q r =
      get_field_lem (table_of body table_len) idx size (entry a b c d e f idx) (front_entry idx h k)
        (omega arith) p q
        (let l = length-front table_len a b c d e f rest in unfold body in omega arith)

module _ (table_len a b c d e f : ℕ) (before : List Bytes) where
  total-front : total (front table_len a b c d e f before) ≡ 24 + total before
  unfolding little
  total-front = omega arith

  -- The segment behind some of those that follow the first word of the table.
  pub rest_slice :
      (segment : Bytes) (after : List Bytes) (n offset : ℕ)
      → offset ≡ 24 + total before
      → length segment ≡ n
      → slice_from n (body table_len a b c d e f (before ++ (segment ∷ after))) offset ≡ ok segment
  unfolding body
  rest_slice segment after n offset p q =
      slice_from-segment (front table_len a b c d e f before) segment after n offset
        (omega (arith, total-front)) q

  pub rest_number :
      (n v : ℕ) (after : List Bytes) (offset : ℕ)
      → offset ≡ 24 + total before
      → v < 256 ^ n
      → unpack_unsigned n (body table_len a b c d e f (before ++ (little n v ∷ after))) offset
        ≡ ok v
  unfolding body
  rest_number n v after offset p q =
      unpack_unsigned-segment (front table_len a b c d e f before) n v after offset
        (omega (arith, total-front)) q

pub string_data_ok :
    (s data_bytes : Bytes)
    → string_data s ≡ ok data_bytes
    → (length s < 256 ^ 4) × (data_bytes ≡ little 4 (length s) ++ (s ++ (0 ∷ [])))
unfolding string_data
string_data_ok s data_bytes e = elim (Result-cases (pack_unsigned 4 (length s))) [
  | inl (size, p) ↦
      let (small, same) = packed_unsigned 4 (length s) size p in
      (small, sym (ok_injective (rw p at e)) ∙ ap (λ l. l ++ (s ++ (0 ∷ []))) same)
  | inr (error, p) ↦ absurd (raise-ne-ok (rw p at e))
]

pub string_data-length :
    (s : Bytes) → length (little 4 (length s) ++ (s ++ (0 ∷ []))) ≡ 5 + length s
unfolding little
string_data-length s = omega (arith, length-append s (0 ∷ []))
