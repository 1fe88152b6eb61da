-- ===== src/Binary/Slices.antt =====
-- Reading at an offset of bytes that were put together from segments.
use nexus_smarttrading.Prelude.{
  ℕ, zero, suc, ◌+◌, ◌-◌, ◌/◌, ◌^◌, ◌<◌, ◌≡◌, refl, ap, ◌∙◌, true, List, [], ◌∷◌, ◌++◌, ltb, leb,
  length, take, drop, length-append, ok, arith, Bool-cases, inl, inr,
}
use nexus_smarttrading.Prelude.Int.{ℤ, pos, negsuc}
use nexus_smarttrading.Binary.{Bytes}
use nexus_smarttrading.Binary.Words.{
  little, from_little, pack_unsigned, pack_long, slice_from, unpack_unsigned, signed,
}

abbrev pub concat : List Bytes → Bytes
concat [] = []
concat (s ∷ ss) = s ++ concat ss

abbrev pub total : List Bytes → ℕ
total [] = 0
total (s ∷ ss) = length s + total ss

pub length-concat : (ss : List Bytes) → length (concat ss) ≡ total ss
length-concat [] = refl
length-concat (s ∷ ss) = omega (arith, length-append s (concat ss), length-concat ss)

take-append : (xs ys : Bytes) → take (length xs) (xs ++ ys) ≡ xs
take-append [] ys = refl
take-append (x ∷ xs) ys = ap (λ l. x ∷ l) (take-append xs ys)

drop-append : (xs ys : Bytes) (n : ℕ) → drop (length xs + n) (xs ++ ys) ≡ drop n ys
drop-append [] ys n = ap (λ m. drop m ys) (omega arith)
drop-append (x ∷ xs) ys n =
    let e : length (x ∷ xs) + n ≡ suc (length xs + n) = omega arith in rw e (drop-append xs ys n)

-- The bytes behind the first segments.
pub drop-segments :
    (before after : List Bytes) → drop (total before) (concat (before ++ after)) ≡ concat after
drop-segments [] after = refl
drop-segments (s ∷ before) after =
    drop-append s (concat (before ++ after)) (total before) ∙ drop-segments before after

pub length-segments :
    (before after : List Bytes) → length (concat (before ++ after)) ≡ total before + total after
length-segments [] after = omega (arith, length-concat after)
length-segments (s ∷ before) after =
    omega (arith, length-append s (concat (before ++ after)), length-segments before after)

-- The segment that begins at the offset.
pub slice_from-segment :
    (before : List Bytes) (segment : Bytes) (after : List Bytes) (n offset : ℕ)
    → offset ≡ total before
    → length segment ≡ n
    → slice_from n (concat (before ++ (segment ∷ after))) offset ≡ ok segment
unfolding slice_from
slice_from-segment before segment after n offset e h =
    let bound : leb (total before + length segment) (length (concat (before ++ (segment ∷ after))))
        ≡ true =
      ground (arith, length-segments before (segment ∷ after)) in
    rw (e, ← h, bound, drop-segments before (segment ∷ after), take-append segment (concat after))
      refl

pub from_little-little : (n v : ℕ) → v < 256 ^ n → from_little (little n v) ≡ v
unfolding from_little little
from_little-little zero v h = omega arith
from_little-little (suc n) v h =
    let smaller : v / 256 < 256 ^ n = omega arith in
    omega (arith, from_little-little n (v / 256) smaller)

pub length-little : (n v : ℕ) → length (little n v) ≡ n
unfolding little
length-little zero v = refl
length-little (suc n) v = ap suc (length-little n (v / 256))

-- The number that begins at the offset.
pub unpack_unsigned-segment :
    (before : List Bytes) (n v : ℕ) (after : List Bytes) (offset : ℕ)
    → offset ≡ total before
    → v < 256 ^ n
    → unpack_unsigned n (concat (before ++ (little n v ∷ after))) offset ≡ ok v
unfolding unpack_unsigned
unpack_unsigned-segment before n v after offset e h =
    rw
      (
        slice_from-segment before (little n v) after n offset e (length-little n v),
        from_little-little n v h,
      )
      refl

-- What `pack_unsigned` and `pack_long` packed, when they did.
pub packed_unsigned :
    (n v : ℕ) (bytes : Bytes) → pack_unsigned n v ≡ ok bytes → (v < 256 ^ n) × (bytes ≡ little n v)
unfolding pack_unsigned
packed_unsigned n v bytes e = ground (arith, e)

pub packed_long :
    (v : ℤ) (bytes : Bytes)
    → pack_long v ≡ ok bytes
    → (length bytes ≡ 8) × (signed (2 ^ 63) (from_little bytes) ≡ v)
unfolding pack_long
packed_long (pos v) bytes e = elim (Bool-cases (ltb v (2 ^ 63))) [
  | inl small ↦
      let same : bytes ≡ little 8 v = ground (arith, small, e) in
      rw same (length-little 8 v, ground (arith, small, from_little-little 8 v))
  | inr large ↦ ground (arith, large, e)
]
packed_long (negsuc v) bytes e = elim (Bool-cases (ltb v (2 ^ 63))) [
  | inl small ↦
      let same : bytes ≡ little 8 (2 ^ 64 - 1 - v) = ground (arith, small, e) in
      rw same (
        length-little 8 (2 ^ 64 - 1 - v),
        ground (arith, small, from_little-little 8 (2 ^ 64 - 1 - v)),
      )
  | inr large ↦ ground (arith, large, e)
]
