-- ===== src/Binary/Fields.antt =====
-- What the Protobuf reader makes of what the writer wrote, one field at a time.
use nexus_smarttrading.Prelude.{
  ℕ, zero, suc, ◌+◌, ◌*◌, ◌/◌, ◌%◌, ◌^◌, ◌≤◌, ◌<◌, ◌≡◌, refl, ap, ◌∙◌, true, List, [], ◌∷◌, ◌++◌,
  ◌==◌, leb, length, take, drop, length-append, Result, ok, ◌>>=◌, arith, Bool-cases, Result-cases,
  inl, inr,
}
use native.Mathlib.Numerals.{towards_suc}
use nexus_smarttrading.Binary.{Bytes, Platform}
use nexus_smarttrading.Binary.Varint.{groups, decode_loop, decode_varint}
use nexus_smarttrading.Binary.Protobuf.{
  Field, number, double, text, read_value, read_field, fields_loop,
}

-- The arithmetic of one group.
group_value :
    (res shift value : ℕ)
    → res + value % 128 * 2 ^ shift + value / 128 * 2 ^ (shift + 7) ≡ res + value * 2 ^ shift
group_value res shift value =
    let parts : 128 * (value / 128) + value % 128 ≡ value = omega arith in
    let step : 2 ^ (shift + 7) ≡ 128 * 2 ^ shift = simp towards_suc (omega arith) in
    rw step (omega (arith, ap (λ (t : ℕ). t * 2 ^ shift) parts))

decode-groups :
    (k fuel res shift value : ℕ) (rest : Bytes)
    → value < fuel
    → value < 128 ^ (suc k)
    → shift + 7 * k ≤ 70
    → decode_loop res shift (groups fuel value ++ rest) ≡ ok (res + value * 2 ^ shift, rest)
unfolding decode_loop groups
decode-groups k zero res shift value rest f v s = absurd (omega arith)
decode-groups zero (suc fuel) res shift value rest f v s =
    let small : value < 128 = omega arith in ground (arith, small)
decode-groups (suc k) (suc fuel) res shift value rest f v s =
    let smaller : value / 128 < 128 ^ suc k = omega arith in
    elim (Bool-cases (value / 128 == 0)) [
      | inl last ↦ ground (arith, last)
      | inr more ↦ ground (
        arith,
        more,
        group_value res shift value,
        decode-groups k fuel (res + value % 128 * 2 ^ shift) (shift + 7) (value / 128) rest,
      )
    ]

pub decode_varint-groups :
    (value : ℕ) (rest : Bytes)
    → value < 2 ^ 77
    → decode_varint (groups (suc value) value ++ rest) ≡ ok (value, rest)
unfolding decode_varint
decode_varint-groups value rest h =
    decode-groups 10 (suc value) 0 0 value rest (omega arith) (omega arith) (omega arith)
    ∙ (let e : 0 + value * 2 ^ 0 ≡ value = omega arith in rw e refl)

-- A tag is one byte.
decode_tag : (tag : ℕ) (rest : Bytes) → tag < 128 → decode_varint (tag ∷ rest) ≡ ok (tag, rest)
unfolding decode_varint decode_loop
decode_tag tag rest h = ground arith

pub take-append {ℓ} : {A : Type ℓ} (n : ℕ) (xs ys : List A) → length xs ≡ n → take n (xs ++ ys) ≡ xs
take-append zero [] ys h = refl
take-append zero (x ∷ xs) ys h = absurd (omega arith)
take-append (suc n) [] ys h = absurd (omega arith)
take-append (suc n) (x ∷ xs) ys h = ap (λ l. x ∷ l) (take-append n xs ys (omega arith))

pub drop-append {ℓ} : {A : Type ℓ} (n : ℕ) (xs ys : List A) → length xs ≡ n → drop n (xs ++ ys) ≡ ys
drop-append zero [] ys h = refl
drop-append zero (x ∷ xs) ys h = absurd (omega arith)
drop-append (suc n) [] ys h = absurd (omega arith)
drop-append (suc n) (x ∷ xs) ys h = drop-append n xs ys (omega arith)

pub leb-append {ℓ} :
    {A : Type ℓ} (n : ℕ) (xs ys : List A) → length xs ≡ n → leb n (length (xs ++ ys)) ≡ true
leb-append n xs ys h = ground (arith, length-append xs ys)

-- The bytes of a list of fields.
pub data Wire (platform : Platform) : List (Field platform.Double) → Bytes → Type 0 where
  done : Wire platform [] []
  next :
      {field : Field platform.Double} {fields : List (Field platform.Double)} {b : ℕ}
      {body rest : Bytes}
      → read_field platform (b ∷ body) ≡ ok (field, rest)
      → length rest ≤ length body
      → Wire platform fields rest
      → Wire platform (field ∷ fields) (b ∷ body)

module _ (platform : Platform) where
  open platform use {
    Double, is_utf8, pack_double, unpack_double, length-pack_double, unpack-pack_double,
  }

  pub number-Wire :
      (tag value : ℕ) (fields : List (Field Double)) (rest : Bytes)
      → tag < 128
      → tag % 8 ≡ 0
      → value < 2 ^ 77
      → Wire platform fields rest
      → Wire platform (number (tag / 8) value ∷ fields) (tag ∷ (groups (suc value) value ++ rest))
  unfolding read_field read_value
  number-Wire tag value fields rest h w v more =
      next
        (rw
          (
            decode_tag tag (groups (suc value) value ++ rest) h,
            w,
            decode_varint-groups value rest v,
          )
          refl)
        (omega (arith, length-append (groups (suc value) value) rest)) more

  pub double-Wire :
      (tag : ℕ) (value : Double) (fields : List (Field Double)) (rest : Bytes)
      → tag < 128
      → tag % 8 ≡ 1
      → Wire platform fields rest
      → Wire platform (double (tag / 8) value ∷ fields) (tag ∷ (pack_double value ++ rest))
  unfolding read_field read_value
  double-Wire tag value fields rest h w more =
      next
        (let eight = length-pack_double value in
          rw
            (
              decode_tag tag (pack_double value ++ rest) h,
              w,
              leb-append 8 (pack_double value) rest eight,
              take-append 8 (pack_double value) rest eight,
              drop-append 8 (pack_double value) rest eight,
              unpack-pack_double value,
            )
            refl)
        (omega (arith, length-append (pack_double value) rest)) more

  pub text-Wire :
      (tag : ℕ) (s : Bytes) (fields : List (Field Double)) (rest : Bytes)
      → tag < 128
      → tag % 8 ≡ 2
      → length s < 2 ^ 77
      → is_utf8 s ≡ true
      → Wire platform fields rest
      → Wire platform
          (text (tag / 8) s ∷ fields)
          (tag ∷ (groups (suc (length s)) (length s) ++ (s ++ rest)))
  unfolding read_field read_value
  text-Wire tag s fields rest h w v u more =
      next
        (rw
          (
            decode_tag tag (groups (suc (length s)) (length s) ++ (s ++ rest)) h,
            w,
            decode_varint-groups (length s) (s ++ rest) v,
            leb-append (length s) s rest refl,
            take-append (length s) s rest refl,
            drop-append (length s) s rest refl,
            u,
          )
          refl)
        (omega (
          arith,
          length-append (groups (suc (length s)) (length s)) (s ++ rest),
          length-append s rest,
        ))
        more

module _ (platform : Platform) {P : Type 0} (assign : Field platform.Double → P → Result P) where
  -- The fields of a message, one after the other.
  abbrev pub assign_all : List (Field platform.Double) → P → Result P
  assign_all [] p = ok p
  assign_all (field ∷ fields) p = assign field p >>= assign_all fields

  pub loop-Wire :
      (fields : List (Field platform.Double)) (fuel : ℕ) (body : Bytes) (p : P)
      → Wire platform fields body
      → length body ≤ fuel
      → fields_loop platform assign fuel body p ≡ assign_all fields p
  unfolding fields_loop
  loop-Wire [] fuel [] p done h = refl
  loop-Wire [] fuel (b ∷ body) p w h = elim w [ ]
  loop-Wire (field ∷ fields) zero [] p w h = elim w [ ]
  loop-Wire (field ∷ fields) (suc fuel) [] p w h = elim w [ ]
  loop-Wire (field ∷ fields) zero (b ∷ body) p (next r l w) h = absurd (omega arith)
  loop-Wire (field ∷ fields) (suc fuel) (b ∷ body) p (next {rest} r l w) h =
      elim (Result-cases (assign field p)) [
        | inl (p', e) ↦ rw (r, e, assign_all) (loop-Wire fields fuel rest p' w (omega arith))
        | inr (x, e) ↦ rw (r, e, assign_all) refl
      ]
