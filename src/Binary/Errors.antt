-- ===== src/Binary/Errors.antt =====
-- The exceptions of the deserializers.
mod Flat
mod Wire
pub mod Payloads
use nexus_smarttrading.Prelude.{
  ℕ, zero, suc, ◌+◌, ◌-◌, ◌*◌, ◌/◌, ◌%◌, ◌^◌, ◌≤◌, ◌<◌, ◌≡◌, refl, sym, ap, ◌∙◌, Bool, true, false,
  not, ◌&&◌, ◌||◌, Option, none, some, List, [], ◌∷◌, ◌++◌, ◌==◌, ltb, leb, if◌then◌else◌, length,
  take, drop, Result, ok, raise, Error, value_error, arith, Bool-cases, Result-cases, inl, inr,
  ◌>>=◌, ◌>>◌, guard, >>=-eq-ok,
}
use nexus_smarttrading.Prelude.Int.{ℤ, pos, negsuc}
use nexus_smarttrading.Binary.{
  Bytes, Platform, BinaryProtocolType, protobuf, flatbuffers, Trade, Quote, or_incomplete,
}
use nexus_smarttrading.Binary.Words.{slice_from, unpack_unsigned, unpack_int, unpack_long}
use nexus_smarttrading.Binary.FlatBuffers
use nexus_smarttrading.Binary.FlatBuffers.{Table, with_vtable, open_table, get_field, side_of}

-- A result that satisfies a predicate, or a `ValueError`.
pub data Returns {ℓ κ} {A : Type ℓ} (P : A → Type κ) : Result A → Type (ℓ ⊔ κ) where
  returned : {a : A} → P a → Returns P (ok a)
  refused : Returns P (raise value_error)

abbrev pub Any {ℓ} : {A : Type ℓ} → A → Type 0
Any a = Unit

pub raised-Returns {ℓ κ} :
    {A : Type ℓ} {P : A → Type κ} (r : Result A) (e : Error)
    → Returns P r
    → r ≡ raise e
    → e ≡ value_error
raised-Returns _ e (returned p) h = cc
raised-Returns _ e refused h = cc

pub >>=-Returns {ℓ κ ι μ} :
    {A : Type ℓ} {B : Type κ} {P : A → Type ι} {Q : B → Type μ} (m : Result A) (next : A → Result B)
    → Returns P m
    → ((a : A) → P a → Returns Q (next a))
    → Returns Q (m >>= next)
>>=-Returns _ next (returned {a = a} p) h = h a p
>>=-Returns _ next refused h = refused

pub weaken-Returns {ℓ κ ι} :
    {A : Type ℓ} {P : A → Type κ} {Q : A → Type ι} {m : Result A}
    → ((a : A) → P a → Q a)
    → Returns P m
    → Returns Q m
weaken-Returns h (returned {a = a} p) = returned (h a p)
weaken-Returns h refused = refused

pub guard-Returns {ℓ κ} :
    {B : Type ℓ} {Q : B → Type κ} (b : Bool) (next : Result B)
    → (b ≡ true → Returns Q next)
    → Returns Q (guard b value_error >> next)
guard-Returns false next h = refused
guard-Returns true next h = h refl

pub if-Returns {ℓ κ} :
    {B : Type ℓ} {Q : B → Type κ} (b : Bool) (m n : Result B)
    → (b ≡ true → Returns Q m)
    → (b ≡ false → Returns Q n)
    → Returns Q (if b then m else n)
if-Returns true m n h k = h refl
if-Returns false m n h k = k refl

pub slice_from-Returns :
    (n : ℕ) (body : Bytes) (offset : ℕ)
    → offset + n ≤ length body
    → Returns Any (slice_from n body offset)
unfolding slice_from
slice_from-Returns n body offset h =
    let fits : leb (offset + n) (length body) ≡ true = ground arith in rw fits (returned tt)

pub unpack-Returns :
    (n : ℕ) (body : Bytes) (offset : ℕ)
    → offset + n ≤ length body
    → Returns Any (unpack_unsigned n body offset)
unfolding unpack_unsigned
unpack-Returns n body offset h =
    >>=-Returns (slice_from n body offset) _ (slice_from-Returns n body offset h)
      (λ a p. returned tt)
