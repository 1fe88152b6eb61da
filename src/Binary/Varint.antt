-- ===== src/Binary/Varint.antt =====
-- `_encode_varint` and `_decode_varint`. `res` has no bit at or above the shift, so that `|` adds.
use nexus_smarttrading.Prelude.{
  ℕ, zero, suc, ◌+◌, ◌-◌, ◌*◌, ◌/◌, ◌%◌, ◌^◌, [], ◌∷◌, ◌==◌, ltb, if◌then◌else◌, Result, ok, raise,
  value_error, memory_error,
}
use nexus_smarttrading.Prelude.Int.{ℤ, pos, negsuc}
use nexus_smarttrading.Binary.{Bytes}

-- The groups of seven bits, the lowest first. The first argument is fuel.
unfoldable pub groups : ℕ → ℕ → Bytes
groups zero value = []
groups (suc fuel) value =
    let rest = groups fuel (value / 128) in
    if value / 128 == 0 then (value % 128) ∷ [] else (value % 128 + 128) ∷ rest

-- A value that is negative still after 2 ** 64 was added shifts to -1 and never to 0: the bytes grow
-- until the memory is used up.
unfoldable pub encode_varint : ℤ → Result Bytes
encode_varint (pos n) = ok (groups (suc n) n)
encode_varint (negsuc n) =
    if ltb n (2 ^ 64) then ok (groups (2 ^ 64 - n) (2 ^ 64 - 1 - n)) else raise memory_error

-- From `body[offset:]`: the value, and the bytes behind it.
unfoldable pub decode_loop : ℕ → ℕ → Bytes → Result (ℕ × Bytes)
decode_loop res shift [] = raise value_error
decode_loop res shift (b ∷ rest) =
    let next = decode_loop (res + b % 128 * 2 ^ shift) (shift + 7) rest in
    if ltb b 128
    then ok (res + b % 128 * 2 ^ shift, rest)
    else if ltb 70 (shift + 7)
    then raise value_error
    else next

unfoldable pub decode_varint : Bytes → Result (ℕ × Bytes)
decode_varint body = decode_loop 0 0 body
