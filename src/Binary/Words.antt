-- ===== src/Binary/Words.antt =====
-- The integers of the `struct` module, as the codecs pack and unpack them.
use nexus_smarttrading.Prelude.{
  ℕ, zero, suc, ◌+◌, ◌-◌, ◌*◌, ◌/◌, ◌%◌, ◌^◌, [], ◌∷◌, ltb, leb, if◌then◌else◌, length, take, drop,
  Result, ok, raise, struct_error, ◌>>=◌,
}
use nexus_smarttrading.Prelude.Int.{ℤ, pos, negsuc}
use nexus_smarttrading.Binary.{Bytes}

-- So many bytes of a number, the lowest first, and the number of such bytes.
unfoldable pub little : ℕ → ℕ → Bytes
little zero v = []
little (suc n) v = (v % 256) ∷ little n (v / 256)

unfoldable pub from_little : Bytes → ℕ
from_little [] = 0
from_little (b ∷ bs) = b + 256 * from_little bs

-- The formats "<B", "<H" and "<I" have 1, 2 and 4 bytes.
unfoldable pub pack_unsigned : ℕ → ℕ → Result Bytes
pack_unsigned n v = if ltb v (256 ^ n) then ok (little n v) else raise struct_error

-- "<q"
unfoldable pub pack_long : ℤ → Result Bytes
pack_long (pos v) = if ltb v (2 ^ 63) then ok (little 8 v) else raise struct_error
pack_long (negsuc v) = if ltb v (2 ^ 63) then ok (little 8 (2 ^ 64 - 1 - v)) else raise struct_error

-- The bytes that `unpack_from` reads.
unfoldable pub slice_from : ℕ → Bytes → ℕ → Result Bytes
slice_from n body offset =
    if leb (offset + n) (length body) then ok (take n (drop offset body)) else raise struct_error

unfoldable pub unpack_unsigned : ℕ → Bytes → ℕ → Result ℕ
unpack_unsigned n body offset = do bytes ← slice_from n body offset; ok (from_little bytes)

-- A number of two's complement with the given half of its range.
abbrev pub signed : ℕ → ℕ → ℤ
signed half v = if ltb v half then pos v else negsuc (2 * half - 1 - v)

-- "<i" and "<q"
unfoldable pub unpack_int : Bytes → ℕ → Result ℤ
unpack_int body offset = do v ← unpack_unsigned 4 body offset; ok (signed (2 ^ 31) v)

unfoldable pub unpack_long : Bytes → ℕ → Result ℤ
unpack_long body offset = do v ← unpack_unsigned 8 body offset; ok (signed (2 ^ 63) v)
