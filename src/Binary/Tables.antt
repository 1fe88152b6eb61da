-- ===== src/Binary/Tables.antt =====
-- What the FlatBuffers reader makes of what the writer wrote, one field at a time.
use nexus_smarttrading.Prelude.{
  ℕ, ◌+◌, ◌*◌, ◌^◌, ◌≤◌, ◌<◌, ◌≡◌, refl, ap, true, List, [], ◌∷◌, ◌++◌, leb, length, take, drop, ok,
  arith,
}
use nexus_smarttrading.Prelude.Int.{ℤ}
use nexus_smarttrading.Binary.{Bytes, Platform, Side, buy, sell, side_value}
use nexus_smarttrading.Binary.Words.{
  little, from_little, slice_from, unpack_unsigned, unpack_long, unpack_int, signed,
}
use nexus_smarttrading.Binary.FlatBuffers.{
  Table, vtable_position, with_vtable, open_table, get_field, side_of, read_str, read_double,
  read_long, read_side,
}
use nexus_smarttrading.Binary.Slices.{concat, total, length-concat, unpack_unsigned-segment}

-- The root, the vtable of six fields, and the first word of the table.
abbrev pub front : ℕ → ℕ → ℕ → ℕ → ℕ → ℕ → ℕ → List Bytes → List Bytes
front table_len a b c d e f rest =
    little 4 20
    ∷ little 2 16
    ∷ little 2 table_len
    ∷ little 2 a
    ∷ little 2 b
    ∷ little 2 c
    ∷ little 2 d
    ∷ little 2 e
    ∷ little 2 f
    ∷ little 4 16
    ∷ rest

abbrev pub table_of : Bytes → ℕ → Table
table_of body table_len = record {
  body = body;
  root_pos = 20;
  vtable_pos = 4;
  vtable_len = 16;
  table_len = table_len;
}

pub length-front :
    (table_len a b c d e f : ℕ) (rest : List Bytes)
    → length (concat (front table_len a b c d e f rest)) ≡ 24 + total rest
unfolding little
length-front table_len a b c d e f rest = omega (arith, length-concat rest)

open_table_lem :
    (body : Bytes) (table_len : ℕ)
    → unpack_unsigned 4 body 0 ≡ ok 20
    → unpack_unsigned 4 body 20 ≡ ok 16
    → unpack_unsigned 2 body 4 ≡ ok 16
    → unpack_unsigned 2 body 6 ≡ ok table_len
    → 24 ≤ length body
    → 20 + table_len ≤ length body
    → open_table body ≡ ok (table_of body table_len)
unfolding open_table with_vtable vtable_position unpack_int
open_table_lem body table_len root delta vtable_len len l m =
    ground (arith, root, delta, vtable_len, len)

pub open_table-front :
    (table_len a b c d e f : ℕ) (rest : List Bytes)
    → table_len < 256 ^ 2
    → table_len ≤ 4 + total rest
    → open_table (concat (front table_len a b c d e f rest))
      ≡ ok (table_of (concat (front table_len a b c d e f rest)) table_len)
open_table-front table_len a b c d e f rest h l =
    let fields = little 2 a ∷ little 2 b ∷ little 2 c ∷ little 2 d ∷ little 2 e ∷ little 2 f ∷ [] in
    let size = length-front table_len a b c d e f rest in
    open_table_lem (concat (front table_len a b c d e f rest)) table_len
      (unpack_unsigned-segment [] 4 20
        (little 2 16 ∷ little 2 table_len ∷ (fields ++ (little 4 16 ∷ rest))) 0 refl (omega arith))
      (unpack_unsigned-segment (little 4 20 ∷ little 2 16 ∷ little 2 table_len ∷ fields) 4 16 rest
        20 (unfold little in refl) (omega arith))
      (unpack_unsigned-segment (little 4 20 ∷ []) 2 16
        (little 2 table_len ∷ (fields ++ (little 4 16 ∷ rest))) 4 (unfold little in refl)
        (omega arith))
      (unpack_unsigned-segment (little 4 20 ∷ little 2 16 ∷ []) 2 table_len
        (fields ++ (little 4 16 ∷ rest)) 6 (unfold little in refl) h)
      (omega arith) (omega arith)

slice_from_ok :
    (n : ℕ) (body : Bytes) (offset : ℕ) (s : Bytes)
    → slice_from n body offset ≡ ok s
    → (offset + n ≤ length body) × (take n (drop offset body) ≡ s)
unfolding slice_from
slice_from_ok n body offset s e = ground (arith, e)

pub get_field_lem :
    (t : Table) (idx size foffset : ℕ)
    → unpack_unsigned 2 t.body (t.vtable_pos + 4 + 2 * idx) ≡ ok foffset
    → t.vtable_pos + 4 + 2 * idx + 2 ≤ t.vtable_pos + t.vtable_len
    → 0 < foffset
    → foffset + size ≤ t.table_len
    → t.root_pos + foffset + size ≤ length t.body
    → get_field t idx size ≡ ok (t.root_pos + foffset)
unfolding get_field
get_field_lem t idx size foffset e a b c d = ground (arith, e)

module _ (platform : Platform) where
  open platform use {Double, is_utf8, pack_double, unpack_double, unpack-pack_double}

  pub read_double_lem :
      (t : Table) (idx fpos : ℕ) (value : Double)
      → get_field t idx 8 ≡ ok fpos
      → slice_from 8 t.body fpos ≡ ok (pack_double value)
      → read_double platform t idx ≡ ok value
  unfolding read_double
  read_double_lem t idx fpos value e s = rw (e, s, unpack-pack_double value) refl

  pub read_long_lem :
      (t : Table) (idx fpos : ℕ) (bytes : Bytes) (value : ℤ)
      → get_field t idx 8 ≡ ok fpos
      → slice_from 8 t.body fpos ≡ ok bytes
      → signed (2 ^ 63) (from_little bytes) ≡ value
      → read_long platform t idx ≡ ok value
  unfolding read_long unpack_long unpack_unsigned
  read_long_lem t idx fpos bytes value e s v = rw (e, s) (ap ok v)

  pub read_side_lem :
      (t : Table) (idx fpos : ℕ) (side : Side)
      → get_field t idx 1 ≡ ok fpos
      → unpack_unsigned 1 t.body fpos ≡ ok (side_value side)
      → read_side platform t idx ≡ ok side
  unfolding read_side side_of
  read_side_lem t idx fpos buy e s = rw (e, s) refl
  read_side_lem t idx fpos sell e s = rw (e, s) refl

  pub read_str_lem :
      (t : Table) (idx fpos rel : ℕ) (s : Bytes)
      → get_field t idx 4 ≡ ok fpos
      → unpack_unsigned 4 t.body fpos ≡ ok rel
      → unpack_unsigned 4 t.body (fpos + rel) ≡ ok (length s)
      → slice_from (length s) t.body (fpos + rel + 4) ≡ ok s
      → is_utf8 s ≡ true
      → read_str platform t idx ≡ ok s
  unfolding read_str
  read_str_lem t idx fpos rel s e r l b u =
      let (bound, same) = slice_from_ok (length s) t.body (fpos + rel + 4) s b in
      let enough : leb (fpos + rel + 4) (length t.body) ≡ true = ground arith in
      let whole : leb (fpos + rel + 4 + length s) (length t.body) ≡ true = ground arith in
      rw (e, r, enough, l, whole, same, u) refl
