-- ===== src/Binary/FlatBuffers.antt =====
-- `_FlatBuffersCodec`.
use nexus_smarttrading.Prelude.{
  ℕ, ◌+◌, ◌-◌, ◌*◌, not, Option, none, some, [], ◌∷◌, ◌++◌, ◌==◌, leb, if◌then◌else◌, length, take,
  drop, Result, ok, raise, value_error, ◌>>=◌, ◌>>◌, guard,
}
use nexus_smarttrading.Prelude.Int.{ℤ, pos, negsuc}
use nexus_smarttrading.Binary.{Bytes, Platform, Side, buy, sell, Trade, Quote, side_value}
use nexus_smarttrading.Binary.Words.{
  little, pack_unsigned, pack_long, slice_from, unpack_unsigned, unpack_int, unpack_long,
}

-- The vtable of six fields, for the size of the table and the offsets of its fields.
abbrev pub vtable : ℕ → ℕ → ℕ → ℕ → ℕ → ℕ → ℕ → Bytes
vtable table_size a b c d e f =
    little 2 16
    ++ (little 2 table_size
        ++ (little 2 a
            ++ (little 2 b ++ (little 2 c ++ (little 2 d ++ (little 2 e ++ little 2 f))))))

-- `struct.pack("<I", len(s)) + s + b"\x00"`
unfoldable pub string_data : Bytes → Result Bytes
string_data s = do size ← pack_unsigned 4 (length s); ok (size ++ (s ++ (0 ∷ [])))

-- The variables that the readers of the fields share.
pub record Table : Type 0 where
  pub body : Bytes
  pub root_pos : ℕ
  pub vtable_pos : ℕ
  pub vtable_len : ℕ
  pub table_len : ℕ

-- `root_pos - vtable_delta`, unless it is negative.
unfoldable pub vtable_position : ℕ → ℤ → Option ℕ
vtable_position root_pos (pos delta) = if leb delta root_pos then some (root_pos - delta) else none
vtable_position root_pos (negsuc delta) = some (root_pos + delta + 1)

unfoldable pub with_vtable : Bytes → ℕ → Option ℕ → Result Table
with_vtable body root_pos none = raise value_error
with_vtable body root_pos (some vtable_pos) = do
  guard (leb (vtable_pos + 4) (length body)) value_error
  vtable_len ← unpack_unsigned 2 body vtable_pos
  table_len ← unpack_unsigned 2 body (vtable_pos + 2)
  guard (leb (vtable_pos + vtable_len) (length body)) value_error
  guard (leb (root_pos + table_len) (length body)) value_error
  ok (record {
    body = body;
    root_pos = root_pos;
    vtable_pos = vtable_pos;
    vtable_len = vtable_len;
    table_len = table_len;
  })

unfoldable pub open_table : Bytes → Result Table
open_table body = do
  guard (leb 8 (length body)) value_error
  root_pos ← unpack_unsigned 4 body 0
  guard (leb (root_pos + 4) (length body)) value_error
  vtable_delta ← unpack_int body root_pos
  with_vtable body root_pos (vtable_position root_pos vtable_delta)

unfoldable pub get_field : Table → ℕ → ℕ → Result ℕ
get_field t idx size = do
  let ventry = t.vtable_pos + 4 + 2 * idx
  guard (leb (ventry + 2) (t.vtable_pos + t.vtable_len)) value_error
  foffset ← unpack_unsigned 2 t.body ventry
  guard (not (foffset == 0)) value_error
  let fpos = t.root_pos + foffset
  guard (leb (fpos + size) (t.root_pos + t.table_len)) value_error
  guard (leb (fpos + size) (length t.body)) value_error
  ok fpos

-- `Side.BUY if side_val == 1 else (Side.SELL if side_val == 2 else None)`
unfoldable pub side_of : ℕ → Result Side
side_of v = if v == 1 then ok buy else if v == 2 then ok sell else raise value_error

module _ (platform : Platform) where
  open platform use {Double, is_utf8, pack_double, unpack_double}

  unfoldable pub read_str : Table → ℕ → Result Bytes
  read_str t idx = do
    fpos ← get_field t idx 4
    rel ← unpack_unsigned 4 t.body fpos
    let spos = fpos + rel
    guard (leb (spos + 4) (length t.body)) value_error
    slen ← unpack_unsigned 4 t.body spos
    guard (leb (spos + 4 + slen) (length t.body)) value_error
    guard (is_utf8 (take slen (drop (spos + 4) t.body))) value_error
    ok (take slen (drop (spos + 4) t.body))

  unfoldable pub read_double : Table → ℕ → Result Double
  read_double t idx = do
    fpos ← get_field t idx 8
    bytes ← slice_from 8 t.body fpos
    ok (unpack_double bytes)

  unfoldable pub read_long : Table → ℕ → Result ℤ
  read_long t idx = do fpos ← get_field t idx 8; unpack_long t.body fpos

  unfoldable pub read_side : Table → ℕ → Result Side
  read_side t idx = do fpos ← get_field t idx 1; v ← unpack_unsigned 1 t.body fpos; side_of v

  unfoldable pub deserialize_trade : Bytes → Result (Trade Double)
  deserialize_trade body = do
    t ← open_table body
    symbol ← read_str t 0
    price ← read_double t 1
    size ← read_double t 2
    timestamp_ns ← read_long t 3
    trade_id ← read_str t 4
    side ← read_side t 5
    ok (record {
      symbol = symbol;
      price = price;
      size = size;
      timestamp_ns = timestamp_ns;
      trade_id = trade_id;
      side = side;
    })

  unfoldable pub deserialize_quote : Bytes → Result (Quote Double)
  deserialize_quote body = do
    t ← open_table body
    symbol ← read_str t 0
    bid_price ← read_double t 1
    bid_size ← read_double t 2
    ask_price ← read_double t 3
    ask_size ← read_double t 4
    timestamp_ns ← read_long t 5
    ok (record {
      symbol = symbol;
      bid_price = bid_price;
      bid_size = bid_size;
      ask_price = ask_price;
      ask_size = ask_size;
      timestamp_ns = timestamp_ns;
    })

  -- The table stands at 20. Its fields of a trade are at 4, 8, 16, 24, 32 and 36, and it ends at 37;
  -- the first string begins at 57, which is 33 behind its field at 24; the second begins behind the
  -- first, and its field is at 52.
  unfoldable pub serialize_trade : Trade Double → Result Bytes
  serialize_trade t = do
    str1_data ← string_data t.symbol
    str2_data ← string_data t.trade_id
    timestamp ← pack_long t.timestamp_ns
    str2_offset ← pack_unsigned 4 (57 + length str1_data - 52)
    ok (
        little 4 20
        ++ (vtable 37 4 8 16 24 32 36
            ++ (little 4 16
                ++ (little 4 33
                    ++ (pack_double t.price
                        ++ (pack_double t.size
                            ++ (timestamp
                                ++ (str2_offset
                                    ++ (little 1 (side_value t.side)
                                        ++ (str1_data ++ str2_data))))))))))

  -- The fields of a quote are at 4, 8, 16, 24, 32 and 40, and the table ends at 48; the string begins
  -- at 68, which is 44 behind its field at 24.
  unfoldable pub serialize_quote : Quote Double → Result Bytes
  serialize_quote q = do
    str_data ← string_data q.symbol
    timestamp ← pack_long q.timestamp_ns
    ok (
        little 4 20
        ++ (vtable 48 4 8 16 24 32 40
            ++ (little 4 16
                ++ (little 4 44
                    ++ (pack_double q.bid_price
                        ++ (pack_double q.bid_size
                            ++ (pack_double q.ask_price
                                ++ (pack_double q.ask_size ++ (timestamp ++ str_data)))))))))
