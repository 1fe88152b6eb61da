-- ===== src/Binary/Errors/Flat.antt =====
-- The exceptions of `_FlatBuffersCodec`.
use nexus_smarttrading.Prelude.{
  ℕ, ◌+◌, ◌*◌, ◌≤◌, not, Option, none, some, ◌==◌, leb, length, take, drop, arith,
}
use nexus_smarttrading.Binary.{Bytes, Platform}
use nexus_smarttrading.Binary.Words.{slice_from, unpack_unsigned, unpack_int, unpack_long}
use nexus_smarttrading.Binary.FlatBuffers
use nexus_smarttrading.Binary.FlatBuffers.{Table, with_vtable, open_table, get_field, side_of}
use nexus_smarttrading.Binary.Errors.{
  Returns, returned, refused, Any, >>=-Returns, guard-Returns, if-Returns, slice_from-Returns,
  unpack-Returns,
}

-- A vtable that lies in the body.
OpenedTable : Table → Type 0
OpenedTable t = t.vtable_pos + t.vtable_len ≤ length t.body

with_vtable-Returns :
    (body : Bytes) (root_pos : ℕ) (vtable_pos : Option ℕ)
    → Returns OpenedTable (with_vtable body root_pos vtable_pos)
unfolding with_vtable OpenedTable
with_vtable-Returns body root_pos none = refused
with_vtable-Returns body root_pos (some vtable_pos) =
    guard-Returns (leb (vtable_pos + 4) (length body)) _ (λ h.
      >>=-Returns (unpack_unsigned 2 body vtable_pos) _
        (unpack-Returns 2 body vtable_pos (ground arith))
        (λ v e.
          >>=-Returns (unpack_unsigned 2 body (vtable_pos + 2)) _
            (unpack-Returns 2 body (vtable_pos + 2) (ground arith))
            (λ l k. guard-Returns (leb (vtable_pos + v) (length body)) _ (λ p.
              guard-Returns (leb (root_pos + l) (length body)) _ (λ q. returned (ground arith))))))

open_table-Returns : (body : Bytes) → Returns OpenedTable (open_table body)
unfolding open_table unpack_int
open_table-Returns body = guard-Returns (leb 8 (length body)) _ (λ h.
    >>=-Returns (unpack_unsigned 4 body 0) _ (unpack-Returns 4 body 0 (ground arith)) (λ root e.
      guard-Returns (leb (root + 4) (length body)) _ (λ k.
        >>=-Returns (unpack_int body root) _
          (>>=-Returns {Q = Any} (unpack_unsigned 4 body root) _
            (unpack-Returns 4 body root (ground arith)) (λ v p. returned tt))
          (λ delta d. with_vtable-Returns body root _))))

-- A field lies in the body.
get_field-Returns :
    (t : Table) (idx size : ℕ)
    → OpenedTable t
    → Returns (λ fpos. fpos + size ≤ length t.body) (get_field t idx size)
unfolding get_field OpenedTable
get_field-Returns t idx size opened =
    let ventry = t.vtable_pos + 4 + 2 * idx in
    guard-Returns (leb (ventry + 2) (t.vtable_pos + t.vtable_len)) _ (λ h.
      >>=-Returns (unpack_unsigned 2 t.body ventry) _
        (unpack-Returns 2 t.body ventry (ground arith))
        (λ o e. guard-Returns (not (o == 0)) _ (λ k.
          guard-Returns (leb (t.root_pos + o + size) (t.root_pos + t.table_len)) _ (λ p.
            guard-Returns (leb (t.root_pos + o + size) (length t.body)) _
              (λ q. returned (ground arith))))))

side_of-Returns : (v : ℕ) → Returns Any (side_of v)
unfolding side_of
side_of-Returns v =
    if-Returns (v == 1) _ _ (λ h. returned tt)
      (λ h. if-Returns (v == 2) _ _ (λ k. returned tt) (λ k. refused))

module _ (platform : Platform) where
  open platform use {Double, is_utf8}

  module _ (t : Table) (idx : ℕ) (opened : OpenedTable t) where
    read_str-Returns : Returns Any (FlatBuffers.read_str platform t idx)
    unfolding FlatBuffers.read_str
    read_str-Returns =
        >>=-Returns (get_field t idx 4) _ (get_field-Returns t idx 4 opened) (λ fpos p.
          >>=-Returns (unpack_unsigned 4 t.body fpos) _ (unpack-Returns 4 t.body fpos p) (λ rel e.
            guard-Returns (leb (fpos + rel + 4) (length t.body)) _ (λ h.
              >>=-Returns (unpack_unsigned 4 t.body (fpos + rel)) _
                (unpack-Returns 4 t.body (fpos + rel) (ground arith))
                (λ slen k. guard-Returns (leb (fpos + rel + 4 + slen) (length t.body)) _ (λ q.
                  guard-Returns (is_utf8 (take slen (drop (fpos + rel + 4) t.body))) _
                    (λ u. returned tt))))))

    read_double-Returns : Returns Any (FlatBuffers.read_double platform t idx)
    unfolding FlatBuffers.read_double
    read_double-Returns =
        >>=-Returns (get_field t idx 8) _ (get_field-Returns t idx 8 opened) (λ fpos p.
          >>=-Returns (slice_from 8 t.body fpos) _ (slice_from-Returns 8 t.body fpos p)
            (λ bytes e. returned tt))

    read_long-Returns : Returns Any (FlatBuffers.read_long platform t idx)
    unfolding FlatBuffers.read_long unpack_long
    read_long-Returns =
        >>=-Returns (get_field t idx 8) _ (get_field-Returns t idx 8 opened) (λ fpos p.
          >>=-Returns (unpack_unsigned 8 t.body fpos) _ (unpack-Returns 8 t.body fpos p)
            (λ v e. returned tt))

    read_side-Returns : Returns Any (FlatBuffers.read_side platform t idx)
    unfolding FlatBuffers.read_side
    read_side-Returns =
        >>=-Returns (get_field t idx 1) _ (get_field-Returns t idx 1 opened) (λ fpos p.
          >>=-Returns (unpack_unsigned 1 t.body fpos) _ (unpack-Returns 1 t.body fpos p)
            (λ v e. side_of-Returns v))

  pub flat_trade-Returns :
      (body : Bytes) → Returns Any (FlatBuffers.deserialize_trade platform body)
  unfolding FlatBuffers.deserialize_trade
  flat_trade-Returns body = >>=-Returns (open_table body) _ (open_table-Returns body) (λ t opened.
      >>=-Returns (FlatBuffers.read_str platform t 0) _ (read_str-Returns t 0 opened) (λ symbol a.
        >>=-Returns (FlatBuffers.read_double platform t 1) _ (read_double-Returns t 1 opened)
          (λ price b.
            >>=-Returns (FlatBuffers.read_double platform t 2) _ (read_double-Returns t 2 opened)
              (λ size c.
                >>=-Returns (FlatBuffers.read_long platform t 3) _ (read_long-Returns t 3 opened)
                  (λ time d.
                    >>=-Returns (FlatBuffers.read_str platform t 4) _ (read_str-Returns t 4 opened)
                      (λ id e.
                        >>=-Returns (FlatBuffers.read_side platform t 5) _
                          (read_side-Returns t 5 opened) (λ side f. returned tt)))))))

  pub flat_quote-Returns :
      (body : Bytes) → Returns Any (FlatBuffers.deserialize_quote platform body)
  unfolding FlatBuffers.deserialize_quote
  flat_quote-Returns body = >>=-Returns (open_table body) _ (open_table-Returns body) (λ t opened.
      >>=-Returns (FlatBuffers.read_str platform t 0) _ (read_str-Returns t 0 opened) (λ symbol a.
        >>=-Returns (FlatBuffers.read_double platform t 1) _ (read_double-Returns t 1 opened)
          (λ bid b.
            >>=-Returns (FlatBuffers.read_double platform t 2) _ (read_double-Returns t 2 opened)
              (λ bid_size c.
                >>=-Returns (FlatBuffers.read_double platform t 3) _
                  (read_double-Returns t 3 opened)
                  (λ ask d.
                    >>=-Returns (FlatBuffers.read_double platform t 4) _
                      (read_double-Returns t 4 opened)
                      (λ ask_size e.
                        >>=-Returns (FlatBuffers.read_long platform t 5) _
                          (read_long-Returns t 5 opened) (λ time f. returned tt)))))))
