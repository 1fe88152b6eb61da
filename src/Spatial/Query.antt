-- ===== src/Spatial/Query.antt =====
-- What a query returns.
use nexus_smarttrading.Prelude.{
  ◌≡◌, refl, ap, ◌∙◌, Bool, true, false, ◌||◌, ◌&&◌, none, some, List, [], ◌∷◌, map, ok, arith,
  Bool-cases, inl, inr,
}
use nexus_smarttrading.Spatial.{
  Floats, Box, to_hit_result, make_box, validate_coordinate, intersects, entry_hit_test,
}
use nexus_smarttrading.Spatial.Tree.{leaf, inner, node_bounds, entries, Entry, Tree}
use nexus_smarttrading.Spatial.Index.{SpatialIndex, no_items, no_box, query_rect, hit_test}
use nexus_smarttrading.Spatial.Valid.{IsIndex}
use nexus_smarttrading.Spatial.Visits.{
  filter, leaf_results-filter, query_lem, node_without_box, no_entries,
}

module _ (floats : Floats) (D : Type 0) where
  open floats use {Float, Coordinate, lt, value, add, sub}

  filter_same :
      (p q : Entry floats D → Bool)
      → ((e : Entry floats D) → p e ≡ q e)
      → (es : List (Entry floats D)) → filter p es ≡ filter q es
  filter_same p q h [] = refl
  filter_same p q h (e ∷ es) = elim (Bool-cases (q e)) [
    | inl k ↦ rw (h e, k, filter_same p q h es) refl
    | inr k ↦ rw (h e, k, filter_same p q h es) refl
  ]

  -- In a valid index, a query for a rectangle with a box returns those of all the entries whose boxes
  -- meet it: no pruned subtree hides one, and the loop over the stack ends.
  pub query_rect-filter :
      (s : SpatialIndex floats D) (min_x min_y max_x max_y : Float) (query_box : Box floats)
      → IsIndex floats D s
      → make_box floats min_x min_y max_x max_y ≡ ok query_box
      → query_rect floats D s min_x min_y max_x max_y
        ≡ ok (
            map to_hit_result (filter (λ e. intersects floats e.bounds query_box) (entries s.root)))
  unfolding query_rect
  query_rect-filter s min_x min_y max_x max_y query_box h e =
      let same =
        filter_same (λ e. intersects floats e.bounds query_box && true)
          (λ e. intersects floats e.bounds query_box) (λ e. ground arith) (entries s.root) in
      rw e (
        query_lem floats D query_box (λ e. true) s h
        ∙ ap ok (
            leaf_results-filter floats D query_box (λ e. true) (entries s.root)
            ∙ ap (map to_hit_result) same))

  box_absent : (n : Tree floats D) → no_box floats D n ≡ true → node_bounds n ≡ none
  unfolding no_box
  box_absent (leaf es none) h = refl
  box_absent (leaf es (some b)) h = absurd (ground (arith, h))
  box_absent (inner cs none) h = refl
  box_absent (inner cs (some b)) h = absurd (ground (arith, h))

  nothing_to_hit :
      (s : SpatialIndex floats D)
      → IsIndex floats D s
      → (no_items floats D s || no_box floats D s.root) ≡ true
      → entries s.root ≡ []
  nothing_to_hit s h k = elim (Bool-cases (no_items floats D s)) [
    | inl e ↦ no_entries floats D s h e
    | inr e ↦ node_without_box floats D s.root h.valid (box_absent s.root (ground (arith, e, k)))
  ]

  -- In a valid index, a hit test with finite coordinates, a tolerance that is not negative and a box
  -- around the point returns those of all the entries whose boxes meet that box and that the point
  -- hits.
  pub hit_test-filter :
      (s : SpatialIndex floats D) (x y tolerance : Float) (qx qy tol : Coordinate)
      (query_box : Box floats)
      → IsIndex floats D s
      → validate_coordinate floats x ≡ ok qx
      → validate_coordinate floats y ≡ ok qy
      → validate_coordinate floats tolerance ≡ ok tol
      → lt (value tol) floats.zero ≡ false
      → make_box floats
          (sub (value qx) (value tol))
          (sub (value qy) (value tol))
          (add (value qx) (value tol))
          (add (value qy) (value tol))
        ≡ ok query_box
      → hit_test floats D s x y tolerance
        ≡ ok (
            map to_hit_result (
              filter
                (λ e. intersects floats e.bounds query_box && entry_hit_test floats e qx qy tol)
                (entries s.root)))
  unfolding hit_test
  hit_test-filter s x y tolerance qx qy tol query_box h a b c d e =
      let spec =
        leaf_results-filter floats D query_box (λ e. entry_hit_test floats e qx qy tol)
          (entries s.root) in
      let whole = query_lem floats D query_box (λ e. entry_hit_test floats e qx qy tol) s h in
      elim (Bool-cases (no_items floats D s || no_box floats D s.root)) [
        | inl k ↦ rw (a, b, c, d, k, nothing_to_hit s h k) refl
        | inr k ↦ rw (a, b, c, d, k, e, whole, spec) refl
      ]
