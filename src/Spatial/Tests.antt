-- ===== src/Spatial/Tests.antt =====
-- An index of two entries with a leaf each, over whole numbers.
use nexus_smarttrading.Prelude.{
  ℕ, ◌+◌, ◌-◌, ◌*◌, ◌≡◌, refl, Bool, false, some, [], ◌∷◌, ◌==◌, ltb, leb, if◌then◌else◌, count, ok,
  arith,
}
use nexus_smarttrading.Prelude.Decimal.{ltb_irrefl, ltb_asym, leb_trans}
use nexus_smarttrading.Prelude.Dict.{contains}
use nexus_smarttrading.Spatial.{
  Floats, IndexEntry, bar, point, to_hit_result, make_box, validate_coordinate, intersects,
  entry_hit_test, contains_point, lower, upper, union, bounds_loop, compute_bounds,
}
use nexus_smarttrading.Spatial.Tree.{leaf, inner, no_nodes, next_node, entries, entry_boxes}
use nexus_smarttrading.Spatial.Index.{SpatialIndex, query_rect, hit_test, remove, insert_entry}
use nexus_smarttrading.Spatial.Valid.{IsIndex}
use nexus_smarttrading.Spatial.Query.{query_rect-filter, hit_test-filter}
use nexus_smarttrading.Spatial.Operations.{others_with, remove-others, insert_entry-adds}

-- The hypotenuse is measured along the axes here.
abbrev whole : Floats
whole = record {
  Float = ℕ;
  Coordinate = ℕ;
  finite = λ n. some n;
  value = λ n. n;
  lt = ltb;
  le = leb;
  eq = λ a b. a == b;
  add = λ a b. a + b;
  sub = λ a b. a - b;
  mul = λ a b. a * b;
  abs = λ a. a;
  hypot = λ a b. a + b;
  zero = 0;
  minus_one = 0;
  infinity = 1000000;
  minus_infinity = 0;
  lt_irrefl = ltb_irrefl;
  lt_asym = ltb_asym;
  le_trans = leb_trans;
}

abbrev near : IndexEntry ℕ ℕ
near = record {
  item_id = 1;
  bounds = record { min_x = 1; min_y = 1; max_x = 3; max_y = 3 };
  payload = 10;
  shape = bar;
}

abbrev far : IndexEntry ℕ ℕ
far = record {
  item_id = 2;
  bounds = record { min_x = 8; min_y = 8; max_x = 9; max_y = 9 };
  payload = 20;
  shape = bar;
}

abbrev later : IndexEntry ℕ ℕ
later = record {
  item_id = 3;
  bounds = record { min_x = 2; min_y = 0; max_x = 4; max_y = 1 };
  payload = 30;
  shape = point 3 1 1;
}

abbrev two_leaves : SpatialIndex whole ℕ
two_leaves = record {
  max_entries = 2;
  min_entries = 1;
  root =
      inner
        (next_node (leaf (near ∷ []) (some near.bounds))
          (next_node (leaf (far ∷ []) (some far.bounds)) no_nodes))
        (some (record { min_x = 1; min_y = 1; max_x = 9; max_y = 9 }));
  items = (1, near) ∷ (2, far) ∷ [];
}

two_leaves-IsIndex : IsIndex whole ℕ two_leaves
unfolding compute_bounds bounds_loop union lower upper entry_boxes entries contains
two_leaves-IsIndex = record {
  valid = (refl, (refl, refl, (refl, refl, tt)));
  once = λ id. ground arith;
  room = omega arith;
}

-- A rectangle that the box of the far leaf does not meet.
query_rect-filter_example : query_rect whole ℕ two_leaves 0 0 5 5 ≡ ok (to_hit_result near ∷ [])
unfolding make_box validate_coordinate intersects entries
query_rect-filter_example =
    query_rect-filter whole ℕ two_leaves 0 0 5 5
      (record { min_x = 0; min_y = 0; max_x = 5; max_y = 5 }) two_leaves-IsIndex refl

hit_test-filter_example : hit_test whole ℕ two_leaves 9 9 1 ≡ ok (to_hit_result far ∷ [])
unfolding make_box validate_coordinate intersects entries entry_hit_test contains_point
hit_test-filter_example =
    hit_test-filter whole ℕ two_leaves 9 9 1 9 9 1
      (record { min_x = 8; min_y = 8; max_x = 10; max_y = 10 }) two_leaves-IsIndex refl refl refl
      refl refl

remove-others_example :
    IsIndex whole ℕ (remove whole ℕ two_leaves 2).1
    × ((p : IndexEntry ℕ ℕ → Bool)
        → count p (entries (remove whole ℕ two_leaves 2).1.root)
          ≡ count (others_with whole ℕ p 2) (entries two_leaves.root))
    × ((remove whole ℕ two_leaves 2).0 ≡ contains 2 two_leaves.items)
    × (contains 2 (remove whole ℕ two_leaves 2).1.items ≡ false)
remove-others_example = remove-others whole ℕ two_leaves 2 two_leaves-IsIndex

insert_entry-adds_example :
    (after : SpatialIndex whole ℕ) × (insert_entry whole ℕ two_leaves later ≡ ok after)
    × IsIndex whole ℕ after
    × ((p : IndexEntry ℕ ℕ → Bool)
        → count p (entries after.root)
          ≡ (if p later then 1 else 0) + count (others_with whole ℕ p 3) (entries two_leaves.root))
insert_entry-adds_example = insert_entry-adds whole ℕ two_leaves later two_leaves-IsIndex
