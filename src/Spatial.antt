-- ===== src/Spatial.antt =====
-- interaction/spatial_index.py: boxes and entries, and what the index takes from the floats.
pub mod Split
pub mod Tree
pub mod Index
mod Boxes
mod Valid
mod Visits
pub mod Query
mod Shrink
mod Parts
mod Groups
mod Grow
mod Inserted
pub mod Operations
mod Tests
use nexus_smarttrading.Prelude.{
  ℕ, ◌≡◌, Bool, true, false, not, ◌&&◌, ◌||◌, Option, none, some, List, [], ◌∷◌, if◌then◌else◌,
  Result, ok, raise, value_error, ◌>>=◌, ◌>>◌, guard,
}

-- Python's floats. The finite ones, which a box holds, are ordered by `<`; nothing is said of the
-- arithmetic, which rounds and overflows.
pub record Floats : Type 1 where
  pub Float : Type 0
  pub Coordinate : Type 0
  pub finite : Float → Option Coordinate
  pub value : Coordinate → Float
  pub lt : Float → Float → Bool
  pub le : Float → Float → Bool
  pub eq : Float → Float → Bool
  pub add : Float → Float → Float
  pub sub : Float → Float → Float
  pub mul : Float → Float → Float
  pub abs : Float → Float
  pub hypot : Float → Float → Float
  pub zero : Float
  pub minus_one : Float
  pub infinity : Float
  pub minus_infinity : Float
  pub lt_irrefl : (a : Coordinate) → lt (value a) (value a) ≡ false
  pub lt_asym : (a b : Coordinate) → lt (value a) (value b) ≡ true → lt (value b) (value a) ≡ false
  pub le_trans :
      (a b c : Coordinate)
      → lt (value b) (value a) ≡ false
      → lt (value c) (value b) ≡ false
      → lt (value c) (value a) ≡ false

pub record BoundingBox (C : Type 0) : Type 0 where
  pub min_x : C
  pub min_y : C
  pub max_x : C
  pub max_y : C

-- `is_point`, with the centre and the radius, which are 0.0 and never read where it is false.
pub data Shape (C : Type 0) : Type 0 where
  bar : Shape C
  point : C → C → C → Shape C

pub record IndexEntry (C D : Type 0) : Type 0 where
  pub item_id : ℕ
  pub bounds : BoundingBox C
  pub payload : D
  pub shape : Shape C

pub record HitResult (C D : Type 0) : Type 0 where
  pub item_id : ℕ
  pub bounds : BoundingBox C
  pub payload : D

abbrev pub to_hit_result : {C D : Type 0} → IndexEntry C D → HitResult C D
to_hit_result e = record { item_id = e.item_id; bounds = e.bounds; payload = e.payload }

module _ (floats : Floats) where
  open floats use {Float, Coordinate, finite, value, lt, le, add, sub, mul, hypot, zero}

  abbrev pub Box : Type 0
  Box = BoundingBox Coordinate

  -- `_validate_coordinate`
  unfoldable pub validate_coordinate : Float → Result Coordinate
  validate_coordinate v = elim (finite v) [ none ↦ raise value_error | some c ↦ ok c ]

  -- `BoundingBox.__post_init__`
  unfoldable pub make_box : Float → Float → Float → Float → Result Box
  make_box min_x min_y max_x max_y = do
    a ← validate_coordinate min_x
    b ← validate_coordinate min_y
    c ← validate_coordinate max_x
    d ← validate_coordinate max_y
    guard (not (lt (value c) (value a))) value_error
    guard (not (lt (value d) (value b))) value_error
    ok (record { min_x = a; min_y = b; max_x = c; max_y = d })

  unfoldable pub intersects : Box → Box → Bool
  intersects b other = not (
      lt (value b.max_x) (value other.min_x)
      || (lt (value other.max_x) (value b.min_x)
          || (lt (value b.max_y) (value other.min_y) || lt (value other.max_y) (value b.min_y))))

  unfoldable pub contains_point : Box → Float → Float → Float → Bool
  contains_point b x y tolerance =
      le (sub (value b.min_x) tolerance) x
      && le x (add (value b.max_x) tolerance)
      && (le (sub (value b.min_y) tolerance) y && le y (add (value b.max_y) tolerance))

  -- `min(a, b)` and `max(a, b)`
  unfoldable pub lower : Coordinate → Coordinate → Coordinate
  lower a b = if lt (value b) (value a) then b else a

  unfoldable pub upper : Coordinate → Coordinate → Coordinate
  upper a b = if lt (value a) (value b) then b else a

  unfoldable pub union : Box → Box → Box
  union b other = record {
    min_x = lower b.min_x other.min_x;
    min_y = lower b.min_y other.min_y;
    max_x = upper b.max_x other.max_x;
    max_y = upper b.max_y other.max_y;
  }

  unfoldable pub area : Box → Float
  area b = mul (sub (value b.max_x) (value b.min_x)) (sub (value b.max_y) (value b.min_y))

  -- `max(0.0, new_area - self.area)`
  unfoldable pub enlargement_area : Box → Box → Float
  enlargement_area b other =
      let growth = sub (area (union b other)) (area b) in if lt zero growth then growth else zero

  -- `_compute_bounds`: the loop, whose body is a union, and the call.
  unfoldable pub bounds_loop : Box → List Box → Box
  bounds_loop b [] = b
  bounds_loop b (c ∷ cs) = bounds_loop (union b c) cs

  unfoldable pub compute_bounds : List Box → Option Box
  compute_bounds [] = none
  compute_bounds (b ∷ bs) = some (bounds_loop b bs)

  module _ {D : Type 0} where
    -- `_IndexEntry.hit_test`
    unfoldable pub entry_hit_test :
        IndexEntry Coordinate D → Coordinate → Coordinate → Coordinate → Bool
    entry_hit_test e x y tolerance = elim e.shape [
      | bar ↦ contains_point e.bounds (value x) (value y) (value tolerance)
      | point center_x center_y radius ↦
          le (hypot (sub (value center_x) (value x)) (sub (value center_y) (value y)))
            (add (value radius) (value tolerance))
    ]
