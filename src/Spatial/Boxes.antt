-- ===== src/Spatial/Boxes.antt =====
-- Boxes inside boxes.
use nexus_smarttrading.Prelude.{
  ◌≡◌, refl, true, false, some, List, [], ◌∷◌, ◌++◌, arith, Bool-cases, inl, inr,
}
use mathlib.Core.Path.{subst}
use nexus_smarttrading.Spatial.{
  Floats, Box, intersects, lower, upper, union, bounds_loop, compute_bounds,
}

abbrev pub AllOf {ℓ κ} : {A : Type ℓ} → (A → Type κ) → List A → Type κ
AllOf P [] = Unit
AllOf P (x ∷ xs) = P x × AllOf P xs

pub AllOf-append {ℓ κ} :
    {A : Type ℓ} (P : A → Type κ) (xs ys : List A) → AllOf P xs → AllOf P ys → AllOf P (xs ++ ys)
AllOf-append P [] ys h k = k
AllOf-append P (x ∷ xs) ys (h, hs) k = (h, AllOf-append P xs ys hs k)

module _ (floats : Floats) where
  open floats use {Coordinate, value, lt, lt_irrefl, lt_asym, le_trans}

  -- A box that another one contains.
  pub record IsInside (b outer : Box floats) : Type 0 where
    pub left : lt (value b.min_x) (value outer.min_x) ≡ false
    pub below : lt (value b.min_y) (value outer.min_y) ≡ false
    pub right : lt (value outer.max_x) (value b.max_x) ≡ false
    pub above : lt (value outer.max_y) (value b.max_y) ≡ false

  lower-le :
      (a b : Coordinate)
      → (lt (value a) (value (lower floats a b)) ≡ false)
        × (lt (value b) (value (lower floats a b)) ≡ false)
  unfolding lower
  lower-le a b = elim (Bool-cases (lt (value b) (value a))) [
    | inl e ↦ rw e (lt_asym b a e, lt_irrefl b)
    | inr e ↦ rw e (lt_irrefl a, e)
  ]

  upper-ge :
      (a b : Coordinate)
      → (lt (value (upper floats a b)) (value a) ≡ false)
        × (lt (value (upper floats a b)) (value b) ≡ false)
  unfolding upper
  upper-ge a b = elim (Bool-cases (lt (value a) (value b))) [
    | inl e ↦ rw e (lt_asym a b e, lt_irrefl b)
    | inr e ↦ rw e (lt_irrefl a, e)
  ]

  pub IsInside-refl : (b : Box floats) → IsInside b b
  IsInside-refl b = record {
    left = lt_irrefl b.min_x;
    below = lt_irrefl b.min_y;
    right = lt_irrefl b.max_x;
    above = lt_irrefl b.max_y;
  }

  pub IsInside-trans : (a b c : Box floats) → IsInside a b → IsInside b c → IsInside a c
  IsInside-trans a b c h k = record {
    left = le_trans c.min_x b.min_x a.min_x k.left h.left;
    below = le_trans c.min_y b.min_y a.min_y k.below h.below;
    right = le_trans a.max_x b.max_x c.max_x h.right k.right;
    above = le_trans a.max_y b.max_y c.max_y h.above k.above;
  }

  union-IsInside :
      (b c : Box floats) → IsInside b (union floats b c) × IsInside c (union floats b c)
  unfolding union
  union-IsInside b c = (
    record {
      left = (lower-le b.min_x c.min_x).0;
      below = (lower-le b.min_y c.min_y).0;
      right = (upper-ge b.max_x c.max_x).0;
      above = (upper-ge b.max_y c.max_y).0;
    },
    record {
      left = (lower-le b.min_x c.min_x).1;
      below = (lower-le b.min_y c.min_y).1;
      right = (upper-ge b.max_x c.max_x).1;
      above = (upper-ge b.max_y c.max_y).1;
    },
  )

  pub AllOf-outer :
      (bs : List (Box floats)) (o outer : Box floats)
      → AllOf (λ b. IsInside b o) bs
      → IsInside o outer
      → AllOf (λ b. IsInside b outer) bs
  AllOf-outer [] o outer h k = tt
  AllOf-outer (b ∷ bs) o outer (h, hs) k =
      (IsInside-trans b o outer h k, AllOf-outer bs o outer hs k)

  bounds_loop-IsInside :
      (b : Box floats) (bs : List (Box floats))
      → IsInside b (bounds_loop floats b bs) × AllOf (λ c. IsInside c (bounds_loop floats b bs)) bs
  unfolding bounds_loop
  bounds_loop-IsInside b [] = (IsInside-refl b, tt)
  bounds_loop-IsInside b (c ∷ cs) =
      let (start, rest) = bounds_loop-IsInside (union floats b c) cs in
      let (first, second) = union-IsInside b c in
      (
        IsInside-trans b (union floats b c) _ first start,
        (IsInside-trans c (union floats b c) _ second start, rest),
      )

  pub compute_bounds-IsInside :
      (bs : List (Box floats)) (o : Box floats)
      → compute_bounds floats bs ≡ some o
      → AllOf (λ b. IsInside b o) bs
  unfolding compute_bounds
  compute_bounds-IsInside [] o h = tt
  compute_bounds-IsInside (b ∷ bs) o h =
      let same : bounds_loop floats b bs ≡ o = cc in
      let (start, rest) = bounds_loop-IsInside b bs in
      subst (λ u. IsInside b u × AllOf (λ c. IsInside c u) bs) same (start, rest)

  intersects-parts :
      (b query : Box floats)
      → intersects floats b query ≡ true
      → (lt (value b.max_x) (value query.min_x) ≡ false)
        × (lt (value query.max_x) (value b.min_x) ≡ false)
        × (lt (value b.max_y) (value query.min_y) ≡ false)
        × (lt (value query.max_y) (value b.min_y) ≡ false)
  unfolding intersects
  intersects-parts b query h = ground (arith, h)

  -- What meets no box meets nothing inside it.
  pub intersects-IsInside :
      (b outer query : Box floats)
      → IsInside b outer
      → intersects floats outer query ≡ false
      → intersects floats b query ≡ false
  intersects-IsInside b outer query h k = elim (Bool-cases (intersects floats b query)) [
    | inl e ↦
        let (p, q, r, s) = intersects-parts b query e in
        let p' = le_trans query.min_x b.max_x outer.max_x p h.right in
        let q' = le_trans outer.min_x b.min_x query.max_x h.left q in
        let r' = le_trans query.min_y b.max_y outer.max_y r h.above in
        let s' = le_trans outer.min_y b.min_y query.max_y h.below s in
        let meets : intersects floats outer query ≡ true =
          unfold intersects in rw (p', q', r', s') refl in
        absurd (ground (arith, meets, k))
    | inr e ↦ e
  ]
