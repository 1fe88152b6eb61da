-- ===== src/Spatial/Groups.antt =====
-- `_split_elements` loses nothing.
use nexus_smarttrading.Prelude.{
  ℕ, zero, suc, ◌+◌, ◌≤◌, ◌<◌, ◌≡◌, refl, Bool, true, false, List, [], ◌∷◌, ◌++◌, ◌==◌,
  if◌then◌else◌, length, length-append, get_or, ok, arith, Bool-cases, inl, inr,
}
use nexus_smarttrading.Spatial.{Floats, Box, union, area, enlargement_area}
use nexus_smarttrading.Spatial.Split.{
  others, without, seconds, Seeds, seeds_inner, seeds_outer, first_seeds, Best, best_loop, to_first,
  split_loop, split_elements,
}
use nexus_smarttrading.Spatial.Boxes.{AllOf-append, AllOf}
use nexus_smarttrading.Spatial.Parts.{
  sum, sum-append, seconds-without, AllOf-without, length-without, others_start, AllOf-others,
}

if-keeps : {A : Type 0} (Q : A → Type 0) (b : Bool) (x y : A) → Q x → Q y → Q (if b then x else y)
if-keeps Q true x y h k = h
if-keeps Q false x y h k = k

module _ (floats : Floats) where
  open floats use {lt, sub, abs}

  -- Two indices in order, and in range.
  abbrev IsPair : ℕ → Seeds floats → Type 0
  IsPair n s = (s.seed1_idx < s.seed2_idx) × (s.seed2_idx < n)

  module _ {A : Type 0} where
    seeds_inner-IsPair :
        (n : ℕ) (b : Box floats) (i j : ℕ) (xs : List (Box floats × A)) (s : Seeds floats)
        → IsPair n s
        → i < j
        → j + length xs ≤ n
        → IsPair n (seeds_inner floats b i j xs s)
    unfolding seeds_inner
    seeds_inner-IsPair n b i j [] s h k l = h
    seeds_inner-IsPair n b i j ((b2, x) ∷ xs) s h k l =
        let waste = sub (sub (area floats (union floats b b2)) (area floats b)) (area floats b2) in
        let next : Seeds floats = record { max_waste = waste; seed1_idx = i; seed2_idx = j } in
        seeds_inner-IsPair n b i (suc j) xs (if lt s.max_waste waste then next else s)
          (if-keeps (IsPair n) (lt s.max_waste waste) next s (k, omega arith) h) (omega arith)
          (omega arith)

    seeds_outer-IsPair :
        (n i : ℕ) (xs : List (Box floats × A)) (s : Seeds floats)
        → IsPair n s
        → i + length xs ≤ n
        → IsPair n (seeds_outer floats i xs s)
    unfolding seeds_outer
    seeds_outer-IsPair n i [] s h k = h
    seeds_outer-IsPair n i ((b, x) ∷ xs) s h k =
        seeds_outer-IsPair n (suc i) xs (seeds_inner floats b i (suc i) xs s)
          (seeds_inner-IsPair n b i (suc i) xs s h (omega arith) (omega arith)) (omega arith)

    best_loop-bound :
        (n : ℕ) (b1 b2 : Box floats) (idx : ℕ) (xs : List (Box floats × A)) (s : Best floats)
        → s.best_idx < n
        → idx + length xs ≤ n
        → (best_loop floats b1 b2 idx xs s).best_idx < n
    unfolding best_loop
    best_loop-bound n b1 b2 idx [] s h k = h
    best_loop-bound n b1 b2 idx ((ib, x) ∷ xs) s h k =
        let enl1 = enlargement_area floats b1 ib in
        let enl2 = enlargement_area floats b2 ib in
        let diff = abs (sub enl1 enl2) in
        let next : Best floats = record {
          best_diff = diff;
          best_idx = idx;
          best_enl1 = enl1;
          best_enl2 = enl2;
        } in
        best_loop-bound n b1 b2 (suc idx) xs (if lt s.best_diff diff then next else s)
          (if-keeps (λ t. t.best_idx < n) (lt s.best_diff diff) next s (omega arith) h)
          (omega arith)

    module _ (P : A → Type 0) (total : (A → ℕ) → ℕ) where
      -- What the loop keeps.
      pub record IsSplit (group1 group2 : List A) (remaining : List (Box floats × A)) : Type 0 where
        pub sums : (f : A → ℕ) → sum f group1 + sum f group2 + sum f (seconds remaining) ≡ total f
        pub all1 : AllOf P group1
        pub all2 : AllOf P group2
        pub all_left : AllOf P (seconds remaining)
        pub some1 : 0 < length group1
        pub some2 : 0 < length group2

      rest_to_first :
          (g1 g2 : List A) (rest : List (Box floats × A))
          → IsSplit g1 g2 rest
          → IsSplit (g1 ++ seconds rest) g2 []
      rest_to_first g1 g2 rest h = record {
        sums = λ f. let s = h.sums f in omega (arith, s, sum-append f g1 (seconds rest));
        all1 = AllOf-append P g1 (seconds rest) h.all1 h.all_left;
        all2 = h.all2;
        all_left = tt;
        some1 = let s = h.some1 in omega (arith, s, length-append g1 (seconds rest));
        some2 = h.some2;
      }

      rest_to_second :
          (g1 g2 : List A) (rest : List (Box floats × A))
          → IsSplit g1 g2 rest
          → IsSplit g1 (g2 ++ seconds rest) []
      rest_to_second g1 g2 rest h = record {
        sums = λ f. let s = h.sums f in omega (arith, s, sum-append f g2 (seconds rest));
        all1 = h.all1;
        all2 = AllOf-append P g2 (seconds rest) h.all2 h.all_left;
        all_left = tt;
        some1 = h.some1;
        some2 = let s = h.some2 in omega (arith, s, length-append g2 (seconds rest));
      }

      one_to_first :
          (g1 g2 : List A) (rest : List (Box floats × A)) (i : ℕ) (d : Box floats × A)
          → i < length rest
          → IsSplit g1 g2 rest
          → IsSplit (g1 ++ ((get_or rest i d).1 ∷ [])) g2 (without i rest)
      one_to_first g1 g2 rest i d l h =
          let (p, ps) = AllOf-without P i rest d l h.all_left in
          let x = (get_or rest i d).1 in
          record {
            sums = λ f.
                let s = h.sums f in
                let t = seconds-without f i rest d l in
                omega (arith, s, t, sum-append f g1 (x ∷ []));
            all1 = AllOf-append P g1 (x ∷ []) h.all1 (p, tt);
            all2 = h.all2;
            all_left = ps;
            some1 = omega (arith, length-append g1 (x ∷ []));
            some2 = h.some2;
          }

      one_to_second :
          (g1 g2 : List A) (rest : List (Box floats × A)) (i : ℕ) (d : Box floats × A)
          → i < length rest
          → IsSplit g1 g2 rest
          → IsSplit g1 (g2 ++ ((get_or rest i d).1 ∷ [])) (without i rest)
      one_to_second g1 g2 rest i d l h =
          let (p, ps) = AllOf-without P i rest d l h.all_left in
          let x = (get_or rest i d).1 in
          record {
            sums = λ f.
                let s = h.sums f in
                let t = seconds-without f i rest d l in
                omega (arith, s, t, sum-append f g2 (x ∷ []));
            all1 = h.all1;
            all2 = AllOf-append P g2 (x ∷ []) h.all2 (p, tt);
            all_left = ps;
            some1 = h.some1;
            some2 = omega (arith, length-append g2 (x ∷ []));
          }

      split_loop-IsSplit :
          (min_entries fuel : ℕ) (g1 g2 : List A) (b1 b2 : Box floats)
          (rest : List (Box floats × A))
          → length rest ≤ fuel
          → IsSplit g1 g2 rest
          → IsSplit
              (split_loop floats min_entries fuel g1 g2 b1 b2 rest).0
              (split_loop floats min_entries fuel g1 g2 b1 b2 rest).1
              []
      unfolding split_loop
      split_loop-IsSplit m fuel g1 g2 b1 b2 [] l h = h
      split_loop-IsSplit m zero g1 g2 b1 b2 (r ∷ rs) l h = absurd (omega arith)
      split_loop-IsSplit m (suc fuel) g1 g2 b1 b2 (r ∷ rs) l h =
          let start : Best floats = record {
            best_diff = floats.minus_one;
            best_idx = 0;
            best_enl1 = floats.zero;
            best_enl2 = floats.zero;
          } in
          let best = best_loop floats b1 b2 0 (r ∷ rs) start in
          let i = best.best_idx in
          let cb = (get_or (r ∷ rs) i r).0 in
          let bound : i < length (r ∷ rs) =
            best_loop-bound (length (r ∷ rs)) b1 b2 0 (r ∷ rs) start (omega arith) (omega arith) in
          let shorter = length-without i (r ∷ rs) bound in
          elim (Bool-cases (length g1 + length (r ∷ rs) == m)) [
            | inl e ↦ rw e (rest_to_first g1 g2 (r ∷ rs) h)
            | inr e ↦ elim (Bool-cases (length g2 + length (r ∷ rs) == m)) [
              | inl e2 ↦ rw (e, e2) (rest_to_second g1 g2 (r ∷ rs) h)
              | inr e2 ↦
                  elim (Bool-cases (
                    to_first floats best.best_enl1 best.best_enl2 (area floats b1) (area floats b2)
                      (length g1) (length g2))) [
                        | inl e3 ↦
                            rw (e, e2, e3)
                              (split_loop-IsSplit m fuel _ g2 (union floats b1 cb) b2
                                (without i (r ∷ rs)) (omega (arith, shorter))
                                (one_to_first g1 g2 (r ∷ rs) i r bound h))
                        | inr e3 ↦
                            rw (e, e2, e3)
                              (split_loop-IsSplit m fuel g1 _ b1 (union floats b2 cb)
                                (without i (r ∷ rs)) (omega (arith, shorter))
                                (one_to_second g1 g2 (r ∷ rs) i r bound h))
                      ]
            ]
          ]

    -- With two elements or more there are two groups, that hold them all and are not empty.
    pub split_elements_lem :
        (P : A → Type 0) (min_entries : ℕ) (elements : List (Box floats × A))
        → 2 ≤ length elements
        → AllOf P (seconds elements)
        → (g1 : List A) × (g2 : List A) × (split_elements floats min_entries elements ≡ ok (g1, g2))
          × IsSplit P (λ f. sum f (seconds elements)) g1 g2 []
    unfolding split_elements
    split_elements_lem P m [] h k = absurd (omega arith)
    split_elements_lem P m (x ∷ []) h k = absurd (omega arith)
    split_elements_lem P m (x ∷ y ∷ rest) h k =
        let elements = x ∷ y ∷ rest in
        let s = seeds_outer floats 0 elements (first_seeds floats) in
        let (order, bound) =
          seeds_outer-IsPair (length elements) 0 elements (first_seeds floats)
            (omega arith, omega arith) (omega arith) in
        let i = s.seed1_idx in
        let j = s.seed2_idx in
        let remaining = others 0 i j elements in
        let one = AllOf-without P i elements x (omega (arith, order, bound)) k in
        let two = AllOf-without P j elements x bound k in
        let start : IsSplit P (λ f. sum f (seconds elements)) ((get_or elements i x).1 ∷ [])
            ((get_or elements j x).1 ∷ []) remaining =
          record {
            sums = λ f. let t = others_start f i j elements x order bound in omega (arith, t);
            all1 = (one.0, tt);
            all2 = (two.0, tt);
            all_left = AllOf-others P 0 i j elements k;
            some1 = omega arith;
            some2 = omega arith;
          } in
        (
          _,
          _,
          refl,
          split_loop-IsSplit P (λ f. sum f (seconds elements)) m (length remaining) _ _ _ _
              remaining (omega arith) start,
        )
