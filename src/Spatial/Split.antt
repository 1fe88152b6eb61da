-- ===== src/Spatial/Split.antt =====
-- `_split_elements`. An element stands with its box.
use nexus_smarttrading.Prelude.{
  ℕ, zero, suc, ◌+◌, Bool, true, false, ◌||◌, List, [], ◌∷◌, ◌++◌, ◌==◌, leb, if◌then◌else◌, length,
  get_or, Result, ok, raise, index_error,
}
use nexus_smarttrading.Spatial.{Floats, Box, union, area, enlargement_area}

-- The elements at other indices than two; the first argument is the index of the head.
unfoldable pub others {ℓ} : {A : Type ℓ} → ℕ → ℕ → ℕ → List A → List A
others k i j [] = []
others k i j (x ∷ xs) =
    let rest = others (suc k) i j xs in if k == i || k == j then rest else x ∷ rest

-- `remaining.pop(i)`, for what is left.
unfoldable pub without {ℓ} : {A : Type ℓ} → ℕ → List A → List A
without i [] = []
without zero (x ∷ xs) = xs
without (suc i) (x ∷ xs) = x ∷ without i xs

-- The elements without their boxes.
abbrev pub seconds {ℓ κ} : {B : Type ℓ} {A : Type κ} → List (B × A) → List A
seconds [] = []
seconds ((b, x) ∷ xs) = x ∷ seconds xs

module _ (floats : Floats) where
  open floats use {Float, lt, sub, abs, minus_one, minus_infinity}

  -- The worst waste so far, with its pair of indices.
  pub record Seeds : Type 0 where
    pub max_waste : Float
    pub seed1_idx : ℕ
    pub seed2_idx : ℕ

  -- The inner loop over the elements from index `j` on, and the outer one.
  unfoldable pub seeds_inner {ℓ} :
      {A : Type ℓ} → Box floats → ℕ → ℕ → List (Box floats × A) → Seeds → Seeds
  seeds_inner b1 i j [] s = s
  seeds_inner b1 i j ((b2, x) ∷ xs) s =
      let waste = sub (sub (area floats (union floats b1 b2)) (area floats b1)) (area floats b2) in
      seeds_inner b1 i (suc j) xs (
        if lt s.max_waste waste
        then record { max_waste = waste; seed1_idx = i; seed2_idx = j }
        else s)

  unfoldable pub seeds_outer {ℓ} : {A : Type ℓ} → ℕ → List (Box floats × A) → Seeds → Seeds
  seeds_outer i [] s = s
  seeds_outer i ((b1, x) ∷ xs) s = seeds_outer (suc i) xs (seeds_inner b1 i (suc i) xs s)

  abbrev pub first_seeds : Seeds
  first_seeds = record { max_waste = minus_infinity; seed1_idx = 0; seed2_idx = 1 }

  -- The best of the remaining elements.
  pub record Best : Type 0 where
    pub best_diff : Float
    pub best_idx : ℕ
    pub best_enl1 : Float
    pub best_enl2 : Float

  unfoldable pub best_loop {ℓ} :
      {A : Type ℓ} → Box floats → Box floats → ℕ → List (Box floats × A) → Best → Best
  best_loop b1 b2 idx [] s = s
  best_loop b1 b2 idx ((ib, x) ∷ xs) s =
      let enl1 = enlargement_area floats b1 ib in
      let enl2 = enlargement_area floats b2 ib in
      let diff = abs (sub enl1 enl2) in
      best_loop b1 b2 (suc idx) xs (
        if lt s.best_diff diff
        then record { best_diff = diff; best_idx = idx; best_enl1 = enl1; best_enl2 = enl2 }
        else s)

  -- Whether the chosen element goes to the first group.
  unfoldable pub to_first : Float → Float → Float → Float → ℕ → ℕ → Bool
  to_first enl1 enl2 area1 area2 size1 size2 =
      if lt enl1 enl2
      then true
      else if lt enl2 enl1
      then false
      else if lt area1 area2
      then true
      else if lt area2 area1
      then false
      else leb size1 size2

  -- The `while` loop: each turn takes one element out of `remaining`, for which the first argument is
  -- fuel.
  module _ {ℓ} {A : Type ℓ} (min_entries : ℕ) where
    unfoldable pub split_loop :
        ℕ → List A → List A → Box floats → Box floats → List (Box floats × A) → List A × List A
    split_loop fuel group1 group2 b1 b2 [] = (group1, group2)
    split_loop zero group1 group2 b1 b2 (r ∷ rs) = (group1, group2)
    split_loop (suc fuel) group1 group2 b1 b2 (r ∷ rs) =
        let remaining = r ∷ rs in
        let start : Best = record {
          best_diff = minus_one;
          best_idx = 0;
          best_enl1 = floats.zero;
          best_enl2 = floats.zero;
        } in
        let best = best_loop b1 b2 0 remaining start in
        let (cb, chosen) = get_or remaining best.best_idx r in
        let rest = without best.best_idx remaining in
        let first = split_loop fuel (group1 ++ (chosen ∷ [])) group2 (union floats b1 cb) b2 rest in
        let second =
          split_loop fuel group1 (group2 ++ (chosen ∷ [])) b1 (union floats b2 cb) rest in
        if length group1 + length remaining == min_entries
        then (group1 ++ seconds remaining, group2)
        else if length group2 + length remaining == min_entries
        then (group1, group2 ++ seconds remaining)
        else if to_first best.best_enl1 best.best_enl2 (area floats b1) (area floats b2)
            (length group1) (length group2)
        then first
        else second

    -- With fewer than two elements the second seed is out of range.
    unfoldable pub split_elements : List (Box floats × A) → Result (List A × List A)
    split_elements [] = raise index_error
    split_elements (x ∷ []) = raise index_error
    split_elements (x ∷ y ∷ rest) =
        let elements = x ∷ y ∷ rest in
        let s = seeds_outer 0 elements first_seeds in
        let (b1, e1) = get_or elements s.seed1_idx x in
        let (b2, e2) = get_or elements s.seed2_idx x in
        let remaining = others 0 s.seed1_idx s.seed2_idx elements in
        ok (split_loop (length remaining) (e1 ∷ []) (e2 ∷ []) b1 b2 remaining)
