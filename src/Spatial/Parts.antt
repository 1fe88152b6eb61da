-- ===== src/Spatial/Parts.antt =====
-- The two groups of a split hold the elements, each once, and neither is empty.
use nexus_smarttrading.Prelude.{
  ℕ, zero, suc, ◌+◌, ◌-◌, ◌≤◌, ◌<◌, ◌≡◌, refl, ap, true, false, ◌||◌, List, [], ◌∷◌, ◌++◌, ◌==◌,
  length, get_or, arith, Bool-cases, inl, inr,
}
use nexus_smarttrading.Spatial.Split.{others, without, seconds}
use nexus_smarttrading.Spatial.Boxes.{AllOf}

abbrev pub sum {ℓ} : {A : Type ℓ} → (A → ℕ) → List A → ℕ
sum f [] = 0
sum f (x ∷ xs) = f x + sum f xs

pub sum-append {ℓ} :
    {A : Type ℓ} (f : A → ℕ) (xs ys : List A) → sum f (xs ++ ys) ≡ sum f xs + sum f ys
sum-append f [] ys = omega arith
sum-append f (x ∷ xs) ys = omega (arith, sum-append f xs ys)

module _ {A B : Type 0} where
  pub seconds-without :
      (f : A → ℕ) (i : ℕ) (xs : List (B × A)) (d : B × A)
      → i < length xs
      → sum f (seconds xs) ≡ f (get_or xs i d).1 + sum f (seconds (without i xs))
  unfolding without
  seconds-without f i [] d h = absurd (omega arith)
  seconds-without f zero (x ∷ xs) d h = refl
  seconds-without f (suc i) (x ∷ xs) d h = omega (arith, seconds-without f i xs d (omega arith))

  pub AllOf-without :
      (P : A → Type 0) (i : ℕ) (xs : List (B × A)) (d : B × A)
      → i < length xs
      → AllOf P (seconds xs)
      → P (get_or xs i d).1 × AllOf P (seconds (without i xs))
  unfolding without
  AllOf-without P i [] d h k = absurd (omega arith)
  AllOf-without P zero (x ∷ xs) d h k = k
  AllOf-without P (suc i) (x ∷ xs) d h (k, ks) =
      let (p, ps) = AllOf-without P i xs d (omega arith) ks in (p, (k, ps))

  pub length-without :
      (i : ℕ) (xs : List (B × A)) → i < length xs → suc (length (without i xs)) ≡ length xs
  unfolding without
  length-without i [] h = absurd (omega arith)
  length-without zero (x ∷ xs) h = refl
  length-without (suc i) (x ∷ xs) h = ap suc (length-without i xs (omega arith))

  others_past : (k i j : ℕ) (xs : List (B × A)) → i < k → j < k → others k i j xs ≡ xs
  unfolding others
  others_past k i j [] h l = refl
  others_past k i j (x ∷ xs) h l =
      let e : (k == i || k == j) ≡ false = ground arith in
      rw (e, others_past (suc k) i j xs (omega arith) (omega arith)) refl

  others_last :
      (f : A → ℕ) (k i j : ℕ) (xs : List (B × A)) (d : B × A)
      → i < k
      → k ≤ j
      → j < k + length xs
      → sum f (seconds xs) ≡ f (get_or xs (j - k) d).1 + sum f (seconds (others k i j xs))
  unfolding others
  others_last f k i j [] d h l m = absurd (omega arith)
  others_last f k i j (x ∷ xs) d h l m = elim (Bool-cases (k == j)) [
    | inl e ↦
        let here : (k == i || k == j) ≡ true = ground arith in
        let zeroth : j - k ≡ 0 = ground (arith, e) in
        let past = others_past (suc k) i j xs (omega arith) (ground (arith, e)) in
        rw (here, zeroth, past) refl
    | inr e ↦
        let there : (k == i || k == j) ≡ false = ground arith in
        let later : j - k ≡ suc (j - suc k) = ground (arith, e) in
        let rest = others_last f (suc k) i j xs d (omega arith) (ground (arith, e)) (omega arith) in
        rw (there, later) (omega (arith, rest))
  ]

  others_lem :
      (f : A → ℕ) (k i j : ℕ) (xs : List (B × A)) (d : B × A)
      → k ≤ i
      → i < j
      → j < k + length xs
      → sum f (seconds xs)
        ≡ f (get_or xs (i - k) d).1 + f (get_or xs (j - k) d).1 + sum f (seconds (others k i j xs))
  unfolding others
  others_lem f k i j [] d h l m = absurd (omega arith)
  others_lem f k i j (x ∷ xs) d h l m = elim (Bool-cases (k == i)) [
    | inl e ↦
        let here : (k == i || k == j) ≡ true = ground arith in
        let zeroth : i - k ≡ 0 = ground (arith, e) in
        let later : j - k ≡ suc (j - suc k) = ground (arith, e) in
        let rest =
          others_last f (suc k) i j xs d (ground (arith, e)) (ground (arith, e)) (omega arith) in
        rw (here, zeroth, later) (omega (arith, rest))
    | inr e ↦
        let there : (k == i || k == j) ≡ false = ground arith in
        let first : i - k ≡ suc (i - suc k) = ground (arith, e) in
        let second : j - k ≡ suc (j - suc k) = ground (arith, e) in
        let rest = others_lem f (suc k) i j xs d (ground (arith, e)) l (omega arith) in
        rw (there, first, second) (omega (arith, rest))
  ]

  pub others_start :
      (f : A → ℕ) (i j : ℕ) (xs : List (B × A)) (d : B × A)
      → i < j
      → j < length xs
      → sum f (seconds xs)
        ≡ f (get_or xs i d).1 + f (get_or xs j d).1 + sum f (seconds (others 0 i j xs))
  others_start f i j xs d l m =
      let t = others_lem f 0 i j xs d (omega arith) l (omega (arith, m)) in
      let a : i - 0 ≡ i = omega arith in let b : j - 0 ≡ j = omega arith in rw b at (rw a at t)

  pub AllOf-others :
      (P : A → Type 0) (k i j : ℕ) (xs : List (B × A))
      → AllOf P (seconds xs)
      → AllOf P (seconds (others k i j xs))
  unfolding others
  AllOf-others P k i j [] h = tt
  AllOf-others P k i j (x ∷ xs) (h, hs) =
      let rest = AllOf-others P (suc k) i j xs hs in
      elim (Bool-cases (k == i || k == j)) [ inl e ↦ rw e rest | inr e ↦ rw e (h, rest) ]
