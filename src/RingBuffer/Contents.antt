-- ===== src/RingBuffer/Contents.antt =====
-- The slots of a ring buffer in the order of their age.
use native.Mathlib.Nat.{add-zero, mod-add-mod, mod-eq_of_lt, mod-eq-sub-mod}
use mathlib.Core.Path.{ap₂}
use nexus_smarttrading.Prelude.{
  ℕ, zero, suc, ◌+◌, ◌-◌, ◌%◌, ◌<◌, ◌≡◌, refl, sym, ap, ◌∙◌, ◌≢◌, Option, List, [], ◌∷◌, ◌++◌,
  arith, ltb, ltb→lt, if◌then◌else◌, set, length, Bool-cases, inl, inr,
}
use nexus_smarttrading.RingBuffer.{read, iterate}

-- A position less than twice the capacity wraps round once at most.
pub wrap : (x n : ℕ) → x < n + n → x % n ≡ (if ltb x n then x else x - n)
wrap x n h = elim (Bool-cases (ltb x n)) [
  | inl e ↦ rw e (mod-eq_of_lt (ltb→lt x n e))
  | inr e ↦ rw e (mod-eq-sub-mod (ground arith) ∙ mod-eq_of_lt (ground arith))
]

module _ {ℓ} {A : Type ℓ} where
  pub read-set_self :
      (buffer : List (Option A)) (i : ℕ) (v : Option A)
      → i < length buffer
      → read (set buffer i v) i ≡ v
  read-set_self [] i v h = absurd (omega arith)
  read-set_self (x ∷ xs) zero v h = refl
  read-set_self (x ∷ xs) (suc i) v h = read-set_self xs i v (omega arith)

  pub read-set_ne :
      (buffer : List (Option A)) (i j : ℕ) (v : Option A)
      → i ≢ j
      → read (set buffer i v) j ≡ read buffer j
  read-set_ne [] i j v h = refl
  read-set_ne (x ∷ xs) zero zero v h = absurd (h refl)
  read-set_ne (x ∷ xs) zero (suc j) v h = refl
  read-set_ne (x ∷ xs) (suc i) zero v h = refl
  read-set_ne (x ∷ xs) (suc i) (suc j) v h = read-set_ne xs i j v (λ e. h (ap suc e))

  module _ (cap : ℕ) where
    pub iterate-last :
        (buffer : List (Option A)) (i n : ℕ)
        → iterate buffer cap i (suc n)
          ≡ iterate buffer cap i n ++ (read buffer ((i + n) % cap) ∷ [])
    unfolding iterate
    iterate-last buffer i zero = rw add-zero
    iterate-last buffer i (suc n) =
        let e : i + 1 + n ≡ i + suc n = omega arith in
        ap (◌∷◌ (read buffer (i % cap))) (rw e at (iterate-last buffer (i + 1) n))

    pub length-iterate : (buffer : List (Option A)) (i n : ℕ) → length (iterate buffer cap i n) ≡ n
    unfolding iterate
    length-iterate buffer i zero = refl
    length-iterate buffer i (suc n) = ap suc (length-iterate buffer (i + 1) n)

    -- A write outside the slots that are read.
    pub iterate-set :
        (buffer : List (Option A)) (j i n : ℕ) (v : Option A)
        → ((k : ℕ) → k < n → j ≢ (i + k) % cap)
        → iterate (set buffer j v) cap i n ≡ iterate buffer cap i n
    unfolding iterate
    iterate-set buffer j i zero v h = refl
    iterate-set buffer j i (suc n) v h =
        ap₂ ◌∷◌
          (read-set_ne buffer j (i % cap) v
            (let e : i + 0 ≡ i = omega arith in rw e at (h 0 (omega arith))))
          (iterate-set buffer j (i + 1) n v (λ k lt.
            let e : i + suc k ≡ i + 1 + k = omega arith in rw e at (h (suc k) (omega arith))))

    -- Positions that agree modulo the capacity.
    pub iterate-mod :
        (buffer : List (Option A)) (i j n : ℕ)
        → i % cap ≡ j % cap
        → iterate buffer cap i n ≡ iterate buffer cap j n
    unfolding iterate
    iterate-mod buffer i j zero e = refl
    iterate-mod buffer i j (suc n) e = ap₂ ◌∷◌ (ap (read buffer) e) (
        iterate-mod buffer (i + 1) (j + 1) n
          (sym (mod-add-mod i cap 1) ∙ ap (λ x. (x + 1) % cap) e ∙ mod-add-mod j cap 1))
