-- ===== src/RingBuffer/Queue.antt =====
-- A ring buffer is a queue of bounded length that forgets its oldest element.
use native.Mathlib.Nat.{mod-mod, mod-eq_of_lt, mod_self, zero-mod, add-zero}
use mathlib.Core.Path.{ap₂}
use nexus_smarttrading.Prelude.{
  ℕ, zero, suc, ◌+◌, ◌-◌, ◌%◌, ◌≤◌, ◌<◌, ◌≡◌, refl, sym, ap, ◌∙◌, ◌⊎◌, ◌==◌, false, Option, none,
  some, List, [], ◌∷◌, ◌++◌, arith, ltb, leb, if◌then◌else◌, get_elem?, set, take, drop, length,
  length-set, Bool-cases, inl, inr, Result, ok, raise, index_error, ltb→lt,
}
use nexus_smarttrading.Prelude.Int.{ℤ, pos, negsuc}
use nexus_smarttrading.RingBuffer.{RingBuffer, read, append, iterate, iter, at, get_item, to_list}
use nexus_smarttrading.RingBuffer.Contents.{
  wrap, read-set_self, iterate-last, iterate-set, iterate-mod, length-iterate,
}

size-cases : (n : ℕ) → (n ≡ 0) ⊎ ((n == 0) ≡ false)
size-cases zero = inl refl
size-cases (suc n) = inr (ground arith)

module _ {A : Type 0} where
  pub record IsValid (b : RingBuffer A) : Type 0 where
    pub positive : 0 < b.capacity
    pub allocated : length b.buffer ≡ b.capacity
    pub start_below : b.start < b.capacity
    pub size_within : b.size ≤ b.capacity

  -- The queue without its oldest element.
  abbrev pub forget_oldest : List (Option A) → List (Option A)
  forget_oldest [] = []
  forget_oldest (x ∷ xs) = xs

  -- What an append makes of a queue bounded by the capacity.
  abbrev pub push_bounded : ℕ → Option A → List (Option A) → List (Option A)
  push_bounded capacity item q =
      if ltb (length q) capacity then q ++ (item ∷ []) else forget_oldest q ++ (item ∷ [])

  append-IsValid : (item : Option A) (b : RingBuffer A) → IsValid b → IsValid (append item b)
  unfolding append
  append-IsValid item b v = ground (
    arith,
    length-set b.buffer ((b.start + b.size) % b.capacity) item,
    length-set b.buffer b.start item,
  )

  module _ (item : Option A) (b : RingBuffer A) (v : IsValid b) where
    append_free :
        b.size < b.capacity
        → iterate
            (set b.buffer ((b.start + b.size) % b.capacity) item)
            b.capacity
            b.start
            (suc b.size)
          ≡ iterate b.buffer b.capacity b.start b.size ++ (item ∷ [])
    append_free lt =
        let j = (b.start + b.size) % b.capacity in
        let w = wrap (b.start + b.size) b.capacity (omega (arith, v.start_below)) in
        iterate-last b.capacity (set b.buffer j item) b.start b.size
        ∙ rw (read-set_self b.buffer j item (ground (arith, v.start_below, v.allocated, w))) (
            ap (λ xs. xs ++ (item ∷ []))
              (iterate-set b.capacity b.buffer j b.start b.size item (λ k h.
                let w' = wrap (b.start + k) b.capacity (omega (arith, v.start_below)) in
                ground (arith, w, w', v.start_below))))

    append_full :
        (m : ℕ)
        → m ≡ b.capacity
        → iterate (set b.buffer b.start item) b.capacity ((b.start + 1) % b.capacity) m
          ≡ forget_oldest (iterate b.buffer b.capacity b.start m) ++ (item ∷ [])
    append_full zero e = absurd (omega (arith, v.positive))
    append_full (suc n) e =
        let c = b.capacity in
        let w = wrap (b.start + 1 + n) c (omega (arith, v.start_below)) in
        let last : (b.start + 1 + n) % c ≡ b.start = ground (arith, w, v.start_below) in
        iterate-mod c (set b.buffer b.start item) ((b.start + 1) % c) (b.start + 1) (suc n)
          (mod-mod (b.start + 1) c)
        ∙ iterate-last c (set b.buffer b.start item) (b.start + 1) n
        ∙ rw (last, read-set_self b.buffer b.start item (omega (arith, v.start_below, v.allocated)))
            (unfold iterate in
              ap (λ xs. xs ++ (item ∷ []))
                (iterate-set c b.buffer b.start (b.start + 1) n item (λ k h.
                  let w' = wrap (b.start + 1 + k) c (omega (arith, v.start_below)) in
                  ground (arith, w', v.start_below))))

  length-iter : (b : RingBuffer A) → length (iter b) ≡ b.size
  unfolding iter
  length-iter b = length-iterate b.capacity b.buffer b.start b.size

  iter-append :
      (item : Option A) (b : RingBuffer A)
      → IsValid b
      → iter (append item b) ≡ push_bounded b.capacity item (iter b)
  unfolding iter append
  iter-append item b v = elim (Bool-cases (ltb b.size b.capacity)) [
    | inl lt ↦
        rw (lt, length-iterate b.capacity b.buffer b.start b.size, lt)
          (let p : b.size + 1 ≡ suc b.size = omega arith in
            rw p (append_free item b v (ltb→lt b.size b.capacity lt)))
    | inr ge ↦
        let full : b.size ≡ b.capacity = ground (arith, v.size_within) in
        rw (ge, length-iterate b.capacity b.buffer b.start b.size, ge)
          (append_full item b v b.size full)
  ]

  -- On a buffer whose positions are in range, an append adds the item at the end of the elements in
  -- the order of their age, and drops the oldest exactly when the buffer was full; the positions
  -- stay in range.
  pub append-push_bounded :
      (item : Option A) (b : RingBuffer A)
      → IsValid b
      → (iter (append item b) ≡ push_bounded b.capacity item (iter b)) × IsValid (append item b)
  append-push_bounded item b v = (iter-append item b v, append-IsValid item b v)

  -- The elements that `__getitem__` finds, from the end for a negative index.
  abbrev pub element : List (Option A) → ℤ → Result (Option A)
  element q (pos i) = elim (get_elem? q i) [ none ↦ raise index_error | some x ↦ ok x ]
  element q (negsuc i) =
      if ltb i (length q)
      then elim (get_elem? q (length q - (i + 1))) [ none ↦ raise index_error | some x ↦ ok x ]
      else raise index_error

  get_elem?-iterate :
      (c : ℕ) (buffer : List (Option A)) (s n i : ℕ)
      → get_elem? (iterate buffer c s n) i
        ≡ (if ltb i n then some (read buffer ((s + i) % c)) else none)
  unfolding iterate
  get_elem?-iterate c buffer s zero i = ground arith
  get_elem?-iterate c buffer s (suc n) zero = rw add-zero (ground arith)
  get_elem?-iterate c buffer s (suc n) (suc i) =
      let e : s + 1 + i ≡ s + suc i = omega arith in
      rw e at (get_elem?-iterate c buffer (s + 1) n i) ∙ ground arith

  at-element : (b : RingBuffer A) (i : ℕ) → at b i ≡ element (iter b) (pos i)
  unfolding at iter
  at-element b i = ground (arith, get_elem?-iterate b.capacity b.buffer b.start b.size i)

  -- `__getitem__` reads the elements in the order of their age, from the end for a negative index,
  -- and raises `IndexError` for exactly the indices that are out of range.
  pub get_item-element : (b : RingBuffer A) (i : ℤ) → get_item b i ≡ element (iter b) i
  unfolding get_item
  get_item-element b (pos i) = at-element b i
  get_item-element b (negsuc i) =
      rw (length-iter b) (ground (arith, at-element b (b.size - (i + 1))))

  drop-take :
      (buffer : List (Option A)) (s n : ℕ)
      → s < length buffer
      → drop s (take (s + suc n) buffer) ≡ read buffer s ∷ drop (suc s) (take (suc s + n) buffer)
  drop-take [] s n h = absurd (omega arith)
  drop-take (x ∷ xs) zero n h =
      let p : 0 + suc n ≡ suc n = omega arith in let q : 1 + n ≡ suc n = omega arith in rw (p, q)
  drop-take (x ∷ xs) (suc s) n h =
      let p : suc s + suc n ≡ suc (s + suc n) = omega arith in
      let q : suc (suc s) + n ≡ suc (suc s + n) = omega arith in
      rw (p, q) (drop-take xs s n (omega arith))

  drop-take_self : (xs : List (Option A)) (s : ℕ) → drop s (take s xs) ≡ []
  drop-take_self xs zero = refl
  drop-take_self [] (suc s) = refl
  drop-take_self (x ∷ xs) (suc s) = drop-take_self xs s

  -- Slots that do not wrap round are a slice.
  iterate-slice :
      (c : ℕ) (buffer : List (Option A)) (s n : ℕ)
      → length buffer ≡ c
      → s + n ≤ c
      → iterate buffer c s n ≡ drop s (take (s + n) buffer)
  unfolding iterate
  iterate-slice c buffer s zero e h = rw add-zero (sym (drop-take_self buffer s))
  iterate-slice c buffer s (suc n) e h =
      rw (drop-take buffer s n (omega arith), mod-eq_of_lt {n = s} {m = c} (omega arith))
        (ap (◌∷◌ (read buffer s)) (
          let p : s + 1 ≡ suc s = omega arith in
          rw p (iterate-slice c buffer (suc s) n e (omega arith))))

  iterate-append :
      (c : ℕ) (buffer : List (Option A)) (s m n : ℕ)
      → iterate buffer c s (m + n) ≡ iterate buffer c s m ++ iterate buffer c (s + m) n
  unfolding iterate
  iterate-append c buffer s zero n = let p : 0 + n ≡ n = omega arith in rw (p, add-zero)
  iterate-append c buffer s (suc m) n =
      let p : suc m + n ≡ suc (m + n) = omega arith in
      let q : s + suc m ≡ s + 1 + m = omega arith in
      rw (p, q) (ap (◌∷◌ (read buffer (s % c))) (iterate-append c buffer (s + 1) m n))

  -- The elements up to the end of the buffer, then those from its beginning.
  iterate-wrapped :
      (c : ℕ) (buffer : List (Option A)) (s m n : ℕ)
      → length buffer ≡ c
      → s + m ≡ c
      → n ≤ c
      → iterate buffer c s (m + n) ≡ drop s (take c buffer) ++ take n buffer
  iterate-wrapped c buffer s m n e h k =
      iterate-append c buffer s m n
      ∙ ap₂ ◌++◌ (rw h at (iterate-slice c buffer s m e (omega arith))) (
          iterate-mod c buffer (s + m) 0 n (rw h (mod_self c ∙ sym (zero-mod c)))
          ∙ iterate-slice c buffer 0 n e (omega arith)
          ∙ (let p : 0 + n ≡ n = omega arith in ap (λ k. take k buffer) p))

  -- On a buffer whose positions are in range, `to_list` and the iterator give the same elements.
  pub to_list-iter : (b : RingBuffer A) → IsValid b → to_list b ≡ iter b
  unfolding to_list iter iterate
  to_list-iter b v =
      let c = b.capacity in
      elim (Bool-cases (leb (b.start + b.size) c)) [
        | inl le ↦
            let q = iterate-slice c b.buffer b.start b.size v.allocated (ground arith) in
            elim (size-cases b.size) [ inl z ↦ rw (z, iterate) | inr p ↦ rw (p, le) (sym q) ]
        | inr gt ↦
            let w = wrap (b.start + b.size) c (omega (arith, v.start_below, v.size_within)) in
            let n = b.start + b.size - c in
            let q =
              iterate-wrapped c b.buffer b.start (c - b.start) n v.allocated
                (omega (arith, v.start_below)) (omega (arith, v.start_below, v.size_within)) in
            let m : (b.start + b.size) % c ≡ n = ground (arith, w) in
            let t : c - b.start + n ≡ b.size = ground (arith, v.start_below) in
            elim (size-cases b.size) [
              | inl z ↦ absurd (ground (arith, v.start_below))
              | inr p ↦ rw (p, gt, m) (sym (rw t at q))
            ]
      ]
