-- ===== src/OrderBook/Height.antt =====
-- The height of a coloured tree is logarithmic in its size.
use nexus_smarttrading.Prelude.{
  ℕ, ◌+◌, ◌*◌, ◌^◌, ◌≤◌, ◌++◌, ◌∷◌, arith, length, length-append, if◌then◌else◌, ltb, Bool-cases,
  inl, inr,
}
use native.Mathlib.Nat.{add-zero}
use native.Mathlib.Numerals.{towards_suc}
use nexus_smarttrading.OrderBook.Tree.{
  Color, red, black, Tree, nil, node, is_red, items, get_height,
}
use nexus_smarttrading.OrderBook.Colors.{IsColored, IsRedBlack, black_height}

pow-double : (b m n k : ℕ) → 2 ^ b ≤ m → 2 ^ b ≤ n → m + n ≤ k → 2 ^ (b + 1) ≤ k
pow-double b m n k h h' s = simp towards_suc (omega arith)

module _ {V : Type 0} where
  items-ge : (t : Tree V) → IsColored t → 2 ^ black_height t ≤ length (items t) + 1
  unfolding items
  items-ge nil c = omega arith
  items-ge (node red l k v r) h =
      rw add-zero (omega (arith, items-ge l h.2, length-append (items l) ((k, v) ∷ items r)))
  items-ge (node black l k v r) h =
      let e = items-ge r h.3 in
      pow-double (black_height l) (length (items l) + 1) (length (items r) + 1)
        (length (items l ++ ((k, v) ∷ items r)) + 1) (items-ge l h.2) (rw h.0 e)
        (omega (arith, length-append (items l) ((k, v) ∷ items r)))

  height-le :
      (t : Tree V) → IsColored t → get_height t ≤ 2 * black_height t + (if is_red t then 1 else 0)
  unfolding get_height
  height-le nil c = omega arith
  height-le (node red l k v r) h = ground (arith, height-le l h.2, height-le r h.3)
  height-le (node black l k v r) h = ground (arith, height-le l h.2, height-le r h.3)

  -- A way down from the root to a leaf, by the number of nodes on it.
  pub data IsWay : Tree V → ℕ → Type 0 where
    way_end : IsWay nil 0
    way_left :
        {c : Color} {l r : Tree V} {k : ℕ} {v : V} {n : ℕ}
        → IsWay l n
        → IsWay (node c l k v r) (1 + n)
    way_right :
        {c : Color} {l r : Tree V} {k : ℕ} {v : V} {n : ℕ}
        → IsWay r n
        → IsWay (node c l k v r) (1 + n)

  IsWay-get_height : (t : Tree V) → IsWay t (get_height t)
  unfolding get_height
  IsWay-get_height nil = way_end
  IsWay-get_height (node c l k v r) = elim (Bool-cases (ltb (get_height r) (get_height l))) [
    | inl e ↦ rw e (way_left (IsWay-get_height l))
    | inr e ↦ rw e (way_right (IsWay-get_height r))
  ]

  way-le : (t : Tree V) (n : ℕ) → IsWay t n → n ≤ get_height t
  unfolding get_height
  way-le nil _ way_end = omega arith
  way-le (node c l k v r) _ (way_left {n = n} w) = ground (arith, way-le l n w)
  way-le (node c l k v r) _ (way_right {n = n} w) = ground (arith, way-le r n w)

  -- In a tree that meets its invariants, the height is the number of nodes on a way down to a leaf,
  -- and no way is longer; it is at most 2 b, b being the number of black nodes on a way down, and
  -- the tree holds at least 2 ^ b - 1 entries: the height is at most twice the binary logarithm of
  -- the number of entries plus one.
  pub get_height-bound :
      (t : Tree V)
      → IsRedBlack t
      → IsWay t (get_height t)
        × ((n : ℕ) → IsWay t n → n ≤ get_height t)
        × (get_height t ≤ 2 * black_height t)
        × (2 ^ black_height t ≤ length (items t) + 1)
  get_height-bound t h =
      (IsWay-get_height t, way-le t, omega (arith, rw h.1 at (height-le t h.0)), items-ge t h.0)
