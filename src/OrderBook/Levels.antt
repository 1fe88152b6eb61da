-- ===== src/OrderBook/Levels.antt =====
-- What `L2OrderBook` promises: each side is a table of quantities by price.
use nexus_smarttrading.Prelude.{
  ℕ, ◌≡◌, refl, ap, ◌∙◌, ◌≢◌, ◌⊎◌, inl, inr, Bool, true, false, not, none, List, [], ◌∷◌, Result,
  ok, raise, value_error, ◌==◌, ◌||◌, if◌then◌else◌, arith, Bool-cases,
}
use nexus_smarttrading.Prelude.Int.{ℤ, pos, pos_part, ltb_ℤ}
use nexus_smarttrading.OrderBook.Tree.{RedBlackTree}
use nexus_smarttrading.OrderBook.Insert.{insert}
use nexus_smarttrading.OrderBook.Delete.{delete}
use nexus_smarttrading.OrderBook.Spec.{put, remove, lookup, IsAscending}
use nexus_smarttrading.OrderBook.Refinement.{
  Represents, insert-Represents, delete-Represents, find_node-lookup,
}
use nexus_smarttrading.OrderBook.Colors.{IsRedBlack, insert-IsRedBlack, delete-IsRedBlack}
use nexus_smarttrading.OrderBook.Book.{contains, update_level}

-- A tree that meets its invariants and holds a table.
pub record Holds (t : RedBlackTree ℕ) (m : List (ℕ × ℕ)) : Type 0 where
  pub represents : Represents t m
  pub red_black : IsRedBlack t.root

-- The table with the quantity of a price set, and the price gone for the quantity 0.
abbrev pub level_set : ℕ → ℕ → List (ℕ × ℕ) → List (ℕ × ℕ)
level_set p q m = if q == 0 then remove p m else put p q m

remove_absent :
    (key : ℕ) (m : List (ℕ × ℕ)) → IsAscending m → lookup key m ≡ none → remove key m ≡ m
unfolding lookup remove
remove_absent key [] h e = refl
remove_absent key ((k, v) ∷ m) h e = ground (arith, remove_absent key m h.1)

module _ (t : RedBlackTree ℕ) (m : List (ℕ × ℕ)) (h : Holds t m) where
  contains-lookup :
      (key : ℕ)
      → ((contains key t ≡ false) × (lookup key m ≡ none))
        ⊎ ((contains key t ≡ true) × (lookup key m ≢ none))
  unfolding contains
  contains-lookup key =
      let e =
        find_node-lookup key t.root (rw h.represents.contents h.represents.ascending)
        ∙ ap (lookup key) h.represents.contents in
      ground (arith, e)

  delete-Holds :
      (key : ℕ)
      → lookup key m ≢ none
      → (t' : RedBlackTree ℕ) × (delete key t ≡ ok t') × Holds t' (remove key m)
  delete-Holds key n = elim (delete-Represents key t m h.represents) [
    | inl (e, r) ↦ absurd (n e)
    | inr (_, (t', e, r)) ↦ (
      t',
      e,
      record { represents = r; red_black = rw e at (delete-IsRedBlack key t h.red_black) },
    )
  ]

-- The update is refused.
abbrev pub is_bad : ℤ → ℤ → Bool
is_bad price quantity = not (ltb_ℤ (pos 0) price) || ltb_ℤ quantity (pos 0)

abbrev pub Updates : List (ℕ × ℕ) → ℤ → ℤ → Result (RedBlackTree ℕ) → Type 0
Updates m price quantity r =
    ((is_bad price quantity ≡ true) × (r ≡ raise value_error))
    ⊎ ((is_bad price quantity ≡ false)
        × ((t' : RedBlackTree ℕ) × (r ≡ ok t')
            × Holds t' (level_set (pos_part price) (pos_part quantity) m)))

module _ (t : RedBlackTree ℕ) (m : List (ℕ × ℕ)) (h : Holds t m) where
  set_level :
      (key level : ℕ)
      → (t' : RedBlackTree ℕ) × ((if level == 0
            then (if contains key t then delete key t else ok t)
            else ok (insert key level t))
          ≡ ok t')
        × Holds t' (level_set key level m)
  set_level key level = elim (Bool-cases (level == 0)) [
    | inl z ↦ elim (contains-lookup t m h key) [
      | inl (c, l) ↦ (t, rw (z, c), rw (z, remove_absent key m h.represents.ascending l) h)
      | inr (c, l) ↦ let (t', e, r) = delete-Holds t m h key l in (t', rw (z, c) e, rw z r)
    ]
    | inr z ↦ (
      insert key level t,
      rw z,
      rw z (record {
        represents = insert-Represents key level t m h.represents;
        red_black = insert-IsRedBlack key level t h.red_black;
      }),
    )
  ]

  pub update_level-Updates :
      (price quantity : ℤ) → Updates m price quantity (update_level t price quantity)
  unfolding update_level
  update_level-Updates price quantity = elim (Bool-cases (is_bad price quantity)) [
    | inl b ↦ inl (b, ground arith)
    | inr b ↦
        let (t', e, r) = set_level (pos_part price) (pos_part quantity) in
        inr (b, (t', ground (arith, e), r))
  ]
