-- ===== src/OrderBook/Reads.antt =====
-- What a caller of `L2OrderBook` sees, in terms of the two tables.
use nexus_smarttrading.Prelude.{
  ℕ, ◌≡◌, refl, sym, ap, ◌∙◌, ◌⊎◌, inl, inr, true, false, Option, none, some, List, [], ◌∷◌, ◌++◌,
  Result, ok, raise, value_error, arith,
}
use nexus_smarttrading.Prelude.Int.{ℤ, pos_part}
use mathlib.Core.List.{reverse, reverse-append, reverse-cons, append_assoc}
use nexus_smarttrading.OrderBook.Tree.{
  Tree, nil, node, Color, get, find_min, find_max, maximum, items, items_reverse,
}
use nexus_smarttrading.OrderBook.Spec.{lookup, IsAscending}
use nexus_smarttrading.OrderBook.Refinement.{find_node-lookup, items-minimum}
use nexus_smarttrading.OrderBook.Book.{
  L2OrderBook, best_bid, best_ask, update_bid, update_ask, get_bid_quantity, get_ask_quantity,
  up_to, get_bids, get_asks,
}
use nexus_smarttrading.OrderBook.Levels.{Holds, level_set, is_bad, update_level-Updates}

-- The book holds a table of bids and a table of asks, each in ascending order of prices.
pub record BookHolds (b : L2OrderBook) (bids asks : List (ℕ × ℕ)) : Type 0 where
  pub bids_hold : Holds b.bids_tree bids
  pub asks_hold : Holds b.asks_tree asks

abbrev pub BookUpdates :
    List (ℕ × ℕ)
    → List (ℕ × ℕ)
    → ℤ
    → ℤ
    → Result L2OrderBook
    → (List (ℕ × ℕ) → List (ℕ × ℕ))
    → (List (ℕ × ℕ) → List (ℕ × ℕ))
    → Type 0
BookUpdates bids asks price quantity r f g =
    ((is_bad price quantity ≡ true) × (r ≡ raise value_error))
    ⊎ ((is_bad price quantity ≡ false)
        × ((b : L2OrderBook) × (r ≡ ok b) × BookHolds b (f bids) (g asks)))

abbrev pub first : List (ℕ × ℕ) → Option (ℕ × ℕ)
first [] = none
first (e ∷ m) = some e

abbrev pub quantity_at : Option ℕ → ℕ
quantity_at none = 0
quantity_at (some q) = q

module _ (b : L2OrderBook) (bids asks : List (ℕ × ℕ)) (h : BookHolds b bids asks)
    (price quantity : ℤ) where
  -- `update_bid` on a book that holds two tables raises `ValueError` for a price that is not
  -- positive and for a negative quantity. Otherwise it sets the quantity of the price in the bids,
  -- or takes the price out for the quantity 0, and leaves the asks alone.
  pub update_bid-BookUpdates :
      BookUpdates bids asks price quantity
        (update_bid b price quantity)
        (level_set (pos_part price) (pos_part quantity))
        (λ m. m)
  unfolding update_bid
  update_bid-BookUpdates = elim (update_level-Updates b.bids_tree bids h.bids_hold price quantity) [
    | inl (bad, e) ↦ inl (bad, rw e)
    | inr (good, (t, e, k)) ↦ inr (
      good,
      (record b { bids_tree = t }, rw e, record { bids_hold = k; asks_hold = h.asks_hold }),
    )
  ]

  -- `update_ask` does the same to the asks, and leaves the bids alone.
  pub update_ask-BookUpdates :
      BookUpdates bids asks price quantity
        (update_ask b price quantity)
        (λ m. m)
        (level_set (pos_part price) (pos_part quantity))
  unfolding update_ask
  update_ask-BookUpdates = elim (update_level-Updates b.asks_tree asks h.asks_hold price quantity) [
    | inl (bad, e) ↦ inl (bad, rw e)
    | inr (good, (t, e, k)) ↦ inr (
      good,
      (record b { asks_tree = t }, rw e, record { bids_hold = h.bids_hold; asks_hold = k }),
    )
  ]

items_reverse-reverse : (t : Tree ℕ) → items_reverse t ≡ reverse (items t)
unfolding items items_reverse
items_reverse-reverse nil = refl
items_reverse-reverse (node c l k v r) = simp (
  items_reverse-reverse l,
  items_reverse-reverse r,
  reverse-append (items l) ((k, v) ∷ items r),
  reverse-cons (k, v) (items r),
  append_assoc,
)

find_min-first : (t : Tree ℕ) → find_min t ≡ first (items t)
unfolding find_min
find_min-first nil = unfold items in refl
find_min-first (node c l k v r) = rw (items-minimum c l k v r)

first-append : (xs ys : List (ℕ × ℕ)) (e : ℕ × ℕ) → first xs ≡ some e → first (xs ++ ys) ≡ some e
first-append [] ys e h = cc
first-append (x ∷ xs) ys e h = h

maximum-first :
    (c : Color) (l : Tree ℕ) (k v : ℕ) (r : Tree ℕ)
    → first (items_reverse (node c l k v r)) ≡ some (maximum r k v)
unfolding items_reverse maximum
maximum-first c l k v nil = refl
maximum-first c l k v (node d a j w b) =
    first-append (items_reverse (node d a j w b)) ((k, v) ∷ items_reverse l) (maximum b j w)
      (maximum-first d a j w b)

find_max-first : (t : Tree ℕ) → find_max t ≡ first (items_reverse t)
unfolding find_max
find_max-first nil = unfold items_reverse in refl
find_max-first (node c l k v r) = sym (maximum-first c l k v r)

get-quantity :
    (t : Tree ℕ) (m : List (ℕ × ℕ)) (price : ℕ)
    → IsAscending m
    → items t ≡ m
    → get price (some 0) t ≡ ok (quantity_at (lookup price m))
unfolding get
get-quantity t m price a e =
    let f = find_node-lookup price t (rw e a) ∙ ap (lookup price) e in ground (arith, f)

-- A book that holds two tables lists the bids from the highest price down and the asks from the
-- lowest price up, as many as the depth allows; the best bid and the best ask are the first of
-- those lists; and the quantity at a price is that of the table, or 0.
pub reads :
    (b : L2OrderBook) (bids asks : List (ℕ × ℕ)) (depth : Option ℤ) (price : ℕ)
    → BookHolds b bids asks
    → (get_bids b depth ≡ up_to depth (reverse bids))
      × (get_asks b depth ≡ up_to depth asks)
      × (best_bid b ≡ first (reverse bids))
      × (best_ask b ≡ first asks)
      × (get_bid_quantity b price ≡ ok (quantity_at (lookup price bids)))
      × (get_ask_quantity b price ≡ ok (quantity_at (lookup price asks)))
unfolding get_bids get_asks best_bid best_ask get_bid_quantity get_ask_quantity
reads b bids asks depth price h =
    let bt = b.bids_tree.root in
    let at = b.asks_tree.root in
    let hb = h.bids_hold.represents in
    let ha = h.asks_hold.represents in
    let down = items_reverse-reverse bt ∙ ap reverse hb.contents in
    (
      ap (up_to depth) down,
      ap (up_to depth) ha.contents,
      find_max-first bt ∙ ap first down,
      find_min-first at ∙ ap first ha.contents,
      get-quantity bt bids price hb.ascending hb.contents,
      get-quantity at asks price ha.ascending ha.contents,
    )
