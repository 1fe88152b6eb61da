-- ===== src/Matching/Books/Priority.antt =====
-- Price-time priority: a side is sorted by the key of its entries, and matching keeps that.
use nexus_smarttrading.Prelude.{
  ℕ, ◌<◌, ◌≤◌, ◌⊎◌, ◌≡◌, Bool, true, false, List, [], ◌∷◌, ◌++◌, arith, Bool-cases, inl, inr, min,
}
use nexus_smarttrading.Matching.Order.{Order, OrderSide, buy, sell, make_trade, value_or}
use nexus_smarttrading.Matching.Sort.{insert, sort}
use nexus_smarttrading.Matching.Engine.{Entry, before, match_loop, after_trade}

abbrev pub All : (Entry → Type 0) → List Entry → Type 0
All P [] = Unit {0}
All P (x ∷ xs) = P x × All P xs

abbrev pub IsBetter : OrderSide → ℕ → ℕ → Type 0
IsBetter buy p q = q < p
IsBetter sell p q = p < q

-- Price-time priority: a bid is before the lower bids and an ask before the higher asks; at one price,
-- the earlier timestamp is first, and at one timestamp the earlier submission. A price or a timestamp
-- that is missing counts as 0.
abbrev pub IsAhead : OrderSide → Entry → Entry → Type 0
IsAhead side (a, i) (b, j) =
    IsBetter side (value_or a.price 0) (value_or b.price 0)
    ⊎ ((value_or a.price 0 ≡ value_or b.price 0)
        × ((value_or a.timestamp 0 < value_or b.timestamp 0)
            ⊎ ((value_or a.timestamp 0 ≡ value_or b.timestamp 0) × (i ≤ j))))

-- Each entry is ahead of all that are further down.
abbrev pub IsSorted : OrderSide → List Entry → Type 0
IsSorted side [] = Unit {0}
IsSorted side (x ∷ xs) = All (IsAhead side x) xs × IsSorted side xs

before-IsAhead : (side : OrderSide) (x y : Entry) → before side y x ≡ false → IsAhead side x y
unfolding before
before-IsAhead buy x y h = ground arith
before-IsAhead sell x y h = ground arith

pub IsAhead-before : (side : OrderSide) (x y : Entry) → IsAhead side x y → before side y x ≡ false
unfolding before
IsAhead-before buy x y h = ground arith
IsAhead-before sell x y h = ground arith

pub All-map :
    (P Q : Entry → Type 0) (xs : List Entry) → ((x : Entry) → P x → Q x) → All P xs → All Q xs
All-map P Q [] f h = tt
All-map P Q (x ∷ xs) f h = (f x h.0, All-map P Q xs f h.1)

pub All-append : (P : Entry → Type 0) (xs ys : List Entry) → All P xs → All P ys → All P (xs ++ ys)
All-append P [] ys h k = k
All-append P (x ∷ xs) ys h k = (h.0, All-append P xs ys h.1 k)

pub All-insert :
    (P : Entry → Type 0) (lt : Entry → Entry → Bool) (x : Entry) (xs : List Entry)
    → P x
    → All P xs
    → All P (insert lt x xs)
unfolding insert
All-insert P lt x [] p h = (p, tt)
All-insert P lt x (y ∷ ys) p h = elim (Bool-cases (lt y x)) [
  | inl e ↦ rw e (h.0, All-insert P lt x ys p h.1)
  | inr e ↦ rw e (p, h)
]

pub All-sort :
    (P : Entry → Type 0) (lt : Entry → Entry → Bool) (xs : List Entry)
    → All P xs
    → All P (sort lt xs)
unfolding sort
All-sort P lt [] h = tt
All-sort P lt (x ∷ xs) h = All-insert P lt x (sort lt xs) h.0 (All-sort P lt xs h.1)

before-asym : (side : OrderSide) (x y : Entry) → before side x y ≡ true → before side y x ≡ false
unfolding before
before-asym buy x y h = ground arith
before-asym sell x y h = ground arith

before_trans :
    (side : OrderSide) (x y z : Entry)
    → before side y x ≡ false
    → before side z y ≡ false
    → before side z x ≡ false
unfolding before
before_trans buy x y z h k = ground arith
before_trans sell x y z h k = ground arith

IsAhead-trans :
    (side : OrderSide) (x y z : Entry) → IsAhead side x y → IsAhead side y z → IsAhead side x z
IsAhead-trans side x y z h k =
    before-IsAhead side x z
      (before_trans side x y z (IsAhead-before side x y h) (IsAhead-before side y z k))

insert-IsSorted :
    (side : OrderSide) (x : Entry) (xs : List Entry)
    → IsSorted side xs
    → IsSorted side (insert (before side) x xs)
unfolding insert
insert-IsSorted side x [] h = (tt, tt)
insert-IsSorted side x (y ∷ ys) h = elim (Bool-cases (before side y x)) [
  | inl e ↦ rw e (
    All-insert _ (before side) x ys (before-IsAhead side y x (before-asym side y x e)) h.0,
    insert-IsSorted side x ys h.1,
  )
  | inr e ↦
      let first = before-IsAhead side x y e in
      rw e ((first, All-map _ _ ys (λ z k. IsAhead-trans side x y z first k) h.0), h)
]

-- Whatever the order of arrival, a sorted side lists the better price first, then the earlier
-- timestamp, then the earlier submission.
pub sort-IsSorted : (side : OrderSide) (xs : List Entry) → IsSorted side (sort (before side) xs)
unfolding sort
sort-IsSorted side [] = tt
sort-IsSorted side (x ∷ xs) = insert-IsSorted side x (sort (before side) xs) (sort-IsSorted side xs)

-- The loop consumes makers from the front; what it leaves has the keys that it had.
pub match_loop-IsSorted :
    (side other : OrderSide) (taker : Order) (book : List Entry)
    → IsSorted other book
    → IsSorted other (match_loop side taker book).book
unfolding match_loop make_trade before
match_loop-IsSorted side other taker [] h = tt
match_loop-IsSorted side other taker ((maker, seq) ∷ rest) h = ground (
  arith,
  match_loop-IsSorted side other
      (after_trade taker (min taker.remaining_quantity maker.remaining_quantity)) rest h.1,
)
