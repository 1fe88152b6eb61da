-- ===== src/Matching/Quantity.antt =====
-- What matching does to quantities: nothing is made or lost, on either side of the book.
use nexus_smarttrading.Prelude.{
  ℕ, ◌+◌, min, ◌≡◌, refl, inl, inr, Bool, List, [], ◌∷◌, ◌++◌, arith, Result, ok, raise, Bool-cases,
}
use nexus_smarttrading.Matching.Order.{Order, OrderSide, buy, sell, Trade, make_trade}
use nexus_smarttrading.Matching.Sort.{insert, sort}
use nexus_smarttrading.Matching.Engine.{
  Entry, MatchingEngine, Fill, before, match_loop, Submitted, rest_order, execute, submit_order,
  after_trade, is_refused, own, opposite, prices_completed,
}

-- The quantity that rests on one side of a book.
abbrev pub resting : List Entry → ℕ
resting [] = 0
resting ((o, seq) ∷ book) = o.remaining_quantity + resting book

-- The quantity of a list of trades.
abbrev pub traded : List Trade → ℕ
traded [] = 0
traded (t ∷ ts) = t.quantity + traded ts

abbrev pub traded_or_none : Result (List Trade) → ℕ
traded_or_none (ok ts) = traded ts
traded_or_none (raise e) = 0

resting-insert :
    (lt : Entry → Entry → Bool) (x : Entry) (book : List Entry)
    → resting (insert lt x book) ≡ x.0.remaining_quantity + resting book
unfolding insert
resting-insert lt x [] = refl
resting-insert lt x (y ∷ book) = ground (arith, resting-insert lt x book)

pub resting-sort :
    (lt : Entry → Entry → Bool) (book : List Entry) → resting (sort lt book) ≡ resting book
unfolding sort
resting-sort lt [] = refl
resting-sort lt (x ∷ book) = omega (arith, resting-insert lt x (sort lt book), resting-sort lt book)

resting-append : (xs ys : List Entry) → resting (xs ++ ys) ≡ resting xs + resting ys
resting-append [] ys = omega arith
resting-append (x ∷ xs) ys = omega (arith, resting-append xs ys)

-- The taker as it goes on to the next maker.
abbrev pub next_taker : Order → Order → Order
next_taker taker maker = after_trade taker (min taker.remaining_quantity maker.remaining_quantity)

-- A trade moves its quantity from both sides, also when an exception ends the loop later.
pub match_loop-quantity :
    (side : OrderSide) (taker : Order) (book : List Entry)
    → let f = match_loop side taker book in
      (f.taker.remaining_quantity + resting book ≡ taker.remaining_quantity + resting f.book)
unfolding match_loop make_trade
match_loop-quantity side taker [] = refl
match_loop-quantity side taker ((maker, seq) ∷ rest) =
    ground (arith, match_loop-quantity side (next_taker taker maker) rest)

pub match_loop-traded :
    (side : OrderSide) (taker : Order) (book : List Entry) (ts : List Trade)
    → (match_loop side taker book).result ≡ ok ts
    → (match_loop side taker book).taker.remaining_quantity + traded ts ≡ taker.remaining_quantity
unfolding match_loop make_trade
match_loop-traded side taker [] ts h = ground arith
match_loop-traded side taker ((maker, seq) ∷ rest) ts h =
    grind (arith, match_loop-traded side (next_taker taker maker) rest)

rest_order-quantity :
    (side : OrderSide) (f : Fill) (seq : ℕ) (book : List Entry) (ts : List Trade)
    → f.result ≡ ok ts
    → resting (rest_order side f seq book) ≡ resting book + f.taker.remaining_quantity
unfolding rest_order
rest_order-quantity side f seq book ts h = ground (
  arith,
  resting-sort (before side) (book ++ (f.taker, seq) ∷ []),
  resting-append book ((f.taker, seq) ∷ []),
)

abbrev pub Balanced : OrderSide → MatchingEngine → Order → Submitted → List Trade → Type 0
Balanced side e o s ts =
    (s.order.remaining_quantity + traded ts ≡ o.remaining_quantity)
    × (resting (opposite side s.engine) + traded ts ≡ resting (opposite side e))
    × (resting (own side s.engine) ≡ resting (own side e) + s.order.remaining_quantity)

execute-quantity :
    (side : OrderSide) (e : MatchingEngine) (o : Order) (ts : List Trade)
    → o.side ≡ side
    → (execute e o).result ≡ ok ts
    → Balanced side e o (execute e o) ts
unfolding execute prices_completed
execute-quantity buy e o ts hs h =
    let f = match_loop buy (prices_completed o) e.asks in
    ground (
      arith,
      match_loop-quantity buy (prices_completed o) e.asks,
      match_loop-traded buy (prices_completed o) e.asks ts,
      rest_order-quantity buy f (e.sequence + 1) e.bids ts,
    )
execute-quantity sell e o ts hs h =
    let f = match_loop sell (prices_completed o) e.bids in
    ground (
      arith,
      match_loop-quantity sell (prices_completed o) e.bids,
      match_loop-traded sell (prices_completed o) e.bids ts,
      rest_order-quantity sell f (e.sequence + 1) e.asks ts,
    )

-- When `submit_order` returns trades, their quantity is what the order has lost and what the
-- opposite side of the book has lost, and what the order has left is what its own side has gained.
pub submit_order-quantity :
    (e : MatchingEngine) (o : Order) (ts : List Trade)
    → (submit_order e o).result ≡ ok ts
    → Balanced o.side e o (submit_order e o) ts
unfolding submit_order
submit_order-quantity e o ts h = elim (Bool-cases (is_refused e o)) [
  | inl r ↦ ground arith
  | inr r ↦ rw (r, submit_order) (execute-quantity o.side e o ts refl (rw (r, submit_order) at h))
]
