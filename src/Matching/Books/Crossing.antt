-- ===== src/Matching/Books/Crossing.antt =====
-- The matching loop leaves no maker that the taker could still trade with.
use nexus_smarttrading.Prelude.{
  ℕ, ◌<◌, ◌≡◌, refl, Bool, true, false, List, [], ◌∷◌, arith, Result, ok, raise, Bool-cases, inl,
  inr, min,
}
use nexus_smarttrading.Matching.Order.{Order, OrderSide, buy, sell, make_trade, value_or, Trade}
use nexus_smarttrading.Matching.Engine.{Entry, match_loop, after_trade, too_dear}
use nexus_smarttrading.Matching.Books.Priority.{All, IsAhead, IsSorted, All-map}

abbrev pub price_of : Entry → ℕ
price_of x = value_or x.0.price 0

-- A resting order has a quantity left, and a price.
abbrev pub IsLive : Entry → Type 0
IsLive x = (0 < x.0.remaining_quantity) × (0 < price_of x)

-- The entry is beyond what a taker of the side pays or accepts.
abbrev pub IsBeyond : OrderSide → ℕ → Entry → Type 0
IsBeyond buy p x = p < price_of x
IsBeyond sell p x = price_of x < p

abbrev pub other_side : OrderSide → OrderSide
other_side buy = sell
other_side sell = buy

abbrev next_taker : Order → Order → Order
next_taker taker maker = after_trade taker (min taker.remaining_quantity maker.remaining_quantity)

-- What depends on the price of a maker alone holds of the makers that are left.
pub match_loop-All :
    (Q : ℕ → Type 0) (side : OrderSide) (taker : Order) (book : List Entry)
    → All (λ x. Q (price_of x)) book
    → All (λ x. Q (price_of x)) (match_loop side taker book).book
unfolding match_loop make_trade
match_loop-All Q side taker [] h = tt
match_loop-All Q side taker ((maker, seq) ∷ rest) h =
    ground (arith, match_loop-All Q side (next_taker taker maker) rest h.1)

pub match_loop-IsLive :
    (side : OrderSide) (taker : Order) (book : List Entry)
    → All IsLive book
    → All IsLive (match_loop side taker book).book
unfolding match_loop make_trade
match_loop-IsLive side taker [] h = tt
match_loop-IsLive side taker ((maker, seq) ∷ rest) h =
    ground (arith, match_loop-IsLive side (next_taker taker maker) rest h.1)

abbrev pub is_ok : Result (List Trade) → Bool
is_ok (ok ts) = true
is_ok (raise e) = false

pub match_loop-is_ok :
    (side : OrderSide) (taker : Order) (book : List Entry)
    → All IsLive book
    → is_ok (match_loop side taker book).result ≡ true
unfolding match_loop make_trade
match_loop-is_ok side taker [] h = refl
match_loop-is_ok side taker ((maker, seq) ∷ rest) h =
    ground (arith, match_loop-is_ok side (next_taker taker maker) rest h.1)

pub match_loop-price :
    (side : OrderSide) (taker : Order) (book : List Entry)
    → (match_loop side taker book).taker.price ≡ taker.price
unfolding match_loop make_trade
match_loop-price side taker [] = refl
match_loop-price side taker ((maker, seq) ∷ rest) =
    ground (arith, match_loop-price side (next_taker taker maker) rest)

-- In a sorted book the first maker that is beyond the taker's price has only such behind it.
IsBeyond-sorted :
    (side : OrderSide) (p : ℕ) (x : Entry) (xs : List Entry)
    → IsBeyond side p x
    → All (IsAhead (other_side side) x) xs
    → All (IsBeyond side p) xs
IsBeyond-sorted buy p x xs b h = All-map _ _ xs (λ y k. ground arith) h
IsBeyond-sorted sell p x xs b h = All-map _ _ xs (λ y k. ground arith) h

IsBeyond-too_dear :
    (side : OrderSide) (taker : Order) (x : Entry)
    → too_dear side taker.price x.0.price ≡ true
    → IsBeyond side (value_or taker.price 0) x
unfolding too_dear
IsBeyond-too_dear buy taker x h = ground arith
IsBeyond-too_dear sell taker x h = ground arith

-- A taker that still has something left has met only makers beyond its price in the book it leaves.
pub match_loop-IsBeyond :
    (side : OrderSide) (taker : Order) (book : List Entry)
    → All IsLive book
    → IsSorted (other_side side) book
    → 0 < (match_loop side taker book).taker.remaining_quantity
    → All (IsBeyond side (value_or taker.price 0)) (match_loop side taker book).book
unfolding match_loop make_trade
match_loop-IsBeyond side taker [] l s r = tt
match_loop-IsBeyond side taker ((maker, seq) ∷ rest) l s r =
    elim (Bool-cases (too_dear side taker.price maker.price)) [
      | inl e ↦
          let b = IsBeyond-too_dear side taker (maker, seq) e in
          ground (arith, b, IsBeyond-sorted side (value_or taker.price 0) (maker, seq) rest b s.0)
      | inr e ↦ ground (arith, match_loop-IsBeyond side (next_taker taker maker) rest l.1 s.1)
    ]
