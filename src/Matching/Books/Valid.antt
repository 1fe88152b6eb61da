-- ===== src/Matching/Books/Valid.antt =====
-- The invariant of the engine, kept by `submit_order` for orders that have a price.
use nexus_smarttrading.Prelude.{
  ℕ, ◌+◌, ◌<◌, ◌≡◌, refl, List, [], ◌∷◌, ◌++◌, arith, ok, raise, Bool-cases, inl, inr, ltb,
}
use nexus_smarttrading.Matching.Order.{Order, OrderSide, buy, sell, value_or, or_else}
use nexus_smarttrading.Matching.Engine.{
  Entry, MatchingEngine, before, match_loop, Fill, rest_order, execute, submit_order, is_refused,
  prices_completed,
}
use nexus_smarttrading.Matching.Books.Priority.{
  All, IsSorted, All-map, All-append, All-sort, sort-IsSorted, match_loop-IsSorted,
}
use nexus_smarttrading.Matching.Books.Crossing.{
  price_of, IsLive, match_loop-All, match_loop-IsLive, match_loop-price, match_loop-IsBeyond,
}

-- Every bid is below every ask.
abbrev pub Uncrossed : List Entry → List Entry → Type 0
Uncrossed bids asks = All (λ b. All (λ a. price_of b < price_of a) asks) bids

pub record IsValid (e : MatchingEngine) : Type 0 where
  pub live_bids : All IsLive e.bids
  pub live_asks : All IsLive e.asks
  pub sorted_bids : IsSorted buy e.bids
  pub sorted_asks : IsSorted sell e.asks
  pub uncrossed : Uncrossed e.bids e.asks

-- A predicate on one side carries over to the side with the order that comes to rest on it.
rest_order-All :
    (P : Entry → Type 0) (side : OrderSide) (f : Fill) (seq : ℕ) (own : List Entry)
    → (0 < f.taker.remaining_quantity → P (f.taker, seq))
    → All P own
    → All P (rest_order side f seq own)
unfolding rest_order
rest_order-All P side f seq own new h =
    elim f.result as (λ r. (All P (rest_order side (record f { result = r }) seq own))) [
      | raise e ↦ h
      | ok ts ↦ elim (Bool-cases (ltb 0 f.taker.remaining_quantity)) [
        | inl e ↦ rw e (
            All-sort P (before side) (own ++ (f.taker, seq) ∷ [])
              (All-append P own ((f.taker, seq) ∷ []) h (new (ground arith), tt)))
        | inr e ↦ rw e h
      ]
    ]

rest_order-IsSorted :
    (side : OrderSide) (f : Fill) (seq : ℕ) (own : List Entry)
    → IsSorted side own
    → IsSorted side (rest_order side f seq own)
unfolding rest_order
rest_order-IsSorted side f seq own h =
    ground (arith, sort-IsSorted side (own ++ (f.taker, seq) ∷ []))

All-All : (P : Entry → Type 0) (xs : List Entry) → ((x : Entry) → P x) → All P xs
All-All P [] f = tt
All-All P (x ∷ xs) f = (f x, All-All P xs f)

All-zip :
    (P Q R : Entry → Type 0) (xs : List Entry)
    → ((x : Entry) → P x → Q x → R x)
    → All P xs
    → All Q xs
    → All R xs
All-zip P Q R [] f h k = tt
All-zip P Q R (x ∷ xs) f h k = (f x h.0 k.0, All-zip P Q R xs f h.1 k.1)

All-flip :
    (R : Entry → Entry → Type 0) (xs ys : List Entry)
    → All (λ x. All (λ y. R x y) ys) xs
    → All (λ y. All (λ x. R x y) xs) ys
All-flip R [] ys h = All-All _ ys (λ y. tt)
All-flip R (x ∷ xs) ys h = All-zip _ _ _ ys (λ y a b. (a, b)) h.0 (All-flip R xs ys h.1)

module _ (e : MatchingEngine) (o : Order) (v : IsValid e) where
  execute-buy-IsValid :
      0 < value_or (prices_completed o).price 0 → o.side ≡ buy → IsValid (execute e o).engine
  unfolding execute
  execute-buy-IsValid priced hs =
      let taker = prices_completed o in
      let f = match_loop buy taker e.asks in
      let seq = e.sequence + 1 in
      let same = match_loop-price buy taker e.asks in
      rw (hs, execute)
        (record {
          live_bids = rest_order-All IsLive buy f seq e.bids (λ r. (r, rw same priced)) v.live_bids;
          live_asks = match_loop-IsLive buy taker e.asks v.live_asks;
          sorted_bids = rest_order-IsSorted buy f seq e.bids v.sorted_bids;
          sorted_asks = match_loop-IsSorted buy sell taker e.asks v.sorted_asks;
          uncrossed =
              rest_order-All (λ b. All (λ a. price_of b < price_of a) f.book) buy f seq e.bids
                (λ r. rw same (match_loop-IsBeyond buy taker e.asks v.live_asks v.sorted_asks r))
                (All-map _ _ e.bids (λ b. match_loop-All (λ q. price_of b < q) buy taker e.asks)
                  v.uncrossed);
        })

  execute-sell-IsValid :
      0 < value_or (prices_completed o).price 0 → o.side ≡ sell → IsValid (execute e o).engine
  unfolding execute
  execute-sell-IsValid priced hs =
      let taker = prices_completed o in
      let f = match_loop sell taker e.bids in
      let seq = e.sequence + 1 in
      let same = match_loop-price sell taker e.bids in
      rw (hs, execute)
        (record {
          live_bids = match_loop-IsLive sell taker e.bids v.live_bids;
          live_asks =
              rest_order-All IsLive sell f seq e.asks (λ r. (r, rw same priced)) v.live_asks;
          sorted_bids = match_loop-IsSorted sell buy taker e.bids v.sorted_bids;
          sorted_asks = rest_order-IsSorted sell f seq e.asks v.sorted_asks;
          uncrossed =
              All-flip (λ a b. price_of b < price_of a) (rest_order sell f seq e.asks) f.book
                (rest_order-All (λ a. All (λ b. price_of b < price_of a) f.book) sell f seq e.asks
                  (λ r. rw same (match_loop-IsBeyond sell taker e.bids v.live_bids v.sorted_bids r))
                  (All-map _ _ e.asks (λ a. match_loop-All (λ q. q < price_of a) sell taker e.bids)
                    (All-flip (λ b a. price_of b < price_of a) e.bids e.asks v.uncrossed)));
        })

-- The order has a positive price: its own, or its limit price.
abbrev pub IsPriced : Order → Type 0
IsPriced o = 0 < value_or (or_else o.price o.limit_price) 0

execute-IsValid :
    (side : OrderSide) (e : MatchingEngine) (o : Order)
    → o.side ≡ side
    → IsValid e
    → IsPriced o
    → IsValid (execute e o).engine
unfolding prices_completed
execute-IsValid buy e o hs v p = execute-buy-IsValid e o v p hs
execute-IsValid sell e o hs v p = execute-sell-IsValid e o v p hs

-- On a book whose orders all have a price and a quantity left, whose sides are in price-time
-- order, and where every bid is below every ask, `submit_order` of an order with a positive price
-- leaves such a book, whether it refuses the order, fills it or rests it.
pub submit_order-IsValid :
    (e : MatchingEngine) (o : Order) → IsValid e → IsPriced o → IsValid (submit_order e o).engine
unfolding submit_order
submit_order-IsValid e o v p = elim (Bool-cases (is_refused e o)) [
  | inl r ↦ rw (r, submit_order) v
  | inr r ↦ rw (r, submit_order) (execute-IsValid o.side e o refl v p)
]
