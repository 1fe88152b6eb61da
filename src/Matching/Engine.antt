-- ===== src/Matching/Engine.antt =====
-- execution/matching_engine.py: `MatchingEngine.submit_order`, with one matching loop for the two
-- sides, which the source writes out twice.
use nexus_smarttrading.Prelude.{
  ℕ, ◌+◌, ◌-◌, min, Bool, true, false, ◌&&◌, ◌||◌, not, Option, none, some, List, [], ◌∷◌, ◌++◌,
  ◌==◌, ltb, if◌then◌else◌, Result, ok, raise, value_error,
}
use nexus_smarttrading.Matching.Order.{
  Order, OrderSide, buy, sell, OrderStatus, filled, partially_filled, Trade, make_trade, value_or,
  or_else, not_positive,
}
use nexus_smarttrading.Matching.Sort.{sort}

-- An order on the book with the number of its submission.
abbrev pub Entry : Type 0
Entry = Order × ℕ

pub record MatchingEngine : Type 0 where
  pub symbol : ℕ
  pub bids : List Entry
  pub asks : List Entry
  pub order_ids : List ℕ
  pub sequence : ℕ

-- The side on which an order rests, and the one it trades with.
abbrev pub own : OrderSide → MatchingEngine → List Entry
own buy e = e.bids
own sell e = e.asks

abbrev pub opposite : OrderSide → MatchingEngine → List Entry
opposite buy e = e.asks
opposite sell e = e.bids

-- `order_id in self._order_ids`
unfoldable pub member : ℕ → List ℕ → Bool
member i [] = false
member i (j ∷ js) = if i == j then true else member i js

-- `_bid_sort_key(a) < _bid_sort_key(b)` and `_ask_sort_key(a) < _ask_sort_key(b)`
unfoldable pub before : OrderSide → Entry → Entry → Bool
before side (a, i) (b, j) =
    let p = value_or a.price 0 in
    let q = value_or b.price 0 in
    let s = value_or a.timestamp 0 in
    let t = value_or b.timestamp 0 in
    let better : Bool = elim side [ buy ↦ ltb q p | sell ↦ ltb p q ] in
    better || (p == q && (ltb s t || (s == t && ltb i j)))

-- The price test that ends the matching loop: the taker's side, its price, the best price.
unfoldable pub too_dear : OrderSide → Option ℕ → Option ℕ → Bool
too_dear buy (some p) (some q) = ltb p q
too_dear sell (some p) (some q) = ltb q p
too_dear side none best = false
too_dear side (some p) none = false

-- What a matching loop leaves: the taker, the other side of the book, the makers it filled, and
-- the trades or the exception that ended it.
pub record Fill : Type 0 where
  pub taker : Order
  pub book : List Entry
  pub filled_makers : List Order
  pub result : Result (List Trade)

abbrev pub status_after : ℕ → OrderStatus
status_after remaining = if remaining == 0 then filled else partially_filled

abbrev pub after_trade : Order → ℕ → Order
after_trade o qty = record o {
  remaining_quantity = o.remaining_quantity - qty;
  status = status_after (o.remaining_quantity - qty);
}

abbrev pub prepend : Trade → Result (List Trade) → Result (List Trade)
prepend t (ok ts) = ok (t ∷ ts)
prepend t (raise e) = raise e

abbrev pub trade_of : Order → Order → Trade
trade_of taker maker = record {
  symbol = taker.symbol;
  price = value_or maker.price 0;
  quantity = min taker.remaining_quantity maker.remaining_quantity;
  maker_order_id = maker.order_id;
  taker_order_id = taker.order_id;
  timestamp = taker.timestamp;
}

-- The loop ends before a trade with this maker.
abbrev pub stopped : Order → Order → ℕ → List Entry → Result (List Trade) → Fill
stopped taker maker seq rest r = record {
  taker = taker;
  book = (maker, seq) ∷ rest;
  filled_makers = [];
  result = r;
}

-- The `while` loop. When the maker keeps some quantity the taker has none left, so that the next
-- test of the loop ends it.
unfoldable pub match_loop : OrderSide → Order → List Entry → Fill
match_loop side taker [] = record { taker = taker; book = []; filled_makers = []; result = ok [] }
match_loop side taker ((maker, seq) ∷ rest) =
    let trade = trade_of taker maker in
    let taker' = after_trade taker trade.quantity in
    let maker' = after_trade maker trade.quantity in
    let next = match_loop side taker' rest in
    if taker.remaining_quantity == 0 || too_dear side taker.price maker.price
    then stopped taker maker seq rest (ok [])
    else elim (make_trade trade) [
      | raise e ↦ stopped taker maker seq rest (raise e)
      | ok t ↦
          if maker'.remaining_quantity == 0
          then record next {
            filled_makers = maker' ∷ next.filled_makers;
            result = prepend t next.result;
          }
          else record {
            taker = taker';
            book = (maker', seq) ∷ rest;
            filled_makers = [];
            result = ok (t ∷ []);
          }
    ]

-- What a call of `submit_order` leaves: the engine, the order, and what it returns or raises.
pub record Submitted : Type 0 where
  pub engine : MatchingEngine
  pub order : Order
  pub filled_makers : List Order
  pub result : Result (List Trade)

-- `append` and `sort`, unless an exception left the loop or nothing remains.
unfoldable pub rest_order : OrderSide → Fill → ℕ → List Entry → List Entry
rest_order side f seq own = elim f.result [
  | raise e ↦ own
  | ok ts ↦
      if ltb 0 f.taker.remaining_quantity
      then sort (before side) (own ++ (f.taker, seq) ∷ [])
      else own
]

unfoldable pub prices_completed : Order → Order
prices_completed o = record o {
  price = or_else o.price o.limit_price;
  limit_price = or_else o.limit_price (or_else o.price o.limit_price);
}

-- The part of `submit_order` behind its checks.
unfoldable pub execute : MatchingEngine → Order → Submitted
execute e order =
    let seq = e.sequence + 1 in
    let taker = prices_completed order in
    let ids = order.order_id ∷ e.order_ids in
    elim order.side [
      | buy ↦
          let f = match_loop buy taker e.asks in
          record {
            engine = record e {
              bids = rest_order buy f seq e.bids;
              asks = f.book;
              order_ids = ids;
              sequence = seq;
            };
            order = f.taker;
            filled_makers = f.filled_makers;
            result = f.result;
          }
      | sell ↦
          let f = match_loop sell taker e.bids in
          record {
            engine = record e {
              bids = f.book;
              asks = rest_order sell f seq e.asks;
              order_ids = ids;
              sequence = seq;
            };
            order = f.taker;
            filled_makers = f.filled_makers;
            result = f.result;
          }
    ]

-- The checks of `submit_order`: each of them raises `ValueError`.
unfoldable pub is_refused : MatchingEngine → Order → Bool
is_refused e order =
    not (order.symbol == e.symbol)
    || (member order.order_id e.order_ids || (order.quantity == 0 || not_positive order.price))

unfoldable pub submit_order : MatchingEngine → Order → Submitted
submit_order e order =
    if is_refused e order
    then record { engine = e; order = order; filled_makers = []; result = raise value_error }
    else execute e order
