-- ===== src/Matching/Tests.antt =====
-- Runs of the matching engine, and the theorems at concrete orders.
use nexus_smarttrading.Prelude.{
  ◌≡◌, refl, none, some, ◌⊎◌, List, [], ◌∷◌, ok, raise, value_error, arith, inl,
}
use nexus_smarttrading.Matching.Order.{
  Order, buy, sell, OrderStatus, OrderType, make_trade, Trade, post_init,
}
use nexus_smarttrading.Matching.Sort.{insert, sort}
use nexus_smarttrading.Matching.Engine.{
  MatchingEngine, member, before, too_dear, match_loop, rest_order, prices_completed, execute,
  is_refused, submit_order,
}
use nexus_smarttrading.Matching.Quantity.{Balanced, submit_order-quantity}
use nexus_smarttrading.Matching.Refusal.{IsRefused}
use nexus_smarttrading.Matching.Books.{IsValid, submit_order-IsValid}
use nexus_smarttrading.Matching.Trades.{
  AllTrades, IsWithin, submit_order-ok, submit_order-IsWithin, submit_order-unpriced,
}

abbrev ask_5_at_100 : Order
ask_5_at_100 = record {
  order_id = 1;
  symbol = 7;
  side = sell;
  order_type = OrderType.limit;
  quantity = 5;
  limit_price = some 100;
  stop_price = none;
  trailing_delta = none;
  status = OrderStatus.pending;
  remaining_quantity = 5;
  price = some 100;
  timestamp = some 3;
}

abbrev ask_4_at_101 : Order
ask_4_at_101 = record ask_5_at_100 {
  order_id = 2;
  quantity = 4;
  remaining_quantity = 4;
  price = some 101;
  limit_price = some 101;
}

abbrev buy_7_at_101 : Order
buy_7_at_101 = record ask_5_at_100 {
  order_id = 3;
  side = buy;
  quantity = 7;
  remaining_quantity = 7;
  price = some 101;
  limit_price = none;
}

abbrev market_sell : Order
market_sell = record ask_5_at_100 {
  order_id = 4;
  order_type = OrderType.market;
  price = none;
  limit_price = none;
}

abbrev two_asks : MatchingEngine
two_asks = record {
  symbol = 7;
  bids = [];
  asks = (ask_5_at_100, 1) ∷ (ask_4_at_101, 2) ∷ [];
  order_ids = 2 ∷ 1 ∷ [];
  sequence = 2;
}

program : Unit {0}
unfolding make_trade post_init insert sort member before too_dear match_loop rest_order
    prices_completed execute is_refused submit_order
program = tt

abbrev first_trade : Trade
first_trade = record {
  symbol = 7;
  price = 100;
  quantity = 5;
  maker_order_id = 1;
  taker_order_id = 3;
  timestamp = some 3;
}

abbrev both_trades : List Trade
both_trades =
    first_trade ∷ record first_trade { price = 101; quantity = 2; maker_order_id = 2 } ∷ []

sweep : (submit_order two_asks buy_7_at_101).result ≡ ok both_trades
unfolding program
sweep = refl

-- The later submission of a better price goes in front.
resting_order :
    (submit_order
      (record two_asks { asks = (ask_4_at_101, 2) ∷ []; order_ids = 2 ∷ [] })
      ask_5_at_100).engine.asks
    ≡ (ask_5_at_100, 3) ∷ (ask_4_at_101, 2) ∷ []
unfolding program
resting_order = refl

two_asks-IsValid : IsValid two_asks
unfolding program
two_asks-IsValid = record {
  live_bids = tt;
  live_asks = omega arith;
  sorted_bids = tt;
  sorted_asks = ((inl (omega arith), tt), (tt, tt));
  uncrossed = tt;
}

submit_order-quantity_example :
    Balanced buy two_asks buy_7_at_101 (submit_order two_asks buy_7_at_101) both_trades
unfolding program
submit_order-quantity_example = submit_order-quantity two_asks buy_7_at_101 both_trades refl

submit_order-IsValid_example : IsValid (submit_order two_asks buy_7_at_101).engine
submit_order-IsValid_example =
    submit_order-IsValid two_asks buy_7_at_101 two_asks-IsValid (omega arith)

submit_order-IsWithin_example :
    AllTrades (IsWithin buy 101) (submit_order two_asks buy_7_at_101).result
submit_order-IsWithin_example = submit_order-IsWithin two_asks buy_7_at_101 101 refl

submit_order-unpriced_example :
    ((submit_order (record two_asks { asks = (market_sell, 1) ∷ [] }) buy_7_at_101).result
      ≡ raise value_error)
    × ((submit_order (record two_asks { asks = (market_sell, 1) ∷ [] }) buy_7_at_101).engine
        ≡ record two_asks {
          asks = (market_sell, 1) ∷ [];
          order_ids = 3 ∷ 2 ∷ 1 ∷ [];
          sequence = 3;
        })
unfolding program
submit_order-unpriced_example =
    submit_order-unpriced (record two_asks { asks = (market_sell, 1) ∷ [] }) buy_7_at_101
      market_sell 1 [] refl refl refl (omega arith)

abbrev OrRefused : MatchingEngine → Order → Type 0
OrRefused e o =
    (¬ IsRefused e o × ((ts : List Trade) × ((submit_order e o).result ≡ ok ts)))
    ⊎ (IsRefused e o
        × ((submit_order e o).result ≡ raise value_error)
        × ((submit_order e o).engine ≡ e))

submit_order-ok_example : OrRefused two_asks buy_7_at_101
submit_order-ok_example = submit_order-ok two_asks buy_7_at_101 two_asks-IsValid
