-- ===== src/Trailing/Tests.antt =====
-- Runs of the trailing stop processor over whole amounts, and the theorems at concrete orders.
use nexus_smarttrading.Prelude.{ℕ, ◌≡◌, refl, some, none, true, [], ◌∷◌, List}
use nexus_smarttrading.Prelude.Decimal.{whole_numbers}
use nexus_smarttrading.Trailing.{
  TrailingStopOrder, Processor, OrderStatus, DeltaType, sell, triggered, opens, breaches,
  candidate_sell, ratchet_sell, ratchet_buy, process_order, process_orders, process_tick,
}
use nexus_smarttrading.Trailing.Ratchet.{IsNoWorse, run, run-IsNoWorse, run_final}
use nexus_smarttrading.Trailing.Outcomes.{Ticked}
use nexus_smarttrading.Trailing.Ticks.{process_tick-Ticked}

program : Unit {0}
unfolding opens breaches candidate_sell ratchet_sell ratchet_buy process_order process_orders
    process_tick run
program = tt

abbrev long_stop : TrailingStopOrder ℕ
long_stop = record {
  order_id = 1;
  symbol = 7;
  side = sell;
  quantity = 2;
  initial_price = 100;
  trailing_delta = 10;
  stop_price = 90;
  delta_type = DeltaType.amount;
  activation_price = none;
  status = OrderStatus.active;
  highest_price = none;
  lowest_price = none;
  trigger_price = none;
}

abbrev processor : Processor ℕ
processor = record { orders = (1, long_stop) ∷ []; has_callback = true; notified = [] }

abbrev ticks : List (ℕ × ℕ)
ticks = (7, 105) ∷ (7, 102) ∷ (8, 1) ∷ (7, 120) ∷ []

trailed : (run whole_numbers ticks long_stop).stop_price ≡ 110
unfolding program
trailed = refl

hit : (run whole_numbers ((7, 105) ∷ (7, 95) ∷ []) long_stop).trigger_price ≡ some 95
unfolding program
hit = refl

run-IsNoWorse_example :
    IsNoWorse whole_numbers sell 90 (run whole_numbers ticks long_stop).stop_price
run-IsNoWorse_example = run-IsNoWorse whole_numbers ticks long_stop

run_final_example :
    run whole_numbers ticks (record long_stop { status = triggered })
    ≡ record long_stop { status = triggered }
run_final_example = run_final whole_numbers ticks (record long_stop { status = triggered }) refl

process_tick-Ticked_example :
    Ticked whole_numbers 7 80 processor (process_tick whole_numbers 7 80 processor)
process_tick-Ticked_example = process_tick-Ticked whole_numbers 7 80 processor
