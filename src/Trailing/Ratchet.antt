-- ===== src/Trailing/Ratchet.antt =====
-- The stop of an order moves one way, and what has triggered stays as it is.
use nexus_smarttrading.Prelude.{ℕ, ◌≡◌, refl, Bool, true, false, List, [], ◌∷◌, arith}
use mathlib.Core.Path.{subst}
use nexus_smarttrading.Prelude.Decimal.{Decimals}
use nexus_smarttrading.Trailing.{
  OrderSide, buy, sell, OrderStatus, active, triggered, cancelled, TrailingStopOrder, opens, higher,
  lower, candidate_sell, candidate_buy, ratchet_sell, ratchet_buy, process_order,
}

module _ (ds : Decimals) where
  open ds use {Decimal, lt, lt_irrefl, lt_asym, le_trans}

  -- The second stop is no worse for the holder: not lower for a sell order, not higher for a buy.
  abbrev pub IsNoWorse : OrderSide → Decimal → Decimal → Type 0
  IsNoWorse sell s s' = lt s' s ≡ false
  IsNoWorse buy s s' = lt s s' ≡ false

  IsNoWorse-refl : (side : OrderSide) (s : Decimal) → IsNoWorse side s s
  IsNoWorse-refl sell s = lt_irrefl s
  IsNoWorse-refl buy s = lt_irrefl s

  IsNoWorse-trans :
      (side : OrderSide) (a b c : Decimal)
      → IsNoWorse side a b
      → IsNoWorse side b c
      → IsNoWorse side a c
  IsNoWorse-trans sell a b c h k = le_trans a b c h k
  IsNoWorse-trans buy a b c h k = le_trans c b a k h

  -- Whether the order still takes part.
  abbrev pub is_final : OrderStatus → Bool
  is_final triggered = true
  is_final cancelled = true
  is_final _ = false

  process_order-side :
      (symbol : ℕ) (price : Decimal) (o : TrailingStopOrder Decimal)
      → (process_order ds symbol price o).0.side ≡ o.side
  unfolding process_order ratchet_sell ratchet_buy
  process_order-side symbol price o = ground arith

  process_order-IsNoWorse :
      (symbol : ℕ) (price : Decimal) (o : TrailingStopOrder Decimal)
      → IsNoWorse o.side o.stop_price (process_order ds symbol price o).0.stop_price
  unfolding process_order ratchet_sell ratchet_buy
  process_order-IsNoWorse symbol price o = ground (
    arith,
    IsNoWorse-refl o.side o.stop_price,
    lt_irrefl o.stop_price,
    lt_asym o.stop_price
        (candidate_sell ds (record o { status = active }) (higher ds o.highest_price price)),
    lt_asym (candidate_buy ds (record o { status = active }) (lower ds o.lowest_price price))
        o.stop_price,
  )

  -- An order over a sequence of ticks, each with its symbol.
  unfoldable pub run : List (ℕ × Decimal) → TrailingStopOrder Decimal → TrailingStopOrder Decimal
  run [] o = o
  run ((symbol, price) ∷ ticks) o = run ticks (process_order ds symbol price o).0

  run_from :
      (side : OrderSide) (ticks : List (ℕ × Decimal)) (o : TrailingStopOrder Decimal)
      → o.side ≡ side
      → IsNoWorse side o.stop_price (run ticks o).stop_price
  unfolding run
  run_from side [] o e = IsNoWorse-refl side o.stop_price
  run_from side ((symbol, price) ∷ ticks) o e =
      let o' = (process_order ds symbol price o).0 in
      IsNoWorse-trans side o.stop_price o'.stop_price (run ticks o').stop_price
        (subst (λ s. IsNoWorse s o.stop_price o'.stop_price) e
          (process_order-IsNoWorse symbol price o))
        (run_from side ticks o' (rw (process_order-side symbol price o) e))

  -- Whatever ticks arrive, the stop price of a sell order never falls, and that of a buy order
  -- never rises.
  pub run-IsNoWorse :
      (ticks : List (ℕ × Decimal)) (o : TrailingStopOrder Decimal)
      → IsNoWorse o.side o.stop_price (run ticks o).stop_price
  run-IsNoWorse ticks o = run_from o.side ticks o refl

  -- An order that has triggered or was cancelled is not changed by any ticks.
  pub run_final :
      (ticks : List (ℕ × Decimal)) (o : TrailingStopOrder Decimal)
      → is_final o.status ≡ true
      → run ticks o ≡ o
  unfolding run process_order opens
  run_final [] o f = refl
  run_final ((symbol, price) ∷ ticks) o f =
      let e : (process_order ds symbol price o).0 ≡ o = ground arith in rw e (run_final ticks o f)
