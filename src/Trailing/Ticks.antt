-- ===== src/Trailing/Ticks.antt =====
-- A tick of `process_tick` keeps to the rules of Trailing/Outcomes.antt.
use nexus_smarttrading.Prelude.{
  ℕ, ◌≡◌, refl, ◌⊎◌, inl, inr, ◌==◌, true, false, Option, none, some, List, [], ◌∷◌, arith,
  Bool-cases, Option-cases,
}
use nexus_smarttrading.Prelude.Decimal.{Decimals}
use nexus_smarttrading.Trailing.{
  OrderSide, buy, sell, OrderStatus, active, pending, triggered, cancelled, TrailingStopOrder,
  Processor, opens, breaches, higher, lower, candidate_sell, candidate_buy, is_sell, ratchet_sell,
  ratchet_buy, process_order, process_orders, process_tick,
}
use nexus_smarttrading.Trailing.Outcomes.{
  IsOpen, IsReached, IsMax, IsMin, IsFollowing, Outcome, Swept, trail, TakesPart, Ticked,
  open_active, open_always, open_sell, open_buy, reached_sell, reached_buy, max_only, max_old,
  max_new, min_only, min_old, min_new, follow_up, follow_down, skips, triggers, follows, swept_end,
  swept_hit, swept_on,
}

module _ (ds : Decimals) where
  open ds use {Decimal, lt, zero, lt_asym}

  Side-cases : (side : OrderSide) → (side ≡ buy) ⊎ (side ≡ sell)
  Side-cases buy = inl refl
  Side-cases sell = inr refl

  opens-IsOpen :
      (price : Decimal) (o : TrailingStopOrder Decimal) (status : OrderStatus)
      → o.status ≡ status
      → opens ds o price ≡ true
      → IsOpen ds price o
  unfolding opens
  opens-IsOpen price o active e h = open_active e
  opens-IsOpen price o pending e h = elim (Option-cases o.activation_price) [
    | inl n ↦ open_always e n
    | inr (at, a) ↦ elim (Side-cases o.side) [
      | inl b ↦ open_buy e b a (ground (arith, e, a, b))
      | inr s ↦ open_sell e s a (ground (arith, e, a, s))
    ]
  ]
  opens-IsOpen price o triggered e h = absurd (ground arith)
  opens-IsOpen price o cancelled e h = absurd (ground arith)

  IsOpen-opens :
      (price : Decimal) (o : TrailingStopOrder Decimal)
      → IsOpen ds price o
      → opens ds o price ≡ true
  unfolding opens
  IsOpen-opens price o (open_active e) = rw e refl
  IsOpen-opens price o (open_always e n) = rw (e, n) refl
  IsOpen-opens price o (open_sell e s a h) = rw (e, a, s, h) refl
  IsOpen-opens price o (open_buy e b a h) = rw (e, a, b, h) refl

  breaches-IsReached :
      (price : Decimal) (o : TrailingStopOrder Decimal)
      → breaches ds (record o { status = active }) price ≡ true
      → IsReached ds price o
  unfolding breaches
  breaches-IsReached price o h = elim (Side-cases o.side) [
    | inl b ↦ reached_buy b (ground (arith, b))
    | inr s ↦ reached_sell s (ground (arith, s))
  ]

  IsReached-breaches :
      (price : Decimal) (o : TrailingStopOrder Decimal)
      → IsReached ds price o
      → breaches ds (record o { status = active }) price ≡ true
  unfolding breaches
  IsReached-breaches price o (reached_sell s h) = rw (s, h) refl
  IsReached-breaches price o (reached_buy b h) = rw (b, h) refl

  higher-IsMax : (old : Option Decimal) (a : Decimal) → IsMax ds old a (higher ds old a)
  higher-IsMax none a = max_only
  higher-IsMax (some h) a = elim (Bool-cases (lt h a)) [
    | inl e ↦ rw e (max_new (lt_asym h a e))
    | inr e ↦ rw e (max_old e)
  ]

  lower-IsMin : (old : Option Decimal) (a : Decimal) → IsMin ds old a (lower ds old a)
  lower-IsMin none a = min_only
  lower-IsMin (some h) a = elim (Bool-cases (lt a h)) [
    | inl e ↦ rw e (min_new (lt_asym a h e))
    | inr e ↦ rw e (min_old e)
  ]

  -- A candidate stop is at the distance of the order, whatever its status.
  candidate_sell-trail :
      (o : TrailingStopOrder Decimal) (high : Decimal)
      → candidate_sell ds (record o { status = active }) high
        ≡ trail ds sell o.delta_type o.trailing_delta high
  unfolding candidate_sell
  candidate_sell-trail o high = ground arith

  candidate_buy-trail :
      (o : TrailingStopOrder Decimal) (low : Decimal)
      → candidate_buy ds (record o { status = active }) low
        ≡ trail ds buy o.delta_type o.trailing_delta low
  unfolding candidate_buy
  candidate_buy-trail o low = ground arith

  ratchet_sell-IsFollowing :
      (price : Decimal) (o : TrailingStopOrder Decimal)
      → o.side ≡ sell
      → IsFollowing ds price o (ratchet_sell ds (record o { status = active }) price)
  unfolding ratchet_sell
  ratchet_sell-IsFollowing price o s =
      let high = higher ds o.highest_price price in
      rw (candidate_sell-trail o high) (
        follow_up s (higher-IsMax o.highest_price price)
          (higher-IsMax (some o.stop_price) (trail ds sell o.delta_type o.trailing_delta high)))

  ratchet_buy-IsFollowing :
      (price : Decimal) (o : TrailingStopOrder Decimal)
      → o.side ≡ buy
      → IsFollowing ds price o (ratchet_buy ds (record o { status = active }) price)
  unfolding ratchet_buy
  ratchet_buy-IsFollowing price o b =
      let low = lower ds o.lowest_price price in
      rw (candidate_buy-trail o low) (
        follow_down b (lower-IsMin o.lowest_price price)
          (lower-IsMin (some o.stop_price) (trail ds buy o.delta_type o.trailing_delta low)))

  process_order-Outcome :
      (symbol : ℕ) (price : Decimal) (o : TrailingStopOrder Decimal)
      → Outcome ds symbol price o
          (process_order ds symbol price o).0
          (process_order ds symbol price o).1
  unfolding process_order
  process_order-Outcome symbol price o = elim (Bool-cases (o.symbol == symbol)) [
    | inr e ↦ rw e (skips (λ part. ground (arith, part.0)))
    | inl e ↦ elim (Bool-cases (opens ds o price)) [
      | inr shut ↦ rw (e, shut) (skips (λ part. ground (arith, shut, IsOpen-opens price o part.1)))
      | inl at ↦
          let part : TakesPart ds symbol price o =
            (ground (arith, e), opens-IsOpen price o o.status refl at) in
          elim (Bool-cases (breaches ds (record o { status = active }) price)) [
            | inl hit ↦ rw (e, at, hit) (triggers part (breaches-IsReached price o hit))
            | inr on ↦
                let missed : ¬ IsReached ds price o =
                  λ r. ground (arith, on, IsReached-breaches price o r) in
                elim (Side-cases o.side) [
                  | inl b ↦
                      let test : is_sell o.side ≡ false = rw b refl in
                      rw (e, at, on, test) (follows part missed (ratchet_buy-IsFollowing price o b))
                  | inr s ↦
                      let test : is_sell o.side ≡ true = rw s refl in
                      rw (e, at, on, test)
                        (follows part missed (ratchet_sell-IsFollowing price o s))
                ]
          ]
    ]
  ]

  process_orders-Swept :
      (symbol : ℕ) (price : Decimal) (orders : List (ℕ × TrailingStopOrder Decimal))
      → Swept ds symbol price orders
          (process_orders ds symbol price orders).0
          (process_orders ds symbol price orders).1
  unfolding process_orders
  process_orders-Swept symbol price [] = swept_end
  process_orders-Swept symbol price ((id, o) ∷ orders) =
      let later = process_orders-Swept symbol price orders in
      let outcome = process_order-Outcome symbol price o in
      elim (Bool-cases (process_order ds symbol price o).1) [
        | inl h ↦ rw (h, process_orders) (swept_hit (rw h at outcome) later)
        | inr h ↦ rw (h, process_orders) (swept_on (rw h at outcome) later)
      ]

  -- `process_tick` raises `ValueError` for exactly the prices that are not positive. At any other
  -- price, an order of the symbol that is active, or pending with no activation price or one that
  -- the price has come to, is triggered at that price when its side's stop is reached; else it is
  -- active, its highest price (for a sell order; the lowest for a buy order) takes in the price, and
  -- its stop is the better one of the old stop and the one at the order's distance from that
  -- extreme. Every other order is unchanged. The orders triggered are returned in their order, and
  -- the callback, if there is one, is called for each of them.
  pub process_tick-Ticked :
      (symbol : ℕ) (price : Decimal) (p : Processor Decimal)
      → Ticked ds symbol price p (process_tick ds symbol price p)
  unfolding process_tick
  process_tick-Ticked symbol price p = elim (Bool-cases (lt zero price)) [
    | inl h ↦ rw h (h, process_orders-Swept symbol price p.orders, refl)
    | inr h ↦ rw h (refl, h)
  ]
