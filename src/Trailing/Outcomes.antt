-- ===== src/Trailing/Outcomes.antt =====
-- What a tick of `process_tick` may do to each order, as rules.
use nexus_smarttrading.Prelude.{
  ℕ, ◌≡◌, Bool, true, false, Option, none, some, List, [], ◌∷◌, ◌++◌, if◌then◌else◌, Result, ok,
  raise, value_error,
}
use nexus_smarttrading.Prelude.Decimal.{Decimals}
use nexus_smarttrading.Trailing.{
  OrderSide, buy, sell, active, pending, triggered, DeltaType, amount, percentage,
  TrailingStopOrder, Processor, with_price,
}

module _ (ds : Decimals) where
  open ds use {Decimal, lt, add, sub, mul, zero, one}

  -- An order that the price finds open: it is active, or pending and the price has come to its
  -- activation price, from below for a sell order and from above for a buy order.
  pub data IsOpen (price : Decimal) : TrailingStopOrder Decimal → Type 0 where
    open_active : {o : TrailingStopOrder Decimal} → o.status ≡ active → IsOpen price o
    open_always :
        {o : TrailingStopOrder Decimal}
        → o.status ≡ pending
        → o.activation_price ≡ none
        → IsOpen price o
    open_sell :
        {o : TrailingStopOrder Decimal} {at : Decimal}
        → o.status ≡ pending
        → o.side ≡ sell
        → o.activation_price ≡ some at
        → lt price at ≡ false
        → IsOpen price o
    open_buy :
        {o : TrailingStopOrder Decimal} {at : Decimal}
        → o.status ≡ pending
        → o.side ≡ buy
        → o.activation_price ≡ some at
        → lt at price ≡ false
        → IsOpen price o

  -- The price is at the stop or beyond it: not above it for a sell order, not below for a buy order.
  pub data IsReached (price : Decimal) : TrailingStopOrder Decimal → Type 0 where
    reached_sell :
        {o : TrailingStopOrder Decimal}
        → o.side ≡ sell
        → lt o.stop_price price ≡ false
        → IsReached price o
    reached_buy :
        {o : TrailingStopOrder Decimal}
        → o.side ≡ buy
        → lt price o.stop_price ≡ false
        → IsReached price o

  -- The greater and the smaller of two amounts, of which the first may be missing.
  pub data IsMax : Option Decimal → Decimal → Decimal → Type 0 where
    max_only : {a : Decimal} → IsMax none a a
    max_old : {a b : Decimal} → lt a b ≡ false → IsMax (some a) b a
    max_new : {a b : Decimal} → lt b a ≡ false → IsMax (some a) b b

  pub data IsMin : Option Decimal → Decimal → Decimal → Type 0 where
    min_only : {a : Decimal} → IsMin none a a
    min_old : {a b : Decimal} → lt b a ≡ false → IsMin (some a) b a
    min_new : {a b : Decimal} → lt a b ≡ false → IsMin (some a) b b

  -- The stop at the distance of an order from an extreme price.
  abbrev pub trail : OrderSide → DeltaType → Decimal → Decimal → Decimal
  trail sell amount delta extreme = sub extreme delta
  trail sell percentage delta extreme = mul extreme (sub one delta)
  trail buy amount delta extreme = add extreme delta
  trail buy percentage delta extreme = mul extreme (add one delta)

  pub data IsFollowing (price : Decimal)
      : TrailingStopOrder Decimal → TrailingStopOrder Decimal → Type 0 where
    follow_up :
        {o : TrailingStopOrder Decimal} {high stop : Decimal}
        → o.side ≡ sell
        → IsMax o.highest_price price high
        → IsMax (some o.stop_price) (trail sell o.delta_type o.trailing_delta high) stop
        → IsFollowing price o
            (record o { status = active; highest_price = some high; stop_price = stop })
    follow_down :
        {o : TrailingStopOrder Decimal} {low stop : Decimal}
        → o.side ≡ buy
        → IsMin o.lowest_price price low
        → IsMin (some o.stop_price) (trail buy o.delta_type o.trailing_delta low) stop
        → IsFollowing price o
            (record o { status = active; lowest_price = some low; stop_price = stop })

  abbrev pub TakesPart : ℕ → Decimal → TrailingStopOrder Decimal → Type 0
  TakesPart symbol price o = (o.symbol ≡ symbol) × IsOpen price o

  -- An order before and after a tick, and whether the tick triggered it.
  pub data Outcome (symbol : ℕ) (price : Decimal)
      : TrailingStopOrder Decimal → TrailingStopOrder Decimal → Bool → Type 0 where
    skips :
        {o : TrailingStopOrder Decimal}
        → ¬ TakesPart symbol price o
        → Outcome symbol price o o false
    triggers :
        {o : TrailingStopOrder Decimal}
        → TakesPart symbol price o
        → IsReached price o
        → Outcome symbol price o (record o { status = triggered; trigger_price = some price }) true
    follows :
        {o o' : TrailingStopOrder Decimal}
        → TakesPart symbol price o
        → ¬ IsReached price o
        → IsFollowing price o o'
        → Outcome symbol price o o' false

  -- The orders before and after, and those triggered, in their order.
  pub data Swept (symbol : ℕ) (price : Decimal)
      : List (ℕ × TrailingStopOrder Decimal)
        → List (ℕ × TrailingStopOrder Decimal)
        → List (TrailingStopOrder Decimal)
        → Type 0 where
    swept_end : Swept symbol price [] [] []
    swept_hit :
        {id : ℕ} {o o' : TrailingStopOrder Decimal} {os os' : List (ℕ × TrailingStopOrder Decimal)}
        {hits : List (TrailingStopOrder Decimal)}
        → Outcome symbol price o o' true
        → Swept symbol price os os' hits
        → Swept symbol price ((id, o) ∷ os) ((id, o') ∷ os') (o' ∷ hits)
    swept_on :
        {id : ℕ} {o o' : TrailingStopOrder Decimal} {os os' : List (ℕ × TrailingStopOrder Decimal)}
        {hits : List (TrailingStopOrder Decimal)}
        → Outcome symbol price o o' false
        → Swept symbol price os os' hits
        → Swept symbol price ((id, o) ∷ os) ((id, o') ∷ os') hits

  abbrev pub Ticked :
      ℕ
      → Decimal
      → Processor Decimal
      → Result (Processor Decimal × List (TrailingStopOrder Decimal))
      → Type 0
  Ticked symbol price p (raise e) = (e ≡ value_error) × (lt zero price ≡ false)
  Ticked symbol price p (ok (p', hits)) =
      (lt zero price ≡ true)
      × Swept symbol price p.orders p'.orders hits
      × (p'.notified
          ≡ (if p.has_callback then p.notified ++ with_price ds price hits else p.notified))
