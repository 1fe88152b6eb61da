-- ===== src/Trailing.antt =====
-- trading/orders.py and trading/trailing_stop_processor.py. Identifiers and symbols are numbers;
-- amounts are decimals (Prelude/Decimal.antt). The calls of the callback are recorded in order.
pub mod Ratchet
pub mod Outcomes
pub mod Ticks
mod Tests
use nexus_smarttrading.Prelude.{
  ℕ, ◌==◌, Bool, true, false, ◌&&◌, ◌||◌, not, Option, none, some, List, [], ◌∷◌, ◌++◌,
  if◌then◌else◌, Result, ok, raise, value_error, key_error, ◌>>=◌, ◌>>◌, guard,
}
use nexus_smarttrading.Prelude.Decimal.{Decimals}
use nexus_smarttrading.Prelude.Dict.{lookup, insert, contains}

pub data OrderSide : Type 0 where
  buy sell : OrderSide

pub data OrderStatus : Type 0 where
  active pending triggered cancelled : OrderStatus

pub data DeltaType : Type 0 where
  amount percentage : DeltaType

abbrev pub is_active : OrderStatus → Bool
is_active active = true
is_active _ = false

abbrev pub is_percentage : DeltaType → Bool
is_percentage percentage = true
is_percentage amount = false

abbrev pub is_sell : OrderSide → Bool
is_sell sell = true
is_sell buy = false

pub record TrailingStopOrder (D : Type 0) : Type 0 where
  pub order_id : ℕ
  pub symbol : ℕ
  pub side : OrderSide
  pub quantity : D
  pub initial_price : D
  pub trailing_delta : D
  pub stop_price : D
  pub delta_type : DeltaType
  pub activation_price : Option D
  pub status : OrderStatus
  pub highest_price : Option D
  pub lowest_price : Option D
  pub trigger_price : Option D

pub record Processor (D : Type 0) : Type 0 where
  pub orders : List (ℕ × TrailingStopOrder D)
  pub has_callback : Bool
  pub notified : List (TrailingStopOrder D × D)

module _ (ds : Decimals) where
  open ds use {Decimal, lt, add, sub, mul, zero, one}

  -- `a <= b`
  abbrev le : Decimal → Decimal → Bool
  le a b = not (lt b a)

  -- `__post_init__` of `TrailingStopOrder`: the order itself, or `ValueError`.
  unfoldable pub post_init : TrailingStopOrder Decimal → Result (TrailingStopOrder Decimal)
  post_init o = do
    guard (not (le o.quantity zero)) value_error
    guard (not (le o.trailing_delta zero)) value_error
    guard (not (is_percentage o.delta_type && lt one o.trailing_delta)) value_error
    guard (not (is_sell o.side && le o.initial_price o.stop_price)) value_error
    guard (not (not (is_sell o.side) && le o.stop_price o.initial_price)) value_error
    ok o

  unfoldable pub register_order :
      TrailingStopOrder Decimal → Processor Decimal → Result (Processor Decimal)
  register_order o p = do
    guard (not (contains o.order_id p.orders)) value_error
    ok (record p { orders = insert o.order_id o p.orders })

  unfoldable pub get_order : ℕ → Processor Decimal → Result (TrailingStopOrder Decimal)
  get_order id p = elim (lookup id p.orders) [ none ↦ raise key_error | some o ↦ ok o ]

  unfoldable pub cancel_order :
      ℕ → Processor Decimal → Result (Processor Decimal × TrailingStopOrder Decimal)
  cancel_order id p = do
    o ← get_order id p
    let o' = record o { status = cancelled }
    ok (record p { orders = insert id o' p.orders }, o')

  -- `get_active_orders`, for one symbol or for all.
  unfoldable pub get_active_orders :
      Option ℕ → List (ℕ × TrailingStopOrder Decimal) → List (TrailingStopOrder Decimal)
  get_active_orders symbol [] = []
  get_active_orders symbol ((id, o) ∷ orders) =
      let wanted : Bool = elim symbol [ none ↦ true | some s ↦ o.symbol == s ] in
      let later = get_active_orders symbol orders in
      if is_active o.status && wanted then o ∷ later else later

  -- The gate of a pending order: whether it is open at this price.
  unfoldable pub opens : TrailingStopOrder Decimal → Decimal → Bool
  opens o price = elim o.status [
    | active ↦ true
    | pending ↦ elim o.activation_price [
      | none ↦ true
      | some at ↦ if is_sell o.side then le at price else le price at
    ]
    | triggered ↦ false
    | cancelled ↦ false
  ]

  unfoldable pub breaches : TrailingStopOrder Decimal → Decimal → Bool
  breaches o price = if is_sell o.side then le price o.stop_price else le o.stop_price price

  abbrev pub higher : Option Decimal → Decimal → Decimal
  higher none price = price
  higher (some h) price = if lt h price then price else h

  abbrev pub lower : Option Decimal → Decimal → Decimal
  lower none price = price
  lower (some l) price = if lt price l then price else l

  unfoldable pub candidate_sell : TrailingStopOrder Decimal → Decimal → Decimal
  candidate_sell o high = elim o.delta_type [
    | amount ↦ sub high o.trailing_delta
    | percentage ↦ mul high (sub one o.trailing_delta)
  ]

  unfoldable pub candidate_buy : TrailingStopOrder Decimal → Decimal → Decimal
  candidate_buy o low = elim o.delta_type [
    | amount ↦ add low o.trailing_delta
    | percentage ↦ mul low (add one o.trailing_delta)
  ]

  -- The stop follows the highest price of a sell order up.
  unfoldable pub ratchet_sell : TrailingStopOrder Decimal → Decimal → TrailingStopOrder Decimal
  ratchet_sell o price =
      let high = higher o.highest_price price in
      let stop = candidate_sell o high in
      record o {
        highest_price = some high;
        stop_price = if lt o.stop_price stop then stop else o.stop_price;
      }

  -- The stop follows the lowest price of a buy order down.
  unfoldable pub ratchet_buy : TrailingStopOrder Decimal → Decimal → TrailingStopOrder Decimal
  ratchet_buy o price =
      let low = lower o.lowest_price price in
      let stop = candidate_buy o low in
      record o {
        lowest_price = some low;
        stop_price = if lt stop o.stop_price then stop else o.stop_price;
      }

  -- The body of the loop of `process_tick` for one order, and whether it triggers the order.
  unfoldable pub process_order :
      ℕ → Decimal → TrailingStopOrder Decimal → TrailingStopOrder Decimal × Bool
  process_order symbol price o =
      if not (o.symbol == symbol) || not (opens o price)
      then (o, false)
      else let o' = record o { status = active } in
        if breaches o' price
        then (record o' { status = triggered; trigger_price = some price }, true)
        else (if is_sell o'.side then ratchet_sell o' price else ratchet_buy o' price, false)

  unfoldable pub process_orders :
      ℕ
      → Decimal
      → List (ℕ × TrailingStopOrder Decimal)
      → List (ℕ × TrailingStopOrder Decimal) × List (TrailingStopOrder Decimal)
  process_orders symbol price [] = ([], [])
  process_orders symbol price ((id, o) ∷ orders) =
      let (o', hit) = process_order symbol price o in
      let (later, hits) = process_orders symbol price orders in
      ((id, o') ∷ later, if hit then o' ∷ hits else hits)

  abbrev pub with_price :
      Decimal → List (TrailingStopOrder Decimal) → List (TrailingStopOrder Decimal × Decimal)
  with_price price [] = []
  with_price price (o ∷ os) = (o, price) ∷ with_price price os

  unfoldable pub process_tick :
      ℕ
      → Decimal
      → Processor Decimal
      → Result (Processor Decimal × List (TrailingStopOrder Decimal))
  process_tick symbol price p =
      let (orders, hits) = process_orders symbol price p.orders in
      if le price zero
      then raise value_error
      else ok (
        record p {
          orders = orders;
          notified = if p.has_callback then p.notified ++ with_price price hits else p.notified;
        },
        hits,
      )
