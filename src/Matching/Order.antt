-- ===== src/Matching/Order.antt =====
-- execution/models.py: `Order`, its `__post_init__`, and `Trade`.
use nexus_smarttrading.Prelude.{
  ℕ, Bool, true, false, ◌&&◌, not, Option, none, some, ◌==◌, Result, ok, value_error, ◌>>◌, guard,
}

pub data OrderSide : Type 0 where
  buy sell : OrderSide

pub data OrderStatus : Type 0 where
  new pending partially_filled filled cancelled : OrderStatus

pub data OrderType : Type 0 where
  market limit stop trailing_stop : OrderType

-- The fields that neither `__post_init__` nor the matching engine reads are left out.
pub record Order : Type 0 where
  pub order_id : ℕ
  pub symbol : ℕ
  pub side : OrderSide
  pub order_type : OrderType
  pub quantity : ℕ
  pub limit_price : Option ℕ
  pub stop_price : Option ℕ
  pub trailing_delta : Option ℕ
  pub status : OrderStatus
  pub remaining_quantity : ℕ
  pub price : Option ℕ
  pub timestamp : Option ℕ

-- The arguments of the constructor: `remaining_quantity` may be missing.
pub record OrderArgs : Type 0 where
  pub order_id : ℕ
  pub symbol : ℕ
  pub side : OrderSide
  pub order_type : OrderType
  pub quantity : ℕ
  pub limit_price : Option ℕ
  pub stop_price : Option ℕ
  pub trailing_delta : Option ℕ
  pub status : OrderStatus
  pub remaining_quantity : Option ℕ
  pub price : Option ℕ
  pub timestamp : Option ℕ

-- `x is not None and x <= 0`
abbrev pub not_positive : Option ℕ → Bool
not_positive none = false
not_positive (some n) = n == 0

abbrev pub is_none : Option ℕ → Bool
is_none none = true
is_none (some n) = false

-- `a` if it is there, else `b`
abbrev pub or_else : Option ℕ → Option ℕ → Option ℕ
or_else none b = b
or_else (some n) b = some n

abbrev pub value_or : Option ℕ → ℕ → ℕ
value_or none d = d
value_or (some n) d = n

abbrev pub is_limit : OrderType → Bool
is_limit OrderType.limit = true
is_limit _ = false

abbrev pub is_stop : OrderType → Bool
is_stop OrderType.stop = true
is_stop _ = false

abbrev pub is_trailing_stop : OrderType → Bool
is_trailing_stop OrderType.trailing_stop = true
is_trailing_stop _ = false

-- The checks come in the order of the source; `price` and `limit_price` stand in for one another.
unfoldable pub post_init : OrderArgs → Result Order
post_init a = do
  guard (not (a.quantity == 0)) value_error
  guard (not (not_positive a.price)) value_error
  guard (not (not_positive a.limit_price)) value_error
  let limit_price = or_else a.limit_price a.price
  let price = or_else a.price a.limit_price
  guard (not (is_limit a.order_type && is_none limit_price)) value_error
  guard (not (is_stop a.order_type && is_none a.stop_price)) value_error
  guard (not (is_trailing_stop a.order_type && is_none a.trailing_delta)) value_error
  guard (not (not_positive a.stop_price)) value_error
  guard (not (not_positive a.trailing_delta)) value_error
  ok (record {
    order_id = a.order_id;
    symbol = a.symbol;
    side = a.side;
    order_type = a.order_type;
    quantity = a.quantity;
    limit_price = limit_price;
    stop_price = a.stop_price;
    trailing_delta = a.trailing_delta;
    status = a.status;
    remaining_quantity = value_or a.remaining_quantity a.quantity;
    price = price;
    timestamp = a.timestamp;
  })

pub record Trade : Type 0 where
  pub symbol : ℕ
  pub price : ℕ
  pub quantity : ℕ
  pub maker_order_id : ℕ
  pub taker_order_id : ℕ
  pub timestamp : Option ℕ

-- `Trade(...)` with its `__post_init__`.
unfoldable pub make_trade : Trade → Result Trade
make_trade t = do
  guard (not (t.quantity == 0)) value_error
  guard (not (t.price == 0)) value_error
  ok t
