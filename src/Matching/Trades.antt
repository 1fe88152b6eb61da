-- ===== src/Matching/Trades.antt =====
-- The trades of one call of `submit_order`: when there are any, at which price, and when it raises.
use nexus_smarttrading.Prelude.{
  ℕ, ◌+◌, ◌≤◌, ◌<◌, ◌≡◌, refl, true, false, none, some, List, [], ◌∷◌, arith, Result, ok, raise,
  value_error, Bool-cases, inl, inr, ◌⊎◌,
}
use nexus_smarttrading.Matching.Order.{Order, OrderSide, buy, sell, make_trade, or_else, Trade}
use nexus_smarttrading.Matching.Engine.{
  Entry, MatchingEngine, match_loop, after_trade, too_dear, execute, submit_order, is_refused,
  prices_completed, opposite, rest_order, trade_of, prepend,
}
use nexus_smarttrading.Matching.Refusal.{IsRefused, is_refused-IsRefused, IsRefused-is_refused}
use nexus_smarttrading.Matching.Books.{IsValid, is_ok, match_loop-is_ok}

-- The price is no worse than the limit.
abbrev pub IsWithin : OrderSide → ℕ → Trade → Type 0
IsWithin buy p t = t.price ≤ p
IsWithin sell p t = p ≤ t.price

abbrev pub AllTrades : (Trade → Type 0) → Result (List Trade) → Type 0
AllTrades P (raise e) = Unit {0}
AllTrades P (ok []) = Unit {0}
AllTrades P (ok (t ∷ ts)) = P t × AllTrades P (ok ts)

AllTrades-prepend :
    (P : Trade → Type 0) (t : Trade) (r : Result (List Trade))
    → P t
    → AllTrades P r
    → AllTrades P (prepend t r)
AllTrades-prepend P t (ok ts) p h = (p, h)
AllTrades-prepend P t (raise e) p h = tt

match_loop-IsWithin :
    (side : OrderSide) (p : ℕ) (taker : Order) (book : List Entry)
    → taker.price ≡ some p
    → AllTrades (IsWithin side p) (match_loop side taker book).result
unfolding match_loop make_trade too_dear
match_loop-IsWithin side p taker [] h = tt
match_loop-IsWithin buy p taker ((maker, seq) ∷ rest) h =
    let t = trade_of taker maker in
    let taker' = after_trade taker t.quantity in
    let r = (match_loop buy taker' rest).result in
    ground (arith, match_loop-IsWithin buy p taker' rest h, AllTrades-prepend (IsWithin buy p) t r)
match_loop-IsWithin sell p taker ((maker, seq) ∷ rest) h =
    let t = trade_of taker maker in
    let taker' = after_trade taker t.quantity in
    let r = (match_loop sell taker' rest).result in
    ground
      (arith, match_loop-IsWithin sell p taker' rest h, AllTrades-prepend (IsWithin sell p) t r)

execute-IsWithin :
    (side : OrderSide) (e : MatchingEngine) (o : Order) (p : ℕ)
    → o.side ≡ side
    → or_else o.price o.limit_price ≡ some p
    → AllTrades (IsWithin side p) (execute e o).result
unfolding execute prices_completed
execute-IsWithin buy e o p hs hp =
    rw (hs, execute) (match_loop-IsWithin buy p (prices_completed o) e.asks hp)
execute-IsWithin sell e o p hs hp =
    rw (hs, execute) (match_loop-IsWithin sell p (prices_completed o) e.bids hp)

-- An order with a price, or else with a limit price, buys at that price or below and sells at that
-- price or above, in each of the trades that `submit_order` returns.
pub submit_order-IsWithin :
    (e : MatchingEngine) (o : Order) (p : ℕ)
    → or_else o.price o.limit_price ≡ some p
    → AllTrades (IsWithin o.side p) (submit_order e o).result
unfolding submit_order
submit_order-IsWithin e o p hp = elim (Bool-cases (is_refused e o)) [
  | inl r ↦ rw r tt
  | inr r ↦ rw (r, submit_order) (execute-IsWithin o.side e o p refl hp)
]

ok_of_is_ok : (r : Result (List Trade)) → is_ok r ≡ true → (ts : List Trade) × (r ≡ ok ts)
ok_of_is_ok (ok ts) h = (ts, refl)
ok_of_is_ok (raise e) h = cc

execute-ok :
    (side : OrderSide) (e : MatchingEngine) (o : Order)
    → o.side ≡ side
    → IsValid e
    → (ts : List Trade) × ((execute e o).result ≡ ok ts)
unfolding execute
execute-ok buy e o hs v =
    rw (hs, execute) (ok_of_is_ok _ (match_loop-is_ok buy (prices_completed o) e.asks v.live_asks))
execute-ok sell e o hs v =
    rw (hs, execute) (ok_of_is_ok _ (match_loop-is_ok sell (prices_completed o) e.bids v.live_bids))

-- On a valid book `submit_order` returns trades for every order but one with another symbol, with an
-- identifier used before, or with a quantity or a price of zero; for such an order it raises
-- `ValueError`, with the engine unchanged.
pub submit_order-ok :
    (e : MatchingEngine) (o : Order)
    → IsValid e
    → (¬ IsRefused e o × ((ts : List Trade) × ((submit_order e o).result ≡ ok ts)))
      ⊎ (IsRefused e o
          × ((submit_order e o).result ≡ raise value_error)
          × ((submit_order e o).engine ≡ e))
unfolding submit_order
submit_order-ok e o v = elim (Bool-cases (is_refused e o)) [
  | inl r ↦ inr (is_refused-IsRefused e o r, rw r, rw r)
  | inr r ↦
      let passes : ¬ IsRefused e o = λ k. ground (arith, r, IsRefused-is_refused e o k) in
      inl (passes, rw (r, submit_order) (execute-ok o.side e o refl v))
]

execute-unpriced :
    (side : OrderSide) (e : MatchingEngine) (o : Order) (maker : Order) (seq : ℕ)
    (rest : List Entry)
    → o.side ≡ side
    → opposite side e ≡ (maker, seq) ∷ rest
    → maker.price ≡ none
    → 0 < o.remaining_quantity
    → ((execute e o).result ≡ raise value_error)
      × ((execute e o).engine
          ≡ record e { order_ids = o.order_id ∷ e.order_ids; sequence = e.sequence + 1 })
unfolding execute match_loop make_trade too_dear prices_completed rest_order
execute-unpriced buy e o maker seq rest hs hb hp hr = ground arith
execute-unpriced sell e o maker seq rest hs hb hp hr = ground arith

-- An order that passes the checks and has a quantity left raises `ValueError` when the best order
-- of the opposite side has no price (a market order that came to rest). No order of the book
-- changes, but the identifier and the number of the order that raised are used up.
pub submit_order-unpriced :
    (e : MatchingEngine) (o : Order) (maker : Order) (seq : ℕ) (rest : List Entry)
    → is_refused e o ≡ false
    → opposite o.side e ≡ (maker, seq) ∷ rest
    → maker.price ≡ none
    → 0 < o.remaining_quantity
    → ((submit_order e o).result ≡ raise value_error)
      × ((submit_order e o).engine
          ≡ record e { order_ids = o.order_id ∷ e.order_ids; sequence = e.sequence + 1 })
unfolding submit_order
submit_order-unpriced e o maker seq rest r hb hp hr =
    rw (r, submit_order) (execute-unpriced o.side e o maker seq rest refl hb hp hr)
