-- ===== src/OrderBook/Book.antt =====
-- orderbook/l2_order_book.py: `L2OrderBook`. A price or a quantity that is given may be negative.
use nexus_smarttrading.Prelude.{
  ℕ, Bool, true, false, not, Option, none, some, List, take, Result, ok, value_error, ◌>>=◌, ◌>>◌,
  guard, ◌==◌, if◌then◌else◌,
}
use nexus_smarttrading.Prelude.Int.{ℤ, pos, pos_part, ltb_ℤ}
use nexus_smarttrading.OrderBook.Tree.{
  RedBlackTree, get, find_node, find_min, find_max, items, items_reverse, clear,
}
use nexus_smarttrading.OrderBook.Insert.{insert}
use nexus_smarttrading.OrderBook.Delete.{delete}

pub record L2OrderBook : Type 0 where
  pub bids_tree : RedBlackTree ℕ
  pub asks_tree : RedBlackTree ℕ

unfoldable pub best_bid : L2OrderBook → Option (ℕ × ℕ)
best_bid b = find_max b.bids_tree.root

unfoldable pub best_ask : L2OrderBook → Option (ℕ × ℕ)
best_ask b = find_min b.asks_tree.root

-- `key in tree`
unfoldable pub contains : ℕ → RedBlackTree ℕ → Bool
contains key t = elim (find_node key t.root) [ none ↦ false | some e ↦ true ]

-- The body that `update_bid` and `update_ask` share, on the tree of their side.
unfoldable pub update_level : RedBlackTree ℕ → ℤ → ℤ → Result (RedBlackTree ℕ)
update_level t price quantity = do
  guard (ltb_ℤ (pos 0) price) value_error
  guard (not (ltb_ℤ quantity (pos 0))) value_error
  let key = pos_part price
  let level = pos_part quantity
  if level == 0 then (if contains key t then delete key t else ok t) else ok (insert key level t)

unfoldable pub update_bid : L2OrderBook → ℤ → ℤ → Result L2OrderBook
update_bid b price quantity = do
  t ← update_level b.bids_tree price quantity
  ok (record b { bids_tree = t })

unfoldable pub update_ask : L2OrderBook → ℤ → ℤ → Result L2OrderBook
update_ask b price quantity = do
  t ← update_level b.asks_tree price quantity
  ok (record b { asks_tree = t })

unfoldable pub get_bid_quantity : L2OrderBook → ℕ → Result ℕ
get_bid_quantity b price = get price (some 0) b.bids_tree.root

unfoldable pub get_ask_quantity : L2OrderBook → ℕ → Result ℕ
get_ask_quantity b price = get price (some 0) b.asks_tree.root

-- `levels[:max(0, depth)]`, or all of them.
abbrev pub up_to : Option ℤ → List (ℕ × ℕ) → List (ℕ × ℕ)
up_to none levels = levels
up_to (some depth) levels = take (pos_part depth) levels

unfoldable pub get_bids : L2OrderBook → Option ℤ → List (ℕ × ℕ)
get_bids b depth = up_to depth (items_reverse b.bids_tree.root)

unfoldable pub get_asks : L2OrderBook → Option ℤ → List (ℕ × ℕ)
get_asks b depth = up_to depth (items b.asks_tree.root)

unfoldable pub clear_book : L2OrderBook → L2OrderBook
clear_book b = record { bids_tree = clear b.bids_tree; asks_tree = clear b.asks_tree }
