-- ===== src/OrderBook/Tests.antt =====
-- Small books and trees, and the theorems at them.
use nexus_smarttrading.Prelude.{
  ℕ, ◌≤◌, ◌*◌, ◌^◌, ◌+◌, ◌≡◌, refl, some, List, [], ◌∷◌, arith, ok, length,
}
use nexus_smarttrading.Prelude.Int.{pos, pos_part}
use mathlib.Core.List.{reverse}
use nexus_smarttrading.OrderBook.Tree.{
  red, black, Tree, nil, node, RedBlackTree, rotate_left, rotate_right, plug, find_node, get_height,
  items, items_reverse,
}
use nexus_smarttrading.OrderBook.Spec.{put, remove, lookup}
use nexus_smarttrading.OrderBook.Insert.{
  insert, insert_root, insert_at, descend, insert_fixup, insert_loop,
}
use nexus_smarttrading.OrderBook.Delete.{delete}
use nexus_smarttrading.OrderBook.Refinement.{
  Represents, DeletesOrRaises, value_of, insert-Represents, delete-Represents, find_node-lookup,
}
use nexus_smarttrading.OrderBook.Colors.{
  IsRedBlack, black_height, RedBlackOrRaises, insert-IsRedBlack, delete-IsRedBlack,
}
use nexus_smarttrading.OrderBook.Height.{IsWay, get_height-bound}
use nexus_smarttrading.OrderBook.Book.{
  L2OrderBook, best_bid, best_ask, update_bid, update_ask, get_bid_quantity, get_ask_quantity,
  up_to, get_bids, get_asks,
}
use nexus_smarttrading.OrderBook.Levels.{Holds, level_set}
use nexus_smarttrading.OrderBook.Reads.{
  BookHolds, BookUpdates, first, quantity_at, update_bid-BookUpdates, update_ask-BookUpdates, reads,
}

program : Unit {0}
unfolding insert_root insert_at descend insert_fixup insert_loop rotate_left rotate_right plug
    find_node get_height items items_reverse put remove lookup insert delete best_bid best_ask
    update_bid update_ask get_bids get_asks get_bid_quantity get_ask_quantity
program = tt

-- Three prices with the quantities 1, 2 and 3.
abbrev three : Tree ℕ
three = node black (node red nil 10 1 nil) 20 2 (node red nil 30 3 nil)

abbrev entries : List (ℕ × ℕ)
entries = (10, 1) ∷ (20, 2) ∷ (30, 3) ∷ []

abbrev three_levels : RedBlackTree ℕ
three_levels = record { root = three; size = 3 }

three-Represents : Represents three_levels entries
unfolding program
three-Represents = record {
  contents = refl;
  ascending = ((omega arith, (omega arith, tt)), ((omega arith, tt), (tt, tt)));
  counted = refl;
}

three-IsRedBlack : IsRedBlack three
three-IsRedBlack = ((refl, refl, (refl, refl, tt, tt), (refl, refl, tt, tt)), refl)

abbrev book : L2OrderBook
book = record { bids_tree = three_levels; asks_tree = record { root = nil; size = 0 } }

three-Holds : Holds three_levels entries
three-Holds = record { represents = three-Represents; red_black = three-IsRedBlack }

none-Holds : Holds (record { root = nil; size = 0 }) []
unfolding program
none-Holds = record {
  represents = record { contents = refl; ascending = tt; counted = refl };
  red_black = (tt, refl);
}

book-BookHolds : BookHolds book entries []
book-BookHolds = record { bids_hold = three-Holds; asks_hold = none-Holds }

inserted :
    (insert 40 4 three_levels).root
    ≡ node black (node black nil 10 1 nil) 20 2 (node black nil 30 3 (node red nil 40 4 nil))
unfolding program
inserted = refl

listed : get_bids book (some (pos 2)) ≡ (30, 3) ∷ (20, 2) ∷ []
unfolding program
listed = refl

insert-Represents_example : Represents (insert 40 4 three_levels) (put 40 4 entries)
insert-Represents_example = insert-Represents 40 4 three_levels entries three-Represents

delete-Represents_example : DeletesOrRaises 20 entries (delete 20 three_levels)
delete-Represents_example = delete-Represents 20 three_levels entries three-Represents

find_node-lookup_example : value_of (find_node 20 three) ≡ lookup 20 (items three)
unfolding items
find_node-lookup_example = find_node-lookup 20 three three-Represents.ascending

insert-IsRedBlack_example : IsRedBlack (insert 40 4 three_levels).root
insert-IsRedBlack_example = insert-IsRedBlack 40 4 three_levels three-IsRedBlack

delete-IsRedBlack_example : RedBlackOrRaises (delete 20 three_levels)
delete-IsRedBlack_example = delete-IsRedBlack 20 three_levels three-IsRedBlack

get_height-bound_example :
    IsWay three (get_height three)
    × ((n : ℕ) → IsWay three n → n ≤ get_height three)
    × (get_height three ≤ 2 * black_height three)
    × (2 ^ black_height three ≤ length (items three) + 1)
get_height-bound_example = get_height-bound three three-IsRedBlack

update_bid-BookUpdates_example :
    BookUpdates entries []
      (pos 20)
      (pos 0)
      (update_bid book (pos 20) (pos 0))
      (level_set (pos_part (pos 20)) (pos_part (pos 0)))
      (λ m. m)
update_bid-BookUpdates_example =
    update_bid-BookUpdates book entries [] book-BookHolds (pos 20) (pos 0)

update_ask-BookUpdates_example :
    BookUpdates entries []
      (pos 50)
      (pos 7)
      (update_ask book (pos 50) (pos 7))
      (λ m. m)
      (level_set (pos_part (pos 50)) (pos_part (pos 7)))
update_ask-BookUpdates_example =
    update_ask-BookUpdates book entries [] book-BookHolds (pos 50) (pos 7)

reads_example :
    (get_bids book (some (pos 2)) ≡ up_to (some (pos 2)) (reverse entries))
    × (get_asks book (some (pos 2)) ≡ up_to (some (pos 2)) [])
    × (best_bid book ≡ first (reverse entries))
    × (best_ask book ≡ first [])
    × (get_bid_quantity book 20 ≡ ok (quantity_at (lookup 20 entries)))
    × (get_ask_quantity book 20 ≡ ok (quantity_at (lookup 20 [])))
reads_example = reads book entries [] (some (pos 2)) 20 book-BookHolds
