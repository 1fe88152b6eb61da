-- ===== src/OrderBook/Tree.antt =====
-- orderbook/rb_tree.py: nodes, searches, rotations and traversals of `RedBlackTree`.
use nexus_smarttrading.Prelude.{
  ℕ, ◌+◌, Bool, true, false, Option, none, some, List, [], ◌∷◌, ◌++◌, ltb, if◌then◌else◌, Result,
  ok, raise, key_error,
}

pub data Color : Type 0 where
  red black : Color

-- `None`, or a node with its children.
pub data Tree {ℓ} (V : Type ℓ) : Type ℓ where
  nil : Tree V
  node : Color → Tree V → ℕ → V → Tree V → Tree V

-- A parent, seen from one of its children: its own color, key and value, and the other child.
pub data Frame {ℓ} (V : Type ℓ) : Type ℓ where
  left_of : Color → ℕ → V → Tree V → Frame V
  right_of : Color → Tree V → ℕ → V → Frame V

pub record RedBlackTree {ℓ} (V : Type ℓ) : Type ℓ where
  pub root : Tree V
  pub size : ℕ

abbrev pub is_red_color : Color → Bool
is_red_color red = true
is_red_color black = false

module _ {ℓ} {V : Type ℓ} where
  -- `node is not None and node.color == RED`
  abbrev pub is_red : Tree V → Bool
  is_red nil = false
  is_red (node c l k v r) = is_red_color c

  abbrev pub frame_color : Frame V → Color
  frame_color (left_of c k v r) = c
  frame_color (right_of c l k v) = c

  -- The parent with the subtree put back.
  abbrev pub close : Tree V → Frame V → Tree V
  close t (left_of c k v r) = node c t k v r
  close t (right_of c l k v) = node c l k v t

  -- The whole tree around a node; the parent comes first.
  unfoldable pub plug : Tree V → List (Frame V) → Tree V
  plug t [] = t
  plug t (f ∷ path) = plug (close t f) path

  -- `node.color = ...`, for a node that is there.
  abbrev pub set_color : Color → Tree V → Tree V
  set_color c nil = nil
  set_color c (node d l k v r) = node c l k v r

  -- `_rotate_left(x)`: nothing happens without a right child.
  unfoldable pub rotate_left : Tree V → Tree V
  rotate_left nil = nil
  rotate_left (node c a k v nil) = node c a k v nil
  rotate_left (node c a k v (node d b j w e)) = node d (node c a k v b) j w e

  -- `_rotate_right(y)`
  unfoldable pub rotate_right : Tree V → Tree V
  rotate_right nil = nil
  rotate_right (node c nil k v e) = node c nil k v e
  rotate_right (node c (node d a j w b) k v e) = node d a j w (node c b k v e)

  -- `_find_node(key)`: the node, as its key and value.
  unfoldable pub find_node : ℕ → Tree V → Option (ℕ × V)
  find_node key nil = none
  find_node key (node c l k v r) =
      let left = find_node key l in
      let right = find_node key r in
      if ltb key k then left else if ltb k key then right else some (k, v)

  -- `get(key, default)`; without a default a missing key raises.
  unfoldable pub get : ℕ → Option V → Tree V → Result V
  get key default t = elim (find_node key t) [
    | some (k, v) ↦ ok v
    | none ↦ elim default [ some d ↦ ok d | none ↦ raise key_error ]
  ]

  -- `_minimum(node)` and `_maximum(node)` of a tree whose root is given by its parts.
  unfoldable pub minimum : Tree V → ℕ → V → ℕ × V
  minimum nil k v = (k, v)
  minimum (node c l j w r) k v = minimum l j w

  unfoldable pub maximum : Tree V → ℕ → V → ℕ × V
  maximum nil k v = (k, v)
  maximum (node c l j w r) k v = maximum r j w

  unfoldable pub find_min : Tree V → Option (ℕ × V)
  find_min nil = none
  find_min (node c l k v r) = some (minimum l k v)

  unfoldable pub find_max : Tree V → Option (ℕ × V)
  find_max nil = none
  find_max (node c l k v r) = some (maximum r k v)

  unfoldable pub get_height : Tree V → ℕ
  get_height nil = 0
  get_height (node c l k v r) =
      let a = get_height l in let b = get_height r in 1 + (if ltb b a then a else b)

  -- `items()`: the traversal in order.
  unfoldable pub items : Tree V → List (ℕ × V)
  items nil = []
  items (node c l k v r) = items l ++ ((k, v) ∷ items r)

  -- `items(reverse=True)`
  unfoldable pub items_reverse : Tree V → List (ℕ × V)
  items_reverse nil = []
  items_reverse (node c l k v r) = items_reverse r ++ ((k, v) ∷ items_reverse l)

  unfoldable pub clear : RedBlackTree V → RedBlackTree V
  clear t = record { root = nil; size = 0 }
