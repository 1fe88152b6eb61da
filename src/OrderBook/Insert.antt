-- ===== src/OrderBook/Insert.antt =====
-- orderbook/rb_tree.py: `insert` and `_insert_fixup`.
use nexus_smarttrading.Prelude.{ℕ, ◌+◌, List, [], ◌∷◌, ltb, if◌then◌else◌}
use nexus_smarttrading.OrderBook.Tree.{
  red, black, Tree, nil, node, Frame, left_of, right_of, RedBlackTree, is_red, frame_color, close,
  plug, set_color, rotate_left, rotate_right,
}

module _ {ℓ} {V : Type ℓ} where
  -- The descent to a key: the subtree where it ends, empty or with the key at its root, and the
  -- path to it.
  unfoldable pub descend : ℕ → Tree V → List (Frame V) → Tree V × List (Frame V)
  descend key nil path = (nil, path)
  descend key (node c l k v r) path =
      let left = descend key l (left_of c k v r ∷ path) in
      let right = descend key r (right_of c l k v ∷ path) in
      if ltb key k then left else if ltb k key then right else (node c l k v r, path)

  -- The parent is red, and a left child: `grandparent` is the tree with the parent closed.
  unfoldable pub straighten_left : Tree V → Frame V → Tree V
  straighten_left t (left_of c k v r) = close t (left_of c k v r)
  straighten_left t (right_of c l k v) = rotate_left (close t (right_of c l k v))

  unfoldable pub straighten_right : Tree V → Frame V → Tree V
  straighten_right t (left_of c k v r) = rotate_right (close t (left_of c k v r))
  straighten_right t (right_of c l k v) = close t (right_of c l k v)

  -- `_insert_fixup(node)`. After the rotations the node has a black parent, and the loop ends.
  unfoldable pub insert_loop : Tree V → List (Frame V) → Tree V
  insert_loop t [] = t
  insert_loop t (parent ∷ []) = plug t (parent ∷ [])
  insert_loop t (parent ∷ left_of gc gk gv uncle ∷ rest) =
      let up =
        insert_loop (node red (set_color black (close t parent)) gk gv (set_color black uncle))
          rest in
      elim (frame_color parent) [
        | black ↦ plug t (parent ∷ left_of gc gk gv uncle ∷ rest)
        | red ↦
            if is_red uncle
            then up
            else plug
                (rotate_right (node red (set_color black (straighten_left t parent)) gk gv uncle))
                rest
      ]
  insert_loop t (parent ∷ right_of gc uncle gk gv ∷ rest) =
      let up =
        insert_loop (node red (set_color black uncle) gk gv (set_color black (close t parent)))
          rest in
      elim (frame_color parent) [
        | black ↦ plug t (parent ∷ right_of gc uncle gk gv ∷ rest)
        | red ↦
            if is_red uncle
            then up
            else plug
                (rotate_left (node red uncle gk gv (set_color black (straighten_right t parent))))
                rest
      ]

  unfoldable pub insert_fixup : Tree V → List (Frame V) → Tree V
  insert_fixup t path = set_color black (insert_loop t path)

  -- The end of the descent: a new node, or a new value in the node that is there.
  unfoldable pub insert_at : ℕ → V → ℕ → Tree V × List (Frame V) → RedBlackTree V
  insert_at key value size (nil, path) = record {
    root = insert_fixup (node red nil key value nil) path;
    size = size + 1;
  }
  insert_at key value size (node c l k v r, path) = record {
    root = plug (node c l k value r) path;
    size = size;
  }

  unfoldable pub insert_root : ℕ → V → ℕ → Tree V → RedBlackTree V
  insert_root key value size nil = record { root = node black nil key value nil; size = 1 }
  insert_root key value size (node c l k v r) =
      insert_at key value size (descend key (node c l k v r) [])

  unfoldable pub insert : ℕ → V → RedBlackTree V → RedBlackTree V
  insert key value t = insert_root key value t.size t.root
