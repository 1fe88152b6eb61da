-- ===== src/OrderBook/Delete.antt =====
-- orderbook/rb_tree.py: `delete` and `_delete_fixup`.
use nexus_smarttrading.Prelude.{
  ℕ, ◌-◌, ◌&&◌, not, List, [], ◌∷◌, if◌then◌else◌, Result, ok, raise, key_error,
}
use nexus_smarttrading.OrderBook.Tree.{
  Color, red, black, Tree, nil, node, Frame, left_of, right_of, RedBlackTree, is_red, plug,
  set_color, rotate_left, rotate_right, minimum,
}
use nexus_smarttrading.OrderBook.Insert.{descend}

-- One round of the loop: the tree is repaired, or the loop goes on with the parent.
pub data Round {ℓ} (V : Type ℓ) : Type ℓ where
  done up : Tree V → Round V

module _ {ℓ} {V : Type ℓ} where
  -- The inner sibling turned outwards when the outer child is black.
  unfoldable pub outer_right : Color → Tree V → ℕ → V → Tree V → Tree V
  outer_right wc wl wk wv wr =
      if not (is_red wr)
      then rotate_right (node red (set_color black wl) wk wv wr)
      else node wc wl wk wv wr

  unfoldable pub outer_left : Color → Tree V → ℕ → V → Tree V → Tree V
  outer_left wc wl wk wv wr =
      if not (is_red wl)
      then rotate_left (node red wl wk wv (set_color black wr))
      else node wc wl wk wv wr

  -- `w.color = x_parent.color` and the outer child black.
  abbrev pub recolor_right : Color → Tree V → Tree V
  recolor_right c nil = nil
  recolor_right c (node d a k v b) = node c a k v (set_color black b)

  abbrev pub recolor_left : Color → Tree V → Tree V
  recolor_left c nil = nil
  recolor_left c (node d a k v b) = node c (set_color black a) k v b

  -- `x` is the left child of the parent `pc pk pv`, and the last argument is its sibling `w`.
  unfoldable pub round_left : Tree V → Color → ℕ → V → Tree V → Round V
  round_left x pc pk pv nil = up (node pc x pk pv nil)
  round_left x pc pk pv (node wc wl wk wv wr) =
      if not (is_red wl) && not (is_red wr)
      then up (node pc x pk pv (node red wl wk wv wr))
      else done (rotate_left (node black x pk pv (recolor_right pc (outer_right wc wl wk wv wr))))

  unfoldable pub round_right : Tree V → Color → ℕ → V → Tree V → Round V
  round_right x pc pk pv nil = up (node pc nil pk pv x)
  round_right x pc pk pv (node wc wl wk wv wr) =
      if not (is_red wl) && not (is_red wr)
      then up (node pc (node red wl wk wv wr) pk pv x)
      else done (rotate_right (node black (recolor_left pc (outer_left wc wl wk wv wr)) pk pv x))

  -- The loop ends at `x`: `x.color = BLACK`.
  abbrev pub stop_at : Tree V → List (Frame V) → Tree V
  stop_at x path = plug (set_color black x) path

  -- The round behind a red sibling. The parent is red then, so that the loop ends at it.
  abbrev pub last_round : Round V → Frame V → List (Frame V) → Tree V
  last_round (done t) f rest = plug t (f ∷ rest)
  last_round (up t) f rest = stop_at t (f ∷ rest)

  -- `_delete_fixup(x, x_parent)`
  unfoldable pub delete_loop : Tree V → List (Frame V) → Tree V
  delete_loop x [] = set_color black x
  delete_loop x (left_of pc pk pv (node red wl wk wv wr) ∷ rest) =
      if is_red x
      then stop_at x (left_of pc pk pv (node red wl wk wv wr) ∷ rest)
      else last_round (round_left x red pk pv wl) (left_of black wk wv wr) rest
  delete_loop x (left_of pc pk pv w ∷ rest) =
      if is_red x
      then stop_at x (left_of pc pk pv w ∷ rest)
      else elim (round_left x pc pk pv w) [ done t ↦ plug t rest | up t ↦ delete_loop t rest ]
  delete_loop x (right_of pc (node red wl wk wv wr) pk pv ∷ rest) =
      if is_red x
      then stop_at x (right_of pc (node red wl wk wv wr) pk pv ∷ rest)
      else last_round (round_right x red pk pv wr) (right_of black wl wk wv) rest
  delete_loop x (right_of pc w pk pv ∷ rest) =
      if is_red x
      then stop_at x (right_of pc w pk pv ∷ rest)
      else elim (round_right x pc pk pv w) [ done t ↦ plug t rest | up t ↦ delete_loop t rest ]

  unfoldable pub delete_fixup : Tree V → List (Frame V) → Tree V
  delete_fixup x path = set_color black (delete_loop x path)

  -- A node of color `c` gives way to its only child, or to none.
  unfoldable pub splice : Color → Tree V → List (Frame V) → Tree V
  splice black x path = delete_fixup x path
  splice red x path = plug x path

  -- The successor `y` of a node with two children is the minimum of its right subtree: it is
  -- spliced out, and its right child takes its place.
  unfoldable pub splice_minimum : Color → Tree V → ℕ → V → Tree V → List (Frame V) → Tree V
  splice_minimum c nil k v r path = splice c r path
  splice_minimum c (node d a j w b) k v r path = splice_minimum d a j w b (left_of c k v r ∷ path)

  unfoldable pub delete_at : ℕ → Tree V × List (Frame V) → Result (RedBlackTree V)
  delete_at size (nil, path) = raise key_error
  delete_at size (node c nil k v r, path) = ok (record { root = splice c r path; size = size - 1 })
  delete_at size (node c (node d a j w b) k v nil, path) =
      ok (record { root = splice c (node d a j w b) path; size = size - 1 })
  delete_at size (node c (node d a j w b) k v (node e f i u g), path) =
      let (yk, yv) = minimum f i u in
      ok (record {
        root = splice_minimum e f i u g (right_of c (node d a j w b) yk yv ∷ path);
        size = size - 1;
      })

  unfoldable pub delete : ℕ → RedBlackTree V → Result (RedBlackTree V)
  delete key t = delete_at t.size (descend key t.root [])
