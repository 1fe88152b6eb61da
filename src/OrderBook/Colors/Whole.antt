-- ===== src/OrderBook/Colors/Whole.antt =====
-- `insert` and `delete` on whole trees: the invariants of the class.
use nexus_smarttrading.Prelude.{
  ℕ, ◌+◌, ◌≡◌, refl, sym, ◌∙◌, ap, Bool, false, ◌&&◌, inl, inr, Bool-cases, List, [], ◌∷◌, arith,
  Result, ok, raise, ltb,
}
use nexus_smarttrading.OrderBook.Tree.{
  Color, red, black, Tree, nil, node, Frame, left_of, right_of, RedBlackTree, is_red, is_red_color,
  frame_color, plug, minimum,
}
use nexus_smarttrading.OrderBook.Insert.{descend, insert_fixup, insert_at, insert_root, insert}
use nexus_smarttrading.OrderBook.Delete.{delete_fixup, splice, splice_minimum, delete_at, delete}
use nexus_smarttrading.OrderBook.Colors.Defs.{
  weight, black_height, IsColored, head_red, PathColored, colored_below, blacken-black,
  PathColored-eq, plug-IsColored,
}
use nexus_smarttrading.OrderBook.Colors.Insert.{insert_fixup-IsColored}
use nexus_smarttrading.OrderBook.Colors.Delete.{delete_fixup-IsColored}

module _ {V : Type 0} where
  -- A coloured tree with a black root.
  abbrev pub IsRedBlack : Tree V → Type 0
  IsRedBlack t = IsColored t × (is_red t ≡ false)

  -- Whether the root is red, given whether the subtree at the end of the path is.
  abbrev root_red : Bool → List (Frame V) → Bool
  root_red b [] = b
  root_red b (f ∷ path) = root_red (is_red_color (frame_color f)) path

  is_red-plug :
      (t : Tree V) (path : List (Frame V)) → is_red (plug t path) ≡ root_red (is_red t) path
  unfolding plug
  is_red-plug t [] = refl
  is_red-plug t (left_of c k v r ∷ path) = is_red-plug (node c t k v r) path
  is_red-plug t (right_of c l k v ∷ path) = is_red-plug (node c l k v t) path

  -- A place in a tree that meets the invariants.
  abbrev IsPlace : Tree V → List (Frame V) → Type 0
  IsPlace t path =
      IsColored t
      × PathColored path (black_height t)
      × ((is_red t && head_red path) ≡ false)
      × (root_red (is_red t) path ≡ false)

  abbrev IsPlacePair : Tree V × List (Frame V) → Type 0
  IsPlacePair (t, path) = IsPlace t path

  descend-IsPlace :
      (key : ℕ) (t : Tree V) (path : List (Frame V))
      → IsPlace t path
      → IsPlacePair (descend key t path)
  unfolding descend
  descend-IsPlace key nil path h = h
  descend-IsPlace key (node c l j w r) path h = elim (Bool-cases (ltb key j)) [
    | inl lt ↦
        rw (lt, descend)
          (descend-IsPlace key l (left_of c j w r ∷ path)
            (h.0.2, (sym h.0.0, ground arith, h.0.3, h.1), ground arith, h.3))
    | inr ge ↦ elim (Bool-cases (ltb j key)) [
      | inl gt ↦
          rw (ge, gt, descend)
            (descend-IsPlace key r (right_of c l j w ∷ path) (
              h.0.3,
              (
                h.0.0,
                ground arith,
                h.0.2,
                PathColored-eq path (black_height l + weight c) (black_height r + weight c)
                    (ap (λ n. n + weight c) h.0.0) h.1,
              ),
              ground arith,
              h.3,
            ))
      | inr le ↦ rw (ge, le, descend) h
    ]
  ]

  plug-IsRedBlack : (t : Tree V) (path : List (Frame V)) → IsPlace t path → IsRedBlack (plug t path)
  plug-IsRedBlack t path h =
      (plug-IsColored t path (black_height t) refl h.0 h.2 h.1, is_red-plug t path ∙ h.3)

  splice-IsRedBlack :
      (c : Color) (x : Tree V) (path : List (Frame V))
      → IsColored x
      → PathColored path (black_height x + weight c)
      → (is_red_color c && is_red x) ≡ false
      → root_red (is_red_color c) path ≡ false
      → IsRedBlack (splice c x path)
  unfolding splice delete_fixup
  splice-IsRedBlack black x path cx p e t =
      (delete_fixup-IsColored x path (colored_below x cx) p, blacken-black _)
  splice-IsRedBlack red x [] cx p e t = cc
  splice-IsRedBlack red x (f ∷ path) cx p e t = (
    plug-IsColored x (f ∷ path) (black_height x) refl cx (ground arith)
        (PathColored-eq (f ∷ path) (black_height x + 0) (black_height x) (omega arith) p),
    is_red-plug x (f ∷ path) ∙ t,
  )

  splice_minimum-IsRedBlack :
      (c : Color) (l : Tree V) (k : ℕ) (v : V) (r : Tree V) (path : List (Frame V))
      → IsPlace (node c l k v r) path
      → IsRedBlack (splice_minimum c l k v r path)
  unfolding splice_minimum
  splice_minimum-IsRedBlack c nil k v r path h =
      splice-IsRedBlack c r path h.0.3
        (PathColored-eq path (0 + weight c) (black_height r + weight c)
          (ap (λ n. n + weight c) h.0.0) h.1)
        (ground arith) h.3
  splice_minimum-IsRedBlack c (node d a j w b) k v r path h =
      splice_minimum-IsRedBlack d a j w b (left_of c k v r ∷ path)
        (h.0.2, (sym h.0.0, ground arith, h.0.3, h.1), ground arith, h.3)

  insert_at-IsRedBlack :
      (key : ℕ) (value : V) (n : ℕ) (t : Tree V) (path : List (Frame V))
      → IsPlace t path
      → IsRedBlack (insert_at key value n (t, path)).root
  unfolding insert_at insert_fixup
  insert_at-IsRedBlack key value n nil path h = (
    unfold insert_fixup in
        insert_fixup-IsColored (node red nil key value nil) path refl (refl, refl, tt, tt)
          (PathColored-eq path 0 (0 + 0) (omega arith) h.1),
    blacken-black _,
  )
  insert_at-IsRedBlack key value n (node c l k v r) path h =
      plug-IsRedBlack (node c l k value r) path h

  insert_root-IsRedBlack :
      (key : ℕ) (value : V) (n : ℕ) (t : Tree V)
      → IsRedBlack t
      → IsRedBlack (insert_root key value n t).root
  unfolding insert_root
  insert_root-IsRedBlack key value n nil h = ((refl, refl, tt, tt), refl)
  insert_root-IsRedBlack key value n (node c l k v r) h =
      let d = descend key (node c l k v r) [] in
      insert_at-IsRedBlack key value n d.0 d.1
        (descend-IsPlace key (node c l k v r) [] (h.0, tt, ground arith, h.1))

  -- `insert` keeps the invariants of the tree: a black root, no red node under a red one, and as
  -- many black nodes on every way down.
  pub insert-IsRedBlack :
      (key : ℕ) (value : V) (t : RedBlackTree V)
      → IsRedBlack t.root
      → IsRedBlack (insert key value t).root
  unfolding insert
  insert-IsRedBlack key value t h = insert_root-IsRedBlack key value t.size t.root h

  abbrev pub RedBlackOrRaises : Result (RedBlackTree V) → Type 0
  RedBlackOrRaises (ok t) = IsRedBlack t.root
  RedBlackOrRaises (raise e) = Unit {0}

  delete_at-IsRedBlack :
      (n : ℕ) (t : Tree V) (path : List (Frame V))
      → IsPlace t path
      → RedBlackOrRaises (delete_at n (t, path))
  unfolding delete_at
  delete_at-IsRedBlack n nil path h = tt
  delete_at-IsRedBlack n (node c nil k v r) path h =
      splice-IsRedBlack c r path h.0.3
        (PathColored-eq path (0 + weight c) (black_height r + weight c)
          (ap (λ n. n + weight c) h.0.0) h.1)
        (ground arith) h.3
  delete_at-IsRedBlack n (node c (node d a j w b) k v nil) path h =
      splice-IsRedBlack c (node d a j w b) path h.0.2 h.1 (ground arith) h.3
  delete_at-IsRedBlack n (node c (node d a j w b) k v (node e f i u g)) path h =
      let y = minimum f i u in
      splice_minimum-IsRedBlack e f i u g (right_of c (node d a j w b) y.0 y.1 ∷ path) (
        h.0.3,
        (
          h.0.0,
          ground arith,
          h.0.2,
          PathColored-eq path (black_height (node d a j w b) + weight c)
              (black_height (node e f i u g) + weight c) (ap (λ n. n + weight c) h.0.0) h.1,
        ),
        ground arith,
        h.3,
      )

  -- `delete`, when it does not raise, keeps the invariants of the tree: a black root, no red node
  -- under a red one, and as many black nodes on every way down.
  pub delete-IsRedBlack :
      (key : ℕ) (t : RedBlackTree V) → IsRedBlack t.root → RedBlackOrRaises (delete key t)
  unfolding delete
  delete-IsRedBlack key t h =
      let d = descend key t.root [] in
      delete_at-IsRedBlack t.size d.0 d.1 (descend-IsPlace key t.root [] (h.0, tt, rw h.1, h.1))
