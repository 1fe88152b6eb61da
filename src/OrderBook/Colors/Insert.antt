-- ===== src/OrderBook/Colors/Insert.antt =====
-- Insertion keeps the colour invariants.
use nexus_smarttrading.Prelude.{
  ℕ, ◌+◌, ◌≡◌, refl, sym, ◌∙◌, true, false, ◌&&◌, ◌||◌, ◌⊎◌, inl, inr, Bool-cases, List, [], ◌∷◌,
  arith,
}
use nexus_smarttrading.OrderBook.Tree.{
  Color, red, black, Tree, nil, node, Frame, left_of, right_of, is_red, is_red_color, frame_color,
  close, plug, set_color, rotate_left, rotate_right,
}
use nexus_smarttrading.OrderBook.Insert.{
  straighten_left, straighten_right, insert_loop, insert_fixup,
}
use nexus_smarttrading.OrderBook.Colors.Defs.{
  weight, black_height, sibling, IsColored, IsColoredBelow, PathColored, colored_below,
  blacken-IsColored, blacken-black, plug-IsColored,
}

Color-cases : (c : Color) → (c ≡ red) ⊎ (c ≡ black)
Color-cases red = inl refl
Color-cases black = inr refl

module _ {V : Type 0} where
  -- The grandparent after the rotations: black, with red children.
  turned_left : Tree V → Frame V → ℕ → V → Tree V → Tree V
  turned_left t parent gk gv uncle =
      rotate_right (node red (set_color black (straighten_left t parent)) gk gv uncle)

  turned_left-IsColored :
      (t : Tree V) (parent : Frame V) (gk : ℕ) (gv : V) (uncle : Tree V)
      → is_red t ≡ true
      → IsColored t
      → frame_color parent ≡ red
      → is_red uncle ≡ false
      → black_height uncle ≡ black_height t
      → PathColored (parent ∷ []) (black_height t)
      → IsColored uncle
      → IsColored (turned_left t parent gk gv uncle)
        × (is_red (turned_left t parent gk gv uncle) ≡ false)
        × (black_height (turned_left t parent gk gv uncle) ≡ black_height t + 1)
  unfolding turned_left straighten_left rotate_left rotate_right
  turned_left-IsColored nil parent gk gv uncle r ct red' ur hu p cu = cc
  turned_left-IsColored (node c a k v b) (left_of pc pk pv pr) gk gv uncle r ct red' ur hu p cu =
      ground arith
  turned_left-IsColored (node c a k v b) (right_of pc pl pk pv) gk gv uncle r ct red' ur hu p cu =
      ground arith

  turned_right : Tree V → Frame V → ℕ → V → Tree V → Tree V
  turned_right t parent gk gv uncle =
      rotate_left (node red uncle gk gv (set_color black (straighten_right t parent)))

  turned_right-IsColored :
      (t : Tree V) (parent : Frame V) (gk : ℕ) (gv : V) (uncle : Tree V)
      → is_red t ≡ true
      → IsColored t
      → frame_color parent ≡ red
      → is_red uncle ≡ false
      → black_height uncle ≡ black_height t
      → PathColored (parent ∷ []) (black_height t)
      → IsColored uncle
      → IsColored (turned_right t parent gk gv uncle)
        × (is_red (turned_right t parent gk gv uncle) ≡ false)
        × (black_height (turned_right t parent gk gv uncle) ≡ black_height t + 1)
  unfolding turned_right straighten_right rotate_left rotate_right
  turned_right-IsColored nil parent gk gv uncle r ct red' ur hu p cu = cc
  turned_right-IsColored (node c a k v b) (left_of pc pk pv pr) gk gv uncle r ct red' ur hu p cu =
      ground arith
  turned_right-IsColored (node c a k v b) (right_of pc pl pk pv) gk gv uncle r ct red' ur hu p cu =
      ground arith

  -- The parent of a coloured node, with both uncles' heights at hand.
  close-below :
      (t : Tree V) (f : Frame V)
      → IsColored t
      → IsColored (sibling f)
      → black_height (sibling f) ≡ black_height t
      → IsColoredBelow (close t f)
        × (black_height (close t f) ≡ black_height t + weight (frame_color f))
  close-below t (left_of c k v r) ct cs e = ground arith
  close-below t (right_of c l k v) ct cs e = ground arith

  blacken-height :
      (t : Tree V) → is_red t ≡ true → black_height (set_color black t) ≡ black_height t + 1
  blacken-height nil r = cc
  blacken-height (node c l k v r') r = ground arith

  close-red : (t : Tree V) (f : Frame V) → frame_color f ≡ red → is_red (close t f) ≡ true
  close-red t (left_of c k v r) e = ground arith
  close-red t (right_of c l k v) e = ground arith

  -- Both children of a red grandparent, when the colours move up.
  recolored :
      (t : Tree V) (parent : Frame V) (uncle : Tree V) (gc : Color) (rest : List (Frame V))
      → frame_color parent ≡ red
      → is_red uncle ≡ true
      → IsColored t
      → IsColored (sibling parent)
      → black_height (sibling parent) ≡ black_height t
      → IsColored uncle
      → black_height uncle ≡ black_height t + weight (frame_color parent)
      → (is_red_color (frame_color parent) && (is_red (sibling parent) || is_red_color gc)) ≡ false
      → IsColored (set_color black (close t parent))
        × IsColored (set_color black uncle)
        × (black_height (set_color black (close t parent)) ≡ black_height (set_color black uncle))
        × (black_height (set_color black (close t parent))
            ≡ black_height t + weight (frame_color parent) + weight gc)
  recolored t parent uncle gc rest e u ct cs es cu eu top =
      let b = close-below t parent ct cs es in
      ground (
        arith,
        b.1,
        blacken-height (close t parent) (close-red t parent e),
        blacken-height uncle u,
        blacken-IsColored (close t parent) b.0,
        blacken-IsColored uncle (colored_below uncle cu),
      )

  insert_loop-IsColored :
      (t : Tree V) (path : List (Frame V)) (h : ℕ)
      → black_height t ≡ h
      → is_red t ≡ true
      → IsColored t
      → PathColored path h
      → IsColored (set_color black (insert_loop t path))
  unfolding insert_loop
  insert_loop-IsColored t [] h e r c p = blacken-IsColored t (colored_below t c)
  insert_loop-IsColored t (parent ∷ []) h e r c p =
      unfold plug in blacken-IsColored (close t parent) (close-below t parent c p.2 (p.0 ∙ sym e)).0
  insert_loop-IsColored t (parent ∷ left_of gc gk gv uncle ∷ rest) h e r c p =
      let path = parent ∷ left_of gc gk gv uncle ∷ rest in
      let q = p.3 in
      elim (Color-cases (frame_color parent)) [
        | inr b ↦
            rw (b, insert_loop)
              (blacken-IsColored (plug t path)
                (colored_below (plug t path) (plug-IsColored t path h e c (ground arith) p)))
        | inl d ↦ elim (Bool-cases (is_red uncle)) [
          | inl u ↦
              let n =
                recolored t parent uncle gc rest d u c p.2 (ground arith) q.2 (ground arith)
                  (ground arith) in
              rw (d, u, insert_loop)
                (insert_loop-IsColored
                  (node red (set_color black (close t parent)) gk gv (set_color black uncle)) rest
                  (h + weight (frame_color parent) + weight gc) (ground (arith, n.3)) refl
                  (n.2, rw (blacken-black (close t parent), blacken-black uncle), n.0, n.1) q.3)
          | inr u ↦
              let n =
                turned_left-IsColored t parent gk gv uncle r c d u (ground arith) (ground arith)
                  q.2 in
              let g = turned_left t parent gk gv uncle in
              let above = h + weight (frame_color parent) + weight gc in
              rw (d, u, insert_loop)
                (unfold turned_left in
                  blacken-IsColored (plug g rest) (
                    colored_below (plug g rest)
                      (plug-IsColored g rest above (ground (arith, n.2)) n.0 (rw n.1) q.3)))
        ]
      ]
  insert_loop-IsColored t (parent ∷ right_of gc uncle gk gv ∷ rest) h e r c p =
      let path = parent ∷ right_of gc uncle gk gv ∷ rest in
      let q = p.3 in
      elim (Color-cases (frame_color parent)) [
        | inr b ↦
            rw (b, insert_loop)
              (blacken-IsColored (plug t path)
                (colored_below (plug t path) (plug-IsColored t path h e c (ground arith) p)))
        | inl d ↦ elim (Bool-cases (is_red uncle)) [
          | inl u ↦
              let n =
                recolored t parent uncle gc rest d u c p.2 (ground arith) q.2 (ground arith)
                  (ground arith) in
              rw (d, u, insert_loop)
                (insert_loop-IsColored
                  (node red (set_color black uncle) gk gv (set_color black (close t parent))) rest
                  (h + weight (frame_color parent) + weight gc) (ground (arith, n.2, n.3)) refl
                  (sym n.2, rw (blacken-black uncle, blacken-black (close t parent)), n.1, n.0) q.3)
          | inr u ↦
              let n =
                turned_right-IsColored t parent gk gv uncle r c d u (ground arith) (ground arith)
                  q.2 in
              let g = turned_right t parent gk gv uncle in
              let above = h + weight (frame_color parent) + weight gc in
              rw (d, u, insert_loop)
                (unfold turned_right in
                  blacken-IsColored (plug g rest) (
                    colored_below (plug g rest)
                      (plug-IsColored g rest above (ground (arith, n.2)) n.0 (rw n.1) q.3)))
        ]
      ]

  -- The fixup mends a coloured tree with a red node put in at the end of a coloured path.
  pub insert_fixup-IsColored :
      (t : Tree V) (path : List (Frame V))
      → is_red t ≡ true
      → IsColored t
      → PathColored path (black_height t)
      → IsColored (insert_fixup t path)
  unfolding insert_fixup
  insert_fixup-IsColored t path r c p = insert_loop-IsColored t path (black_height t) refl r c p
