-- ===== src/OrderBook/InOrder/Insert.antt =====
-- The traversal of the tree: rotations and recolouring keep it, an insertion puts one entry in.
use nexus_smarttrading.Prelude.{ℕ, ◌≡◌, refl, sym, ◌∙◌, List, [], ◌∷◌, ◌++◌, arith}
use mathlib.Core.List.{append-nil, append_assoc}
use nexus_smarttrading.OrderBook.Tree.{
  Color, red, black, Tree, nil, node, Frame, left_of, right_of, close, plug, set_color, rotate_left,
  rotate_right, items,
}
use nexus_smarttrading.OrderBook.Insert.{
  straighten_left, straighten_right, insert_loop, insert_fixup,
}

module _ {ℓ} {V : Type ℓ} where
  pub items-rotate_left : (t : Tree V) → items (rotate_left t) ≡ items t
  unfolding items rotate_left
  items-rotate_left nil = refl
  items-rotate_left (node c a k v nil) = refl
  items-rotate_left (node c a k v (node d b j w e)) =
      append_assoc (items a) ((k, v) ∷ items b) ((j, w) ∷ items e)

  pub items-rotate_right : (t : Tree V) → items (rotate_right t) ≡ items t
  unfolding items rotate_right
  items-rotate_right nil = refl
  items-rotate_right (node c nil k v e) = refl
  items-rotate_right (node c (node d a j w b) k v e) =
      sym (append_assoc (items a) ((j, w) ∷ items b) ((k, v) ∷ items e))

  pub items-set_color : (c : Color) (t : Tree V) → items (set_color c t) ≡ items t
  unfolding items
  items-set_color c nil = refl
  items-set_color c (node d l k v r) = refl

  -- What the traversal meets before and after a subtree.
  unfoldable pub before_path : List (Frame V) → List (ℕ × V)
  before_path [] = []
  before_path (left_of c k v r ∷ path) = before_path path
  before_path (right_of c l k v ∷ path) = before_path path ++ (items l ++ ((k, v) ∷ []))

  unfoldable pub after_path : List (Frame V) → List (ℕ × V)
  after_path [] = []
  after_path (left_of c k v r ∷ path) = (k, v) ∷ (items r ++ after_path path)
  after_path (right_of c l k v ∷ path) = after_path path

  pub items-plug :
      (t : Tree V) (path : List (Frame V))
      → items (plug t path) ≡ before_path path ++ (items t ++ after_path path)
  unfolding items plug before_path after_path
  items-plug t [] = sym (append-nil (items t))
  items-plug t (left_of c k v r ∷ path) =
      simp (items-plug (node c t k v r) path, items, append_assoc)
  items-plug t (right_of c l k v ∷ path) =
      simp (items-plug (node c l k v t) path, items, append_assoc)

  pub items-plug_root : (t : Tree V) → items t ≡ items (plug t [])
  unfolding plug
  items-plug_root t = refl

  pub items-plug_eq :
      (s t : Tree V) (path : List (Frame V))
      → items s ≡ items t
      → items (plug s path) ≡ items (plug t path)
  items-plug_eq s t path h = simp (items-plug s path, items-plug t path, h)

  items-straighten_left :
      (t : Tree V) (f : Frame V) → items (straighten_left t f) ≡ items (close t f)
  unfolding straighten_left
  items-straighten_left t (left_of c k v r) = refl
  items-straighten_left t (right_of c l k v) = items-rotate_left (node c l k v t)

  items-straighten_right :
      (t : Tree V) (f : Frame V) → items (straighten_right t f) ≡ items (close t f)
  unfolding straighten_right
  items-straighten_right t (left_of c k v r) = items-rotate_right (node c t k v r)
  items-straighten_right t (right_of c l k v) = refl

  pub items-node :
      (c d : Color) (k : ℕ) (v : V) (l l' r r' : Tree V)
      → items l ≡ items l'
      → items r ≡ items r'
      → items (node c l k v r) ≡ items (node d l' k v r')
  unfolding items
  items-node c d k v l l' r r' h h' = rw (h, h')

  module _ (t : Tree V) (parent : Frame V) (gc : Color) (gk : ℕ) (gv : V) (uncle : Tree V) where
    items-recolor_left :
        (rest : List (Frame V))
        → items
            (plug (node red (set_color black (close t parent)) gk gv (set_color black uncle)) rest)
          ≡ items (plug t (parent ∷ left_of gc gk gv uncle ∷ rest))
    unfolding plug
    items-recolor_left rest = items-plug_eq _ _ rest (
        items-node red gc gk gv _ (close t parent) _ uncle (items-set_color black (close t parent))
          (items-set_color black uncle))

    items-recolor_right :
        (rest : List (Frame V))
        → items
            (plug (node red (set_color black uncle) gk gv (set_color black (close t parent))) rest)
          ≡ items (plug t (parent ∷ right_of gc uncle gk gv ∷ rest))
    unfolding plug
    items-recolor_right rest = items-plug_eq _ _ rest (
        items-node red gc gk gv _ uncle _ (close t parent) (items-set_color black uncle)
          (items-set_color black (close t parent)))

    items-turn_left :
        (rest : List (Frame V))
        → items (
            plug
              (rotate_right (node red (set_color black (straighten_left t parent)) gk gv uncle))
              rest)
          ≡ items (plug t (parent ∷ left_of gc gk gv uncle ∷ rest))
    unfolding plug
    items-turn_left rest = items-plug_eq _ _ rest (
        items-rotate_right (node red (set_color black (straighten_left t parent)) gk gv uncle)
        ∙ items-node red gc gk gv _ (close t parent) uncle uncle
            (items-set_color black (straighten_left t parent) ∙ items-straighten_left t parent)
            refl)

    items-turn_right :
        (rest : List (Frame V))
        → items (
            plug
              (rotate_left (node red uncle gk gv (set_color black (straighten_right t parent))))
              rest)
          ≡ items (plug t (parent ∷ right_of gc uncle gk gv ∷ rest))
    unfolding plug
    items-turn_right rest = items-plug_eq _ _ rest (
        items-rotate_left (node red uncle gk gv (set_color black (straighten_right t parent)))
        ∙ items-node red gc gk gv uncle uncle _ (close t parent) refl
            (items-set_color black (straighten_right t parent) ∙ items-straighten_right t parent))

  items-insert_loop :
      (t : Tree V) (path : List (Frame V)) → items (insert_loop t path) ≡ items (plug t path)
  unfolding insert_loop
  items-insert_loop t [] = items-plug_root t
  items-insert_loop t (parent ∷ []) = refl
  items-insert_loop t (parent ∷ left_of gc gk gv uncle ∷ rest) = ground (
    arith,
    items-insert_loop (node red (set_color black (close t parent)) gk gv (set_color black uncle))
        rest,
    items-recolor_left t parent gc gk gv uncle rest,
    items-turn_left t parent gc gk gv uncle rest,
  )
  items-insert_loop t (parent ∷ right_of gc uncle gk gv ∷ rest) = ground (
    arith,
    items-insert_loop (node red (set_color black uncle) gk gv (set_color black (close t parent)))
        rest,
    items-recolor_right t parent gc gk gv uncle rest,
    items-turn_right t parent gc gk gv uncle rest,
  )

  -- The fixup keeps the traversal, whatever the colours are.
  pub items-insert_fixup :
      (t : Tree V) (path : List (Frame V)) → items (insert_fixup t path) ≡ items (plug t path)
  unfolding insert_fixup
  items-insert_fixup t path = items-set_color black (insert_loop t path) ∙ items-insert_loop t path
