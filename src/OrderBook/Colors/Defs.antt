-- ===== src/OrderBook/Colors/Defs.antt =====
-- The invariants that `RedBlackTree` states: no red node under a red one, and as many black nodes
-- on every way down.
use nexus_smarttrading.Prelude.{ℕ, ◌+◌, ◌≡◌, refl, Bool, false, ◌&&◌, ◌||◌, List, [], ◌∷◌, arith}
use nexus_smarttrading.OrderBook.Tree.{
  Color, red, black, Tree, nil, node, Frame, left_of, right_of, is_red, is_red_color, frame_color,
  plug, set_color,
}

abbrev pub weight : Color → ℕ
weight red = 0
weight black = 1

module _ {V : Type 0} where
  -- The black nodes on the way down to the left.
  abbrev pub black_height : Tree V → ℕ
  black_height nil = 0
  black_height (node c l k v r) = black_height l + weight c

  abbrev pub IsColored : Tree V → Type 0
  IsColored nil = Unit {0}
  IsColored (node c l k v r) =
      (black_height l ≡ black_height r)
      × ((is_red_color c && (is_red l || is_red r)) ≡ false)
      × IsColored l
      × IsColored r

  -- The same, but the root may be red over red children.
  abbrev pub IsColoredBelow : Tree V → Type 0
  IsColoredBelow nil = Unit {0}
  IsColoredBelow (node c l k v r) = (black_height l ≡ black_height r) × IsColored l × IsColored r

  abbrev pub head_red : List (Frame V) → Bool
  head_red [] = false
  head_red (f ∷ path) = is_red_color (frame_color f)

  abbrev pub sibling : Frame V → Tree V
  sibling (left_of c k v r) = r
  sibling (right_of c l k v) = l

  -- The path is that of a coloured tree, around a subtree of the black height `h`.
  abbrev pub PathColored : List (Frame V) → ℕ → Type 0
  PathColored [] h = Unit {0}
  PathColored (f ∷ path) h =
      (black_height (sibling f) ≡ h)
      × ((is_red_color (frame_color f) && (is_red (sibling f) || head_red path)) ≡ false)
      × IsColored (sibling f)
      × PathColored path (h + weight (frame_color f))

  pub colored_below : (t : Tree V) → IsColored t → IsColoredBelow t
  colored_below nil h = tt
  colored_below (node c l k v r) h = (h.0, h.2, h.3)

  pub blacken-IsColored : (t : Tree V) → IsColoredBelow t → IsColored (set_color black t)
  blacken-IsColored nil h = tt
  blacken-IsColored (node c l k v r) h = (h.0, refl, h.1, h.2)

  pub blacken-black : (t : Tree V) → is_red (set_color black t) ≡ false
  blacken-black nil = refl
  blacken-black (node c l k v r) = refl

  pub PathColored-eq :
      (path : List (Frame V)) (m n : ℕ) → m ≡ n → PathColored path m → PathColored path n
  PathColored-eq path m n e p = rw (← e) p

  pub plug-IsColored :
      (t : Tree V) (path : List (Frame V)) (h : ℕ)
      → black_height t ≡ h
      → IsColored t
      → (is_red t && head_red path) ≡ false
      → PathColored path h
      → IsColored (plug t path)
  unfolding plug
  plug-IsColored t [] h e c top p = c
  plug-IsColored t (left_of d k v r ∷ path) h e c top p =
      plug-IsColored (node d t k v r) path (h + weight d) (ground arith) (ground arith)
        (ground arith) p.3
  plug-IsColored t (right_of d l k v ∷ path) h e c top p =
      plug-IsColored (node d l k v t) path (h + weight d) (ground arith) (ground arith)
        (ground arith) p.3
