-- ===== src/OrderBook/Colors/Delete.antt =====
-- Deletion keeps the colour invariants.
use nexus_smarttrading.Prelude.{
  ℕ, ◌+◌, ◌≡◌, refl, true, false, ◌&&◌, inl, inr, Bool-cases, List, [], ◌∷◌, arith,
}
use nexus_smarttrading.OrderBook.Tree.{
  Color, red, black, Tree, nil, node, Frame, left_of, right_of, is_red, is_red_color, frame_color,
  plug, set_color, rotate_left, rotate_right,
}
use nexus_smarttrading.OrderBook.Delete.{
  Round, done, up, outer_left, outer_right, round_left, round_right, delete_loop, delete_fixup,
  stop_at, last_round,
}
use nexus_smarttrading.OrderBook.Colors.Defs.{
  weight, black_height, IsColored, IsColoredBelow, head_red, PathColored, colored_below,
  blacken-IsColored, blacken-black, PathColored-eq, plug-IsColored,
}

module _ {V : Type 0} where
  -- A round with a parent of colour `c` over children of black height `h` and `h + 1`: it ends with
  -- the heights mended, or leaves the parent one short, to be mended above.
  abbrev RoundColored : Color → ℕ → Round V → Type 0
  RoundColored c h (done t) =
      IsColored t × (black_height t ≡ h + 1 + weight c) × (is_red t ≡ is_red_color c)
  RoundColored c h (up t) =
      IsColoredBelow t × (black_height t ≡ h + weight c) × (is_red t ≡ is_red_color c)

  module _ (x : Tree V) (c : Color) (k : ℕ) (v : V) (h : ℕ) where
    round_left-colored :
        (w : Tree V)
        → is_red x ≡ false
        → IsColored x
        → black_height x ≡ h
        → is_red w ≡ false
        → IsColored w
        → black_height w ≡ h + 1
        → RoundColored c h (round_left x c k v w)
    unfolding round_left outer_right rotate_left rotate_right
    round_left-colored nil rx cx hx rw' cw hw = absurd (omega arith)
    round_left-colored (node wc nil wk wv nil) rx cx hx rw' cw hw = ground arith
    round_left-colored (node wc nil wk wv (node d a j u b)) rx cx hx rw' cw hw = ground arith
    round_left-colored (node wc (node d a j u b) wk wv nil) rx cx hx rw' cw hw = ground arith
    round_left-colored (node wc (node d a j u b) wk wv (node d' a' j' u' b')) rx cx hx rw' cw hw =
        ground arith

    round_right-colored :
        (w : Tree V)
        → is_red x ≡ false
        → IsColored x
        → black_height x ≡ h
        → is_red w ≡ false
        → IsColored w
        → black_height w ≡ h + 1
        → RoundColored c h (round_right x c k v w)
    unfolding round_right outer_left rotate_left rotate_right
    round_right-colored nil rx cx hx rw' cw hw = absurd (omega arith)
    round_right-colored (node wc nil wk wv nil) rx cx hx rw' cw hw = ground arith
    round_right-colored (node wc nil wk wv (node d a j u b)) rx cx hx rw' cw hw = ground arith
    round_right-colored (node wc (node d a j u b) wk wv nil) rx cx hx rw' cw hw = ground arith
    round_right-colored (node wc (node d a j u b) wk wv (node d' a' j' u' b')) rx cx hx rw' cw hw =
        ground arith

  IsColored-below : (x : Tree V) → is_red x ≡ false → IsColoredBelow x → IsColored x
  IsColored-below nil r c = tt
  IsColored-below (node d l k v r') r c = ground arith

  blacken-height_red :
      (x : Tree V) → is_red x ≡ true → black_height (set_color black x) ≡ black_height x + 1
  blacken-height_red nil r = cc
  blacken-height_red (node d l k v r') r = ground arith

  stop_at-IsColored :
      (x : Tree V) (path : List (Frame V)) (h : ℕ)
      → is_red x ≡ true
      → IsColoredBelow x
      → black_height x ≡ h
      → PathColored path (h + 1)
      → IsColored (stop_at x path)
  stop_at-IsColored x path h r c e p =
      plug-IsColored (set_color black x) path (h + 1) (ground (arith, blacken-height_red x))
        (blacken-IsColored x c) (rw (blacken-black x)) p

  last_round-IsColored :
      (r : Round V) (f : Frame V) (rest : List (Frame V)) (h : ℕ)
      → RoundColored red h r
      → frame_color f ≡ black
      → PathColored (f ∷ rest) (h + 1)
      → IsColored (last_round r f rest)
  last_round-IsColored (done t) f rest h c e p =
      plug-IsColored t (f ∷ rest) (h + 1) (ground arith) c.0 (rw (e, c.2)) p
  last_round-IsColored (up t) f rest h c e p =
      stop_at-IsColored t (f ∷ rest) h c.2 c.0 (ground arith) p

  after_round :
      (c : Color) (h : ℕ) (rest : List (Frame V)) (r : Round V)
      → ((t : Tree V)
          → black_height t ≡ h + weight c
          → IsColoredBelow t
          → IsColored (delete_loop t rest))
      → (is_red_color c && head_red rest) ≡ false
      → PathColored rest (h + 1 + weight c)
      → RoundColored c h r
      → let t : Tree V = elim r [ done t ↦ plug t rest | up t ↦ delete_loop t rest ] in IsColored t
  after_round c h rest (done t) ih top p k =
      plug-IsColored t rest (h + 1 + weight c) k.1 k.0 (rw k.2 top) p
  after_round c h rest (up t) ih top p k = ih t k.1 k.0

  raised :
      (c : Color) (h : ℕ) (rest : List (Frame V))
      → PathColored rest (h + 1 + weight c)
      → PathColored rest (h + weight c + 1)
  raised c h rest p = PathColored-eq rest (h + 1 + weight c) (h + weight c + 1) (omega arith) p

  delete_loop-IsColored :
      (x : Tree V) (path : List (Frame V)) (h : ℕ)
      → black_height x ≡ h
      → IsColoredBelow x
      → PathColored path (h + 1)
      → IsColored (delete_loop x path)
  unfolding delete_loop
  delete_loop-IsColored x [] h e c p = blacken-IsColored x c
  delete_loop-IsColored x (left_of pc pk pv (node red wl wk wv wr) ∷ rest) h e c p =
      elim (Bool-cases (is_red x)) [
        | inl r ↦
            rw r (stop_at-IsColored x (left_of pc pk pv (node red wl wk wv wr) ∷ rest) h r c e p)
        | inr b ↦ rw b (
            last_round-IsColored (round_left x red pk pv wl) (left_of black wk wv wr) rest h
              (round_left-colored x red pk pv h wl b (IsColored-below x b c) e (ground arith) p.2.2
                (ground arith))
              refl (ground arith))
      ]
  delete_loop-IsColored x (left_of pc pk pv nil ∷ rest) h e c p = absurd (omega (arith, p.0))
  delete_loop-IsColored x (left_of pc pk pv (node black wl wk wv wr) ∷ rest) h e c p =
      elim (Bool-cases (is_red x)) [
        | inl r ↦
            rw r (stop_at-IsColored x (left_of pc pk pv (node black wl wk wv wr) ∷ rest) h r c e p)
        | inr b ↦ rw b (
            after_round pc h rest (round_left x pc pk pv (node black wl wk wv wr))
              (λ t q d. delete_loop-IsColored t rest (h + weight pc) q d (raised pc h rest p.3))
              (ground arith) p.3
              (round_left-colored x pc pk pv h (node black wl wk wv wr) b (IsColored-below x b c) e
                refl p.2 p.0))
      ]
  delete_loop-IsColored x (right_of pc (node red wl wk wv wr) pk pv ∷ rest) h e c p =
      elim (Bool-cases (is_red x)) [
        | inl r ↦
            rw r (stop_at-IsColored x (right_of pc (node red wl wk wv wr) pk pv ∷ rest) h r c e p)
        | inr b ↦ rw b (
            last_round-IsColored (round_right x red pk pv wr) (right_of black wl wk wv) rest h
              (round_right-colored x red pk pv h wr b (IsColored-below x b c) e (ground arith) p.2.3
                (ground arith))
              refl (ground arith))
      ]
  delete_loop-IsColored x (right_of pc nil pk pv ∷ rest) h e c p = absurd (omega (arith, p.0))
  delete_loop-IsColored x (right_of pc (node black wl wk wv wr) pk pv ∷ rest) h e c p =
      elim (Bool-cases (is_red x)) [
        | inl r ↦
            rw r (stop_at-IsColored x (right_of pc (node black wl wk wv wr) pk pv ∷ rest) h r c e p)
        | inr b ↦ rw b (
            after_round pc h rest (round_right x pc pk pv (node black wl wk wv wr))
              (λ t q d. delete_loop-IsColored t rest (h + weight pc) q d (raised pc h rest p.3))
              (ground arith) p.3
              (round_right-colored x pc pk pv h (node black wl wk wv wr) b (IsColored-below x b c) e
                refl p.2 p.0))
      ]

  -- The fixup mends a tree that lacks one black node on the ways through `x`.
  pub delete_fixup-IsColored :
      (x : Tree V) (path : List (Frame V))
      → IsColoredBelow x
      → PathColored path (black_height x + 1)
      → IsColored (delete_fixup x path)
  unfolding delete_fixup
  delete_fixup-IsColored x path c p =
      blacken-IsColored (delete_loop x path) (
        colored_below (delete_loop x path) (delete_loop-IsColored x path (black_height x) refl c p))
