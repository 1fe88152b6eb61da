-- ===== src/OrderBook/InOrder/Delete.antt =====
-- `_delete_fixup` keeps the traversal, whatever the colours are.
use nexus_smarttrading.Prelude.{ℕ, ◌≡◌, refl, sym, ◌∙◌, List, [], ◌∷◌, arith, Bool-cases, inl, inr}
use mathlib.Core.List.{append_assoc}
use nexus_smarttrading.OrderBook.Tree.{
  Color, red, black, Tree, nil, node, Frame, left_of, right_of, plug, set_color, items, is_red,
}
use nexus_smarttrading.OrderBook.Delete.{
  Round, done, up, outer_left, outer_right, recolor_left, recolor_right, round_left, round_right,
  stop_at, last_round, delete_loop, delete_fixup,
}
use nexus_smarttrading.OrderBook.InOrder.Insert.{
  items-rotate_left, items-rotate_right, items-set_color, items-plug_root, items-plug_eq,
  items-node,
}

module _ {ℓ} {V : Type ℓ} where
  abbrev pub round_tree : Round V → Tree V
  round_tree (done t) = t
  round_tree (up t) = t

  items-outer_right :
      (c : Color) (l : Tree V) (k : ℕ) (v : V) (r : Tree V)
      → items (outer_right c l k v r) ≡ items (node c l k v r)
  unfolding outer_right
  items-outer_right c l k v r = elim (Bool-cases (is_red r)) [
    | inl e ↦ rw e
    | inr e ↦ rw e (
        items-rotate_right (node red (set_color black l) k v r)
        ∙ items-node red c k v _ l r r (items-set_color black l) refl)
  ]

  items-outer_left :
      (c : Color) (l : Tree V) (k : ℕ) (v : V) (r : Tree V)
      → items (outer_left c l k v r) ≡ items (node c l k v r)
  unfolding outer_left
  items-outer_left c l k v r = elim (Bool-cases (is_red l)) [
    | inl e ↦ rw e
    | inr e ↦ rw e (
        items-rotate_left (node red l k v (set_color black r))
        ∙ items-node red c k v l l _ r refl (items-set_color black r))
  ]

  items-recolor_right : (c : Color) (t : Tree V) → items (recolor_right c t) ≡ items t
  items-recolor_right c nil = refl
  items-recolor_right c (node d a k v b) = items-node c d k v a a _ b refl (items-set_color black b)

  items-recolor_left : (c : Color) (t : Tree V) → items (recolor_left c t) ≡ items t
  items-recolor_left c nil = refl
  items-recolor_left c (node d a k v b) = items-node c d k v _ a b b (items-set_color black a) refl

  items-round_left :
      (x : Tree V) (c : Color) (k : ℕ) (v : V) (w : Tree V)
      → items (round_tree (round_left x c k v w)) ≡ items (node c x k v w)
  unfolding round_left
  items-round_left x c k v nil = refl
  items-round_left x c k v (node wc wl wk wv wr) =
      let w' = outer_right wc wl wk wv wr in
      ground (
        arith,
        items-node c c k v x x (node red wl wk wv wr) (node wc wl wk wv wr) refl
            (items-node red wc wk wv wl wl wr wr refl refl),
        items-rotate_left (node black x k v (recolor_right c w'))
            ∙ items-node black c k v x x (recolor_right c w') (node wc wl wk wv wr) refl
                (items-recolor_right c w' ∙ items-outer_right wc wl wk wv wr),
      )

  items-round_right :
      (x : Tree V) (c : Color) (k : ℕ) (v : V) (w : Tree V)
      → items (round_tree (round_right x c k v w)) ≡ items (node c w k v x)
  unfolding round_right
  items-round_right x c k v nil = refl
  items-round_right x c k v (node wc wl wk wv wr) =
      let w' = outer_left wc wl wk wv wr in
      ground (
        arith,
        items-node c c k v (node red wl wk wv wr) (node wc wl wk wv wr) x x
            (items-node red wc wk wv wl wl wr wr refl refl) refl,
        items-rotate_right (node black (recolor_left c w') k v x)
            ∙ items-node black c k v (recolor_left c w') (node wc wl wk wv wr) x x
                (items-recolor_left c w' ∙ items-outer_left wc wl wk wv wr) refl,
      )

  items-stop_at :
      (x : Tree V) (path : List (Frame V)) → items (stop_at x path) ≡ items (plug x path)
  items-stop_at x path = items-plug_eq _ _ path (items-set_color black x)

  items-last_round :
      (r : Round V) (f : Frame V) (rest : List (Frame V))
      → items (last_round r f rest) ≡ items (plug (round_tree r) (f ∷ rest))
  items-last_round (done t) f rest = refl
  items-last_round (up t) f rest = items-stop_at t (f ∷ rest)

  -- A rotation, with any colours.
  items-turn :
      (c d c' d' : Color) (k j : ℕ) (v w : V) (a b e : Tree V)
      → items (node c (node d a k v b) j w e) ≡ items (node c' a k v (node d' b j w e))
  unfolding items
  items-turn c d c' d' k j v w a b e = append_assoc (items a) ((k, v) ∷ items b) ((j, w) ∷ items e)

  module _ (x : Tree V) (pc : Color) (pk : ℕ) (pv : V) (rest : List (Frame V)) where
    -- The rotation around a red sibling, and the round behind it.
    items-red_left :
        (wl wr : Tree V) (wk : ℕ) (wv : V)
        → items (last_round (round_left x red pk pv wl) (left_of black wk wv wr) rest)
          ≡ items (plug x (left_of pc pk pv (node red wl wk wv wr) ∷ rest))
    unfolding plug
    items-red_left wl wr wk wv =
        items-last_round (round_left x red pk pv wl) (left_of black wk wv wr) rest
        ∙ items-plug_eq _ _ rest (
            items-node black black wk wv _ _ wr wr (items-round_left x red pk pv wl) refl
            ∙ items-turn black red pc red pk wk pv wv x wl wr)

    items-red_right :
        (wl wr : Tree V) (wk : ℕ) (wv : V)
        → items (last_round (round_right x red pk pv wr) (right_of black wl wk wv) rest)
          ≡ items (plug x (right_of pc (node red wl wk wv wr) pk pv ∷ rest))
    unfolding plug
    items-red_right wl wr wk wv =
        items-last_round (round_right x red pk pv wr) (right_of black wl wk wv) rest
        ∙ items-plug_eq _ _ rest (
            items-node black black wk wv wl wl _ _ refl (items-round_right x red pk pv wr)
            ∙ sym (items-turn pc red black red wk pk wv pv wl wr x))

    -- A black sibling: the loop is done, or goes on with the parent.
    items-black_left :
        (w : Tree V)
        → ((t : Tree V) → items (delete_loop t rest) ≡ items (plug t rest))
        → let next : Tree V = elim (round_left x pc pk pv w) [
          | done t ↦ plug t rest
          | up t ↦ delete_loop t rest
        ] in
          items next ≡ items (plug x (left_of pc pk pv w ∷ rest))
    unfolding plug
    items-black_left w ih =
        (elim (round_left x pc pk pv w)
          as (λ r.
            let next : Tree V = elim r [ done t ↦ plug t rest | up t ↦ delete_loop t rest ] in
            items next ≡ items (plug (round_tree r) rest)) [ done t ↦ refl | up t ↦ ih t ])
        ∙ items-plug_eq _ _ rest (items-round_left x pc pk pv w)

    items-black_right :
        (w : Tree V)
        → ((t : Tree V) → items (delete_loop t rest) ≡ items (plug t rest))
        → let next : Tree V = elim (round_right x pc pk pv w) [
          | done t ↦ plug t rest
          | up t ↦ delete_loop t rest
        ] in
          items next ≡ items (plug x (right_of pc w pk pv ∷ rest))
    unfolding plug
    items-black_right w ih =
        (elim (round_right x pc pk pv w)
          as (λ r.
            let next : Tree V = elim r [ done t ↦ plug t rest | up t ↦ delete_loop t rest ] in
            items next ≡ items (plug (round_tree r) rest)) [ done t ↦ refl | up t ↦ ih t ])
        ∙ items-plug_eq _ _ rest (items-round_right x pc pk pv w)

  items-delete_loop :
      (x : Tree V) (path : List (Frame V)) → items (delete_loop x path) ≡ items (plug x path)
  unfolding delete_loop
  items-delete_loop x [] = items-set_color black x ∙ items-plug_root x
  items-delete_loop x (left_of pc pk pv (node red wl wk wv wr) ∷ rest) =
      elim (Bool-cases (is_red x)) [
        | inl e ↦ rw e (items-stop_at x (left_of pc pk pv (node red wl wk wv wr) ∷ rest))
        | inr e ↦ rw e (items-red_left x pc pk pv rest wl wr wk wv)
      ]
  items-delete_loop x (left_of pc pk pv w ∷ rest) = elim (Bool-cases (is_red x)) [
    | inl e ↦ rw e (items-stop_at x (left_of pc pk pv w ∷ rest))
    | inr e ↦ rw e (items-black_left x pc pk pv rest w (λ t. items-delete_loop t rest))
  ]
  items-delete_loop x (right_of pc (node red wl wk wv wr) pk pv ∷ rest) =
      elim (Bool-cases (is_red x)) [
        | inl e ↦ rw e (items-stop_at x (right_of pc (node red wl wk wv wr) pk pv ∷ rest))
        | inr e ↦ rw e (items-red_right x pc pk pv rest wl wr wk wv)
      ]
  items-delete_loop x (right_of pc w pk pv ∷ rest) = elim (Bool-cases (is_red x)) [
    | inl e ↦ rw e (items-stop_at x (right_of pc w pk pv ∷ rest))
    | inr e ↦ rw e (items-black_right x pc pk pv rest w (λ t. items-delete_loop t rest))
  ]

  pub items-delete_fixup :
      (x : Tree V) (path : List (Frame V)) → items (delete_fixup x path) ≡ items (plug x path)
  unfolding delete_fixup
  items-delete_fixup x path = items-set_color black (delete_loop x path) ∙ items-delete_loop x path
