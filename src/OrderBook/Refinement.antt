-- ===== src/OrderBook/Refinement.antt =====
-- The operations of the tree are those of the ascending association list.
use nexus_smarttrading.Prelude.{
  ℕ, ◌+◌, ◌-◌, ◌≡◌, refl, sym, ap, ◌∙◌, ◌≢◌, Option, none, some, List, [], ◌∷◌, ◌++◌, arith, ltb,
  Bool-cases, inl, inr, Result, ok, raise, key_error, length, ◌⊎◌,
}
use mathlib.Core.Path.{subst}
use mathlib.Core.List.{append-nil, append_assoc}
use nexus_smarttrading.OrderBook.Tree.{
  Color, red, black, Tree, nil, node, Frame, left_of, right_of, RedBlackTree, items, find_node,
  minimum,
}
use nexus_smarttrading.OrderBook.Insert.{descend, insert_at, insert_root, insert}
use nexus_smarttrading.OrderBook.Delete.{splice, splice_minimum, delete_at, delete}
use nexus_smarttrading.OrderBook.InOrder.{
  before_path, after_path, items-plug, items-insert_fixup, items-delete_fixup,
}
use nexus_smarttrading.OrderBook.Spec.{
  put, remove, lookup, IsAscending, Below, IsAscending-left, IsAscending-right, ascending-Below,
  put_left, put_right, put_here, put-IsAscending, remove-IsAscending, length-put, length-remove,
  remove_left, remove_right, remove_here, lookup_left, lookup_right, lookup_here,
}

module _ {V : Type 0} where
  -- The parts of a node whose traversal ascends.
  record Parts (l : Tree V) (j : ℕ) (r : Tree V) : Type 0 where
    left : IsAscending (items l)
    right : IsAscending (items r)
    below : Below j (items l)

  parts :
      (c : Color) (l : Tree V) (j : ℕ) (w : V) (r : Tree V)
      → IsAscending (items (node c l j w r))
      → Parts l j r
  unfolding items
  parts c l j w r h = record {
    left = IsAscending-left (items l) ((j, w) ∷ items r) h;
    right = (IsAscending-right (items l) ((j, w) ∷ items r) h).1;
    below = ascending-Below (items l) j w (items r) h;
  }

  items-insert_at :
      (key : ℕ) (value : V) (n : ℕ) (t : Tree V) (path : List (Frame V))
      → IsAscending (items t)
      → items (insert_at key value n (descend key t path)).root
        ≡ before_path path ++ (put key value (items t) ++ after_path path)
  unfolding insert_at descend items put before_path after_path
  items-insert_at key value n nil path h =
      items-insert_fixup (node red nil key value nil) path
      ∙ items-plug (node red nil key value nil) path
  items-insert_at key value n (node c l j w r) path h =
      let p = parts c l j w r h in
      let L = items l in
      let R = items r in
      let A = after_path path in
      ground (
        arith,
        items-insert_at key value n l (left_of c j w r ∷ path) p.left,
        items-insert_at key value n r (right_of c l j w ∷ path) p.right,
        items-plug (node c l j value r) path,
        put_left key j w value L R,
        put_right key j w value L R,
        put_here key j w value L R,
        append_assoc (put key value L) ((j, w) ∷ R) A,
        append_assoc L ((j, w) ∷ put key value R) A,
        append_assoc (before_path path) (L ++ ((j, w) ∷ [])) (put key value R ++ A),
        append_assoc L ((j, w) ∷ []) (put key value R ++ A),
      )

  items-splice :
      (c : Color) (x : Tree V) (path : List (Frame V))
      → items (splice c x path) ≡ before_path path ++ (items x ++ after_path path)
  unfolding splice
  items-splice black x path = items-delete_fixup x path ∙ items-plug x path
  items-splice red x path = items-plug x path

  -- The traversal of a node without its first entry.
  pub without_minimum : Tree V → ℕ → V → Tree V → List (ℕ × V)
  without_minimum nil k v r = items r
  without_minimum (node d a j w b) k v r = without_minimum a j w b ++ ((k, v) ∷ items r)

  pub items-minimum :
      (c : Color) (l : Tree V) (k : ℕ) (v : V) (r : Tree V)
      → items (node c l k v r) ≡ minimum l k v ∷ without_minimum l k v r
  unfolding items minimum without_minimum
  items-minimum c nil k v r = refl
  items-minimum c (node d a j w b) k v r = rw (items-minimum d a j w b)

  items-splice_minimum :
      (c : Color) (l : Tree V) (k : ℕ) (v : V) (r : Tree V) (path : List (Frame V))
      → items (splice_minimum c l k v r path)
        ≡ before_path path ++ (without_minimum l k v r ++ after_path path)
  unfolding splice_minimum without_minimum before_path after_path
  items-splice_minimum c nil k v r path = items-splice c r path
  items-splice_minimum c (node d a j w b) k v r path =
      items-splice_minimum d a j w b (left_of c k v r ∷ path)
      ∙ ap (◌++◌ (before_path path))
          (sym (append_assoc (without_minimum a j w b) ((k, v) ∷ items r) (after_path path)))

  -- A deletion under a path: the key is missing and nothing is returned, or one entry is gone.
  abbrev Deletes :
      ℕ → ℕ → List (ℕ × V) → List (ℕ × V) → List (ℕ × V) → Result (RedBlackTree V) → Type 0
  Deletes key n before xs after (raise e) = (e ≡ key_error) × (lookup key xs ≡ none)
  Deletes key n before xs after (ok t) =
      (t.size ≡ n - 1)
      × (items t.root ≡ before ++ (remove key xs ++ after))
      × (lookup key xs ≢ none)

  regroup :
      (xs ys zs as' : List (ℕ × V)) (y : ℕ × V)
      → (xs ++ (ys ++ (y ∷ []))) ++ (zs ++ as') ≡ xs ++ ((ys ++ (y ∷ zs)) ++ as')
  regroup xs ys zs as' y = simp append_assoc

  module _ (key j : ℕ) (w : V) (e : j ≡ key) where
    found_here : (xs ys : List (ℕ × V)) → Below j xs → lookup key (xs ++ ((j, w) ∷ ys)) ≢ none
    found_here xs ys b = λ q. cc (lookup_here key j w xs ys e b)

    delete_here :
        (n : ℕ) (c : Color) (l r : Tree V) (path : List (Frame V))
        → Below j (items l)
        → Deletes key n
            (before_path path)
            (items l ++ ((j, w) ∷ items r))
            (after_path path)
            (delete_at n (node c l j w r, path))
    unfolding delete_at items before_path after_path
    delete_here n c nil r path b = (
      refl,
      items-splice c r path
          ∙ sym (
              ap (λ m. before_path path ++ (m ++ after_path path))
                (remove_here key j w [] (items r) e tt)),
      found_here [] (items r) tt,
    )
    delete_here n c (node d a i u m) nil path b =
        let L = items (node d a i u m) in
        (
          refl,
          items-splice c (node d a i u m) path
              ∙ sym (
                  ap (λ m. before_path path ++ (m ++ after_path path))
                    (remove_here key j w L [] e b ∙ append-nil L)),
          found_here L [] b,
        )
    delete_here n c (node d a i u m) (node d' a' i' u' m') path b =
        let L = items (node d a i u m) in
        let R = items (node d' a' i' u' m') in
        let y = minimum a' i' u' in
        let rest = without_minimum a' i' u' m' in
        (
          refl,
          items-splice_minimum d' a' i' u' m' (right_of c (node d a i u m) y.0 y.1 ∷ path)
              ∙ (regroup (before_path path) L rest (after_path path) y
                  ∙ sym (
                      ap (λ m. before_path path ++ (m ++ after_path path))
                        (remove_here key j w L R e b
                          ∙ ap (◌++◌ L) (items-minimum d' a' i' u' m')))),
          found_here L R b,
        )

  Deletes-cong :
      (key n : ℕ) (b xs a b' xs' a' : List (ℕ × V)) (r : Result (RedBlackTree V))
      → b ++ (remove key xs ++ a) ≡ b' ++ (remove key xs' ++ a')
      → lookup key xs ≡ lookup key xs'
      → Deletes key n b xs a r
      → Deletes key n b' xs' a' r
  Deletes-cong key n b xs a b' xs' a' (raise e) h l d = (d.0, sym l ∙ d.1)
  Deletes-cong key n b xs a b' xs' a' (ok t) h l d = (d.0, d.1 ∙ h, λ q. d.2 (l ∙ q))

  delete_at-Deletes :
      (key n : ℕ) (t : Tree V) (path : List (Frame V))
      → IsAscending (items t)
      → Deletes key n
          (before_path path)
          (items t)
          (after_path path)
          (delete_at n (descend key t path))
  unfolding descend items before_path after_path
  delete_at-Deletes key n nil path h = unfold delete_at lookup in (refl, refl)
  delete_at-Deletes key n (node c l j w r) path h =
      let p = parts c l j w r h in
      let L = items l in
      let R = items r in
      let A = after_path path in
      let B = before_path path in
      elim (Bool-cases (ltb key j)) [
        | inl lt ↦
            rw (lt, descend)
              (Deletes-cong key n B L ((j, w) ∷ (R ++ A)) B (L ++ ((j, w) ∷ R)) A _
                (ap (◌++◌ B) (
                  sym (append_assoc (remove key L) ((j, w) ∷ R) A)
                  ∙ ap (λ m. m ++ A) (sym (remove_left key j w L R (ground arith)))))
                (sym (lookup_left key j w L R (ground arith)))
                (delete_at-Deletes key n l (left_of c j w r ∷ path) p.left))
        | inr ge ↦ elim (Bool-cases (ltb j key)) [
          | inl gt ↦
              rw (ge, gt, descend)
                (Deletes-cong key n (B ++ (L ++ ((j, w) ∷ []))) R A B (L ++ ((j, w) ∷ R)) A _
                  (regroup B L (remove key R) A (j, w)
                    ∙ ap (λ m. B ++ (m ++ A))
                        (sym (remove_right key j w L R (ground arith) p.below)))
                  (sym (lookup_right key j w L R (ground arith) p.below))
                  (delete_at-Deletes key n r (right_of c l j w ∷ path) p.right))
          | inr le ↦ rw (ge, le, descend) (delete_here key j w (ground arith) n c l r path p.below)
        ]
      ]

  abbrev pub value_of : Option (ℕ × V) → Option V
  value_of none = none
  value_of (some (k, v)) = some v

  -- On a tree whose keys ascend, the search returns what the list has under the key.
  pub find_node-lookup :
      (key : ℕ) (t : Tree V)
      → IsAscending (items t)
      → value_of (find_node key t) ≡ lookup key (items t)
  unfolding find_node items
  find_node-lookup key nil h = unfold lookup in refl
  find_node-lookup key (node c l j w r) h =
      let p = parts c l j w r h in
      ground (
        arith,
        find_node-lookup key l p.left,
        find_node-lookup key r p.right,
        lookup_left key j w (items l) (items r),
        lookup_right key j w (items l) (items r),
        lookup_here key j w (items l) (items r),
      )

  size-insert_at :
      (key : ℕ) (value : V) (n : ℕ) (t : Tree V) (path : List (Frame V))
      → IsAscending (items t)
      → (insert_at key value n (descend key t path)).size
        ≡ elim (lookup key (items t)) [ none ↦ n + 1 | some w ↦ n ]
  unfolding insert_at descend items
  size-insert_at key value n nil path h = unfold lookup in refl
  size-insert_at key value n (node c l j w r) path h =
      let p = parts c l j w r h in
      ground (
        arith,
        size-insert_at key value n l (left_of c j w r ∷ path) p.left,
        size-insert_at key value n r (right_of c l j w ∷ path) p.right,
        lookup_left key j w (items l) (items r),
        lookup_right key j w (items l) (items r),
        lookup_here key j w (items l) (items r),
      )

  -- The tree holds the entries of an ascending list, and counts them.
  pub record Represents (t : RedBlackTree V) (m : List (ℕ × V)) : Type 0 where
    pub contents : items t.root ≡ m
    pub ascending : IsAscending m
    pub counted : t.size ≡ length m

  insert_root-Represents :
      (key : ℕ) (value : V) (n : ℕ) (root : Tree V)
      → IsAscending (items root)
      → n ≡ length (items root)
      → Represents (insert_root key value n root) (put key value (items root))
  unfolding insert_root
  insert_root-Represents key value n nil h s =
      unfold items put in (record { contents = refl; ascending = (tt, tt); counted = refl })
  insert_root-Represents key value n (node c l k v r) h s =
      let t = node c l k v r in
      record {
        contents =
            items-insert_at key value n t [] h
            ∙ (unfold before_path after_path in append-nil (put key value (items t)));
        ascending = put-IsAscending key value (items t) h;
        counted = ground (arith, size-insert_at key value n t [] h, length-put key value (items t));
      }

  -- `insert` puts the key and the value in the place of the key in the order, or renews the value
  -- of a key that is there, and counts the entries.
  pub insert-Represents :
      (key : ℕ) (value : V) (t : RedBlackTree V) (m : List (ℕ × V))
      → Represents t m
      → Represents (insert key value t) (put key value m)
  insert-Represents key value t m h =
      let r =
        insert_root-Represents key value t.size t.root (rw h.contents h.ascending)
          (h.counted ∙ ap length (sym h.contents)) in
      subst (λ xs. Represents (insert key value t) (put key value xs)) h.contents
        (unfold insert in r)

  abbrev pub DeletesOrRaises : ℕ → List (ℕ × V) → Result (RedBlackTree V) → Type 0
  DeletesOrRaises key m r =
      ((lookup key m ≡ none) × (r ≡ raise key_error))
      ⊎ ((lookup key m ≢ none) × ((t : RedBlackTree V) × (r ≡ ok t) × Represents t (remove key m)))

  deletes_or_raises :
      (key n : ℕ) (m : List (ℕ × V)) (r : Result (RedBlackTree V))
      → IsAscending m
      → n ≡ length m
      → Deletes key n [] m [] r
      → DeletesOrRaises key m r
  deletes_or_raises key n m (raise e) h s d = inl (d.1, ap raise d.0)
  deletes_or_raises key n m (ok t) h s d = inr (
    d.2,
    (
      t,
      refl,
      record {
        contents = d.1 ∙ append-nil (remove key m);
        ascending = remove-IsAscending key m h;
        counted = d.0 ∙ (rw s (sym (length-remove key m d.2)));
      },
    ),
  )

  -- `delete` takes the entry of a key that is there out of the list, and raises `KeyError` for
  -- exactly the keys that are not there.
  pub delete-Represents :
      (key : ℕ) (t : RedBlackTree V) (m : List (ℕ × V))
      → Represents t m
      → DeletesOrRaises key m (delete key t)
  unfolding delete
  delete-Represents key t m h =
      let asc : IsAscending (items t.root) = rw h.contents h.ascending in
      let d = delete_at-Deletes key t.size t.root [] asc in
      let s : t.size ≡ length (items t.root) = h.counted ∙ ap length (sym h.contents) in
      subst (λ xs. DeletesOrRaises key xs (delete key t)) h.contents
        (deletes_or_raises key t.size (items t.root) (delete key t) asc s
          (unfold before_path after_path in d))
