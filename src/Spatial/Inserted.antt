-- ===== src/Spatial/Inserted.antt =====
-- `insert_node` puts one entry into a tree, and raises nothing.
use nexus_smarttrading.Prelude.{
  ℕ, zero, suc, ◌+◌, ◌≤◌, ◌<◌, ◌≡◌, refl, sym, ap, ◌∙◌, Bool, Option, none, some, List, [], ◌∷◌,
  ◌++◌, ltb, if◌then◌else◌, length, length-append, count, count-append, ok, arith, Bool-cases, inl,
  inr,
}
use nexus_smarttrading.Spatial.{Floats, Box, enlargement_area, area}
use nexus_smarttrading.Spatial.Tree.{
  leaf, inner, no_nodes, next_node, to_list, entries, all_entries, Entry, Tree, Forest, leaf_of,
  inner_of, best_child, add_to_leaf, adjust, insert_node, insert_nth,
}
use nexus_smarttrading.Spatial.Boxes.{AllOf-append, AllOf}
use nexus_smarttrading.Spatial.Valid.{IsNode, IsForest}
use nexus_smarttrading.Spatial.Parts.{sum, sum-append}
use nexus_smarttrading.Spatial.Shrink.{from_list-to_list}
use nexus_smarttrading.Spatial.Grow.{
  IsChild, weight, sibling_weight, IsSibling, IsGrown, forest-children, leaf_of-IsChild,
  inner_of-IsChild, weight-from_list, weight-inner_of, weight-leaf_of, split_leaf_lem,
  split_inner_lem,
}

module _ (floats : Floats) (D : Type 0) where
  open floats use {Float, lt, eq, infinity}

  best_child-bound :
      (n : ℕ) (b : Box floats) (i : ℕ) (cs : Forest floats D) (enl min_area : Float) (best : ℕ)
      → best < n
      → i + length (to_list cs) ≤ n
      → best_child floats D b i cs enl min_area best < n
  unfolding best_child
  best_child-bound n b i no_nodes enl min_area best h k = h
  best_child-bound n b i (next_node (leaf es none) cs) enl min_area best h k = omega arith
  best_child-bound n b i (next_node (inner ds none) cs) enl min_area best h k = omega arith
  best_child-bound n b i (next_node (leaf es (some o)) cs) enl min_area best h k =
      let growth = enlargement_area floats o b in
      let first =
        best_child-bound n b (suc i) cs growth (area floats o) i (omega arith) (omega arith) in
      let second =
        best_child-bound n b (suc i) cs enl (area floats o) i (omega arith) (omega arith) in
      let third = best_child-bound n b (suc i) cs enl min_area best h (omega arith) in
      ground (arith, first, second, third)
  best_child-bound n b i (next_node (inner ds (some o)) cs) enl min_area best h k =
      let growth = enlargement_area floats o b in
      let first =
        best_child-bound n b (suc i) cs growth (area floats o) i (omega arith) (omega arith) in
      let second =
        best_child-bound n b (suc i) cs enl (area floats o) i (omega arith) (omega arith) in
      let third = best_child-bound n b (suc i) cs enl min_area best h (omega arith) in
      ground (arith, first, second, third)

  weight-to_list :
      (p : Entry floats D → Bool) (cs : Forest floats D)
      → sum (weight floats D p) (to_list cs) ≡ count p (all_entries cs)
  weight-to_list p cs =
      sym (weight-from_list floats D p (to_list cs))
      ∙ ap (λ l. count p (all_entries l)) (from_list-to_list cs)

  module _ (max_entries min_entries : ℕ) (room : 2 ≤ max_entries) where
    add_to_leaf_lem :
        (items : List (Entry floats D)) (e : Entry floats D)
        → (r : Tree floats D × Option (Tree floats D)) × (add_to_leaf floats D max_entries
              min_entries items e
            ≡ ok r)
          × IsGrown floats D (λ p. count p items) e r
    unfolding add_to_leaf
    add_to_leaf_lem items e =
        let size = length-append items (e ∷ []) in
        let counts : (p : Entry floats D → Bool)
            → count p (items ++ (e ∷ [])) ≡ (if p e then 1 else 0) + count p items =
          λ p. omega (arith, count-append p items (e ∷ [])) in
        elim (Bool-cases (ltb max_entries (length (items ++ (e ∷ []))))) [
          | inl k ↦
              let (r, same, grown) =
                split_leaf_lem floats D max_entries min_entries room (items ++ (e ∷ [])) e
                  (λ p. count p items) (ground (arith, room, k)) counts in
              (r, rw k same, grown)
          | inr k ↦ (
            (leaf_of floats D (items ++ (e ∷ [])), none),
            rw k refl,
            record {
              node = leaf_of-IsChild floats D (items ++ (e ∷ [])) (omega (arith, size));
              sibling = tt;
              weights = λ p. omega (arith, counts p, weight-leaf_of floats D p (items ++ (e ∷ [])));
            },
          )
        ]

    adjust_lem :
        (children : List (Tree floats D)) (s : Option (Tree floats D)) (e : Entry floats D)
        (before : (Entry floats D → Bool) → ℕ)
        → 0 < length children
        → AllOf (IsChild floats D) children
        → IsSibling floats D s
        → ((p : Entry floats D → Bool)
            → sum (weight floats D p) children + sibling_weight floats D p s
              ≡ (if p e then 1 else 0) + before p)
        → (r : Tree floats D × Option (Tree floats D)) × (adjust floats D max_entries min_entries
              children s
            ≡ ok r)
          × IsGrown floats D before e r
    unfolding adjust
    adjust_lem children none e before h fine k w = (
      (inner_of floats D children, none),
      refl,
      record {
        node = inner_of-IsChild floats D children h fine;
        sibling = tt;
        weights = λ p. let x = w p in omega (arith, x, weight-inner_of floats D p children);
      },
    )
    adjust_lem children (some s) e before h fine k w =
        let both = children ++ (s ∷ []) in
        let all = AllOf-append (IsChild floats D) children (s ∷ []) fine (k, tt) in
        let size = length-append children (s ∷ []) in
        let sums : (p : Entry floats D → Bool)
            → sum (weight floats D p) both ≡ (if p e then 1 else 0) + before p =
          λ p. let x = w p in omega (arith, x, sum-append (weight floats D p) children (s ∷ [])) in
        elim (Bool-cases (ltb max_entries (length both))) [
          | inl l ↦
              let (r, same, grown) =
                split_inner_lem floats D max_entries min_entries room both e before
                  (omega (arith, size, h)) all sums in
              (r, rw l same, grown)
          | inr l ↦ (
            (inner_of floats D both, none),
            rw l refl,
            record {
              node = inner_of-IsChild floats D both (omega (arith, size)) all;
              sibling = tt;
              weights = λ p. omega (arith, sums p, weight-inner_of floats D p both);
            },
          )
        ]

    mutual
      unfolding insert_node insert_nth entries all_entries

      pub insert_node_lem :
          (n : Tree floats D) (e : Entry floats D)
          → IsNode floats D n
          → (r : Tree floats D × Option (Tree floats D)) × (insert_node floats D max_entries
                min_entries n e
              ≡ ok r)
            × IsGrown floats D (λ p. weight floats D p n) e r
      insert_node_lem (leaf items b) e h = add_to_leaf_lem items e
      insert_node_lem (inner no_nodes b) e h = add_to_leaf_lem [] e
      insert_node_lem (inner (next_node c cs) b) e (h, below) =
          let i = best_child floats D e.bounds 0 (next_node c cs) infinity infinity 0 in
          let bound =
            best_child-bound (length (to_list (next_node c cs))) e.bounds 0 (next_node c cs)
              infinity infinity 0 (omega arith) (omega arith) in
          let (children, s, same, valid, fine, w, size) =
            insert_nth_lem i (next_node c cs) e bound below in
          let (r, same2, grown) =
            adjust_lem (to_list children) s e (λ p. count p (all_entries (next_node c cs))) size
              (forest-children floats D children valid) fine
              (λ p. let x = w p in omega (arith, x, weight-to_list p children)) in
          (r, rw same same2, grown)

      insert_nth_lem :
          (i : ℕ) (cs : Forest floats D) (e : Entry floats D)
          → i < length (to_list cs)
          → IsForest floats D cs
          → (children : Forest floats D) × (s : Option (Tree floats D)) × (insert_nth floats D
                max_entries min_entries i cs e
              ≡ ok (children, s))
            × IsForest floats D children
            × IsSibling floats D s
            × ((p : Entry floats D → Bool)
                → count p (all_entries children) + sibling_weight floats D p s
                  ≡ (if p e then 1 else 0) + count p (all_entries cs))
            × (0 < length (to_list children))
      insert_nth_lem i no_nodes e h k = absurd (omega arith)
      insert_nth_lem zero (next_node c cs) e h (v, b, rest) =
          let (r, same, grown) = insert_node_lem c e v in
          let (v', b') = grown.node in
          (
            next_node r.0 cs,
            r.1,
            rw same refl,
            (v', b', rest),
            grown.sibling,
            (λ p.
                let w = grown.weights p in
                omega (
                  arith,
                  w,
                  count-append p (all_entries cs) (entries r.0),
                  count-append p (all_entries cs) (entries c),
                )),
            omega arith,
          )
      insert_nth_lem (suc i) (next_node c cs) e h (v, b, rest) =
          let (children, s, same, valid, fine, w, size) =
            insert_nth_lem i cs e (omega arith) rest in
          (
            next_node c children,
            s,
            rw same refl,
            (v, b, valid),
            fine,
            (λ p.
                let x = w p in
                omega (
                  arith,
                  x,
                  count-append p (all_entries children) (entries c),
                  count-append p (all_entries cs) (entries c),
                )),
            omega arith,
          )
