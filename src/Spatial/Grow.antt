-- ===== src/Spatial/Grow.antt =====
-- What `_insert_entry` does to the tree.
use nexus_smarttrading.Prelude.{
  ℕ, suc, ◌+◌, ◌≤◌, ◌<◌, ◌≡◌, refl, sym, ap, ◌∙◌, Bool, true, Option, none, some, List, [], ◌∷◌,
  if◌then◌else◌, length, count, count-append, ok, arith,
}
use mathlib.Core.Path.{subst}
use nexus_smarttrading.Spatial.{Floats, Box, compute_bounds}
use nexus_smarttrading.Spatial.Split.{seconds}
use nexus_smarttrading.Spatial.Tree.{
  leaf, inner, no_nodes, next_node, to_list, from_list, all_bounds, entries, all_entries, Entry,
  Tree, Forest, leaf_of, inner_of, entry_boxes, entries_boxed, boxed, with_box, split_leaf,
  split_inner,
}
use nexus_smarttrading.Spatial.Boxes.{AllOf}
use nexus_smarttrading.Spatial.Valid.{has_box, IsNode, IsForest}
use nexus_smarttrading.Spatial.Parts.{sum}
use nexus_smarttrading.Spatial.Groups.{split_elements_lem}
use nexus_smarttrading.Spatial.Shrink.{to_list-from_list}

module _ (floats : Floats) (D : Type 0) where
  open floats use {Float, lt, eq, infinity}

  abbrev pub IsChild : Tree floats D → Type 0
  IsChild c = IsNode floats D c × (has_box c ≡ true)

  -- The entries of a node that pass a test.
  abbrev pub weight : (Entry floats D → Bool) → Tree floats D → ℕ
  weight p c = count p (entries c)

  abbrev pub sibling_weight : (Entry floats D → Bool) → Option (Tree floats D) → ℕ
  sibling_weight p none = 0
  sibling_weight p (some c) = weight p c

  abbrev pub IsSibling : Option (Tree floats D) → Type 0
  IsSibling none = Unit
  IsSibling (some c) = IsChild c

  -- A node with its sibling that holds one entry more than before, with the weights of before.
  pub record IsGrown (before : (Entry floats D → Bool) → ℕ) (e : Entry floats D)
      (r : Tree floats D × Option (Tree floats D)) : Type 0 where
    pub node : IsChild r.0
    pub sibling : IsSibling r.1
    pub weights :
        (p : Entry floats D → Bool)
        → weight p r.0 + sibling_weight p r.1 ≡ (if p e then 1 else 0) + before p

  pub children-IsForest :
      (cs : List (Tree floats D)) → AllOf IsChild cs → IsForest floats D (from_list cs)
  children-IsForest [] h = tt
  children-IsForest (c ∷ cs) ((v, b), hs) = (v, b, children-IsForest cs hs)

  pub forest-children : (cs : Forest floats D) → IsForest floats D cs → AllOf IsChild (to_list cs)
  forest-children no_nodes h = tt
  forest-children (next_node c cs) (v, b, rest) = ((v, b), forest-children cs rest)

  pub leaf_of-IsChild :
      (items : List (Entry floats D)) → 0 < length items → IsChild (leaf_of floats D items)
  unfolding leaf_of compute_bounds entry_boxes
  leaf_of-IsChild [] h = absurd (omega arith)
  leaf_of-IsChild (e ∷ es) h = (refl, refl)

  pub inner_of-IsChild :
      (cs : List (Tree floats D))
      → 0 < length cs
      → AllOf IsChild cs
      → IsChild (inner_of floats D cs)
  unfolding inner_of compute_bounds
  inner_of-IsChild [] h k = absurd (omega arith)
  inner_of-IsChild (leaf es none ∷ cs) h ((v, b), ks) = absurd (ground (arith, b))
  inner_of-IsChild (inner ds none ∷ cs) h ((v, b), ks) = absurd (ground (arith, b))
  inner_of-IsChild (leaf es (some o) ∷ cs) h (k, ks) = (
    (
      ap (λ l. compute_bounds floats (o ∷ all_bounds l)) (sym (to_list-from_list cs)),
      children-IsForest (leaf es (some o) ∷ cs) (k, ks),
    ),
    refl,
  )
  inner_of-IsChild (inner ds (some o) ∷ cs) h (k, ks) = (
    (
      ap (λ l. compute_bounds floats (o ∷ all_bounds l)) (sym (to_list-from_list cs)),
      children-IsForest (inner ds (some o) ∷ cs) (k, ks),
    ),
    refl,
  )

  pub weight-from_list :
      (p : Entry floats D → Bool) (cs : List (Tree floats D))
      → count p (all_entries (from_list cs)) ≡ sum (weight p) cs
  unfolding all_entries
  weight-from_list p [] = refl
  weight-from_list p (c ∷ cs) =
      omega (arith, weight-from_list p cs, count-append p (all_entries (from_list cs)) (entries c))

  pub weight-inner_of :
      (p : Entry floats D → Bool) (cs : List (Tree floats D))
      → weight p (inner_of floats D cs) ≡ sum (weight p) cs
  unfolding inner_of entries
  weight-inner_of p cs = weight-from_list p cs

  pub weight-leaf_of :
      (p : Entry floats D → Bool) (es : List (Entry floats D))
      → weight p (leaf_of floats D es) ≡ count p es
  unfolding leaf_of entries
  weight-leaf_of p es = refl

  count-sum :
      (p : Entry floats D → Bool) (es : List (Entry floats D))
      → sum (λ e. if p e then 1 else 0) es ≡ count p es
  count-sum p [] = refl
  count-sum p (e ∷ es) = omega (arith, count-sum p es)

  seconds-entries_boxed : (es : List (Entry floats D)) → seconds (entries_boxed floats D es) ≡ es
  unfolding entries_boxed
  seconds-entries_boxed [] = refl
  seconds-entries_boxed (e ∷ es) = ap (λ l. e ∷ l) (seconds-entries_boxed es)

  length-entries_boxed :
      (es : List (Entry floats D)) → length (entries_boxed floats D es) ≡ length es
  unfolding entries_boxed
  length-entries_boxed [] = refl
  length-entries_boxed (e ∷ es) = ap suc (length-entries_boxed es)

  AllOf-Unit {ℓ} : {A : Type ℓ} (xs : List A) → AllOf (λ x. Unit {0}) xs
  AllOf-Unit [] = tt
  AllOf-Unit (x ∷ xs) = (tt, AllOf-Unit xs)

  module _ (max_entries min_entries : ℕ) (room : 2 ≤ max_entries) where
    pub split_leaf_lem :
        (items : List (Entry floats D)) (e : Entry floats D) (before : (Entry floats D → Bool) → ℕ)
        → 2 ≤ length items
        → ((p : Entry floats D → Bool) → count p items ≡ (if p e then 1 else 0) + before p)
        → (r : Tree floats D × Option (Tree floats D)) × (split_leaf floats D max_entries
              min_entries items
            ≡ ok r)
          × IsGrown before e r
    unfolding split_leaf
    split_leaf_lem items e before h k =
        let elements = entries_boxed floats D items in
        let (g1, g2, same, parts) =
          split_elements_lem floats (λ x. Unit {0}) min_entries elements
            (omega (arith, h, length-entries_boxed items)) (AllOf-Unit (seconds elements)) in
        (
          (leaf_of floats D g1, some (leaf_of floats D g2)),
          rw same refl,
          record {
            node = leaf_of-IsChild g1 parts.some1;
            sibling = leaf_of-IsChild g2 parts.some2;
            weights = λ p.
                let s = parts.sums (λ x. if p x then 1 else 0) in
                let t : sum (λ x. if p x then 1 else 0) (seconds elements) ≡ count p items =
                  ap (sum (λ x. if p x then 1 else 0)) (seconds-entries_boxed items)
                  ∙ count-sum p items in
                omega (
                  arith,
                  s,
                  t,
                  k p,
                  count-sum p g1,
                  count-sum p g2,
                  weight-leaf_of p g1,
                  weight-leaf_of p g2,
                );
          },
        )

    boxed_lem :
        (cs : List (Tree floats D))
        → AllOf IsChild cs
        → (elements : List (Box floats × Tree floats D)) × (boxed cs ≡ ok elements)
          × (seconds elements ≡ cs)
          × (length elements ≡ length cs)
    unfolding boxed with_box
    boxed_lem [] h = ([], refl, refl, refl)
    boxed_lem (leaf es none ∷ cs) ((v, b), ks) = absurd (ground (arith, b))
    boxed_lem (inner ds none ∷ cs) ((v, b), ks) = absurd (ground (arith, b))
    boxed_lem (leaf es (some o) ∷ cs) (k, ks) =
        let (rest, e, s, l) = boxed_lem cs ks in
        ((o, leaf es (some o)) ∷ rest, rw e refl, ap (λ xs. leaf es (some o) ∷ xs) s, ap suc l)
    boxed_lem (inner ds (some o) ∷ cs) (k, ks) =
        let (rest, e, s, l) = boxed_lem cs ks in
        ((o, inner ds (some o)) ∷ rest, rw e refl, ap (λ xs. inner ds (some o) ∷ xs) s, ap suc l)

    pub split_inner_lem :
        (children : List (Tree floats D)) (e : Entry floats D)
        (before : (Entry floats D → Bool) → ℕ)
        → 2 ≤ length children
        → AllOf IsChild children
        → ((p : Entry floats D → Bool)
            → sum (weight p) children ≡ (if p e then 1 else 0) + before p)
        → (r : Tree floats D × Option (Tree floats D)) × (split_inner floats D max_entries
              min_entries children
            ≡ ok r)
          × IsGrown before e r
    unfolding split_inner
    split_inner_lem children e before h fine k =
        let (elements, boxes, same_children, size) = boxed_lem children fine in
        let (g1, g2, same, parts) =
          split_elements_lem floats IsChild min_entries elements (omega (arith, h, size))
            (subst (AllOf IsChild) (sym same_children) fine) in
        (
          (inner_of floats D g1, some (inner_of floats D g2)),
          rw (boxes, same) refl,
          record {
            node = inner_of-IsChild g1 parts.some1 parts.all1;
            sibling = inner_of-IsChild g2 parts.some2 parts.all2;
            weights = λ p.
                let s = parts.sums (weight p) in
                let t : sum (weight p) (seconds elements) ≡ sum (weight p) children =
                  ap (sum (weight p)) same_children in
                omega (arith, s, t, k p, weight-inner_of p g1, weight-inner_of p g2);
          },
        )
