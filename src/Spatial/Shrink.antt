-- ===== src/Spatial/Shrink.antt =====
-- What `remove` does to the tree.
use nexus_smarttrading.Prelude.{
  ℕ, ◌+◌, ◌<◌, ◌≡◌, refl, sym, ap, ◌∙◌, Bool, true, false, Option, none, some, List, [], ◌∷◌, ◌++◌,
  if◌then◌else◌, count, count-append, arith, Bool-cases, inl, inr,
}
use mathlib.Core.List.{append-nil}
use mathlib.Core.Path.{subst}
use nexus_smarttrading.Spatial.{Floats, Box, compute_bounds}
use nexus_smarttrading.Spatial.Tree.{
  Node, Nodes, leaf, inner, no_nodes, next_node, to_list, from_list, all_bounds, entries,
  all_entries, Entry, Tree, Forest, has_id, holds, is_empty, leaf_of, inner_of, entry_boxes,
  remove_entry, remove_node, remove_below,
}
use nexus_smarttrading.Spatial.Index.{collapse, collapse_children, update_bounds}
use nexus_smarttrading.Spatial.Valid.{has_box, IsNode, IsForest}

pub to_list-from_list : {B E : Type 0} (cs : List (Node B E)) → to_list (from_list cs) ≡ cs
to_list-from_list [] = refl
to_list-from_list (c ∷ cs) = ap (λ l. c ∷ l) (to_list-from_list cs)

pub from_list-to_list : {B E : Type 0} (cs : Nodes B E) → from_list (to_list cs) ≡ cs
from_list-to_list no_nodes = refl
from_list-to_list (next_node c cs) = ap (next_node c) (from_list-to_list cs)

empty_entries : {B E : Type 0} (n : Node B E) → is_empty n ≡ true → entries n ≡ []
unfolding is_empty entries all_entries
empty_entries (leaf [] b) h = refl
empty_entries (leaf (e ∷ es) b) h = absurd (ground (arith, h))
empty_entries (inner no_nodes b) h = refl
empty_entries (inner (next_node c cs) b) h = absurd (ground (arith, h))

module _ (floats : Floats) (D : Type 0) where
  pub leaf_of-IsNode : (items : List (Entry floats D)) → IsNode floats D (leaf_of floats D items)
  unfolding leaf_of
  leaf_of-IsNode items = refl

  pub inner_of-IsNode :
      (cs : Forest floats D)
      → IsForest floats D cs
      → IsNode floats D (inner_of floats D (to_list cs))
  unfolding inner_of
  inner_of-IsNode cs h =
      let same = from_list-to_list cs in
      (
        ap (λ l. compute_bounds floats (all_bounds l)) (sym (to_list-from_list (to_list cs))),
        subst (IsForest floats D) (sym same) h,
      )

  pub entries-inner_of :
      (cs : Forest floats D) → entries (inner_of floats D (to_list cs)) ≡ all_entries cs
  unfolding inner_of entries
  entries-inner_of cs = ap all_entries (from_list-to_list cs)

  pub nonempty-has_box :
      (n : Tree floats D) → IsNode floats D n → is_empty n ≡ false → has_box n ≡ true
  unfolding is_empty compute_bounds entry_boxes
  nonempty-has_box (leaf [] b) h e = absurd (ground (arith, e))
  nonempty-has_box (leaf (x ∷ xs) b) h e = rw h refl
  nonempty-has_box (inner no_nodes b) h e = absurd (ground (arith, e))
  nonempty-has_box (inner (next_node (leaf es none) cs) b) (h, (v, box, rest)) e =
      absurd (ground (arith, box))
  nonempty-has_box (inner (next_node (leaf es (some o)) cs) b) (h, (v, box, rest)) e = rw h refl
  nonempty-has_box (inner (next_node (inner ds none) cs) b) (h, (v, box, rest)) e =
      absurd (ground (arith, box))
  nonempty-has_box (inner (next_node (inner ds (some o)) cs) b) (h, (v, box, rest)) e = rw h refl

  -- One entry with the identifier is gone.
  unfoldable pub Removed : ℕ → List (Entry floats D) → List (Entry floats D) → Type 0
  Removed id before after =
      (e : Entry floats D) × (has_id floats D id e ≡ true)
      × ((p : Entry floats D → Bool) → count p before ≡ (if p e then 1 else 0) + count p after)

  remove_entry-Removed :
      (id : ℕ) (es : List (Entry floats D))
      → 0 < count (has_id floats D id) es
      → Removed id es (remove_entry floats D id es)
  unfolding remove_entry Removed
  remove_entry-Removed id [] h = absurd (omega arith)
  remove_entry-Removed id (e ∷ es) h = elim (Bool-cases (has_id floats D id e)) [
    | inl k ↦ rw k (e, k, λ p. refl)
    | inr k ↦
        let (x, y, z) = remove_entry-Removed id es (ground (arith, h, k)) in
        rw k (x, y, λ p. let t = z p in omega (arith, t))
  ]

  remove_leaf-Removed :
      (id : ℕ) (es : List (Entry floats D))
      → 0 < count (has_id floats D id) es
      → Removed id es (entries (leaf_of floats D (remove_entry floats D id es)))
  unfolding leaf_of entries
  remove_leaf-Removed id es h = remove_entry-Removed id es h

  Removed-append_left :
      (id : ℕ) (xs ys after : List (Entry floats D))
      → Removed id ys after
      → Removed id (xs ++ ys) (xs ++ after)
  unfolding Removed
  Removed-append_left id xs ys after (e, h, k) =
      (e, h, λ p. omega (arith, k p, count-append p xs ys, count-append p xs after))

  Removed-append_right :
      (id : ℕ) (xs ys after : List (Entry floats D))
      → Removed id xs after
      → Removed id (xs ++ ys) (after ++ ys)
  unfolding Removed
  Removed-append_right id xs ys after (e, h, k) =
      (e, h, λ p. omega (arith, k p, count-append p xs ys, count-append p after ys))

  -- The child that is left without entries is gone.
  Removed-pruned :
      (id : ℕ) (xs ys after : List (Entry floats D))
      → Removed id ys after
      → after ≡ []
      → Removed id (xs ++ ys) xs
  Removed-pruned id xs ys after h e =
      subst (Removed id (xs ++ ys)) (ap (λ l. xs ++ l) e ∙ append-nil xs)
        (Removed-append_left id xs ys after h)

  mutual
    unfolding remove_node remove_below entries all_entries

    pub remove_node_lem :
        (id : ℕ) (n : Tree floats D)
        → IsNode floats D n
        → 0 < count (has_id floats D id) (entries n)
        → IsNode floats D (remove_node floats D id n)
          × Removed id (entries n) (entries (remove_node floats D id n))
    remove_node_lem id (leaf items b) valid h = (leaf_of-IsNode _, remove_leaf-Removed id items h)
    remove_node_lem id (inner cs b) (same, below) h =
        let (valid, removed) = remove_below_lem id cs below h in
        (
          inner_of-IsNode (remove_below floats D id cs) valid,
          subst (Removed id (all_entries cs)) (sym (entries-inner_of (remove_below floats D id cs)))
              removed,
        )

    remove_below_lem :
        (id : ℕ) (cs : Forest floats D)
        → IsForest floats D cs
        → 0 < count (has_id floats D id) (all_entries cs)
        → IsForest floats D (remove_below floats D id cs)
          × Removed id (all_entries cs) (all_entries (remove_below floats D id cs))
    remove_below_lem id no_nodes valid h = absurd (omega arith)
    remove_below_lem id (next_node c cs) (valid, box, rest) h =
        let parts = count-append (has_id floats D id) (all_entries cs) (entries c) in
        elim (Bool-cases (holds floats D id c)) [
          | inl k ↦
              let (fine, removed) = remove_node_lem id c valid (ground (arith, k)) in
              elim (Bool-cases (is_empty (remove_node floats D id c))) [
                | inl l ↦
                    rw (k, l)
                      (
                        rest,
                        Removed-pruned id (all_entries cs) (entries c)
                            (entries (remove_node floats D id c)) removed
                            (empty_entries (remove_node floats D id c) l),
                      )
                | inr l ↦
                    rw (k, l)
                      (
                        (fine, nonempty-has_box (remove_node floats D id c) fine l, rest),
                        Removed-append_left id (all_entries cs) (entries c)
                            (entries (remove_node floats D id c)) removed,
                      )
              ]
          | inr k ↦
              let (fine, removed) = remove_below_lem id cs rest (ground (arith, k, h, parts)) in
              rw k (
                (valid, box, fine),
                Removed-append_right id (all_entries cs) (entries c)
                    (all_entries (remove_below floats D id cs)) removed,
              )
        ]

  no_entries_computed : none ≡ compute_bounds floats (entry_boxes floats D [])
  unfolding compute_bounds entry_boxes
  no_entries_computed = refl

  mutual
    unfolding collapse collapse_children entries all_entries

    pub collapse_lem :
        (n : Tree floats D)
        → IsNode floats D n
        → IsNode floats D (collapse floats D n) × (entries (collapse floats D n) ≡ entries n)
    collapse_lem (leaf es b) h = (h, refl)
    collapse_lem (inner cs b) h = collapse_children_lem cs b h

    collapse_children_lem :
        (cs : Forest floats D) (b : Option (Box floats))
        → IsNode floats D (inner cs b)
        → IsNode floats D (collapse_children floats D cs b)
          × (entries (collapse_children floats D cs b) ≡ all_entries cs)
    collapse_children_lem no_nodes b h = (no_entries_computed, refl)
    collapse_children_lem (next_node c no_nodes) b (same, (valid, box, rest)) = collapse_lem c valid
    collapse_children_lem (next_node c (next_node d cs)) b h = (h, refl)

  pub update_bounds_lem :
      (n : Tree floats D)
      → IsNode floats D n
      → IsNode floats D (update_bounds floats D n)
        × (entries (update_bounds floats D n) ≡ entries n)
  unfolding update_bounds leaf_of entries
  update_bounds_lem (leaf es b) h = (refl, refl)
  update_bounds_lem (inner cs b) (same, below) = (inner_of-IsNode cs below, entries-inner_of cs)
