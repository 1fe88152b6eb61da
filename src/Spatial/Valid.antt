-- ===== src/Spatial/Valid.antt =====
-- Trees whose boxes are those of what they hold.
use nexus_smarttrading.Prelude.{
  ℕ, ◌≡◌, refl, sym, ◌∙◌, Bool, true, false, none, some, List, [], ◌∷◌, if◌then◌else◌, arith, count,
  ◌≤◌,
}
use nexus_smarttrading.Spatial.{Floats, Box, compute_bounds}
use nexus_smarttrading.Spatial.Tree.{
  Node, leaf, inner, no_nodes, next_node, node_bounds, to_list, all_bounds, entries, all_entries,
  Entry, Tree, Forest, entry_boxes, has_id,
}
use nexus_smarttrading.Prelude.Dict.{contains}
use nexus_smarttrading.Spatial.Index.{SpatialIndex}
use nexus_smarttrading.Spatial.Boxes.{
  AllOf-append, AllOf, IsInside, AllOf-outer, compute_bounds-IsInside,
}

abbrev pub has_box : {B E : Type 0} → Node B E → Bool
has_box n = elim (node_bounds n) [ none ↦ false | some b ↦ true ]

module _ (floats : Floats) (D : Type 0) where
  abbrev mutual
    pub IsNode : Tree floats D → Type 0
    IsNode (leaf items b) = b ≡ compute_bounds floats (entry_boxes floats D items)
    IsNode (inner children b) =
        (b ≡ compute_bounds floats (all_bounds (to_list children))) × IsForest children

    -- Every child has a box.
    pub IsForest : Forest floats D → Type 0
    IsForest no_nodes = Unit
    IsForest (next_node c cs) = IsNode c × (has_box c ≡ true) × IsForest cs

  items-IsInside :
      (items : List (Entry floats D)) (o : Box floats)
      → AllOf (λ b. IsInside floats b o) (entry_boxes floats D items)
      → AllOf (λ e. IsInside floats e.bounds o) items
  unfolding entry_boxes
  items-IsInside [] o h = tt
  items-IsInside (e ∷ es) o (h, hs) = (h, items-IsInside es o hs)

  mutual
    unfolding entries all_entries

    -- The entries of a node lie in its box.
    pub entries-IsInside :
        (n : Tree floats D) (b outer : Box floats)
        → IsNode n
        → node_bounds n ≡ some b
        → IsInside floats b outer
        → AllOf (λ e. IsInside floats e.bounds outer) (entries n)
    entries-IsInside (leaf items c) b outer valid h k = items-IsInside items outer (
        AllOf-outer floats (entry_boxes floats D items) b outer
          (compute_bounds-IsInside floats (entry_boxes floats D items) b (sym valid ∙ h)) k)
    entries-IsInside (inner children c) b outer (valid, below) h k =
        all_entries-IsInside children outer below (
          AllOf-outer floats (all_bounds (to_list children)) b outer
            (compute_bounds-IsInside floats (all_bounds (to_list children)) b (sym valid ∙ h)) k)

    all_entries-IsInside :
        (cs : Forest floats D) (outer : Box floats)
        → IsForest cs
        → AllOf (λ b. IsInside floats b outer) (all_bounds (to_list cs))
        → AllOf (λ e. IsInside floats e.bounds outer) (all_entries cs)
    all_entries-IsInside no_nodes outer h k = tt
    all_entries-IsInside (next_node (leaf items (some b)) cs) outer (valid, box, rest) (k, ks) =
        AllOf-append _ (all_entries cs) items (all_entries-IsInside cs outer rest ks)
          (entries-IsInside (leaf items (some b)) b outer valid refl k)
    all_entries-IsInside (next_node (leaf items none) cs) outer (valid, box, rest) k =
        absurd (ground (arith, box))
    all_entries-IsInside (next_node (inner children (some b)) cs) outer (valid, box, rest) (k, ks) =
        AllOf-append _ (all_entries cs) (all_entries children)
          (all_entries-IsInside cs outer rest ks)
          (entries-IsInside (inner children (some b)) b outer valid refl k)
    all_entries-IsInside (next_node (inner children none) cs) outer (valid, box, rest) k =
        absurd (ground (arith, box))

  -- A tree whose boxes are right, and whose entries are those of the dict, once each.
  pub record IsIndex (s : SpatialIndex floats D) : Type 0 where
    pub valid : IsNode s.root
    pub once :
        (id : ℕ)
        → count (has_id floats D id) (entries s.root) ≡ (if contains id s.items then 1 else 0)
    pub room : 2 ≤ s.max_entries
