-- ===== src/Spatial/Tree.antt =====
-- `_RTreeNode`, and what `SpatialIndex` does below the root. A node is its subtree; the path that
-- `parent` leads along is the path of the recursion.
use nexus_smarttrading.Prelude.{
  ℕ, zero, suc, ◌+◌, Bool, true, false, ◌&&◌, Option, none, some, List, [], ◌∷◌, ◌++◌, ◌==◌, ltb,
  if◌then◌else◌, length, count, Result, ok, raise, attribute_error, index_error, ◌>>=◌,
}
use nexus_smarttrading.Spatial.{Floats, Box, IndexEntry, compute_bounds, area, enlargement_area}
use nexus_smarttrading.Spatial.Split.{split_elements}

mutual
  pub data Node (B E : Type 0) : Type 0 where
    leaf : List E → Option B → Node B E
    inner : Nodes B E → Option B → Node B E

  pub data Nodes (B E : Type 0) : Type 0 where
    no_nodes : Nodes B E
    next_node : Node B E → Nodes B E → Nodes B E

module _ {B E : Type 0} where
  abbrev pub node_bounds : Node B E → Option B
  node_bounds (leaf items b) = b
  node_bounds (inner children b) = b

  abbrev pub to_list : Nodes B E → List (Node B E)
  to_list no_nodes = []
  to_list (next_node c cs) = c ∷ to_list cs

  abbrev pub from_list : List (Node B E) → Nodes B E
  from_list [] = no_nodes
  from_list (c ∷ cs) = next_node c (from_list cs)

  -- The boxes of the nodes that have one.
  abbrev pub all_bounds : List (Node B E) → List B
  all_bounds [] = []
  all_bounds (c ∷ cs) = elim (node_bounds c) [ none ↦ all_bounds cs | some b ↦ b ∷ all_bounds cs ]

  -- A node without a box has no attributes of one.
  unfoldable pub with_box : Option B → Node B E → List (B × Node B E) → Result (List (B × Node B E))
  with_box none c rest = raise attribute_error
  with_box (some b) c rest = ok ((b, c) ∷ rest)

  unfoldable pub boxed : List (Node B E) → Result (List (B × Node B E))
  boxed [] = ok []
  boxed (c ∷ cs) = do rest ← boxed cs; with_box (node_bounds c) c rest

  unfoldable pub is_empty : Node B E → Bool
  is_empty (leaf [] b) = true
  is_empty (leaf (e ∷ es) b) = false
  is_empty (inner no_nodes b) = true
  is_empty (inner (next_node c cs) b) = false

  unfoldable mutual
    -- The entries in the order in which a query comes by their leaves: it pops the last child first.
    pub entries : Node B E → List E
    entries (leaf items b) = items
    entries (inner children b) = all_entries children

    pub all_entries : Nodes B E → List E
    all_entries no_nodes = []
    all_entries (next_node c cs) = all_entries cs ++ entries c

  unfoldable mutual
    pub node_count : Node B E → ℕ
    node_count (leaf items b) = 1
    node_count (inner children b) = suc (forest_count children)

    pub forest_count : Nodes B E → ℕ
    forest_count no_nodes = 0
    forest_count (next_node c cs) = node_count c + forest_count cs

module _ (floats : Floats) (D : Type 0) where
  open floats use {Float, Coordinate, lt, eq, infinity}

  abbrev pub Entry : Type 0
  Entry = IndexEntry Coordinate D

  abbrev pub Tree : Type 0
  Tree = Node (Box floats) Entry

  abbrev pub Forest : Type 0
  Forest = Nodes (Box floats) Entry

  abbrev pub has_id : ℕ → Entry → Bool
  has_id id e = id == e.item_id

  -- `update_bounds`
  unfoldable pub entry_boxes : List Entry → List (Box floats)
  entry_boxes [] = []
  entry_boxes (e ∷ es) = e.bounds ∷ entry_boxes es

  unfoldable pub leaf_of : List Entry → Tree
  leaf_of items = leaf items (compute_bounds floats (entry_boxes items))

  unfoldable pub inner_of : List Tree → Tree
  inner_of children = inner (from_list children) (compute_bounds floats (all_bounds children))

  unfoldable pub entries_boxed : List Entry → List (Box floats × Entry)
  entries_boxed [] = []
  entries_boxed (e ∷ es) = (e.bounds, e) ∷ entries_boxed es

  -- The loop of `_choose_leaf` over the children from index `i` on.
  unfoldable pub best_child : Box floats → ℕ → Forest → Float → Float → ℕ → ℕ
  best_child b i no_nodes min_enlargement min_area best = best
  best_child b i (next_node c cs) min_enlargement min_area best = elim (node_bounds c) [
    | none ↦ i
    | some box ↦
        let enl = enlargement_area floats box b in
        if lt enl min_enlargement
        then best_child b (suc i) cs enl (area floats box) i
        else if eq enl min_enlargement && lt (area floats box) min_area
        then best_child b (suc i) cs min_enlargement (area floats box) i
        else best_child b (suc i) cs min_enlargement min_area best
  ]

  -- What holds the entry of an identifier.
  abbrev pub holds : ℕ → Tree → Bool
  holds id n = ltb 0 (count (has_id id) (entries n))

  unfoldable pub remove_entry : ℕ → List Entry → List Entry
  remove_entry id [] = []
  remove_entry id (e ∷ es) = if has_id id e then es else e ∷ remove_entry id es

  unfoldable mutual
    -- The upward loop of `remove` from a leaf to this node.
    pub remove_node : ℕ → Tree → Tree
    remove_node id (leaf items b) = leaf_of (remove_entry id items)
    remove_node id (inner children b) = inner_of (to_list (remove_below id children))

    pub remove_below : ℕ → Forest → Forest
    remove_below id no_nodes = no_nodes
    remove_below id (next_node c cs) =
        if holds id c
        then (if is_empty (remove_node id c) then cs else next_node (remove_node id c) cs)
        else next_node c (remove_below id cs)

  module _ (max_entries min_entries : ℕ) where
    -- `_split_node` on a leaf and on an inner node.
    unfoldable pub split_leaf : List Entry → Result (Tree × Option Tree)
    split_leaf items = do
      (group1, group2) ← split_elements floats min_entries (entries_boxed items)
      ok (leaf_of group1, some (leaf_of group2))

    unfoldable pub split_inner : List Tree → Result (Tree × Option Tree)
    split_inner children = do
      elements ← boxed children
      (group1, group2) ← split_elements floats min_entries elements
      ok (inner_of group1, some (inner_of group2))

    unfoldable pub add_to_leaf : List Entry → Entry → Result (Tree × Option Tree)
    add_to_leaf items e =
        if ltb max_entries (length (items ++ (e ∷ [])))
        then split_leaf (items ++ (e ∷ []))
        else ok (leaf_of (items ++ (e ∷ [])), none)

    -- One step of `_adjust_tree` below the root: the children, and the sibling of one of them.
    unfoldable pub adjust : List Tree → Option Tree → Result (Tree × Option Tree)
    adjust children none = ok (inner_of children, none)
    adjust children (some new_node) =
        if ltb max_entries (length (children ++ (new_node ∷ [])))
        then split_inner (children ++ (new_node ∷ []))
        else ok (inner_of (children ++ (new_node ∷ [])), none)

    unfoldable mutual
      -- From `_choose_leaf` down to a leaf, and up again with `_adjust_tree`.
      pub insert_node : Tree → Entry → Result (Tree × Option Tree)
      insert_node (leaf items b) e = add_to_leaf items e
      insert_node (inner no_nodes b) e = add_to_leaf [] e
      insert_node (inner (next_node c cs) b) e = do
        (children, new_node) ←
            insert_nth (best_child e.bounds 0 (next_node c cs) infinity infinity 0) (next_node c cs)
              e
        adjust (to_list children) new_node

      pub insert_nth : ℕ → Forest → Entry → Result (Forest × Option Tree)
      insert_nth i no_nodes e = raise index_error
      insert_nth zero (next_node c cs) e = do
        (child, new_node) ← insert_node c e
        ok (next_node child cs, new_node)
      insert_nth (suc i) (next_node c cs) e = do
        (children, new_node) ← insert_nth i cs e
        ok (next_node c children, new_node)
