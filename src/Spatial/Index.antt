-- ===== src/Spatial/Index.antt =====
-- `SpatialIndex`.
use nexus_smarttrading.Prelude.{
  ℕ, zero, suc, ◌+◌, ◌/◌, Bool, true, false, not, ◌&&◌, ◌||◌, Option, none, some, List, [], ◌∷◌,
  ◌++◌, ◌==◌, leb, if◌then◌else◌, length, Result, ok, raise, value_error, out_of_fuel, ◌>>=◌, ◌>>◌,
  guard,
}
use nexus_smarttrading.Prelude.Dict.{contains, insert, erase}
use nexus_smarttrading.Spatial.{
  Floats, Box, HitResult, bar, point, to_hit_result, validate_coordinate, make_box, intersects,
  entry_hit_test,
}
use nexus_smarttrading.Spatial.Tree.{
  Nodes, leaf, inner, no_nodes, next_node, node_bounds, to_list, Entry, Tree, leaf_of, inner_of,
  remove_node, insert_node, node_count,
}

module _ (floats : Floats) (D : Type 0) where
  open floats use {Float, Coordinate, lt, sub, add, value}

  -- `_items` without the leaves: that of an entry is where the tree holds it.
  pub record SpatialIndex : Type 0 where
    pub max_entries : ℕ
    pub min_entries : ℕ
    pub root : Tree floats D
    pub items : List (ℕ × Entry floats D)

  abbrev pub Hit : Type 0
  Hit = HitResult Coordinate D

  unfoldable pub init : ℕ → ℕ → Result SpatialIndex
  init max_entries min_entries = do
    guard (leb 2 max_entries) value_error
    guard (leb 1 min_entries) value_error
    guard (leb min_entries ((max_entries + 1) / 2)) value_error
    ok (record {
      max_entries = max_entries;
      min_entries = min_entries;
      root = leaf [] none;
      items = [];
    })

  unfoldable pub len : SpatialIndex → ℕ
  len s = length s.items

  -- Whether there are no items.
  unfoldable pub no_items : SpatialIndex → Bool
  no_items s = length s.items == 0

  unfoldable pub index_bounds : SpatialIndex → Option (Box floats)
  index_bounds s = if no_items s then none else node_bounds s.root

  unfoldable pub no_box : Tree floats D → Bool
  no_box n = elim (node_bounds n) [ none ↦ true | some b ↦ false ]

  -- The loop that collapses roots of one child.
  unfoldable mutual
    pub collapse : Tree floats D → Tree floats D
    collapse (leaf entries b) = leaf entries b
    collapse (inner children b) = collapse_children children b

    pub collapse_children :
        Nodes (Box floats) (Entry floats D) → Option (Box floats) → Tree floats D
    collapse_children no_nodes b = leaf [] none
    collapse_children (next_node c no_nodes) b = collapse c
    collapse_children (next_node c (next_node d cs)) b = inner (next_node c (next_node d cs)) b

  -- `update_bounds`
  unfoldable pub update_bounds : Tree floats D → Tree floats D
  update_bounds (leaf entries b) = leaf_of floats D entries
  update_bounds (inner children b) = inner_of floats D (to_list children)

  unfoldable pub remove : SpatialIndex → ℕ → Bool × SpatialIndex
  remove s item_id =
      if contains item_id s.items
      then (
        true,
        record s {
          root = update_bounds (collapse (remove_node floats D item_id s.root));
          items = erase item_id s.items;
        },
      )
      else (false, s)

  -- `_adjust_tree` at the root.
  unfoldable pub grow_root : Tree floats D → Option (Tree floats D) → Tree floats D
  grow_root node none = node
  grow_root node (some new_node) = inner_of floats D (node ∷ new_node ∷ [])

  unfoldable pub insert_entry : SpatialIndex → Entry floats D → Result SpatialIndex
  insert_entry s e = do
    let cleared = if contains e.item_id s.items then (remove s e.item_id).1 else s
    (node, new_node) ← insert_node floats D s.max_entries s.min_entries cleared.root e
    ok (record cleared { root = grow_root node new_node; items = insert e.item_id e cleared.items })

  -- `insert`
  unfoldable pub insert_box : SpatialIndex → ℕ → Box floats → D → Result SpatialIndex
  insert_box s item_id bounds payload =
      insert_entry s (record { item_id = item_id; bounds = bounds; payload = payload; shape = bar })

  unfoldable pub insert_bar :
      SpatialIndex → ℕ → Float → Float → Float → Float → D → Result SpatialIndex
  insert_bar s item_id min_x min_y max_x max_y payload = do
    bbox ← make_box floats min_x min_y max_x max_y
    insert_entry s (record { item_id = item_id; bounds = bbox; payload = payload; shape = bar })

  unfoldable pub insert_point : SpatialIndex → ℕ → Float → Float → Float → D → Result SpatialIndex
  insert_point s item_id x y radius payload = do
    qx ← validate_coordinate floats x
    qy ← validate_coordinate floats y
    r ← validate_coordinate floats radius
    guard (not (lt (value r) floats.zero)) value_error
    bbox ←
        make_box floats (sub (value qx) (value r)) (sub (value qy) (value r))
          (add (value qx) (value r)) (add (value qy) (value r))
    insert_entry s
        (record { item_id = item_id; bounds = bbox; payload = payload; shape = point qx qy r })

  unfoldable pub clear : SpatialIndex → SpatialIndex
  clear s = record s { root = leaf [] none; items = [] }

  module _ (query_box : Box floats) (passes : Entry floats D → Bool) where
    -- The inner loops of a query: the results of a leaf, and the children that are pushed.
    unfoldable pub leaf_results : List (Entry floats D) → List Hit
    leaf_results [] = []
    leaf_results (e ∷ es) =
        if intersects floats e.bounds query_box && passes e
        then to_hit_result e ∷ leaf_results es
        else leaf_results es

    unfoldable pub push_child :
        Option (Box floats) → Tree floats D → List (Tree floats D) → List (Tree floats D)
    push_child none c stack = stack
    push_child (some b) c stack = if intersects floats b query_box then c ∷ stack else stack

    unfoldable pub push_children :
        Nodes (Box floats) (Entry floats D) → List (Tree floats D) → List (Tree floats D)
    push_children no_nodes stack = stack
    push_children (next_node c cs) stack = push_children cs (push_child (node_bounds c) c stack)

    -- The loop over the stack, whose top is the head of the list. Each turn pops a node; the first
    -- argument is fuel.
    unfoldable pub query_loop : ℕ → List (Tree floats D) → List Hit → Result (List Hit)
    query_loop fuel [] results = ok results
    query_loop zero (n ∷ stack) results = raise out_of_fuel
    query_loop (suc fuel) (leaf entries b ∷ stack) results =
        query_loop fuel stack (results ++ leaf_results entries)
    query_loop (suc fuel) (inner children b ∷ stack) results =
        query_loop fuel (push_children children stack) results

    -- What `hit_test` and `query_rect` do with their box.
    unfoldable pub query_root : Option (Box floats) → Tree floats D → Result (List Hit)
    query_root none root = ok []
    query_root (some b) root =
        if intersects floats b query_box then query_loop (node_count root) (root ∷ []) [] else ok []

    unfoldable pub query : SpatialIndex → Result (List Hit)
    query s = if no_items s then ok [] else query_root (node_bounds s.root) s.root

  unfoldable pub hit_test : SpatialIndex → Float → Float → Float → Result (List Hit)
  hit_test s x y tolerance = do
    qx ← validate_coordinate floats x
    qy ← validate_coordinate floats y
    tol ← validate_coordinate floats tolerance
    guard (not (lt (value tol) floats.zero)) value_error
    if no_items s || no_box s.root then ok [] else (do
      query_box ←
          make_box floats (sub (value qx) (value tol)) (sub (value qy) (value tol))
            (add (value qx) (value tol)) (add (value qy) (value tol))
      query query_box (λ e. entry_hit_test floats e qx qy tol) s)

  unfoldable pub query_rect : SpatialIndex → Float → Float → Float → Float → Result (List Hit)
  query_rect s min_x min_y max_x max_y = do
    query_box ← make_box floats min_x min_y max_x max_y
    query query_box (λ e. true) s
