-- ===== src/Spatial/Visits.antt =====
-- The loop of a query visits all the entries that it can find.
use nexus_smarttrading.Prelude.{
  ℕ, zero, suc, ◌+◌, ◌≤◌, ◌≡◌, refl, sym, ap, ◌∙◌, Bool, true, false, ◌&&◌, Option, none, some,
  List, [], ◌∷◌, ◌++◌, ◌==◌, if◌then◌else◌, length, map, count, ok, arith, Bool-cases, inl, inr,
}
use mathlib.Core.List.{append_assoc, append-nil}
use nexus_smarttrading.Prelude.Dict.{contains}
use nexus_smarttrading.Spatial.{Floats, Box, to_hit_result, intersects, compute_bounds}
use nexus_smarttrading.Spatial.Tree.{
  leaf, inner, no_nodes, next_node, node_bounds, to_list, all_bounds, entries, all_entries, Entry,
  Tree, Forest, node_count, entry_boxes, forest_count, has_id,
}
use nexus_smarttrading.Spatial.Index.{
  SpatialIndex, Hit, no_items, leaf_results, push_child, push_children, query_loop, query_root,
  query,
}
use nexus_smarttrading.Spatial.Boxes.{AllOf, IsInside, IsInside-refl, intersects-IsInside}
use nexus_smarttrading.Spatial.Valid.{IsIndex, has_box, IsNode, IsForest, entries-IsInside}

-- The elements that pass a test.
abbrev pub filter {ℓ} : {A : Type ℓ} → (A → Bool) → List A → List A
filter p [] = []
filter p (x ∷ xs) = if p x then x ∷ filter p xs else filter p xs

module _ (floats : Floats) (D : Type 0) where
  open floats use {Float, Coordinate, lt, value, add, sub}

  computed_none : (bs : List (Box floats)) → compute_bounds floats bs ≡ none → bs ≡ []
  unfolding compute_bounds
  computed_none [] h = refl
  computed_none (b ∷ bs) h = absurd (ground (arith, h))

  boxes_nil : (es : List (Entry floats D)) → entry_boxes floats D es ≡ [] → es ≡ []
  unfolding entry_boxes
  boxes_nil [] h = refl
  boxes_nil (e ∷ es) h = absurd (ground (arith, h))

  forest_without_boxes :
      (cs : Forest floats D)
      → IsForest floats D cs
      → all_bounds (to_list cs) ≡ []
      → all_entries cs ≡ []
  unfolding all_entries
  forest_without_boxes no_nodes valid h = refl
  forest_without_boxes (next_node (leaf es none) cs) (v, box, rest) h = absurd (ground (arith, box))
  forest_without_boxes (next_node (leaf es (some b)) cs) (v, box, rest) h =
      absurd (ground (arith, h))
  forest_without_boxes (next_node (inner ds none) cs) (v, box, rest) h =
      absurd (ground (arith, box))
  forest_without_boxes (next_node (inner ds (some b)) cs) (v, box, rest) h =
      absurd (ground (arith, h))

  pub node_without_box :
      (n : Tree floats D) → IsNode floats D n → node_bounds n ≡ none → entries n ≡ []
  unfolding entries
  node_without_box (leaf es b) h e =
      boxes_nil es (computed_none (entry_boxes floats D es) (sym h ∙ e))
  node_without_box (inner cs b) (h, below) e =
      forest_without_boxes cs below (computed_none (all_bounds (to_list cs)) (sym h ∙ e))

  entries_of_no_items :
      (items : List (ℕ × Entry floats D)) (es : List (Entry floats D))
      → (length items == 0) ≡ true
      → ((id : ℕ) → count (has_id floats D id) es ≡ (if contains id items then 1 else 0))
      → es ≡ []
  unfolding contains
  entries_of_no_items [] [] h once = refl
  entries_of_no_items [] (e ∷ es) h once = let one = once e.item_id in absurd (ground (arith, one))
  entries_of_no_items (i ∷ items) es h once = absurd (ground (arith, h))

  pub no_entries :
      (s : SpatialIndex floats D)
      → IsIndex floats D s
      → no_items floats D s ≡ true
      → entries s.root ≡ []
  unfolding no_items
  no_entries s h e = entries_of_no_items s.items (entries s.root) e h.once

  module _ (query_box : Box floats) (passes : Entry floats D → Bool) where
    pub leaf_results-filter :
        (es : List (Entry floats D))
        → leaf_results floats D query_box passes es
          ≡ map to_hit_result (filter (λ e. intersects floats e.bounds query_box && passes e) es)
    unfolding leaf_results
    leaf_results-filter [] = refl
    leaf_results-filter (e ∷ es) =
        elim (Bool-cases (intersects floats e.bounds query_box && passes e)) [
          | inl h ↦ rw (h, leaf_results-filter es) refl
          | inr h ↦ rw (h, leaf_results-filter es) refl
        ]

    leaf_results-append :
        (xs ys : List (Entry floats D))
        → leaf_results floats D query_box passes (xs ++ ys)
          ≡ leaf_results floats D query_box passes xs ++ leaf_results floats D query_box passes ys
    unfolding leaf_results
    leaf_results-append [] ys = refl
    leaf_results-append (x ∷ xs) ys =
        elim (Bool-cases (intersects floats x.bounds query_box && passes x)) [
          | inl h ↦ rw (h, leaf_results-append xs ys) refl
          | inr h ↦ rw (h, leaf_results-append xs ys) refl
        ]

    leaf_results_outside :
        (b : Box floats) (es : List (Entry floats D))
        → AllOf (λ e. IsInside floats e.bounds b) es
        → intersects floats b query_box ≡ false
        → leaf_results floats D query_box passes es ≡ []
    unfolding leaf_results
    leaf_results_outside b [] h k = refl
    leaf_results_outside b (e ∷ es) (h, hs) k =
        rw (intersects-IsInside floats e.bounds b query_box h k) (leaf_results_outside b es hs k)

    -- The entries below a stack, and its nodes.
    stack_entries : List (Tree floats D) → List (Entry floats D)
    stack_entries [] = []
    stack_entries (n ∷ stack) = entries n ++ stack_entries stack

    stack_count : List (Tree floats D) → ℕ
    stack_count [] = 0
    stack_count (n ∷ stack) = node_count n + stack_count stack

    abbrev found : List (Entry floats D) → List (Hit floats D)
    found es = leaf_results floats D query_box passes es

    has_box-some :
        (c : Tree floats D) → has_box c ≡ true → (b : Box floats) × (node_bounds c ≡ some b)
    has_box-some (leaf es none) h = absurd (ground (arith, h))
    has_box-some (leaf es (some b)) h = (b, refl)
    has_box-some (inner cs none) h = absurd (ground (arith, h))
    has_box-some (inner cs (some b)) h = (b, refl)

    push_meeting :
        (c : Tree floats D) (stack : List (Tree floats D)) (b : Box floats)
        → node_bounds c ≡ some b
        → intersects floats b query_box ≡ true
        → push_child floats D query_box passes (node_bounds c) c stack ≡ c ∷ stack
    unfolding push_child
    push_meeting c stack b e meets =
        ap (λ o. push_child floats D query_box passes o c stack) e ∙ rw meets refl

    push_apart :
        (c : Tree floats D) (stack : List (Tree floats D)) (b : Box floats)
        → node_bounds c ≡ some b
        → intersects floats b query_box ≡ false
        → push_child floats D query_box passes (node_bounds c) c stack ≡ stack
    unfolding push_child
    push_apart c stack b e meets =
        ap (λ o. push_child floats D query_box passes o c stack) e ∙ rw meets refl

    found_assoc :
        (xs ys zs : List (Entry floats D))
        → found xs ++ (found ys ++ found zs) ≡ (found xs ++ found ys) ++ found zs
    found_assoc xs ys zs = sym (append_assoc (found xs) (found ys) (found zs))

    pushed :
        (cs : Forest floats D) (stack : List (Tree floats D))
        → IsForest floats D cs
        → AllOf (IsNode floats D) stack
        → (found (stack_entries (push_children floats D query_box passes cs stack))
            ≡ found (all_entries cs) ++ found (stack_entries stack))
          × (stack_count (push_children floats D query_box passes cs stack)
              ≤ forest_count cs + stack_count stack)
          × AllOf (IsNode floats D) (push_children floats D query_box passes cs stack)
    unfolding push_children stack_entries stack_count all_entries forest_count leaf_results
    pushed no_nodes stack h k = (refl, omega arith, k)
    pushed (next_node c cs) stack (valid, box, rest) k =
        let (b, e) = has_box-some c box in
        let append_to = leaf_results-append (all_entries cs) (entries c) in
        elim (Bool-cases (intersects floats b query_box)) [
          | inl meets ↦
              let (same, size, fine) = pushed cs (c ∷ stack) rest (valid, k) in
              let top = leaf_results-append (entries c) (stack_entries stack) in
              let there = found_assoc (all_entries cs) (entries c) (stack_entries stack) in
              rw (push_meeting c stack b e meets)
                (same ∙ rw (top, append_to) there, omega (arith, size), fine)
          | inr meets ↦
              let (same, size, fine) = pushed cs stack rest k in
              let nothing : found (entries c) ≡ [] =
                leaf_results_outside b (entries c)
                  (entries-IsInside floats D c b b valid e (IsInside-refl floats b)) meets in
              rw (push_apart c stack b e meets) (
                same ∙ rw (append_to, nothing, append-nil (found (all_entries cs))) refl,
                omega (arith, size),
                fine,
              )
        ]

    query_loop_lem :
        (fuel : ℕ) (stack : List (Tree floats D)) (results : List (Hit floats D))
        → stack_count stack ≤ fuel
        → AllOf (IsNode floats D) stack
        → query_loop floats D query_box passes fuel stack results
          ≡ ok (results ++ found (stack_entries stack))
    unfolding query_loop stack_entries stack_count node_count entries leaf_results
    query_loop_lem fuel [] results h k = rw (append-nil results) refl
    query_loop_lem zero (leaf es b ∷ stack) results h k = absurd (omega arith)
    query_loop_lem zero (inner cs b ∷ stack) results h k = absurd (omega arith)
    query_loop_lem (suc fuel) (leaf es b ∷ stack) results h (k, ks) =
        query_loop_lem fuel stack (results ++ leaf_results floats D query_box passes es)
          (omega arith) ks
        ∙ rw (leaf_results-append es (stack_entries stack))
            (ap ok (append_assoc results (found es) (found (stack_entries stack))))
    query_loop_lem (suc fuel) (inner cs b ∷ stack) results h (k, ks) =
        let (same, size, valid) = pushed cs stack k.1 ks in
        let both = leaf_results-append (all_entries cs) (stack_entries stack) in
        query_loop_lem fuel (push_children floats D query_box passes cs stack) results
          (omega (arith, size)) valid
        ∙ rw (same, both) refl

    query_root_lem :
        (root : Tree floats D) (b : Option (Box floats))
        → IsNode floats D root
        → node_bounds root ≡ b
        → query_root floats D query_box passes b root ≡ ok (found (entries root))
    unfolding query_root
    query_root_lem root none h e = rw (node_without_box root h e) (unfold leaf_results in refl)
    query_root_lem root (some b) h e = elim (Bool-cases (intersects floats b query_box)) [
      | inl meets ↦
          let loop =
            query_loop_lem (node_count root) (root ∷ []) [] (unfold stack_count in omega arith)
              (h, tt) in
          rw meets
            (loop ∙ ap (λ es. ok (found es)) (unfold stack_entries in append-nil (entries root)))
      | inr meets ↦
          rw
            (
              meets,
              leaf_results_outside b (entries root)
                  (entries-IsInside floats D root b b h e (IsInside-refl floats b)) meets,
            )
            refl
    ]

    -- Every entry that the index holds is looked at.
    pub query_lem :
        (s : SpatialIndex floats D)
        → IsIndex floats D s
        → query floats D query_box passes s ≡ ok (found (entries s.root))
    unfolding query
    query_lem s h = elim (Bool-cases (no_items floats D s)) [
      | inl e ↦ rw (e, no_entries s h e) (unfold leaf_results in refl)
      | inr e ↦ rw e (query_root_lem s.root (node_bounds s.root) h.valid refl)
    ]
