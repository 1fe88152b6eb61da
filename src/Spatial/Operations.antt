-- ===== src/Spatial/Operations.antt =====
-- The operations of the index keep it valid, and change its contents as they should.
use mathlib.Core.Path.{subst}
use nexus_smarttrading.Prelude.{
  ok_injective, raise-ne-ok, ◌/◌, ℕ, ◌+◌, ◌≡◌, refl, sym, ap, ◌∙◌, Bool, true, false, not, ◌&&◌,
  Option, none, some, List, [], ◌∷◌, leb, if◌then◌else◌, count, ok, arith, Bool-cases, inl, inr,
}
use nexus_smarttrading.Prelude.Dict.{contains, insert, erase, contains-insert, contains-erase}
use nexus_smarttrading.Spatial.{Floats, compute_bounds}
use nexus_smarttrading.Spatial.Tree.{leaf, entries, Entry, Tree, has_id, remove_node, entry_boxes}
use nexus_smarttrading.Spatial.Index.{
  SpatialIndex, init, clear, remove, insert_entry, grow_root, collapse,
}
use nexus_smarttrading.Spatial.Valid.{IsNode, IsIndex}
use nexus_smarttrading.Spatial.Shrink.{Removed, remove_node_lem, collapse_lem, update_bounds_lem}
use nexus_smarttrading.Spatial.Grow.{IsGrown, weight, inner_of-IsChild, weight-inner_of}
use nexus_smarttrading.Spatial.Inserted.{insert_node_lem}

module _ (floats : Floats) (D : Type 0) where
  -- The other entries that pass a test.
  abbrev pub others_with : (Entry floats D → Bool) → ℕ → Entry floats D → Bool
  others_with p id e = p e && not (has_id floats D id e)

  count-others_with :
      (p : Entry floats D → Bool) (id : ℕ) (es : List (Entry floats D))
      → count (has_id floats D id) es ≡ 0
      → count (others_with p id) es ≡ count p es
  count-others_with p id [] h = refl
  count-others_with p id (e ∷ es) h = let rest = count-others_with p id es in ground (arith, rest)

  Removed-counts :
      (id : ℕ) (before after : List (Entry floats D))
      → Removed floats D id before after
      → count (has_id floats D id) before ≡ 1
      → (p : Entry floats D → Bool) → count p after ≡ count (others_with p id) before
  unfolding Removed
  Removed-counts id before after (e, h, k) one p =
      let own = k (has_id floats D id) in
      let rest = k (others_with p id) in
      let none_left : count (has_id floats D id) after ≡ 0 = ground (arith, own, h, one) in
      let same = count-others_with p id after none_left in ground (arith, rest, h, same)

  Removed-once :
      (id j : ℕ) (items : List (ℕ × Entry floats D)) (before after : List (Entry floats D))
      → Removed floats D id before after
      → contains id items ≡ true
      → ((i : ℕ) → count (has_id floats D i) before ≡ (if contains i items then 1 else 0))
      → count (has_id floats D j) after ≡ (if contains j (erase id items) then 1 else 0)
  unfolding Removed
  Removed-once id j items before after (e, h, k) there once =
      let own = k (has_id floats D j) in
      let mine = once id in
      let every = once j in
      let erased = contains-erase id j items in ground (arith, own, h, there, mine, every, erased)

  -- To remove an identifier from a valid index leaves a valid index, with the entries of before, as
  -- often as before, but for the one of that identifier, and tells whether there was one.
  pub remove-others :
      (s : SpatialIndex floats D) (id : ℕ)
      → IsIndex floats D s
      → IsIndex floats D (remove floats D s id).1
        × ((p : Entry floats D → Bool)
            → count p (entries (remove floats D s id).1.root)
              ≡ count (others_with p id) (entries s.root))
        × ((remove floats D s id).0 ≡ contains id s.items)
        × (contains id (remove floats D s id).1.items ≡ false)
  unfolding remove
  remove-others s id h = elim (Bool-cases (contains id s.items)) [
    | inl e ↦
        let one : count (has_id floats D id) (entries s.root) ≡ 1 = h.once id ∙ rw e refl in
        let (valid, removed) = remove_node_lem floats D id s.root h.valid (omega (arith, one)) in
        let (valid2, same2) = collapse_lem floats D (remove_node floats D id s.root) valid in
        let (valid3, same3) =
          update_bounds_lem floats D (collapse floats D (remove_node floats D id s.root)) valid2 in
        let same = same3 ∙ same2 in
        let counts =
          Removed-counts id (entries s.root) (entries (remove_node floats D id s.root)) removed
            one in
        rw (e, same)
          (
            record {
              valid = valid3;
              once = λ j.
                  ap (count (has_id floats D j)) same
                  ∙ Removed-once id j s.items (entries s.root)
                      (entries (remove_node floats D id s.root)) removed e h.once;
              room = h.room;
            },
            counts,
            refl,
            contains-erase id id s.items ∙ ground arith,
          )
    | inr e ↦
        let zero_of : count (has_id floats D id) (entries s.root) ≡ 0 = h.once id ∙ rw e refl in
        rw e (h, (λ p. sym (count-others_with p id (entries s.root) zero_of)), refl, e)
  ]

  grow_root_lem :
      (before : (Entry floats D → Bool) → ℕ) (e : Entry floats D) (n : Tree floats D)
      (sibling : Option (Tree floats D))
      → IsGrown floats D before e (n, sibling)
      → IsNode floats D (grow_root floats D n sibling)
        × ((p : Entry floats D → Bool)
            → count p (entries (grow_root floats D n sibling)) ≡ (if p e then 1 else 0) + before p)
  unfolding grow_root
  grow_root_lem before e n none h = (h.node.0, λ p. let w = h.weights p in omega (arith, w))
  grow_root_lem before e n (some m) h = (
    (inner_of-IsChild floats D (n ∷ m ∷ []) (omega arith) (h.node, (h.sibling, tt))).0,
    λ p. let w = h.weights p in omega (arith, w, weight-inner_of floats D p (n ∷ m ∷ [])),
  )

  -- The index that an entry goes into: without its identifier.
  abbrev cleared : SpatialIndex floats D → ℕ → SpatialIndex floats D
  cleared s id = if contains id s.items then (remove floats D s id).1 else s

  cleared_lem :
      (s : SpatialIndex floats D) (id : ℕ)
      → IsIndex floats D s
      → IsIndex floats D (cleared s id)
        × ((p : Entry floats D → Bool)
            → count p (entries (cleared s id).root) ≡ count (others_with p id) (entries s.root))
        × (contains id (cleared s id).items ≡ false)
  cleared_lem s id h = elim (Bool-cases (contains id s.items)) [
    | inl e ↦ let (valid, counts, there, gone) = remove-others s id h in rw e (valid, counts, gone)
    | inr e ↦
        let zero_of : count (has_id floats D id) (entries s.root) ≡ 0 = h.once id ∙ rw e refl in
        rw e (h, (λ p. sym (count-others_with p id (entries s.root) zero_of)), e)
  ]

  inserted_once :
      (e : Entry floats D) (j : ℕ) (items : List (ℕ × Entry floats D)) (after before : ℕ)
      → after ≡ (if has_id floats D j e then 1 else 0) + before
      → before ≡ (if contains j items then 1 else 0)
      → contains e.item_id items ≡ false
      → after ≡ (if contains j (insert e.item_id e items) then 1 else 0)
  inserted_once e j items after before h k gone =
      let added = contains-insert e.item_id j e items in ground (arith, h, k, gone, added)

  -- To insert an entry into a valid index never raises. It leaves a valid index, with that entry and
  -- the entries of before, as often as before, but for one of the same identifier.
  pub insert_entry-adds :
      (s : SpatialIndex floats D) (e : Entry floats D)
      → IsIndex floats D s
      → (after : SpatialIndex floats D) × (insert_entry floats D s e ≡ ok after)
        × IsIndex floats D after
        × ((p : Entry floats D → Bool)
            → count p (entries after.root)
              ≡ (if p e then 1 else 0) + count (others_with p e.item_id) (entries s.root))
  unfolding insert_entry
  insert_entry-adds s e h =
      let id = e.item_id in
      let (valid, counts, gone) = cleared_lem s id h in
      let start = cleared s id in
      let (r, same, grown) =
        insert_node_lem floats D s.max_entries s.min_entries h.room start.root e valid.valid in
      let (fine, w) = grow_root_lem (λ p. weight floats D p start.root) e r.0 r.1 grown in
      (
        record start { root = grow_root floats D r.0 r.1; items = insert id e start.items },
        rw same refl,
        record {
          valid = fine;
          once = λ j. inserted_once e j start.items _ _ (w (has_id floats D j)) (valid.once j) gone;
          room = valid.room;
        },
        λ p. w p ∙ ap (λ n. (if p e then 1 else 0) + n) (counts p),
      )

  empty-IsNode : IsNode floats D (leaf [] none)
  unfolding compute_bounds entry_boxes
  empty-IsNode = refl

  -- A new index, when its limits are not refused, and one that was cleared are valid and empty.
  pub init-IsIndex :
      (max_entries min_entries : ℕ) (s : SpatialIndex floats D)
      → init floats D max_entries min_entries ≡ ok s
      → IsIndex floats D s
  unfolding init entries contains
  init-IsIndex max_entries min_entries s h = elim (Bool-cases (leb 2 max_entries)) [
    | inl a ↦ elim (Bool-cases (leb 1 min_entries)) [
      | inl b ↦ elim (Bool-cases (leb min_entries ((max_entries + 1) / 2))) [
        | inl c ↦
            subst (IsIndex floats D) (ok_injective (rw (a, b, c) at h))
              (record { valid = empty-IsNode; once = λ id. refl; room = ground (arith, a) })
        | inr c ↦ absurd (raise-ne-ok (rw (a, b, c) at h))
      ]
      | inr b ↦ absurd (raise-ne-ok (rw (a, b) at h))
    ]
    | inr a ↦ absurd (raise-ne-ok (rw a at h))
  ]

  pub clear-IsIndex :
      (s : SpatialIndex floats D) → IsIndex floats D s → IsIndex floats D (clear floats D s)
  unfolding clear entries contains
  clear-IsIndex s h = record { valid = empty-IsNode; once = λ id. refl; room = h.room }
