-- ===== src/Scope/Snapshot.antt =====
-- A snapshot undoes whatever the scope did after it.
use nexus_smarttrading.Prelude.{
  ℕ, ◌==◌, ◌≡◌, refl, ◌∙◌, Result-cases, Bool, false, not, Option, none, some, List, [], ◌∷◌, ◌++◌,
  arith, Result, ok, raise, Bool-cases, Option-cases, inl, inr,
}
use nexus_smarttrading.Prelude.Dict.{lookup, insert, contains}
use nexus_smarttrading.Scope.{
  VarModifier, Variable, Scope, State, for_each, set, declare, open_bar, on_bar_start, end_tick,
  on_tick_end, commit, on_bar_close, state_of, snapshot, restore_variables, restore_snapshot,
}

-- The calls that change a scope, `restore_snapshot` and a further `snapshot` aside.
pub data Call (A : Type 0) : Type 0 where
  assign : ℕ → A → Call A
  declaring : ℕ → A → VarModifier → Option A → Call A
  bar_start : ℕ → Call A
  tick_end : Bool → Call A
  bar_close : Call A

module _ {A : Type 0} where
  -- What no operation of the scope changes in a variable.
  abbrev pub IsSameDeclaration : Variable A → Variable A → Type 0
  IsSameDeclaration v w =
      (v.modifier ≡ w.modifier)
      × (v.initial_value ≡ w.initial_value)
      × (v.initializer ≡ w.initializer)

  -- No name of the dict is in the snapshot.
  data IsNew (state : State A) : List (ℕ × Variable A) → Type 0 where
    new_end : IsNew state []
    new_next :
        {n : ℕ} {v : Variable A} {vs : List (ℕ × Variable A)}
        → lookup n state ≡ none
        → IsNew state vs
        → IsNew state ((n, v) ∷ vs)

  -- The second dict has the declarations of the first, and then new names.
  data IsExtension (state : State A) : List (ℕ × Variable A) → List (ℕ × Variable A) → Type 0 where
    extension_end : {ws : List (ℕ × Variable A)} → IsNew state ws → IsExtension state [] ws
    extension_next :
        {n : ℕ} {v w : Variable A} {vs ws : List (ℕ × Variable A)}
        → IsSameDeclaration v w
        → IsExtension state vs ws
        → IsExtension state ((n, v) ∷ vs) ((n, w) ∷ ws)

  data IsKnown (state : State A) : List (ℕ × Variable A) → Type 0 where
    known_end : IsKnown state []
    known_next :
        {n : ℕ} {v : Variable A} {vs : List (ℕ × Variable A)}
        → lookup n state ≡ some (v.value, v.bar_start_value, v.committed_value)
        → IsKnown state vs
        → IsKnown state ((n, v) ∷ vs)

  pub data IsDistinct : List (ℕ × Variable A) → Type 0 where
    distinct_end : IsDistinct []
    distinct_next :
        {n : ℕ} {v : Variable A} {vs : List (ℕ × Variable A)}
        → contains n vs ≡ false
        → IsDistinct vs
        → IsDistinct ((n, v) ∷ vs)

  restore-new :
      (state : State A) (ws : List (ℕ × Variable A))
      → IsNew state ws
      → restore_variables state ws ≡ []
  unfolding restore_variables
  restore-new state [] new_end = refl
  restore-new state ((n, v) ∷ ws) (new_next e r) = ground (arith, e, restore-new state ws r)

  restore-extension :
      (state : State A) (vs ws : List (ℕ × Variable A))
      → IsKnown state vs
      → IsExtension state vs ws
      → restore_variables state ws ≡ vs
  unfolding restore_variables
  restore-extension state [] ws k (extension_end new) = restore-new state ws new
  restore-extension state ((n, v) ∷ vs) [] k x = elim x [ ]
  restore-extension state ((n, v) ∷ vs) ((_, w) ∷ ws) (known_next e k) (extension_next same x) =
      ground (arith, e, same, restore-extension state vs ws k x)

  for_each-IsNew :
      (state : State A) (f : Variable A → Variable A) (ws : List (ℕ × Variable A))
      → IsNew state ws
      → IsNew state (for_each f ws)
  for_each-IsNew state f [] new_end = new_end
  for_each-IsNew state f ((n, v) ∷ ws) (new_next e r) = new_next e (for_each-IsNew state f ws r)

  for_each-IsExtension :
      (state : State A) (f : Variable A → Variable A) (vs ws : List (ℕ × Variable A))
      → ((w : Variable A) → IsSameDeclaration w (f w))
      → IsExtension state vs ws
      → IsExtension state vs (for_each f ws)
  for_each-IsExtension state f [] ws keeps (extension_end new) =
      extension_end (for_each-IsNew state f ws new)
  for_each-IsExtension state f ((n, v) ∷ vs) [] keeps x = elim x [ ]
  for_each-IsExtension state f ((n, v) ∷ vs) ((_, w) ∷ ws) keeps (extension_next same x) =
      extension_next (ground (arith, same, keeps w)) (for_each-IsExtension state f vs ws keeps x)

  insert-IsNew :
      (state : State A) (name : ℕ) (v w : Variable A) (ws : List (ℕ × Variable A))
      → lookup name ws ≡ some w
      → IsNew state ws
      → IsNew state (insert name v ws)
  unfolding lookup insert
  insert-IsNew state name v w [] l new = ground (arith, l)
  insert-IsNew state name v w ((n, u) ∷ ws) l (new_next e new) = elim (Bool-cases (n == name)) [
    | inl same ↦ rw same (new_next e new)
    | inr differs ↦
        rw differs (new_next e (insert-IsNew state name v w ws (ground (arith, l, differs)) new))
  ]

  insert-IsExtension :
      (state : State A) (name : ℕ) (v w : Variable A) (vs ws : List (ℕ × Variable A))
      → IsSameDeclaration w v
      → lookup name ws ≡ some w
      → IsExtension state vs ws
      → IsExtension state vs (insert name v ws)
  unfolding lookup insert
  insert-IsExtension state name v w [] ws same l (extension_end new) =
      extension_end (insert-IsNew state name v w ws l new)
  insert-IsExtension state name v w ((n, u) ∷ vs) [] same l x = elim x [ ]
  insert-IsExtension state name v w ((n, u) ∷ vs) ((_, t) ∷ ws) same l (extension_next d x) =
      elim (Bool-cases (n == name)) [
        | inl e ↦ rw e (extension_next (ground (arith, d, same, l, e)) x)
        | inr e ↦ rw e (
            extension_next d
              (insert-IsExtension state name v w vs ws same (ground (arith, l, e)) x))
      ]

  extend-IsNew :
      (state : State A) (name : ℕ) (v : Variable A) (ws : List (ℕ × Variable A))
      → lookup name state ≡ none
      → IsNew state ws
      → IsNew state (ws ++ ((name, v) ∷ []))
  extend-IsNew state name v [] e new_end = new_next e new_end
  extend-IsNew state name v (_ ∷ ws) e (new_next d new) =
      new_next d (extend-IsNew state name v ws e new)

  extend-IsExtension :
      (state : State A) (name : ℕ) (v : Variable A) (vs ws : List (ℕ × Variable A))
      → lookup name state ≡ none
      → IsExtension state vs ws
      → IsExtension state vs (ws ++ ((name, v) ∷ []))
  extend-IsExtension state name v [] ws e (extension_end new) =
      extension_end (extend-IsNew state name v ws e new)
  extend-IsExtension state name v (_ ∷ vs) [] e x = elim x [ ]
  extend-IsExtension state name v (_ ∷ vs) (_ ∷ ws) e (extension_next d x) =
      extension_next d (extend-IsExtension state name v vs ws e x)

  -- A name that is not in the extension is not in the snapshot either.
  lookup_of_extension :
      (state : State A) (name : ℕ) (vs ws : List (ℕ × Variable A))
      → contains name ws ≡ false
      → IsExtension state vs ws
      → lookup name (state_of vs) ≡ none
  unfolding contains lookup state_of
  lookup_of_extension state name [] ws h x = refl
  lookup_of_extension state name ((n, u) ∷ vs) [] h x = elim x [ ]
  lookup_of_extension state name ((n, u) ∷ vs) ((_, t) ∷ ws) h (extension_next d x) =
      elim (Bool-cases (n == name)) [
        | inl e ↦ ground (arith, h, e)
        | inr e ↦ rw e (lookup_of_extension state name vs ws (ground (arith, h, e)) x)
      ]

  state_of-IsKnown :
      (n : ℕ) (a : A × A × A) (state : State A) (vs : List (ℕ × Variable A))
      → contains n vs ≡ false
      → IsKnown state vs
      → IsKnown ((n, a) ∷ state) vs
  unfolding contains lookup
  state_of-IsKnown n a state [] h known_end = known_end
  state_of-IsKnown n a state ((m, v) ∷ vs) h (known_next e k) =
      known_next (ground (arith, h, e)) (state_of-IsKnown n a state vs (ground (arith, h)) k)

  distinct-IsKnown : (vs : List (ℕ × Variable A)) → IsDistinct vs → IsKnown (state_of vs) vs
  unfolding state_of lookup
  distinct-IsKnown [] distinct_end = known_end
  distinct-IsKnown ((n, v) ∷ vs) (distinct_next h d) = known_next (ground arith) (
      state_of-IsKnown n (v.value, v.bar_start_value, v.committed_value) (state_of vs) vs h
        (distinct-IsKnown vs d))

  self-IsExtension : (state : State A) (vs : List (ℕ × Variable A)) → IsExtension state vs vs
  self-IsExtension state [] = extension_end new_end
  self-IsExtension state ((n, v) ∷ vs) =
      extension_next (refl, refl, refl) (self-IsExtension state vs)

  unfoldable pub call : Call A → Scope A → Result (Scope A)
  call (assign name a) s = set name a s
  call (declaring name a modifier initializer) s = declare name a modifier initializer s
  call (bar_start bar) s = ok (on_bar_start bar s)
  call (tick_end is_confirmed) s = ok (on_tick_end is_confirmed s)
  call bar_close s = ok (on_bar_close s)

  -- The calls that do not raise change the scope, one after the other; those that raise leave it.
  unfoldable pub run : List (Call A) → Scope A → Scope A
  run [] s = s
  run (c ∷ cs) s = elim (call c s) [ ok s' ↦ run cs s' | raise e ↦ run cs s ]

  open_bar-keeps : (first : Bool) (v : Variable A) → IsSameDeclaration v (open_bar first v)
  unfolding open_bar
  open_bar-keeps first v = ground arith

  end_tick-keeps :
      (is_confirmed : Bool) (v : Variable A) → IsSameDeclaration v (end_tick is_confirmed v)
  unfolding end_tick
  end_tick-keeps is_confirmed v = ground arith

  call-context :
      (c : Call A) (s s' : Scope A)
      → call c s ≡ ok s'
      → s'.last_snapshot_context ≡ s.last_snapshot_context
  unfolding call set declare on_bar_start on_tick_end on_bar_close
  call-context c s s' e = ground (arith, e)

  call-IsExtension :
      (c : Call A) (s s' : Scope A) (vs : List (ℕ × Variable A))
      → IsExtension (state_of vs) vs s.variables
      → call c s ≡ ok s'
      → IsExtension (state_of vs) vs s'.variables
  unfolding call set declare on_bar_start on_tick_end on_bar_close commit
  call-IsExtension (assign name a) s s' vs x e = elim (Option-cases (lookup name s.variables)) [
    | inl missing ↦ ground (arith, missing, e)
    | inr (v, l) ↦
        let same : s'.variables ≡ insert name (record v { value = a }) s.variables =
          ground (arith, l, e) in
        rw same (
          insert-IsExtension (state_of vs) name (record v { value = a }) v vs s.variables
            (refl, refl, refl) l x)
  ]
  call-IsExtension (declaring name a modifier initializer) s s' vs x e =
      elim (Bool-cases (contains name s.variables)) [
        | inl known ↦ ground (arith, known, e)
        | inr unknown ↦
            let v : Variable A = record {
              value = a;
              modifier = modifier;
              initial_value = a;
              initializer = initializer;
              bar_start_value = a;
              committed_value = a;
            } in
            let same : s'.variables ≡ s.variables ++ ((name, v) ∷ []) =
              ground (arith, unknown, e) in
            rw same (
              extend-IsExtension (state_of vs) name v vs s.variables
                (lookup_of_extension (state_of vs) name vs s.variables unknown x) x)
      ]
  call-IsExtension (bar_start bar) s s' vs x e =
      let same : s'.variables ≡ for_each (open_bar (not s.has_started)) s.variables =
        ground (arith, e) in
      rw same (
        for_each-IsExtension (state_of vs) (open_bar (not s.has_started)) vs s.variables
          (open_bar-keeps (not s.has_started)) x)
  call-IsExtension (tick_end is_confirmed) s s' vs x e =
      let same : s'.variables ≡ for_each (end_tick is_confirmed) s.variables = ground (arith, e) in
      rw same (
        for_each-IsExtension (state_of vs) (end_tick is_confirmed) vs s.variables
          (end_tick-keeps is_confirmed) x)
  call-IsExtension bar_close s s' vs x e =
      let same : s'.variables ≡ for_each (commit) s.variables = ground (arith, e) in
      rw same
        (for_each-IsExtension (state_of vs) (commit) vs s.variables (λ w. (refl, refl, refl)) x)

  run-IsExtension :
      (cs : List (Call A)) (s : Scope A) (vs : List (ℕ × Variable A))
      → IsExtension (state_of vs) vs s.variables
      → IsExtension (state_of vs) vs (run cs s).variables
        × ((run cs s).last_snapshot_context ≡ s.last_snapshot_context)
  unfolding run
  run-IsExtension [] s vs x = (x, refl)
  run-IsExtension (c ∷ cs) s vs x = elim (Result-cases (call c s)) [
    | inl (s', e) ↦
        rw (e, run)
          (let (y, kept) = run-IsExtension cs s' vs (call-IsExtension c s s' vs x e) in
            (y, kept ∙ call-context c s s' e))
    | inr (error, e) ↦ rw (e, run) (run-IsExtension cs s vs x)
  ]

  -- Whatever a scope of distinct names does after a snapshot, ticks, bars, assignments and new
  -- declarations, `restore_snapshot` gives back the scope as it was when the snapshot was taken.
  pub restore_snapshot-run :
      (s : Scope A) (cs : List (Call A))
      → IsDistinct s.variables
      → restore_snapshot ((snapshot s).1) (run cs ((snapshot s).0)) ≡ (snapshot s).0
  unfolding restore_snapshot snapshot
  restore_snapshot-run s cs d =
      let started = record s { last_snapshot_context = (s.current_bar_index, s.has_started) } in
      let (x, kept) =
        run-IsExtension cs started s.variables
          (self-IsExtension (state_of s.variables) s.variables) in
      ground (
        arith,
        kept,
        restore-extension (state_of s.variables) s.variables (run cs started).variables
            (distinct-IsKnown s.variables d) x,
      )
