-- ===== src/Scope/Ticks.antt =====
-- What a variable reads over the ticks of a bar: the rollback of the ticks that are not confirmed.
use nexus_smarttrading.Prelude.{
  ℕ, ◌==◌, ◌≡◌, refl, ap, ◌∙◌, inl, inr, Bool, true, false, not, Option, none, some, List, [], ◌∷◌,
  arith, ok, raise, if◌then◌else◌, Option-cases, key_error,
}
use nexus_smarttrading.Prelude.Dict.{lookup, lookup-insert}
use nexus_smarttrading.Scope.{
  VarModifier, standard, var, varip, Variable, Scope, set, get, open_bar, on_bar_start, end_tick,
  on_tick_end,
}
use nexus_smarttrading.Scope.Lifecycle.{map_found, lookup-for_each}

-- The assignments that outlive their tick.
abbrev pub outlives : VarModifier → Bool → Bool
outlives varip is_confirmed = true
outlives standard is_confirmed = is_confirmed
outlives var is_confirmed = is_confirmed

module _ {A : Type 0} where
  -- The scope after an assignment; one to a name that is not declared raises `KeyError` and
  -- changes nothing.
  abbrev pub assign : ℕ → A → Scope A → Scope A
  assign name a s = elim (set name a s) [ raise e ↦ s | ok s' ↦ s' ]

  unfoldable pub assign_all : List (ℕ × A) → Scope A → Scope A
  assign_all [] s = s
  assign_all ((name, a) ∷ assigned) s = assign_all assigned (assign name a s)

  -- The ticks of a bar: whether each is confirmed at its end, and what it assigns before.
  unfoldable pub run_ticks : List (Bool × List (ℕ × A)) → Scope A → Scope A
  run_ticks [] s = s
  run_ticks ((is_confirmed, assigned) ∷ ticks) s =
      run_ticks ticks (on_tick_end is_confirmed (assign_all assigned s))

  -- The last of the values assigned to a name, or the value before.
  unfoldable pub last_assigned : ℕ → List (ℕ × A) → A → A
  last_assigned name [] a = a
  last_assigned name ((j, b) ∷ assigned) a =
      last_assigned name assigned (if j == name then b else a)

  -- The value after the ticks of a variable that opened the bar with a value.
  unfoldable pub expected : VarModifier → ℕ → List (Bool × List (ℕ × A)) → A → A
  expected modifier name [] a = a
  expected modifier name ((is_confirmed, assigned) ∷ ticks) a =
      expected modifier name ticks
        (if outlives modifier is_confirmed then last_assigned name assigned a else a)

  -- One assignment, seen from one name.
  lookup-assign :
      (name j : ℕ) (a : A) (s : Scope A)
      → lookup j (assign name a s).variables
        ≡ map_found
            (λ v. record v { value = if name == j then a else v.value })
            (lookup j s.variables)
  unfolding set
  lookup-assign name j a s = elim (Option-cases (lookup name s.variables)) [
    | inl n ↦ ground (arith, n)
    | inr (v, l) ↦ ground (arith, l, lookup-insert name j (record v { value = a }) s.variables)
  ]

  lookup-assign_all :
      (name : ℕ) (assigned : List (ℕ × A)) (s : Scope A)
      → lookup name (assign_all assigned s).variables
        ≡ map_found
            (λ v. record v { value = last_assigned name assigned v.value })
            (lookup name s.variables)
  unfolding assign_all last_assigned
  lookup-assign_all name [] s = elim (Option-cases (lookup name s.variables)) [
    | inl n ↦ rw n refl
    | inr (v, l) ↦ rw l refl
  ]
  lookup-assign_all name ((j, a) ∷ assigned) s =
      let one = lookup-assign j name a s in
      elim (Option-cases (lookup name s.variables)) [
        | inl n ↦ lookup-assign_all name assigned (assign j a s) ∙ rw (one, n) refl
        | inr (v, l) ↦ lookup-assign_all name assigned (assign j a s) ∙ rw (one, l) refl
      ]

  -- One tick, seen from one variable.
  abbrev ticked : ℕ → Bool → List (ℕ × A) → Variable A → Variable A
  ticked name is_confirmed assigned v =
      end_tick is_confirmed (record v { value = last_assigned name assigned v.value })

  lookup-on_tick_end :
      (name : ℕ) (is_confirmed : Bool) (assigned : List (ℕ × A)) (s : Scope A)
      → lookup name (on_tick_end is_confirmed (assign_all assigned s)).variables
        ≡ map_found (ticked name is_confirmed assigned) (lookup name s.variables)
  unfolding on_tick_end
  lookup-on_tick_end name is_confirmed assigned s =
      let all = lookup-for_each (end_tick is_confirmed) name (assign_all assigned s).variables in
      let before = lookup-assign_all name assigned s in
      elim (Option-cases (lookup name s.variables)) [
        | inl n ↦ rw (all, before, n) refl
        | inr (v, l) ↦ rw (all, before, l) refl
      ]

  -- A variable that an unconfirmed tick sets back to the value it has.
  abbrev IsSteady : Variable A → Type 0
  IsSteady v = (if outlives v.modifier false then v.value else v.bar_start_value) ≡ v.value

  ticked-IsSteady :
      (name : ℕ) (is_confirmed : Bool) (assigned : List (ℕ × A)) (v : Variable A)
      → IsSteady v
      → IsSteady (ticked name is_confirmed assigned v)
        × ((ticked name is_confirmed assigned v).modifier ≡ v.modifier)
        × ((ticked name is_confirmed assigned v).value ≡ (
            if outlives v.modifier is_confirmed
            then last_assigned name assigned v.value
            else v.value))
  unfolding end_tick
  ticked-IsSteady name is_confirmed assigned v steady =
      (ground (arith, steady), ground arith, ground (arith, steady))

  open_bar-IsSteady : (is_first : Bool) (v : Variable A) → IsSteady (open_bar is_first v)
  unfolding open_bar
  open_bar-IsSteady is_first v = ground arith

  open_bar-modifier :
      (is_first : Bool) (v : Variable A) → (open_bar is_first v).modifier ≡ v.modifier
  unfolding open_bar
  open_bar-modifier is_first v = ground arith

  get_found :
      (name : ℕ) (s : Scope A) (v : Variable A)
      → lookup name s.variables ≡ some v
      → get name s ≡ ok v.value
  unfolding get
  get_found name s v l = rw (get, l) refl

  get_declared :
      (name : ℕ) (ticks : List (Bool × List (ℕ × A))) (s : Scope A) (v : Variable A)
      → lookup name s.variables ≡ some v
      → IsSteady v
      → get name (run_ticks ticks s) ≡ ok (expected v.modifier name ticks v.value)
  unfolding run_ticks expected get
  get_declared name [] s v l steady = get_found name s v l
  get_declared name ((is_confirmed, assigned) ∷ ticks) s v l steady =
      let v' = ticked name is_confirmed assigned v in
      let (steady', modifier, value) = ticked-IsSteady name is_confirmed assigned v steady in
      let found = lookup-on_tick_end name is_confirmed assigned s ∙ rw l refl in
      get_declared name ticks (on_tick_end is_confirmed (assign_all assigned s)) v' found steady'
      ∙ rw (modifier, value) refl

  get_undeclared :
      (name : ℕ) (ticks : List (Bool × List (ℕ × A))) (s : Scope A)
      → lookup name s.variables ≡ none
      → get name (run_ticks ticks s) ≡ raise key_error
  unfolding run_ticks get
  get_undeclared name [] s l = rw (get, l) refl
  get_undeclared name ((is_confirmed, assigned) ∷ ticks) s l =
      get_undeclared name ticks (on_tick_end is_confirmed (assign_all assigned s))
        (lookup-on_tick_end name is_confirmed assigned s ∙ rw l refl)

  -- What is read after the ticks of a bar, by the declaration of the name.
  abbrev pub Reads : ℕ → ℕ → List (Bool × List (ℕ × A)) → Scope A → Option (Variable A) → Type 0
  Reads bar name ticks s none = get name (run_ticks ticks (on_bar_start bar s)) ≡ raise key_error
  Reads bar name ticks s (some v) =
      (opened : A) × (get name (on_bar_start bar s) ≡ ok opened)
      × (get name (run_ticks ticks (on_bar_start bar s))
          ≡ ok (expected v.modifier name ticks opened))

  -- After `on_bar_start` and any ticks, each a list of assignments followed by `on_tick_end`, the
  -- reading of a name that is not declared raises `KeyError`. A `varip` variable reads as last
  -- assigned, and any other variable as last assigned in the confirmed ticks alone, an unconfirmed
  -- tick setting it back to what it was before the tick; a variable without such an assignment reads
  -- as it did when the bar opened.
  pub get-run_ticks :
      (s : Scope A) (bar name : ℕ) (ticks : List (Bool × List (ℕ × A)))
      → Reads bar name ticks s (lookup name s.variables)
  unfolding on_bar_start get
  get-run_ticks s bar name ticks =
      let opening = open_bar (not s.has_started) in
      let at = lookup-for_each opening name s.variables in
      elim (Option-cases (lookup name s.variables)) [
        | inl n ↦ rw n (get_undeclared name ticks (on_bar_start bar s) (at ∙ rw n refl))
        | inr (v, l) ↦
            let found : lookup name (on_bar_start bar s).variables ≡ some (opening v) =
              at ∙ rw l refl in
            let steady = open_bar-IsSteady (not s.has_started) v in
            let kept = open_bar-modifier (not s.has_started) v in
            let read = get_declared name ticks (on_bar_start bar s) (opening v) found steady in
            rw l (
              (opening v).value,
              get_found name (on_bar_start bar s) (opening v) found,
              read ∙ ap (λ m. ok (expected m name ticks (opening v).value)) kept,
            )
      ]
