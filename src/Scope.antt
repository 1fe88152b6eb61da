-- ===== src/Scope.antt =====
-- engine/scope.py: `Scope`. Names are numbers, and values are immutable, so that `copy.deepcopy`
-- is the identity; an initializer stands for the value that it returns.
pub mod Lifecycle
pub mod Snapshot
pub mod Ticks
mod Tests
use nexus_smarttrading.Prelude.{
  ℕ, Bool, true, false, not, ◌&&◌, Option, none, some, List, [], ◌∷◌, ◌++◌, if◌then◌else◌, Result,
  ok, raise, value_error, key_error, ◌>>◌, guard,
}
use nexus_smarttrading.Prelude.Dict.{lookup, insert, contains}

pub data VarModifier : Type 0 where
  standard var varip : VarModifier

pub record Variable (A : Type 0) : Type 0 where
  pub value : A
  pub modifier : VarModifier
  pub initial_value : A
  pub initializer : Option A
  pub bar_start_value : A
  pub committed_value : A

-- (value, bar_start_value, committed_value) of each variable.
abbrev pub State : Type 0 → Type 0
State A = List (ℕ × (A × A × A))

pub record Scope (A : Type 0) : Type 0 where
  pub variables : List (ℕ × Variable A)
  pub current_bar_index : Option ℕ
  pub has_started : Bool
  pub last_snapshot_context : Option ℕ × Bool

abbrev pub or_value {ℓ} : {A : Type ℓ} → Option A → A → A
or_value none d = d
or_value (some a) d = a

abbrev pub is_some {ℓ} : {A : Type ℓ} → Option A → Bool
is_some none = false
is_some (some a) = true

module _ {A : Type 0} where
  -- `for var in self._variables.values(): ...`
  abbrev pub for_each : (Variable A → Variable A) → List (ℕ × Variable A) → List (ℕ × Variable A)
  for_each f [] = []
  for_each f ((name, v) ∷ vs) = (name, f v) ∷ for_each f vs

  unfoldable pub empty_scope : Scope A
  empty_scope = record {
    variables = [];
    current_bar_index = none;
    has_started = false;
    last_snapshot_context = (none, false);
  }

  unfoldable pub declare : ℕ → A → VarModifier → Option A → Scope A → Result (Scope A)
  declare name initial modifier initializer s = do
    guard (not (contains name s.variables)) value_error
    ok (record s {
      variables =
          s.variables
          ++ ((
            name,
            record {
              value = initial;
              modifier = modifier;
              initial_value = initial;
              initializer = initializer;
              bar_start_value = initial;
              committed_value = initial;
            },
          )
              ∷ []);
    })

  unfoldable pub get : ℕ → Scope A → Result A
  get name s = elim (lookup name s.variables) [ none ↦ raise key_error | some v ↦ ok v.value ]

  unfoldable pub set : ℕ → A → Scope A → Result (Scope A)
  set name value s = elim (lookup name s.variables) [
    | none ↦ raise key_error
    | some v ↦ ok (record s { variables = insert name (record v { value = value }) s.variables })
  ]

  unfoldable pub has : ℕ → Scope A → Bool
  has name s = contains name s.variables

  -- One variable at the opening of a bar.
  unfoldable pub open_bar : Bool → Variable A → Variable A
  open_bar is_first v = elim v.modifier [
    | standard ↦
        let value = or_value v.initializer v.initial_value in
        record v { value = value; bar_start_value = value }
    | var ↦
        let fresh = or_value v.initializer v.committed_value in
        if is_first && is_some v.initializer
        then record v { value = fresh; committed_value = fresh; bar_start_value = fresh }
        else record v { value = v.committed_value; bar_start_value = v.committed_value }
    | varip ↦
        let fresh = or_value v.initializer v.value in
        if is_first && is_some v.initializer
        then record v { value = fresh; committed_value = fresh; bar_start_value = fresh }
        else record v { bar_start_value = v.value }
  ]

  unfoldable pub on_bar_start : ℕ → Scope A → Scope A
  on_bar_start bar_index s = record s {
    variables = for_each (open_bar (not s.has_started)) s.variables;
    current_bar_index = some bar_index;
    has_started = true;
  }

  unfoldable pub end_tick : Bool → Variable A → Variable A
  end_tick is_confirmed v =
      if is_confirmed then record v { bar_start_value = v.value } else elim v.modifier [
        | standard ↦ record v { value = v.bar_start_value }
        | var ↦ record v { value = v.bar_start_value }
        | varip ↦ v
      ]

  unfoldable pub on_tick_end : Bool → Scope A → Scope A
  on_tick_end is_confirmed s = record s { variables = for_each (end_tick is_confirmed) s.variables }

  unfoldable pub commit : Variable A → Variable A
  commit v = record v { committed_value = v.value }

  unfoldable pub on_bar_close : Scope A → Scope A
  on_bar_close s = record s { variables = for_each commit s.variables }

  -- `snapshot`: the states, and the scope with the context of the snapshot.
  unfoldable pub state_of : List (ℕ × Variable A) → State A
  state_of [] = []
  state_of ((name, v) ∷ vs) = (name, (v.value, v.bar_start_value, v.committed_value)) ∷ state_of vs

  unfoldable pub snapshot : Scope A → Scope A × State A
  snapshot s = (
    record s { last_snapshot_context = (s.current_bar_index, s.has_started) },
    state_of s.variables,
  )

  -- The two loops of `restore_snapshot`: what the snapshot does not know is deleted, what it knows
  -- is set back.
  unfoldable pub restore_variables : State A → List (ℕ × Variable A) → List (ℕ × Variable A)
  restore_variables state [] = []
  restore_variables state ((name, v) ∷ vs) =
      let later = restore_variables state vs in
      elim (lookup name state) [
        | none ↦ later
        | some (val, b_val, c_val) ↦
            (name, record v { value = val; bar_start_value = b_val; committed_value = c_val })
            ∷ later
      ]

  unfoldable pub restore_snapshot : State A → Scope A → Scope A
  restore_snapshot state s = record s {
    variables = restore_variables state s.variables;
    current_bar_index = s.last_snapshot_context.0;
    has_started = s.last_snapshot_context.1;
  }
