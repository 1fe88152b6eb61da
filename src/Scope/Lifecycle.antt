-- ===== src/Scope/Lifecycle.antt =====
-- What a variable keeps over ticks and bars.
use nexus_smarttrading.Prelude.{
  ℕ, ◌==◌, ◌≡◌, refl, true, not, Option, none, some, List, [], ◌∷◌, arith, Result, ok, raise,
  Bool-cases, inl, inr, key_error,
}
use nexus_smarttrading.Prelude.Dict.{lookup}
use nexus_smarttrading.Scope.{
  standard, var, varip, Variable, Scope, or_value, for_each, get, open_bar, on_bar_start, commit,
  on_bar_close,
}

module _ {A : Type 0} where
  abbrev pub map_found : (Variable A → Variable A) → Option (Variable A) → Option (Variable A)
  map_found f none = none
  map_found f (some v) = some (f v)

  pub lookup-for_each :
      (f : Variable A → Variable A) (name : ℕ) (vs : List (ℕ × Variable A))
      → lookup name (for_each f vs) ≡ map_found f (lookup name vs)
  unfolding lookup
  lookup-for_each f name [] = refl
  lookup-for_each f name ((n, v) ∷ vs) = elim (Bool-cases (n == name)) [
    | inl e ↦ rw e
    | inr e ↦ rw e (lookup-for_each f name vs)
  ]

  -- The value of a variable in the bar after it was closed.
  abbrev pub next_value : Variable A → A
  next_value v = elim v.modifier [
    | standard ↦ or_value v.initializer v.initial_value
    | var ↦ v.value
    | varip ↦ v.value
  ]

  abbrev pub next_read : Option (Variable A) → Result A
  next_read none = raise key_error
  next_read (some v) = ok (next_value v)

  -- From one bar to the next, once the scope has started, `var` and `varip` variables keep the value
  -- that they had at the close, and a standard variable starts again from its initializer or its
  -- initial value.
  pub get-on_bar_start-close :
      (s : Scope A) (name bar : ℕ)
      → s.has_started ≡ true
      → get name (on_bar_start bar (on_bar_close s)) ≡ next_read (lookup name s.variables)
  unfolding get on_bar_start on_bar_close open_bar commit
  get-on_bar_start-close s name bar h = ground (
    arith,
    lookup-for_each (open_bar (not s.has_started)) name (for_each commit s.variables),
    lookup-for_each commit name s.variables,
  )
