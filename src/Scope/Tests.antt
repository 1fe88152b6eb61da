-- ===== src/Scope/Tests.antt =====
-- A scope over whole numbers, and the theorems at it.
use nexus_smarttrading.Prelude.{ℕ, ◌≡◌, refl, Bool, true, false, some, none, List, [], ◌∷◌, ok}
use nexus_smarttrading.Prelude.Dict.{lookup, insert, contains}
use nexus_smarttrading.Scope.{
  var, varip, Variable, Scope, set, get, on_bar_start, on_tick_end, on_bar_close, end_tick,
  open_bar, snapshot, restore_snapshot,
}
use nexus_smarttrading.Scope.Lifecycle.{get-on_bar_start-close, next_read}
use nexus_smarttrading.Scope.Ticks.{run_ticks, assign_all, Reads, get-run_ticks}
use nexus_smarttrading.Scope.Snapshot.{
  Call, assign, declaring, bar_start, tick_end, bar_close, run, IsDistinct, distinct_end,
  distinct_next, restore_snapshot-run,
}

program : Unit {0}
unfolding lookup insert contains set get on_bar_start on_tick_end on_bar_close end_tick open_bar
program = tt

abbrev counter : Variable ℕ
counter = record {
  value = 4;
  modifier = var;
  initial_value = 0;
  initializer = none;
  bar_start_value = 3;
  committed_value = 3;
}

abbrev ticks : Variable ℕ
ticks = record counter { modifier = varip }

abbrev scope : Scope ℕ
scope = record {
  variables = (1, counter) ∷ (2, ticks) ∷ [];
  current_bar_index = some 5;
  has_started = true;
  last_snapshot_context = (none, false);
}

abbrev assigned : Scope ℕ
assigned = record scope { variables = (1, record counter { value = 9 }) ∷ (2, ticks) ∷ [] }

set-counter : set 1 9 scope ≡ ok assigned
unfolding program
set-counter = refl

lookup-counter : lookup 1 scope.variables ≡ some counter
unfolding program
lookup-counter = refl

rolled_back : get 1 (on_tick_end false assigned) ≡ ok 3
unfolding program
rolled_back = refl

names-IsDistinct : IsDistinct scope.variables
unfolding program
names-IsDistinct = distinct_next refl (distinct_next refl distinct_end)

abbrev calls : List (Call ℕ)
calls =
    assign 1 9
    ∷ tick_end false
    ∷ declaring 3 7 varip none
    ∷ bar_close
    ∷ bar_start 6
    ∷ assign 4 0
    ∷ []

-- Three ticks of a bar, the second of them confirmed; the name 4 is not declared.
abbrev three_ticks : List (Bool × List (ℕ × ℕ))
three_ticks =
    (false, (1, 9) ∷ (2, 6) ∷ []) ∷ (true, (1, 5) ∷ (4, 0) ∷ []) ∷ (false, (1, 8) ∷ []) ∷ []

ticked_over :
    (get 1 (run_ticks three_ticks (on_bar_start 6 scope)) ≡ ok 5)
    × (get 2 (run_ticks three_ticks (on_bar_start 6 scope)) ≡ ok 6)
    × (get 1 (on_bar_start 6 scope) ≡ ok 3)
unfolding program run_ticks assign_all
ticked_over = (refl, refl, refl)

get-run_ticks_example : Reads 6 1 three_ticks scope (lookup 1 scope.variables)
get-run_ticks_example = get-run_ticks scope 6 1 three_ticks

get-on_bar_start-close_example :
    get 2 (on_bar_start 6 (on_bar_close scope)) ≡ next_read (lookup 2 scope.variables)
get-on_bar_start-close_example = get-on_bar_start-close scope 2 6 refl

restore_snapshot-run_example :
    restore_snapshot ((snapshot scope).1) (run calls ((snapshot scope).0)) ≡ (snapshot scope).0
restore_snapshot-run_example = restore_snapshot-run scope calls names-IsDistinct
