-- ===== src/Oco/Tests.antt =====
-- Runs of the bracket manager, and the theorems at concrete brackets.
use nexus_smarttrading.Prelude.{
  ℕ, ◌≡◌, ◌≢◌, ◌⊎◌, refl, some, none, [], ◌∷◌, ok, raise, key_error, value_error, inr, arith,
}
use nexus_smarttrading.Prelude.Dict.{lookup, insert, contains}
use nexus_smarttrading.Oco.{
  OcoManager, BracketOrder, ExecutionReport, OrderStatus, active, closed, in_use, register_bracket,
  handle_execution_report, cancel_bracket, get_opposite_leg,
}
use nexus_smarttrading.Oco.Linked.{IsLinked, RegistersOrRaises, register_bracket-IsLinked}
use nexus_smarttrading.Oco.Once.{
  after_report, other_leg, handle_execution_report-after_report, report_twice,
}

program : Unit {0}
unfolding lookup insert contains in_use register_bracket handle_execution_report cancel_bracket
    get_opposite_leg
program = tt

abbrev empty : OcoManager
empty = record { brackets = []; order_to_bracket = []; cancel_requests = [] }

abbrev bracket : BracketOrder
bracket = record { bracket_id = 1; tp_order_id = 10; sl_order_id = 11; status = active }

abbrev one : OcoManager
one = record {
  brackets = (1, bracket) ∷ [];
  order_to_bracket = (10, 1) ∷ (11, 1) ∷ [];
  cancel_requests = [];
}

abbrev tp_filled : ExecutionReport
tp_filled = record { order_id = 10; status = OrderStatus.filled }

abbrev sl_cancelled : ExecutionReport
sl_cancelled = record { order_id = 11; status = OrderStatus.cancelled }

registered : register_bracket 1 10 11 empty ≡ ok (one, bracket)
unfolding program
registered = refl

leg_in_use : register_bracket 2 12 11 one ≡ raise value_error
unfolding program
leg_in_use = refl

empty-IsLinked : IsLinked empty
unfolding program
empty-IsLinked = record { legs = λ o id h. ground arith; owns = λ id. tt }

one-IsLinked : IsLinked one
unfolding program
one-IsLinked = (register_bracket-IsLinked empty 1 10 11 empty-IsLinked).0

register_bracket-IsLinked_example : RegistersOrRaises (register_bracket 2 20 21 one)
register_bracket-IsLinked_example = register_bracket-IsLinked one 2 20 21 one-IsLinked

abbrev Reported : OcoManager → ExecutionReport → Type 0
Reported m r =
    ((lookup r.order_id m.order_to_bracket ≡ none)
      × (handle_execution_report r m ≡ raise key_error))
    ⊎ ((id : ℕ) × (b : BracketOrder) × (lookup r.order_id m.order_to_bracket ≡ some id)
        × (lookup id m.brackets ≡ some b)
        × (handle_execution_report r m ≡ ok (after_report m id b r))
        × (other_leg b r.order_id ≢ r.order_id)
        × IsLinked (after_report m id b r))

handle_execution_report-after_report_example : Reported one tp_filled
handle_execution_report-after_report_example =
    handle_execution_report-after_report one tp_filled one-IsLinked

abbrev ended : OcoManager
ended = record one {
  brackets = (1, record bracket { status = closed }) ∷ [];
  cancel_requests = 11 ∷ [];
}

handled : handle_execution_report tp_filled one ≡ ok ended
unfolding program
handled = refl

report_twice_example :
    (handle_execution_report sl_cancelled ended ≡ ok ended) × (cancel_bracket 1 ended ≡ ok ended)
unfolding program
report_twice_example =
    report_twice one ended tp_filled sl_cancelled 1 bracket one-IsLinked refl refl refl refl handled
      (inr refl)
