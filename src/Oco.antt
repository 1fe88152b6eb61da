-- ===== src/Oco.antt =====
-- execution/oco_manager.py: `OCOManager`. Identifiers are numbers. The gateway is outside the
-- program: the model records the cancellations that it is asked for, newest first.
pub mod Linked
pub mod Once
mod Tests
use nexus_smarttrading.Prelude.{
  ℕ, ◌==◌, Bool, true, false, ◌||◌, not, Option, none, some, List, [], ◌∷◌, if◌then◌else◌, Result,
  ok, raise, value_error, key_error, ◌>>=◌, ◌>>◌, guard,
}
use nexus_smarttrading.Prelude.Dict.{lookup, insert, contains}

pub data OrderStatus : Type 0 where
  new partially_filled filled cancelled rejected expired : OrderStatus

pub data BracketStatus : Type 0 where
  active closed : BracketStatus

pub record ExecutionReport : Type 0 where
  pub order_id : ℕ
  pub status : OrderStatus

pub record BracketOrder : Type 0 where
  pub bracket_id : ℕ
  pub tp_order_id : ℕ
  pub sl_order_id : ℕ
  pub status : BracketStatus

pub record OcoManager : Type 0 where
  pub brackets : List (ℕ × BracketOrder)
  pub order_to_bracket : List (ℕ × ℕ)
  pub cancel_requests : List ℕ

unfoldable pub get_opposite_leg : BracketOrder → ℕ → Result ℕ
get_opposite_leg b order_id =
    if order_id == b.tp_order_id
    then ok b.sl_order_id
    else if order_id == b.sl_order_id
    then ok b.tp_order_id
    else raise value_error

abbrev pub is_active : BracketStatus → Bool
is_active active = true
is_active closed = false

-- `d[k]`
abbrev pub or_key_error {ℓ} : {A : Type ℓ} → Option A → Result A
or_key_error none = raise key_error
or_key_error (some a) = ok a

-- Whether the order is a leg of a bracket that is still active.
unfoldable pub in_use : OcoManager → ℕ → Result Bool
in_use m order_id = elim (lookup order_id m.order_to_bracket) [
  | none ↦ ok false
  | some id ↦ elim (lookup id m.brackets) [
    | none ↦ raise key_error
    | some b ↦ ok (is_active b.status)
  ]
]

abbrev pub linked_bracket : ℕ → ℕ → ℕ → BracketOrder
linked_bracket id tp sl = record {
  bracket_id = id;
  tp_order_id = tp;
  sl_order_id = sl;
  status = active;
}

unfoldable pub register_bracket : ℕ → ℕ → ℕ → OcoManager → Result (OcoManager × BracketOrder)
register_bracket id tp sl m = do
  guard (not (tp == sl)) value_error
  guard (not (contains id m.brackets)) value_error
  tp_used ← in_use m tp
  guard (not tp_used) value_error
  sl_used ← in_use m sl
  guard (not sl_used) value_error
  ok (
    record m {
      brackets = insert id (linked_bracket id tp sl) m.brackets;
      order_to_bracket = insert sl id (insert tp id m.order_to_bracket);
    },
    linked_bracket id tp sl,
  )

unfoldable pub get_bracket : OcoManager → ℕ → Option BracketOrder
get_bracket m id = lookup id m.brackets

abbrev pub ends_bracket : OrderStatus → Bool
ends_bracket filled = true
ends_bracket cancelled = true
ends_bracket _ = false

abbrev pub close : BracketOrder → BracketOrder
close b = record b { status = closed }

unfoldable pub handle_execution_report : ExecutionReport → OcoManager → Result OcoManager
handle_execution_report r m = do
  id ← or_key_error (lookup r.order_id m.order_to_bracket)
  b ← or_key_error (lookup id m.brackets)
  if not (is_active b.status) || not (ends_bracket r.status) then ok m else (do
    opposite ← get_opposite_leg b r.order_id
    ok (record m {
      brackets = insert id (close b) m.brackets;
      cancel_requests = opposite ∷ m.cancel_requests;
    }))

unfoldable pub cancel_bracket : ℕ → OcoManager → Result OcoManager
cancel_bracket id m = do
  b ← or_key_error (lookup id m.brackets)
  if is_active b.status
      then ok (record m {
        brackets = insert id (close b) m.brackets;
        cancel_requests = b.sl_order_id ∷ b.tp_order_id ∷ m.cancel_requests;
      })
      else ok m
