-- ===== src/Oco/Once.antt =====
-- One cancels the other: once for each bracket.
use nexus_smarttrading.Prelude.{
  ℕ, ◌≡◌, ◌≢◌, ◌⊎◌, inl, inr, ◌==◌, ◌&&◌, true, none, some, ◌∷◌, if◌then◌else◌, ok, raise,
  key_error, arith, Bool-cases, Option-cases,
}
use nexus_smarttrading.Prelude.Dict.{lookup, insert, lookup-insert}
use nexus_smarttrading.Oco.{
  active, ExecutionReport, BracketOrder, OcoManager, get_opposite_leg, is_active, ends_bracket,
  close, handle_execution_report, cancel_bracket,
}
use nexus_smarttrading.Oco.Linked.{IsLinked, IsLegOf, OwnsLegs, close-IsLinked}

-- The other leg of a bracket.
abbrev pub other_leg : BracketOrder → ℕ → ℕ
other_leg b o = if o == b.tp_order_id then b.sl_order_id else b.tp_order_id

-- The manager after a report on an order of the bracket `b`: nothing happens if the bracket is
-- closed or the status does not end it; else it is closed and the other leg is to be cancelled.
abbrev pub after_report : OcoManager → ℕ → BracketOrder → ExecutionReport → OcoManager
after_report m id b r =
    if is_active b.status && ends_bracket r.status
    then record m {
      brackets = insert id (close b) m.brackets;
      cancel_requests = other_leg b r.order_id ∷ m.cancel_requests;
    }
    else m

after_report-IsLinked :
    (m : OcoManager) (id : ℕ) (b : BracketOrder) (r : ExecutionReport)
    → lookup id m.brackets ≡ some b
    → IsLinked m
    → IsLinked (after_report m id b r)
after_report-IsLinked m id b r l v =
    elim (Bool-cases (is_active b.status && ends_bracket r.status)) [
      | inl e ↦ rw e (close-IsLinked m id b (other_leg b r.order_id ∷ m.cancel_requests) l v)
      | inr e ↦ rw e v
    ]

-- On linked orders and brackets, a report on an order that is not tracked raises `KeyError`, and a
-- report on any other order does to the bracket of the order what `after_report` says, without an
-- exception. The leg to be cancelled is not the one reported, and the links stay.
pub handle_execution_report-after_report :
    (m : OcoManager) (r : ExecutionReport)
    → IsLinked m
    → ((lookup r.order_id m.order_to_bracket ≡ none)
        × (handle_execution_report r m ≡ raise key_error))
      ⊎ ((id : ℕ) × (b : BracketOrder) × (lookup r.order_id m.order_to_bracket ≡ some id)
          × (lookup id m.brackets ≡ some b)
          × (handle_execution_report r m ≡ ok (after_report m id b r))
          × (other_leg b r.order_id ≢ r.order_id)
          × IsLinked (after_report m id b r))
unfolding handle_execution_report get_opposite_leg
handle_execution_report-after_report m r v =
    elim (Option-cases (lookup r.order_id m.order_to_bracket)) [
      | inl e ↦ inl (e, rw e)
      | inr (id, e) ↦ elim (Option-cases (lookup id m.brackets)) [
        | inl n ↦ absurd (rw n at (v.legs r.order_id id e))
        | inr (b, l) ↦
            let leg : IsLegOf r.order_id id (some b) = rw l at (v.legs r.order_id id e) in
            inr (
              id,
              b,
              e,
              l,
              ground (arith, e, l, leg),
              ground (arith, leg),
              after_report-IsLinked m id b r l v,
            )
      ]
    ]

again-after_report :
    (m : OcoManager) (r r' : ExecutionReport) (id : ℕ) (b : BracketOrder)
    → IsLinked m
    → lookup id m.brackets ≡ some b
    → b.status ≡ active
    → ends_bracket r.status ≡ true
    → (r'.order_id ≡ b.tp_order_id) ⊎ (r'.order_id ≡ b.sl_order_id)
    → (handle_execution_report r' (after_report m id b r) ≡ ok (after_report m id b r))
      × (cancel_bracket id (after_report m id b r) ≡ ok (after_report m id b r))
unfolding handle_execution_report cancel_bracket
again-after_report m r r' id b v l a ends leg =
    let own : OwnsLegs m.order_to_bracket id (some b) = rw l at (v.owns id) in
    ground (arith, own, lookup-insert id id (close b) m.brackets)

handled-after_report :
    (m m' : OcoManager) (r : ExecutionReport) (id : ℕ) (b : BracketOrder)
    → IsLinked m
    → lookup r.order_id m.order_to_bracket ≡ some id
    → lookup id m.brackets ≡ some b
    → handle_execution_report r m ≡ ok m'
    → m' ≡ after_report m id b r
handled-after_report m m' r id b v t l e = elim (handle_execution_report-after_report m r v) [
  | inl (absent, _) ↦ ground (arith, t, absent)
  | inr (id', b', t', l', e', _, _) ↦ let same_id : id' ≡ id = cc in let same : b' ≡ b = cc in cc
]

-- On linked orders and brackets, after `handle_execution_report` has handled a report that ends an
-- active bracket, which is the bracket of the order reported, any further report on either of its
-- legs changes nothing, and so does `cancel_bracket` of it: no leg is cancelled twice.
pub report_twice :
    (m m' : OcoManager) (r r' : ExecutionReport) (id : ℕ) (b : BracketOrder)
    → IsLinked m
    → lookup r.order_id m.order_to_bracket ≡ some id
    → lookup id m.brackets ≡ some b
    → b.status ≡ active
    → ends_bracket r.status ≡ true
    → handle_execution_report r m ≡ ok m'
    → (r'.order_id ≡ b.tp_order_id) ⊎ (r'.order_id ≡ b.sl_order_id)
    → (handle_execution_report r' m' ≡ ok m') × (cancel_bracket id m' ≡ ok m')
report_twice m m' r r' id b v t l a ends e leg =
    let same = handled-after_report m m' r id b v t l e in
    rw same (again-after_report m r r' id b v l a ends leg)
