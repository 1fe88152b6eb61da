-- ===== src/Oco/Linked.antt =====
-- Orders and brackets are linked both ways, and a bracket cancels its other leg once.
use nexus_smarttrading.Prelude.{
  ℕ, ◌≡◌, refl, ◌≢◌, ◌⊎◌, inl, inr, ◌==◌, Bool, true, false, Option, none, some, List, Result, ok,
  raise, arith, Bool-cases, Option-cases,
}
use nexus_smarttrading.Prelude.Dict.{lookup, insert, contains, lookup-insert, lookup_of_absent}
use nexus_smarttrading.Oco.{
  active, closed, BracketOrder, OcoManager, in_use, linked_bracket, register_bracket, close,
}

-- The bracket of an order: it is there under its identifier, and the order is one of its legs.
abbrev pub IsLegOf : ℕ → ℕ → Option BracketOrder → Type 0
IsLegOf o id none = ⊥
IsLegOf o id (some b) =
    (b.bracket_id ≡ id)
    × ((o ≡ b.tp_order_id) ⊎ (o ≡ b.sl_order_id))
    × (b.tp_order_id ≢ b.sl_order_id)

-- An active bracket is the one that both of its legs belong to.
abbrev pub OwnsLegs : List (ℕ × ℕ) → ℕ → Option BracketOrder → Type 0
OwnsLegs orders id none = Unit {0}
OwnsLegs orders id (some b) =
    b.status ≡ active
    → (lookup b.tp_order_id orders ≡ some id) × (lookup b.sl_order_id orders ≡ some id)

pub record IsLinked (m : OcoManager) : Type 0 where
  pub legs :
      (o id : ℕ) → lookup o m.order_to_bracket ≡ some id → IsLegOf o id (lookup id m.brackets)
  pub owns : (id : ℕ) → OwnsLegs m.order_to_bracket id (lookup id m.brackets)

-- Closing a bracket keeps the links.
pub close-IsLinked :
    (m : OcoManager) (id : ℕ) (b : BracketOrder) (requests : List ℕ)
    → lookup id m.brackets ≡ some b
    → IsLinked m
    → IsLinked (record m { brackets = insert id (close b) m.brackets; cancel_requests = requests })
close-IsLinked m id b requests e v = record {
  legs = λ o j h. ground (arith, lookup-insert id j (close b) m.brackets, v.legs o j h);
  owns = λ j. ground (arith, lookup-insert id j (close b) m.brackets, v.owns j);
}

-- What `register_bracket` has checked of an order when it succeeds.
abbrev Free : OcoManager → ℕ → Option ℕ → Type 0
Free m o none = Unit {0}
Free m o (some id) = (b : BracketOrder) × (lookup id m.brackets ≡ some b) × (b.status ≡ closed)

not-Free :
    (m : OcoManager) (o j : ℕ) (b : BracketOrder)
    → Free m o (lookup o m.order_to_bracket)
    → lookup o m.order_to_bracket ≡ some j
    → lookup j m.brackets ≡ some b
    → b.status ≡ active
    → ⊥
not-Free m o j b f e l a = let (b', l', c) = rw e at f in ground (arith, l')

register-IsLinked :
    (m : OcoManager) (id tp sl : ℕ)
    → tp ≢ sl
    → contains id m.brackets ≡ false
    → Free m tp (lookup tp m.order_to_bracket)
    → Free m sl (lookup sl m.order_to_bracket)
    → IsLinked m
    → IsLinked (record m {
      brackets = insert id (linked_bracket id tp sl) m.brackets;
      order_to_bracket = insert sl id (insert tp id m.order_to_bracket);
    })
register-IsLinked m id tp sl ne fresh ft fs v =
    let absent = lookup_of_absent id m.brackets fresh in
    record {
      legs = λ o j h. ground (
        arith,
        h,
        absent,
        lookup-insert sl o id (insert tp id m.order_to_bracket),
        lookup-insert tp o id m.order_to_bracket,
        lookup-insert id j (linked_bracket id tp sl) m.brackets,
        v.legs o j,
      );
      owns = λ j. elim (Option-cases (lookup j m.brackets)) [
        | inl e ↦ ground (
          arith,
          lookup-insert id j (linked_bracket id tp sl) m.brackets,
          lookup-insert sl tp id (insert tp id m.order_to_bracket),
          lookup-insert sl sl id (insert tp id m.order_to_bracket),
          lookup-insert tp tp id m.order_to_bracket,
        )
        | inr (b, e) ↦
            let orders = insert tp id m.order_to_bracket in
            let own : OwnsLegs m.order_to_bracket j (some b) = rw e at (v.owns j) in
            ground (
              arith,
              absent,
              e,
              own,
              not-Free m tp j b ft,
              not-Free m sl j b fs,
              lookup-insert id j (linked_bracket id tp sl) m.brackets,
              lookup-insert sl b.tp_order_id id orders,
              lookup-insert sl b.sl_order_id id orders,
              lookup-insert tp b.tp_order_id id m.order_to_bracket,
              lookup-insert tp b.sl_order_id id m.order_to_bracket,
            )
      ];
    }

Free-unused :
    (m : OcoManager) (o : ℕ) → in_use m o ≡ ok false → Free m o (lookup o m.order_to_bracket)
unfolding in_use
Free-unused m o h = elim (Option-cases (lookup o m.order_to_bracket)) [
  | inl e ↦ rw e tt
  | inr (id, e) ↦ elim (Option-cases (lookup id m.brackets)) [
    | inl n ↦ absurd (ground (arith, e, n))
    | inr (b, l) ↦ rw e (b, l, ground (arith, e, l))
  ]
]

abbrev pub LinkedOrRaises : Result OcoManager → Type 0
LinkedOrRaises (ok m) = IsLinked m
LinkedOrRaises (raise e) = Unit {0}

abbrev pub RegistersOrRaises : Result (OcoManager × BracketOrder) → Type 0
RegistersOrRaises (ok (m, b)) =
    IsLinked m × (lookup b.bracket_id m.brackets ≡ some b) × (b.status ≡ active)
RegistersOrRaises (raise e) = Unit {0}

register_tests :
    (m : OcoManager) (id tp sl : ℕ) (u v : Result Bool)
    → in_use m tp ≡ u
    → in_use m sl ≡ v
    → IsLinked m
    → RegistersOrRaises (register_bracket id tp sl m)
unfolding register_bracket
register_tests m id tp sl (raise e) v hu hv l = ground arith
register_tests m id tp sl (ok true) v hu hv l = ground arith
register_tests m id tp sl (ok false) (raise e) hu hv l = ground arith
register_tests m id tp sl (ok false) (ok true) hu hv l = ground arith
register_tests m id tp sl (ok false) (ok false) hu hv l = elim (Bool-cases (tp == sl)) [
  | inl e ↦ rw (e, register_bracket) tt
  | inr ne ↦ elim (Bool-cases (contains id m.brackets)) [
    | inl c ↦ rw (ne, c, register_bracket) tt
    | inr fresh ↦
        rw (ne, fresh, hu, hv, register_bracket)
          (
            register-IsLinked m id tp sl (ground arith) fresh (Free-unused m tp hu)
                (Free-unused m sl hv) l,
            ground (arith, lookup-insert id id (linked_bracket id tp sl) m.brackets),
            refl,
          )
  ]
]

-- On linked orders and brackets, a registration that succeeds returns an active bracket which is
-- found under its identifier, and leaves the orders and brackets linked: every order that is
-- tracked is a leg of its bracket, and an active bracket owns both of its legs.
pub register_bracket-IsLinked :
    (m : OcoManager) (id tp sl : ℕ) → IsLinked m → RegistersOrRaises (register_bracket id tp sl m)
register_bracket-IsLinked m id tp sl l =
    register_tests m id tp sl (in_use m tp) (in_use m sl) refl refl l
