-- ===== src/Matching/Refusal.antt =====
-- The checks with which `MatchingEngine.submit_order` begins, as rules.
use nexus_smarttrading.Prelude.{
  ℕ, ◌≡◌, ◌≢◌, ◌∷◌, ◌==◌, List, [], true, some, arith, Bool-cases, inl, inr,
}
use nexus_smarttrading.Matching.Order.{Order}
use nexus_smarttrading.Matching.Engine.{MatchingEngine, member, is_refused}

pub data IsListed (id : ℕ) : List ℕ → Type 0 where
  listed_first : {ids : List ℕ} → IsListed id (id ∷ ids)
  listed_later : {j : ℕ} {ids : List ℕ} → IsListed id ids → IsListed id (j ∷ ids)

-- An order is refused for the symbol of another engine, for an identifier that was used before, and
-- for a quantity or a price that is zero.
pub data IsRefused (e : MatchingEngine) (o : Order) : Type 0 where
  other_symbol : o.symbol ≢ e.symbol → IsRefused e o
  used_before : IsListed o.order_id e.order_ids → IsRefused e o
  no_quantity : o.quantity ≡ 0 → IsRefused e o
  zero_price : o.price ≡ some 0 → IsRefused e o

member-IsListed : (id : ℕ) (ids : List ℕ) → member id ids ≡ true → IsListed id ids
unfolding member
member-IsListed id [] h = absurd (ground arith)
member-IsListed id (j ∷ ids) h = elim (Bool-cases (id == j)) [
  | inl e ↦ let same : id ≡ j = ground (arith, e) in rw same listed_first
  | inr e ↦ listed_later (member-IsListed id ids (ground (arith, e)))
]

IsListed-member : {id : ℕ} {ids : List ℕ} → IsListed id ids → member id ids ≡ true
unfolding member
IsListed-member listed_first = ground arith
IsListed-member (listed_later k) = ground (arith, IsListed-member k)

pub is_refused-IsRefused : (e : MatchingEngine) (o : Order) → is_refused e o ≡ true → IsRefused e o
unfolding is_refused
is_refused-IsRefused e o h = elim (Bool-cases (o.symbol == e.symbol)) [
  | inr s ↦ other_symbol (ground (arith, s))
  | inl s ↦ elim (Bool-cases (member o.order_id e.order_ids)) [
    | inl k ↦ used_before (member-IsListed o.order_id e.order_ids k)
    | inr k ↦ elim (Bool-cases (o.quantity == 0)) [
      | inl q ↦ no_quantity (ground (arith, q))
      | inr q ↦ zero_price (ground (arith, s, k, q))
    ]
  ]
]

pub IsRefused-is_refused : (e : MatchingEngine) (o : Order) → IsRefused e o → is_refused e o ≡ true
unfolding is_refused
IsRefused-is_refused e o (other_symbol s) = ground (arith, s)
IsRefused-is_refused e o (used_before k) = ground (arith, IsListed-member k)
IsRefused-is_refused e o (no_quantity q) = ground (arith, q)
IsRefused-is_refused e o (zero_price p) = ground (arith, p)
