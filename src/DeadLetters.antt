-- ===== src/DeadLetters.antt =====
-- webhooks/dlq.py: `DeadLetterQueue`. Texts and payloads are of any types; the time of a new record
-- is given.
pub mod Fifo
mod Tests
use nexus_smarttrading.Prelude.{
  ℕ, Option, none, some, List, [], ◌∷◌, ◌++◌, length, Result, ok, raise, index_error,
}

pub record DlqRecord (T P : Type 0) : Type 0 where
  pub delivery_id : T
  pub payload : P
  pub error_reason : T
  pub timestamp : ℕ

-- The arguments of `enqueue`: a record, or the parts of one, of which the reasons may be missing.
pub data Delivery (T P : Type 0) : Type 0 where
  whole : DlqRecord T P → Delivery T P
  parts : T → P → Option T → Option T → Delivery T P

pub record DeadLetterQueue (T P : Type 0) : Type 0 where
  pub records : List (DlqRecord T P)

-- `reason if reason is not None else (error_reason or "")`, `empty` being the empty text.
unfoldable pub final_reason : {T : Type 0} → T → Option T → Option T → T
final_reason empty (some reason) error_reason = reason
final_reason empty none (some error_reason) = error_reason
final_reason empty none none = empty

module _ {T P : Type 0} where
  unfoldable pub record_of : T → ℕ → Delivery T P → DlqRecord T P
  record_of empty now (whole r) = r
  record_of empty now (parts delivery_id payload reason error_reason) = record {
    delivery_id = delivery_id;
    payload = payload;
    error_reason = final_reason empty reason error_reason;
    timestamp = now;
  }

  unfoldable pub enqueue :
      T → ℕ → Delivery T P → DeadLetterQueue T P → DeadLetterQueue T P × DlqRecord T P
  enqueue empty now d q =
      let r = record_of empty now d in (record { records = q.records ++ (r ∷ []) }, r)

  unfoldable pub peek : DeadLetterQueue T P → Result (DlqRecord T P)
  peek q = elim q.records [ [] ↦ raise index_error | r ∷ rs ↦ ok r ]

  unfoldable pub pop : DeadLetterQueue T P → Result (DeadLetterQueue T P × DlqRecord T P)
  pop q = elim q.records [ [] ↦ raise index_error | r ∷ rs ↦ ok (record { records = rs }, r) ]

  unfoldable pub size : DeadLetterQueue T P → ℕ
  size q = length q.records

  unfoldable pub clear : DeadLetterQueue T P → DeadLetterQueue T P
  clear q = record { records = [] }
