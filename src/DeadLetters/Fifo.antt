-- ===== src/DeadLetters/Fifo.antt =====
-- The queue gives its records back in the order in which they came.
use nexus_smarttrading.Prelude.{ℕ, zero, suc, List, [], ◌∷◌, ok, raise}
use nexus_smarttrading.DeadLetters.{DlqRecord, Delivery, DeadLetterQueue, record_of, enqueue, pop}

module _ {T P : Type 0} where
  -- Deliveries that arrive one after the other, each with its time.
  unfoldable pub enqueue_all :
      T → List (ℕ × Delivery T P) → DeadLetterQueue T P → DeadLetterQueue T P
  enqueue_all empty [] q = q
  enqueue_all empty ((now, d) ∷ ds) q = enqueue_all empty ds ((enqueue empty now d q).0)

  -- Pops, as many as given, until one raises.
  unfoldable pub pop_all : ℕ → DeadLetterQueue T P → List (DlqRecord T P)
  pop_all zero q = []
  pop_all (suc n) q = elim (pop q) [ raise e ↦ [] | ok (q', r) ↦ r ∷ pop_all n q' ]

  abbrev pub records_of : T → List (ℕ × Delivery T P) → List (DlqRecord T P)
  records_of empty [] = []
  records_of empty ((now, d) ∷ ds) = record_of empty now d ∷ records_of empty ds
