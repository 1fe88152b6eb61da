-- ===== src/DeadLetters/Tests.antt =====
-- Two deliveries, and the theorem at them.
use nexus_smarttrading.Prelude.{ℕ, ◌≡◌, refl, some, none, List, [], ◌∷◌}
use nexus_smarttrading.DeadLetters.{
  DlqRecord, Delivery, whole, parts, DeadLetterQueue, final_reason, record_of,
}

abbrev first : DlqRecord ℕ ℕ
first = record { delivery_id = 1; payload = 2; error_reason = 3; timestamp = 4 }

abbrev deliveries : List (ℕ × Delivery ℕ ℕ)
deliveries = (5, whole first) ∷ (6, parts 7 8 none (some 9)) ∷ []

abbrev queue : DeadLetterQueue ℕ ℕ
queue = record { records = first ∷ [] }

second :
    record_of {T = ℕ} {P = ℕ} 0 6 (parts 7 8 none (some 9))
    ≡ record { delivery_id = 7; payload = 8; error_reason = 9; timestamp = 6 }
unfolding record_of final_reason
second = refl
