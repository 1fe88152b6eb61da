-- ===== src/Paginator/Tests.antt =====
-- A history of numbers, and the theorem at it.
use nexus_smarttrading.Prelude.{ℕ, zero, suc, ◌≡◌, refl, some, List, [], ◌∷◌, ok, arith}
use nexus_smarttrading.Paginator.{BackwardSeekingPaginator, init, next_cursor, scan, pages, iterate}
use nexus_smarttrading.Paginator.Batches.{IsDescending, IsWithin, iterate-IsWithin}

program : Unit {0}
unfolding init next_cursor scan pages iterate
program = tt

-- Two records from the cursor down, each its own time, and none at 0: batches overlap.
abbrev fetch : ℕ → List ℕ
fetch zero = []
fetch (suc n) = suc n ∷ n ∷ []

abbrev paginator : BackwardSeekingPaginator
paginator = record { start_time = 3; end_time = 5 }

fetched : iterate (λ r. r) fetch paginator ≡ some (5 ∷ 4 ∷ 4 ∷ 3 ∷ [])
unfolding program
fetched = refl

fetch-IsDescending : (c : ℕ) → IsDescending (λ r. r) c (fetch c)
fetch-IsDescending zero = tt
fetch-IsDescending (suc n) = (omega arith, (omega arith, tt))

ordered : init 3 5 ≡ ok paginator
unfolding program
ordered = refl

iterate-IsWithin_example :
    (rs : List ℕ) × (iterate (λ r. r) fetch paginator ≡ some rs) × IsWithin (λ r. r) 3 5 rs
iterate-IsWithin_example = iterate-IsWithin (λ r. r) fetch paginator ordered fetch-IsDescending
