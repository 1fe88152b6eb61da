-- ===== src/Paginator.antt =====
-- data/paginator.py: `BackwardSeekingPaginator`. Times are numbers. The callback that fetches a
-- batch and the time of a record are parameters; the loop runs on fuel, and `none` is its lack.
pub mod Batches
mod Tests
use nexus_smarttrading.Prelude.{
  ℕ, ◌+◌, ◌-◌, Bool, not, ◌||◌, Option, none, some, List, [], ◌∷◌, ◌++◌, ltb, leb, if◌then◌else◌,
  zero, suc, Result, ok, value_error, ◌>>◌, guard,
}

pub record BackwardSeekingPaginator : Type 0 where
  pub start_time : ℕ
  pub end_time : ℕ

unfoldable pub init : ℕ → ℕ → Result BackwardSeekingPaginator
init start_time end_time = do
  guard (not (ltb end_time start_time)) value_error
  ok (record { start_time = start_time; end_time = end_time })

abbrev pub prepend_all {ℓ} : {A : Type ℓ} → List A → Option (List A) → Option (List A)
prepend_all ys none = none
prepend_all ys (some zs) = some (ys ++ zs)

-- The next cursor, or the end: at the start time, or when the cursor would not move back.
unfoldable pub next_cursor : ℕ → ℕ → Option ℕ → Option ℕ
next_cursor start_time cursor none = none
next_cursor start_time cursor (some oldest) =
    if leb oldest start_time || leb cursor oldest then none else some oldest

module _ {A : Type 0} (timestamp : A → ℕ) where
  -- The loop over one batch: what it yields, and the time of the last record unless it ended at a
  -- record before the start time, or the batch was empty.
  unfoldable pub scan : ℕ → Option ℕ → List A → List A × Option ℕ
  scan start_time oldest [] = ([], oldest)
  scan start_time oldest (r ∷ rs) =
      let (later, last) = scan start_time (some (timestamp r)) rs in
      if ltb (timestamp r) start_time then ([], none) else (r ∷ later, last)

  module _ (fetch : ℕ → List A) where
    unfoldable pub pages : ℕ → ℕ → ℕ → Option (List A)
    pages start_time zero cursor = none
    pages start_time (suc fuel) cursor =
        let (records, oldest) = scan start_time none (fetch cursor) in
        elim (next_cursor start_time cursor oldest) [
          | none ↦ some records
          | some c ↦ prepend_all records (pages start_time fuel c)
        ]

    unfoldable pub iterate : BackwardSeekingPaginator → Option (List A)
    iterate p = pages p.start_time (p.end_time - p.start_time + 1) p.end_time
