-- ===== src/Paginator/Batches.antt =====
-- The records come backwards, none before the start time, and they end.
use nexus_smarttrading.Prelude.{
  ℕ, ◌+◌, ◌-◌, ◌≤◌, ◌<◌, ◌≡◌, refl, sym, ok, Option, none, some, List, [], ◌∷◌, ◌++◌, ltb, zero,
  suc, arith, Bool-cases, Option-cases, inl, inr,
}
use mathlib.Core.Path.{subst}
use mathlib.Core.List.{append-nil}
use nexus_smarttrading.Paginator.{BackwardSeekingPaginator, next_cursor, scan, pages, iterate, init}

module _ {A : Type 0} (timestamp : A → ℕ) where
  -- From the bound down.
  abbrev pub IsDescending : ℕ → List A → Type 0
  IsDescending bound [] = Unit {0}
  IsDescending bound (r ∷ rs) = (timestamp r ≤ bound) × IsDescending (timestamp r) rs

  -- From the bound down to the start time.
  abbrev pub IsWithin : ℕ → ℕ → List A → Type 0
  IsWithin start bound [] = Unit {0}
  IsWithin start bound (r ∷ rs) =
      (start ≤ timestamp r) × (timestamp r ≤ bound) × IsWithin start (timestamp r) rs

  abbrev Follows : ℕ → Option ℕ → List A → Type 0
  Follows start none rs = rs ≡ []
  Follows start (some oldest) rs = IsWithin start oldest rs

  module _ (fetch : ℕ → List A) where
    scan-IsWithin :
        (start bound : ℕ) (rs later : List A)
        → IsDescending bound rs
        → Follows start ((scan timestamp start (some bound) rs).1) later
        → IsWithin start bound ((scan timestamp start (some bound) rs).0 ++ later)
    unfolding scan
    scan-IsWithin start bound [] later d f = f
    scan-IsWithin start bound (r ∷ rs) later d f = elim (Bool-cases (ltb (timestamp r) start)) [
      | inl old ↦ rw old (subst (IsWithin start bound) (sym (rw old at f)) tt)
      | inr young ↦ rw young (
        ground (arith, young),
        d.0,
        scan-IsWithin start (timestamp r) rs later d.1 (rw young at f),
      )
    ]

    next_cursor-back :
        (start cursor c : ℕ) (oldest : Option ℕ)
        → next_cursor start cursor oldest ≡ some c
        → (oldest ≡ some c) × (start < c) × (c < cursor)
    unfolding next_cursor
    next_cursor-back start cursor c oldest e = ground (arith, e)

    first-IsWithin :
        (start bound : ℕ) (rs later : List A)
        → IsDescending bound rs
        → Follows start ((scan timestamp start none rs).1) later
        → IsWithin start bound ((scan timestamp start none rs).0 ++ later)
    unfolding scan
    first-IsWithin start bound [] later d f = subst (IsWithin start bound) (sym f) tt
    first-IsWithin start bound (r ∷ rs) later d f = elim (Bool-cases (ltb (timestamp r) start)) [
      | inl old ↦ rw old (subst (IsWithin start bound) (sym (rw old at f)) tt)
      | inr young ↦ rw young (
        ground (arith, young),
        d.0,
        scan-IsWithin start (timestamp r) rs later d.1 (rw young at f),
      )
    ]

    Follows-none : (start : ℕ) (oldest : Option ℕ) → Follows start oldest []
    Follows-none start none = refl
    Follows-none start (some o) = tt

    pages-ends :
        (start fuel cursor : ℕ)
        → ((c : ℕ) → IsDescending c (fetch c))
        → cursor < start + fuel
        → 0 < fuel
        → (rs : List A) × (pages timestamp fetch start fuel cursor ≡ some rs)
          × IsWithin start cursor rs
    unfolding pages
    pages-ends start zero cursor descends h p = ground (arith, p)
    pages-ends start (suc fuel) cursor descends h p =
        let batch = scan timestamp start none (fetch cursor) in
        let yields = first-IsWithin start cursor (fetch cursor) in
        elim (Option-cases (next_cursor start cursor (batch.1))) [
          | inl e ↦ (
            batch.0,
            rw (e, pages) refl,
            subst (IsWithin start cursor) (append-nil (batch.0))
                (yields [] (descends cursor) (Follows-none start (batch.1))),
          )
          | inr (c, e) ↦
              let (oldest, above, below) = next_cursor-back start cursor c (batch.1) e in
              let (rs, found, within) =
                pages-ends start fuel c descends (omega arith) (omega arith) in
              (
                batch.0 ++ rs,
                rw (e, found, pages) refl,
                yields rs (descends cursor) (subst (λ o. Follows start o rs) (sym oldest) within),
              )
        ]

    -- With a callback that returns batches in descending order from the cursor down, the iteration
    -- over a paginator whose times are in order ends, with the fuel that it has, and its records
    -- come in descending order over all batches, from the end time down to the start time.
    pub iterate-IsWithin :
        (p : BackwardSeekingPaginator)
        → init p.start_time p.end_time ≡ ok p
        → ((cursor : ℕ) → IsDescending cursor (fetch cursor))
        → (rs : List A) × (iterate timestamp fetch p ≡ some rs)
          × IsWithin p.start_time p.end_time rs
    unfolding iterate init
    iterate-IsWithin p ordered descends =
        pages-ends p.start_time (p.end_time - p.start_time + 1) p.end_time descends
          (ground (arith, ordered)) (omega arith)
