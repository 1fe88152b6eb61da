-- ===== src/Prelude/Dict.antt =====
-- A Python dict with numbers for keys: an association list in the order of insertion.
use nexus_smarttrading.Prelude.{
  ℕ, ◌≡◌, refl, Bool, true, false, Option, none, some, List, [], ◌∷◌, arith, ◌==◌, if◌then◌else◌,
  inl, inr, Bool-cases,
}

module _ {ℓ} {V : Type ℓ} where
  -- `k in d`
  unfoldable pub contains : ℕ → List (ℕ × V) → Bool
  contains k [] = false
  contains k ((j, v) ∷ m) = if j == k then true else contains k m

  -- `d[k] = v`: a key that is present keeps its place.
  unfoldable pub insert : ℕ → V → List (ℕ × V) → List (ℕ × V)
  insert key value [] = (key, value) ∷ []
  insert key value ((j, w) ∷ m) =
      let later = insert key value m in if j == key then (j, value) ∷ m else (j, w) ∷ later

  -- `d.get(k)`
  unfoldable pub lookup : ℕ → List (ℕ × V) → Option V
  lookup key [] = none
  lookup key ((j, w) ∷ m) = let later = lookup key m in if j == key then some w else later

  -- `del d[k]`, for a dict whose keys are distinct.
  unfoldable pub erase : ℕ → List (ℕ × V) → List (ℕ × V)
  erase k [] = []
  erase k ((j, w) ∷ m) = if j == k then erase k m else (j, w) ∷ erase k m

  pub lookup-insert :
      (key j : ℕ) (value : V) (m : List (ℕ × V))
      → lookup j (insert key value m) ≡ (if key == j then some value else lookup j m)
  unfolding lookup insert
  lookup-insert key j value [] = refl
  lookup-insert key j value (e ∷ m) = ground (arith, lookup-insert key j value m)

  pub lookup-erase :
      (k j : ℕ) (m : List (ℕ × V)) → lookup j (erase k m) ≡ (if k == j then none else lookup j m)
  unfolding lookup erase
  lookup-erase k j [] = ground arith
  lookup-erase k j ((i, w) ∷ m) = ground (arith, lookup-erase k j m)

  pub contains_of_some :
      (k : ℕ) (v : V) (m : List (ℕ × V)) → lookup k m ≡ some v → contains k m ≡ true
  unfolding lookup contains
  contains_of_some k v [] h = ground arith
  contains_of_some k v ((i, w) ∷ m) h = ground (arith, contains_of_some k v m)

  pub lookup_of_absent : (k : ℕ) (m : List (ℕ × V)) → contains k m ≡ false → lookup k m ≡ none
  unfolding lookup contains
  lookup_of_absent k [] h = refl
  lookup_of_absent k ((i, w) ∷ m) h = ground (arith, lookup_of_absent k m)

  pub lookup_of_present :
      (k : ℕ) (m : List (ℕ × V)) → contains k m ≡ true → (v : V) × (lookup k m ≡ some v)
  unfolding lookup contains
  lookup_of_present k [] h = ground arith
  lookup_of_present k ((i, w) ∷ m) h = elim (Bool-cases (i == k)) [
    | inl e ↦ (w, rw e)
    | inr e ↦ let (v, found) = lookup_of_present k m (ground arith) in (v, rw e found)
  ]

  pub contains-insert :
      (key j : ℕ) (value : V) (m : List (ℕ × V))
      → contains j (insert key value m) ≡ (if key == j then true else contains j m)
  unfolding contains insert
  contains-insert key j value [] = refl
  contains-insert key j value (e ∷ m) = ground (arith, contains-insert key j value m)

  pub contains-erase :
      (k j : ℕ) (m : List (ℕ × V))
      → contains j (erase k m) ≡ (if k == j then false else contains j m)
  unfolding contains erase
  contains-erase k j [] = ground arith
  contains-erase k j ((i, w) ∷ m) = ground (arith, contains-erase k j m)
