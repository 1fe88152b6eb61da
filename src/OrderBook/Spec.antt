-- ===== src/OrderBook/Spec.antt =====
-- What the tree stands for: an association list in ascending order of keys.
use nexus_smarttrading.Prelude.{
  ℕ, ◌+◌, ◌-◌, ◌<◌, ◌≡◌, refl, Option, none, some, List, [], ◌∷◌, ◌++◌, arith, ltb, if◌then◌else◌,
  length, ◌==◌, ◌≢◌,
}

module _ {V : Type 0} where
  unfoldable pub put : ℕ → V → List (ℕ × V) → List (ℕ × V)
  put key value [] = (key, value) ∷ []
  put key value ((j, w) ∷ m) =
      let later = put key value m in
      if ltb key j
      then (key, value) ∷ (j, w) ∷ m
      else if ltb j key
      then (j, w) ∷ later
      else (j, value) ∷ m

  unfoldable pub remove : ℕ → List (ℕ × V) → List (ℕ × V)
  remove key [] = []
  remove key ((j, w) ∷ m) =
      let later = remove key m in
      if ltb key j then (j, w) ∷ m else if ltb j key then (j, w) ∷ later else m

  unfoldable pub lookup : ℕ → List (ℕ × V) → Option V
  lookup key [] = none
  lookup key ((j, w) ∷ m) =
      let later = lookup key m in if ltb key j then none else if ltb j key then later else some w

  abbrev pub Above : ℕ → List (ℕ × V) → Type 0
  Above j [] = Unit {0}
  Above j ((k, v) ∷ m) = (j < k) × Above j m

  abbrev pub Below : ℕ → List (ℕ × V) → Type 0
  Below j [] = Unit {0}
  Below j ((k, v) ∷ m) = (k < j) × Below j m

  -- The keys grow along the list.
  abbrev pub IsAscending : List (ℕ × V) → Type 0
  IsAscending [] = Unit {0}
  IsAscending ((k, v) ∷ m) = Above k m × IsAscending m

  pub Above-mono : (i j : ℕ) (m : List (ℕ × V)) → i < j → Above j m → Above i m
  Above-mono i j [] h a = tt
  Above-mono i j ((k, v) ∷ m) h a = (omega arith, Above-mono i j m h a.1)

  Above-right : (j : ℕ) (xs ys : List (ℕ × V)) → Above j (xs ++ ys) → Above j ys
  Above-right j [] ys a = a
  Above-right j (x ∷ xs) ys a = Above-right j xs ys a.1

  Above-left : (j : ℕ) (xs ys : List (ℕ × V)) → Above j (xs ++ ys) → Above j xs
  Above-left j [] ys a = tt
  Above-left j (x ∷ xs) ys a = (a.0, Above-left j xs ys a.1)

  pub IsAscending-left : (xs ys : List (ℕ × V)) → IsAscending (xs ++ ys) → IsAscending xs
  IsAscending-left [] ys h = tt
  IsAscending-left ((k, v) ∷ xs) ys h = (Above-left k xs ys h.0, IsAscending-left xs ys h.1)

  pub IsAscending-right : (xs ys : List (ℕ × V)) → IsAscending (xs ++ ys) → IsAscending ys
  IsAscending-right [] ys h = h
  IsAscending-right (x ∷ xs) ys h = IsAscending-right xs ys h.1

  pub ascending-Below :
      (xs : List (ℕ × V)) (j : ℕ) (w : V) (ys : List (ℕ × V))
      → IsAscending (xs ++ ((j, w) ∷ ys))
      → Below j xs
  ascending-Below [] j w ys h = tt
  ascending-Below ((k, v) ∷ xs) j w ys h =
      ((Above-right k xs ((j, w) ∷ ys) h.0).0, ascending-Below xs j w ys h.1)

  module _ (key j : ℕ) (w : V) where
    pub put_left :
        (value : V) (xs ys : List (ℕ × V))
        → key < j
        → put key value (xs ++ ((j, w) ∷ ys)) ≡ put key value xs ++ ((j, w) ∷ ys)
    unfolding put
    put_left value [] ys h = ground arith
    put_left value ((k, v) ∷ xs) ys h = ground (arith, put_left value xs ys h)

    pub put_right :
        (value : V) (xs ys : List (ℕ × V))
        → j < key
        → Below j xs
        → put key value (xs ++ ((j, w) ∷ ys)) ≡ xs ++ ((j, w) ∷ put key value ys)
    unfolding put
    put_right value [] ys h b = ground arith
    put_right value ((k, v) ∷ xs) ys h b = ground (arith, put_right value xs ys h b.1)

    pub put_here :
        (value : V) (xs ys : List (ℕ × V))
        → j ≡ key
        → Below j xs
        → put key value (xs ++ ((j, w) ∷ ys)) ≡ xs ++ ((j, value) ∷ ys)
    unfolding put
    put_here value [] ys h b = ground arith
    put_here value ((k, v) ∷ xs) ys h b = ground (arith, put_here value xs ys h b.1)

    pub remove_left :
        (xs ys : List (ℕ × V))
        → key < j
        → remove key (xs ++ ((j, w) ∷ ys)) ≡ remove key xs ++ ((j, w) ∷ ys)
    unfolding remove
    remove_left [] ys h = ground arith
    remove_left ((k, v) ∷ xs) ys h = ground (arith, remove_left xs ys h)

    pub remove_right :
        (xs ys : List (ℕ × V))
        → j < key
        → Below j xs
        → remove key (xs ++ ((j, w) ∷ ys)) ≡ xs ++ ((j, w) ∷ remove key ys)
    unfolding remove
    remove_right [] ys h b = ground arith
    remove_right ((k, v) ∷ xs) ys h b = ground (arith, remove_right xs ys h b.1)

    pub remove_here :
        (xs ys : List (ℕ × V)) → j ≡ key → Below j xs → remove key (xs ++ ((j, w) ∷ ys)) ≡ xs ++ ys
    unfolding remove
    remove_here [] ys h b = ground arith
    remove_here ((k, v) ∷ xs) ys h b = ground (arith, remove_here xs ys h b.1)

    pub lookup_left :
        (xs ys : List (ℕ × V)) → key < j → lookup key (xs ++ ((j, w) ∷ ys)) ≡ lookup key xs
    unfolding lookup
    lookup_left [] ys h = ground arith
    lookup_left ((k, v) ∷ xs) ys h = ground (arith, lookup_left xs ys h)

    pub lookup_right :
        (xs ys : List (ℕ × V))
        → j < key
        → Below j xs
        → lookup key (xs ++ ((j, w) ∷ ys)) ≡ lookup key ys
    unfolding lookup
    lookup_right [] ys h b = ground arith
    lookup_right ((k, v) ∷ xs) ys h b = ground (arith, lookup_right xs ys h b.1)

    pub lookup_here :
        (xs ys : List (ℕ × V)) → j ≡ key → Below j xs → lookup key (xs ++ ((j, w) ∷ ys)) ≡ some w
    unfolding lookup
    lookup_here [] ys h b = ground arith
    lookup_here ((k, v) ∷ xs) ys h b = ground (arith, lookup_here xs ys h b.1)

  Above-put :
      (j key : ℕ) (value : V) (m : List (ℕ × V)) → j < key → Above j m → Above j (put key value m)
  unfolding put
  Above-put j key value [] h a = (h, tt)
  Above-put j key value ((k, v) ∷ m) h a = ground (arith, Above-put j key value m h a.1)

  pub put-IsAscending :
      (key : ℕ) (value : V) (m : List (ℕ × V)) → IsAscending m → IsAscending (put key value m)
  unfolding put
  put-IsAscending key value [] h = (tt, tt)
  put-IsAscending key value ((k, v) ∷ m) h =
      ground (arith, put-IsAscending key value m h.1, Above-put k key value m, Above-mono key k m)

  Above-remove : (j key : ℕ) (m : List (ℕ × V)) → Above j m → Above j (remove key m)
  unfolding remove
  Above-remove j key [] a = tt
  Above-remove j key ((k, v) ∷ m) a = ground (arith, Above-remove j key m a.1)

  pub remove-IsAscending : (key : ℕ) (m : List (ℕ × V)) → IsAscending m → IsAscending (remove key m)
  unfolding remove
  remove-IsAscending key [] h = tt
  remove-IsAscending key ((k, v) ∷ m) h =
      ground (arith, remove-IsAscending key m h.1, Above-remove k key m h.0)

  lookup-Above : (key : ℕ) (m : List (ℕ × V)) → Above key m → lookup key m ≡ none
  unfolding lookup
  lookup-Above key [] a = refl
  lookup-Above key ((k, v) ∷ m) a = ground arith

  pub lookup-put :
      (key j : ℕ) (value : V) (m : List (ℕ × V))
      → IsAscending m
      → lookup j (put key value m) ≡ (if key == j then some value else lookup j m)
  unfolding lookup put
  lookup-put key j value [] h = ground arith
  lookup-put key j value ((k, v) ∷ m) h = ground (arith, lookup-put key j value m h.1)

  pub lookup-remove :
      (key j : ℕ) (m : List (ℕ × V))
      → IsAscending m
      → lookup j (remove key m) ≡ (if key == j then none else lookup j m)
  unfolding lookup remove
  lookup-remove key j [] h = ground arith
  lookup-remove key j ((k, v) ∷ m) h =
      ground (arith, lookup-remove key j m h.1, lookup-Above j m, Above-mono j k m)

  pub length-put :
      (key : ℕ) (value : V) (m : List (ℕ × V))
      → length (put key value m) ≡ elim (lookup key m) [ none ↦ length m + 1 | some w ↦ length m ]
  unfolding lookup put
  length-put key value [] = omega arith
  length-put key value ((k, v) ∷ m) = ground (arith, length-put key value m)

  length_pos : (key : ℕ) (m : List (ℕ × V)) → lookup key m ≢ none → 0 < length m
  unfolding lookup
  length_pos key [] h = absurd (h refl)
  length_pos key ((k, v) ∷ m) h = omega arith

  pub length-remove :
      (key : ℕ) (m : List (ℕ × V)) → lookup key m ≢ none → length (remove key m) ≡ length m - 1
  unfolding lookup remove
  length-remove key [] h = absurd (h refl)
  length-remove key ((k, v) ∷ m) h = ground (arith, length-remove key m, length_pos key m)
