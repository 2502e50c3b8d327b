-- ===== src/GoSlice/Laws.antt =====
-- What the operations on the slices of proxybatcher/configurator.go do to the elements that a slice
-- shows.
use native.Mathlib.Numerals.{unary_clauses}
use dhcp_batcher.Common.{
  length-append, length-drop, ℕ, zero, suc, ◌-◌, ◌≤◌, ◌<◌, some, List, [], ◌∷◌, ◌++◌, ◌≡◌, ◌≢◌, inl,
  inr, refl, ap, ◌∙◌, arith, length, get_elem?, take, drop, ltb, length-take, Bool-cases,
}
use dhcp_batcher.GoSlice.{
  Slice, nil, view, array, contents, set_at, replicate, fresh, append, shift, remove_at,
}

module _ {ℓ} {A : Type ℓ} where
  pub length-set_at : (i : ℕ) (x : A) (xs : List A) → length (set_at i x xs) ≡ length xs
  unfolding set_at
  length-set_at i x [] = refl
  length-set_at zero x (y ∷ xs) = refl
  length-set_at (suc i) x (y ∷ xs) = ap suc (length-set_at i x xs)

  pub get-set_at :
      (i : ℕ) (x : A) (xs : List A) → i < length xs → get_elem? (set_at i x xs) i ≡ some x
  unfolding set_at
  get-set_at i x [] h = absurd (omega arith)
  get-set_at zero x (y ∷ xs) h = refl
  get-set_at (suc i) x (y ∷ xs) h = get-set_at i x xs (omega arith)

  -- Writing behind the elements that a prefix shows does not change them.
  pub take-set_at : (n i : ℕ) (x : A) (xs : List A) → n ≤ i → take n (set_at i x xs) ≡ take n xs
  unfolding set_at
  take-set_at zero i x xs h = refl
  take-set_at (suc n) i x [] h = refl
  take-set_at (suc n) zero x (y ∷ xs) h = absurd (omega arith)
  take-set_at (suc n) (suc i) x (y ∷ xs) h = ap (λ l. y ∷ l) (take-set_at n i x xs (omega arith))

  -- Writing just behind a prefix extends it.
  pub take-set_at_next :
      (n : ℕ) (x : A) (xs : List A)
      → n < length xs
      → take (suc n) (set_at n x xs) ≡ take n xs ++ x ∷ []
  unfolding set_at
  take-set_at_next n x [] h = absurd (omega arith)
  take-set_at_next zero x (y ∷ xs) h = refl
  take-set_at_next (suc n) x (y ∷ xs) h = ap (λ l. y ∷ l) (take-set_at_next n x xs (omega arith))

  pub take-length_append : (xs ys : List A) → take (length xs) (xs ++ ys) ≡ xs
  take-length_append [] ys = refl
  take-length_append (x ∷ xs) ys = ap (λ l. x ∷ l) (take-length_append xs ys)

  pub get-last : (xs : List A) (x : A) → get_elem? (xs ++ x ∷ []) (length xs) ≡ some x
  get-last [] x = refl
  get-last (y ∷ xs) x = get-last xs x

module _ {ℓ} {A : Type ℓ} where
  -- A slice that its array has room for.
  abbrev pub Fits : List (List A) → Slice → Type 0
  Fits store nil = Unit
  Fits store (view a n) = (a < length store) × (n ≤ length (array a store))

  contents-fresh :
      (spare : ℕ → ℕ) (z : A) (xs : List A) (store : List (List A))
      → contents (fresh spare z xs store).1 (fresh spare z xs store).0 ≡ xs
  contents-fresh spare z xs store =
      rw (get-last store (xs ++ replicate (spare (length xs)) z))
        (take-length_append xs (replicate (spare (length xs)) z))

  -- Appending puts the element behind those of the slice.
  pub contents-append :
      (spare : ℕ → ℕ) (z x : A) (s : Slice) (store : List (List A))
      → Fits store s
      → contents (append spare z x s store).1 (append spare z x s store).0
        ≡ contents store s ++ x ∷ []
  unfolding append
  contents-append spare z x nil store h = contents-fresh spare z (x ∷ []) store
  contents-append spare z x (view a n) store (here, room) =
      elim (Bool-cases (ltb n (length (array a store)))) [
        | inl e ↦
            rw (e, get-set_at a (set_at n x (array a store)) store here)
              (take-set_at_next n x (array a store) (ground arith))
        | inr e ↦ rw e (contents-fresh spare z (take n (array a store) ++ x ∷ []) store)
      ]

  take-take_append : (m : ℕ) (xs ys : List A) → m ≤ length xs → take m (take m xs ++ ys) ≡ take m xs
  take-take_append zero xs ys h = refl
  take-take_append (suc m) [] ys h = absurd (omega arith)
  take-take_append (suc m) (x ∷ xs) ys h = ap (λ l. x ∷ l) (take-take_append m xs ys (omega arith))

  take-shift :
      (m i : ℕ) (xs rest : List A)
      → i ≤ m
      → suc m ≤ length xs
      → take m (take i xs ++ (take (m - i) (drop (suc i) xs) ++ rest))
        ≡ take i (take (suc m) xs) ++ drop (suc i) (take (suc m) xs)
  take-shift m i [] rest h room = absurd (omega arith)
  take-shift m zero (x ∷ xs) rest h room =
      simp unary_clauses (take-take_append m xs rest (omega arith))
  take-shift zero (suc i) (x ∷ xs) rest h room = absurd (omega arith)
  take-shift (suc m) (suc i) (x ∷ xs) rest h room =
      simp unary_clauses (ap (λ l. x ∷ l) (take-shift m i xs rest (omega arith) (omega arith)))

  contents-removed :
      (n i : ℕ) (z : A) (xs : List A)
      → i < n
      → n ≤ length xs
      → take (n - 1) (set_at (n - 1) z (shift i n xs))
        ≡ take i (take n xs) ++ drop (suc i) (take n xs)
  unfolding shift
  contents-removed zero i z xs h room = absurd (omega arith)
  contents-removed (suc m) i z xs h room = simp unary_clauses (
      take-set_at m m z (take i xs ++ (take (m - i) (drop (suc i) xs) ++ drop m xs)) (omega arith)
      ∙ take-shift m i xs (drop m xs) (omega arith) room)

  -- Removing an element keeps the others in their order.
  pub contents-remove_at :
      (z : A) (i : ℕ) (s : Slice) (store : List (List A))
      → Fits store s
      → i < length (contents store s)
      → contents (remove_at z i s store).1 (remove_at z i s store).0
        ≡ take i (contents store s) ++ drop (suc i) (contents store s)
  unfolding remove_at
  contents-remove_at z i nil store h below = absurd (omega arith)
  contents-remove_at z i (view a n) store (here, room) below =
      rw (get-set_at a (set_at (n - 1) z (shift i n (array a store))) store here)
        (contents-removed n i z (array a store) (omega (arith, length-take n (array a store))) room)

  -- A prefix that the array has room for shows as many elements as it says.
  pub length-contents :
      (a n : ℕ) (store : List (List A))
      → Fits store (view a n)
      → length (contents store (view a n)) ≡ n
  length-contents a n store (here, room) = omega (arith, length-take n (array a store))

  pub get-set_at_other :
      (i j : ℕ) (x : A) (xs : List A) → i ≢ j → get_elem? (set_at i x xs) j ≡ get_elem? xs j
  unfolding set_at
  get-set_at_other i j x [] h = refl
  get-set_at_other zero zero x (y ∷ xs) h = absurd (h refl)
  get-set_at_other zero (suc j) x (y ∷ xs) h = refl
  get-set_at_other (suc i) zero x (y ∷ xs) h = refl
  get-set_at_other (suc i) (suc j) x (y ∷ xs) h = get-set_at_other i j x xs (λ e. h (ap suc e))

  pub get-before :
      (xs ys : List A) (i : ℕ) → i < length xs → get_elem? (xs ++ ys) i ≡ get_elem? xs i
  get-before [] ys i h = absurd (omega arith)
  get-before (x ∷ xs) ys zero h = refl
  get-before (x ∷ xs) ys (suc i) h = get-before xs ys i (omega arith)

  pub length-shift :
      (i n : ℕ) (xs : List A) → i < n → n ≤ length xs → length (shift i n xs) ≡ length xs
  unfolding shift
  length-shift i n xs h room = omega (
    arith,
    length-append (take i xs) (take (n - suc i) (drop (suc i) xs) ++ drop (n - 1) xs),
    length-append (take (n - suc i) (drop (suc i) xs)) (drop (n - 1) xs),
    length-take i xs,
    length-take (n - suc i) (drop (suc i) xs),
    length-drop (suc i) xs,
    length-drop (n - 1) xs,
  )
