-- ===== src/GoSlice/Grows.antt =====
-- The arrays of the slices of proxybatcher/configurator.go only grow.
use mathlib.Core.Path.{subst}
use dhcp_batcher.Common.{
  ℕ, ◌-◌, ◌≤◌, ◌<◌, List, [], ◌∷◌, ◌++◌, inl, inr, sym, ◌∙◌, arith, length, take, ltb,
  length-append, Bool-cases, ℕ_discrete,
}
use dhcp_batcher.GoSlice.{
  Slice, nil, view, array, contents, set_at, replicate, fresh, append, shift, remove_at,
}
use dhcp_batcher.GoSlice.Laws.{
  Fits, length-set_at, get-set_at, get-set_at_other, get-last, get-before, length-shift,
  length-contents,
}

-- No operation makes an array shorter.
module _ {ℓ} {A : Type ℓ} where
  abbrev pub Grows : List (List A) → List (List A) → Type 0
  Grows store later =
      (length store ≤ length later)
      × ((a : ℕ) → a < length store → length (array a store) ≤ length (array a later))

  pub Grows-Fits :
      (store later : List (List A)) (s : Slice) → Grows store later → Fits store s → Fits later s
  Grows-Fits store later nil g h = tt
  Grows-Fits store later (view a n) (more, longer) (here, room) =
      (omega (arith, here, more), omega (arith, longer a here, room))

  Grows-set_at :
      (a : ℕ) (xs : List A) (store : List (List A))
      → length (array a store) ≤ length xs
      → Grows store (set_at a xs store)
  Grows-set_at a xs store h = (
    omega (arith, length-set_at a xs store),
    λ b below. elim (ℕ_discrete a b) [
      | yes e ↦ rw (sym e, get-set_at a xs store (subst (λ i. i < length store) (sym e) below)) h
      | no ne ↦ rw (get-set_at_other a b xs store ne) (omega arith)
    ],
  )

  Grows-fresh :
      (spare : ℕ → ℕ) (z : A) (xs : List A) (store : List (List A))
      → Grows store (fresh spare z xs store).1
        × Fits (fresh spare z xs store).1 (fresh spare z xs store).0
  Grows-fresh spare z xs store =
      let new = xs ++ replicate (spare (length xs)) z in
      let size = length-append store (new ∷ []) in
      (
        (omega (arith, size), λ b below. rw (get-before store (new ∷ []) b below) (omega arith)),
        (
          omega (arith, size),
          rw (get-last store new)
              (omega (arith, length-append xs (replicate (spare (length xs)) z))),
        ),
      )

  -- Appending makes no array shorter, and there is room for the longer slice.
  pub Grows-append :
      (spare : ℕ → ℕ) (z x : A) (s : Slice) (store : List (List A))
      → Fits store s
      → Grows store (append spare z x s store).1
        × Fits (append spare z x s store).1 (append spare z x s store).0
  unfolding append
  Grows-append spare z x nil store h = Grows-fresh spare z (x ∷ []) store
  Grows-append spare z x (view a n) store (here, room) =
      elim (Bool-cases (ltb n (length (array a store)))) [
        | inl e ↦ rw e (
            let new = set_at n x (array a store) in
            (
              Grows-set_at a new store (omega (arith, length-set_at n x (array a store))),
              (
                omega (arith, length-set_at a new store),
                rw (get-set_at a new store here)
                    (ground (arith, length-set_at n x (array a store))),
              ),
            ))
        | inr e ↦ rw e (Grows-fresh spare z (take n (array a store) ++ x ∷ []) store)
      ]

  -- Removing makes no array shorter either.
  pub Grows-remove_at :
      (z : A) (i : ℕ) (s : Slice) (store : List (List A))
      → Fits store s
      → i < length (contents store s)
      → Grows store (remove_at z i s store).1
        × Fits (remove_at z i s store).1 (remove_at z i s store).0
  unfolding remove_at
  Grows-remove_at z i nil store h below = absurd (omega arith)
  Grows-remove_at z i (view a n) store (here, room) below =
      let new = set_at (n - 1) z (shift i n (array a store)) in
      let size = length-contents a n store (here, room) in
      let same =
        length-set_at (n - 1) z (shift i n (array a store))
        ∙ length-shift i n (array a store) (omega arith) room in
      (
        Grows-set_at a new store (omega arith),
        (omega (arith, length-set_at a new store), rw (get-set_at a new store here) (omega arith)),
      )
