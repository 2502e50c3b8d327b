-- ===== src/Configurator/Tables/Removed.antt =====
-- What the removal of a row does to a table of proxybatcher/configurator.go and to the list that it shows.
use dhcp_batcher.Common.{
  ℕ, zero, suc, ◌+◌, ◌<◌, ◌≤◌, Bytes, Bool, true, false, some, List, [], ◌∷◌, ◌++◌, ◌≡◌, inl, inr,
  refl, sym, ap, ◌∙◌, arith, All, length, length-append, length-take, length-drop, get_elem?, take,
  drop, ltb, if◌then◌else◌, some-injective,
}
use dhcp_batcher.GoSlice.Last.{Removes, last_match}
use dhcp_batcher.Configurator.Tables.{TableWidget}
use dhcp_batcher.Configurator.Tables.Fill.{Shows}

module _ {ℓ} {A : Type ℓ} where
  -- A list without the element of an index.
  abbrev pub without : ℕ → List A → List A
  without i xs = take i xs ++ drop (suc i) xs

  pub get-below : (xs : List A) (i : ℕ) (x : A) → get_elem? xs i ≡ some x → i < length xs
  get-below [] i x e = absurd (ground arith)
  get-below (y ∷ xs) zero x e = omega arith
  get-below (y ∷ xs) (suc i) x e = omega (arith, get-below xs i x e)

  length-without : (i : ℕ) (xs : List A) → i < length xs → length (without i xs) + 1 ≡ length xs
  length-without i xs h =
      omega (
        arith,
        length-append (take i xs) (drop (suc i) xs),
        length-take i xs,
        length-drop (suc i) xs,
      )

  get-without :
      (i j : ℕ) (xs : List A)
      → i < length xs
      → get_elem? (without i xs) j ≡ (if ltb j i then get_elem? xs j else get_elem? xs (suc j))
  get-without i j [] h = absurd (omega arith)
  get-without zero j (x ∷ xs) h = ground arith
  get-without (suc i) zero (x ∷ xs) h = ground arith
  get-without (suc i) (suc j) (x ∷ xs) h = ground (arith, get-without i j xs (omega arith))

  pub get-middle :
      (before : List A) (x : A) (after : List A)
      → get_elem? (before ++ x ∷ after) (length before) ≡ some x
  get-middle [] x after = refl
  get-middle (y ∷ before) x after = get-middle before x after

  without-middle :
      (before : List A) (x : A) (after : List A)
      → without (length before) (before ++ x ∷ after) ≡ before ++ after
  without-middle [] x after = refl
  without-middle (y ∷ before) x after = ap (λ l. y ∷ l) (without-middle before x after)

  get-None :
      (test : A → Bool) (xs : List A) (i : ℕ) (x : A)
      → All (λ y. test y ≡ false) xs
      → get_elem? xs i ≡ some x
      → test x ≡ false
  get-None test [] i x h e = absurd (ground arith)
  get-None test (y ∷ xs) zero x (here, later) e = ap test (sym (some-injective e)) ∙ here
  get-None test (y ∷ xs) (suc i) x (here, later) e = get-None test xs i x later e

  get-after :
      (test : A → Bool) (before : List A) (y : A) (after : List A) (j : ℕ) (x : A)
      → All (λ z. test z ≡ false) after
      → get_elem? (before ++ y ∷ after) j ≡ some x
      → test x ≡ true
      → j ≤ length before
  get-after test [] y after zero x rest e t = omega arith
  get-after test [] y after (suc j) x rest e t =
      absurd (ground (arith, get-None test after j x rest e))
  get-after test (z ∷ before) y after zero x rest e t = omega arith
  get-after test (z ∷ before) y after (suc j) x rest e t =
      omega (arith, get-after test before y after j x rest e t)

  -- Where the last match stands at an index, the removal is that of this index.
  pub Removes-last :
      (test : A → Bool) (j : ℕ) (x : A) {xs ys : List A}
      → Removes test xs ys
      → get_elem? xs j ≡ some x
      → test x ≡ true
      → ((k : ℕ) (y : A) → get_elem? xs k ≡ some y → test y ≡ true → k ≤ j)
      → ys ≡ without j xs
  Removes-last test j x (inl (last_match before y after hit rest)) e t last =
      let low = last (length before) y (get-middle before y after) hit in
      let high = get-after test before y after j x rest e t in
      let same : j ≡ length before = omega arith in rw same (sym (without-middle before y after))
  Removes-last test j x {xs} (inr (rest, same)) e t last =
      absurd (ground (arith, get-None test xs j x rest e))

module _ {ℓ} {A : Type ℓ} (w : TableWidget) (column : A → ℕ → Bytes) (width : ℕ) where
  open w use {Table, row_count, cell, remove_row, cell-remove_row, row_count-remove_row}

  -- A table that shows a list shows it without an element once the row of the element is removed.
  pub remove_row-Shows :
      (xs : List A) (i : ℕ) (t : Table)
      → i < length xs
      → Shows w column width xs t
      → Shows w column width (without i xs) (remove_row (suc i) t)
  remove_row-Shows xs i t h shows =
      let below : suc i < row_count t = omega (arith, shows.rows) in
      record {
        rows =
            omega (arith, row_count-remove_row (suc i) t below, length-without i xs h, shows.rows);
        cells = λ j x c got small. ground (
          arith,
          get-without i j xs h,
          cell-remove_row (suc i) t (suc j) c below,
          shows.cells j x c,
          shows.cells (suc j) x c,
        );
      }
