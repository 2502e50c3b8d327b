-- ===== src/GoSlice/Last.antt =====
-- The element that the loop of proxybatcher/configurator.go's removals ends with.
use mathlib.Core.Path.{subst}
use dhcp_batcher.Common.{
  sym, ℕ, suc, ◌+◌, ◌<◌, Bool, true, false, Option, none, some, List, [], ◌∷◌, ◌++◌, ◌≡◌, ◌⊎◌, inl,
  inr, refl, ap, ◌∙◌, arith, length, take, drop, if◌then◌else◌, All,
}
use dhcp_batcher.GoSlice.{Slice, contents, last_index, remove_last}
use dhcp_batcher.GoSlice.Laws.{Fits, contents-remove_at}
use dhcp_batcher.GoSlice.Grows.{Grows, Grows-remove_at}

module _ {ℓ} {A : Type ℓ} (test : A → Bool) where
  -- The second list is the first with its last match left out.
  pub data DropsLast : List A → List A → Type ℓ where
    last_match :
        (before : List A) (x : A) (after : List A)
        → test x ≡ true
        → All (λ y. test y ≡ false) after
        → DropsLast (before ++ x ∷ after) (before ++ after)

  -- The last match is left out, or nothing matches and nothing is.
  abbrev pub Removes : List A → List A → Type ℓ
  Removes xs ys = DropsLast xs ys ⊎ (All (λ y. test y ≡ false) xs × (ys ≡ xs))

  DropsLast-cons : (x : A) {xs ys : List A} → DropsLast xs ys → DropsLast (x ∷ xs) (x ∷ ys)
  DropsLast-cons x (last_match before y after e rest) = last_match (x ∷ before) y after e rest

  -- The last match of a list, counted from its first element, where there is one.
  abbrev pub Found : ℕ → List A → Option ℕ → Type ℓ
  Found k xs o =
      (i : ℕ) × (o ≡ some (k + i)) × (i < length xs) × DropsLast xs (take i xs ++ drop (suc i) xs)

  last_index-head :
      (k : ℕ) (found : Option ℕ) (x : A) (xs : List A)
      → (b : Bool) → test x ≡ b
      → All (λ y. test y ≡ false) xs
      → (((if b then some k else found) ≡ found) × All (λ y. test y ≡ false) (x ∷ xs))
        ⊎ Found k (x ∷ xs) (if b then some k else found)
  last_index-head k found x xs true e rest =
      inr (0, ap some (omega arith), omega arith, last_match [] x xs e rest)
  last_index-head k found x xs false e rest = inl (refl, (e, rest))

  last_index-later :
      (k : ℕ) (found : Option ℕ) (xs : List A)
      → ((last_index test k found xs ≡ found) × All (λ y. test y ≡ false) xs)
        ⊎ Found k xs (last_index test k found xs)
  unfolding last_index
  last_index-later k found [] = inl (refl, tt)
  last_index-later k found (x ∷ xs) =
      elim (last_index-later (suc k) (if test x then some k else found) xs) [
        | inl (same, rest) ↦ rw same (last_index-head k found x xs (test x) refl rest)
        | inr (i, at, below, d) ↦
            inr (suc i, at ∙ ap some (omega arith), omega arith, DropsLast-cons x d)
      ]

  -- The loop finds the last match, or there is none.
  pub last_index_lem :
      (xs : List A)
      → ((last_index test 0 none xs ≡ none) × All (λ y. test y ≡ false) xs)
        ⊎ ((i : ℕ) × (last_index test 0 none xs ≡ some i)
            × (i < length xs)
            × DropsLast xs (take i xs ++ drop (suc i) xs))
  last_index_lem xs = elim (last_index-later 0 none xs) [
    | inl none_found ↦ inl none_found
    | inr (i, at, below, d) ↦ inr (i, at ∙ ap some (omega arith), below, d)
  ]

  -- A removal leaves out the last match, or nothing.
  pub contents-remove_last :
      (z : A) (s : Slice) (store : List (List A))
      → Fits store s
      → Removes
          (contents store s)
          (contents (remove_last test z s store).1 (remove_last test z s store).0)
  unfolding remove_last
  contents-remove_last z s store h = elim (last_index_lem (contents store s)) [
    | inl (e, rest) ↦ rw (remove_last, e) (inr (rest, refl))
    | inr (i, e, below, d) ↦ rw (remove_last, e, contents-remove_at z i s store h below) (inl d)
  ]

  -- It makes no array shorter, and there is room for what is left.
  pub Grows-remove_last :
      (z : A) (s : Slice) (store : List (List A))
      → Fits store s
      → Grows store (remove_last test z s store).1
        × Fits (remove_last test z s store).1 (remove_last test z s store).0
  unfolding remove_last
  Grows-remove_last z s store h = elim (last_index_lem (contents store s)) [
    | inl (e, rest) ↦ rw (remove_last, e) ((omega arith, λ a below. omega arith), h)
    | inr (i, e, below, d) ↦ rw (remove_last, e) (Grows-remove_at z i s store h below)
  ]

  -- What holds of all elements holds of those that are left.
  Without-All {κ} :
      (P : A → Type κ) (before : List A) (x : A) (after : List A)
      → All P (before ++ x ∷ after)
      → All P (before ++ after)
  Without-All P [] x after (here, later) = later
  Without-All P (y ∷ before) x after (here, later) = (here, Without-All P before x after later)

  pub Removes-All {κ} : (P : A → Type κ) {xs ys : List A} → Removes xs ys → All P xs → All P ys
  Removes-All P (inl (last_match before x after e rest)) h = Without-All P before x after h
  Removes-All P (inr (rest, same)) h = subst (All P) (sym same) h
