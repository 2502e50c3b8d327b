-- ===== src/GoSlice/Alias.antt =====
-- Two slices of one array, as proxybatcher/configurator.go has them after a list was saved: what a
-- removal from one does to the other.
use dhcp_batcher.Common.{
  ℕ, zero, suc, ◌-◌, ◌<◌, Bool, false, List, [], ◌∷◌, ◌++◌, ◌≡◌, inl, inr, sym, ap, ◌∙◌, arith,
  length, take, All,
}
use native.Mathlib.Numerals.{unary_clauses}
use dhcp_batcher.GoSlice.{Slice, nil, view, array, contents, set_at, shift, remove_at, remove_last}
use dhcp_batcher.GoSlice.Laws.{
  Fits, get-set_at, take-set_at, take-set_at_next, length-shift, length-contents,
}
use dhcp_batcher.GoSlice.Last.{last_index_lem}

module _ {ℓ} {A : Type ℓ} where
  stale-take :
      (z : A) (n : ℕ) (xs : List A)
      → 0 < n
      → n - 1 < length xs
      → take n (set_at (n - 1) z xs) ≡ take (n - 1) (set_at (n - 1) z xs) ++ z ∷ []
  stale-take z zero xs h room = absurd (omega arith)
  stale-take z (suc m) xs h room = simp unary_clauses (
      take-set_at_next m z xs (omega arith)
      ∙ ap (λ l. l ++ z ∷ []) (sym (take-set_at m m z xs (omega arith))))

  -- The slice as it was shows what is left and the zero value behind it.
  remove_at-stale :
      (z : A) (i : ℕ) (s : Slice) (store : List (List A))
      → Fits store s
      → i < length (contents store s)
      → contents (remove_at z i s store).1 s
        ≡ contents (remove_at z i s store).1 (remove_at z i s store).0 ++ z ∷ []
  unfolding remove_at
  remove_at-stale z i nil store h below = absurd (omega arith)
  remove_at-stale z i (view a n) store (here, room) below =
      let size = length-contents a n store (here, room) in
      let ys = shift i n (array a store) in
      let same = length-shift i n (array a store) (omega arith) room in
      rw (get-set_at a (set_at (n - 1) z ys) store here)
        (stale-take z n ys (omega arith) (omega arith))

  pub remove_last-stale :
      (test : A → Bool) (z : A) (s : Slice) (store : List (List A))
      → Fits store s
      → ¬ All (λ y. test y ≡ false) (contents store s)
      → (contents (remove_last test z s store).1 s
          ≡ contents (remove_last test z s store).1 (remove_last test z s store).0 ++ z ∷ [])
  unfolding remove_last
  remove_last-stale test z s store h some_match = elim (last_index_lem test (contents store s)) [
    | inl (e, rest) ↦ absurd (some_match rest)
    | inr (i, e, below, d) ↦ rw (remove_last, e) (remove_at-stale z i s store h below)
  ]
