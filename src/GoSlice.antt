-- ===== src/GoSlice.antt =====
-- Go's slices, as proxybatcher/configurator.go uses them: an array that several slices may share, and
-- a slice that is a prefix of an array, since none of the code's slices begins after the first
-- element.
pub mod Laws
pub mod Grows
pub mod Last
pub mod Alias
use dhcp_batcher.Common.{
  ℕ, zero, suc, ◌+◌, ◌-◌, Bool, Option, none, some, List, [], ◌∷◌, ◌++◌, length, get_elem?, take,
  drop, get_or, ltb, if◌then◌else◌,
}

-- A slice: nil, or the first elements of the array of a number, as many as its length says.
pub data Slice : Type 0 where
  nil : Slice
  view : ℕ → ℕ → Slice

module _ {ℓ} {A : Type ℓ} where
  -- The array of a number among all arrays; each is as long as its capacity.
  abbrev pub array : ℕ → List (List A) → List A
  array a store = get_or (get_elem? store a) []

  -- The elements of a slice, as a loop over it visits them.
  abbrev pub contents : List (List A) → Slice → List A
  contents store nil = []
  contents store (view a n) = take n (array a store)

  -- `xs[i] = x`
  unfoldable pub set_at : ℕ → A → List A → List A
  set_at i x [] = []
  set_at zero x (y ∷ xs) = x ∷ xs
  set_at (suc i) x (y ∷ xs) = y ∷ set_at i x xs

  unfoldable pub replicate : ℕ → A → List A
  replicate zero x = []
  replicate (suc n) x = x ∷ replicate n x

module _ {ℓ} {A : Type ℓ} where
  -- `append(s, x)`: behind the slice's last element, where the array has room, and otherwise in a new
  -- array. `spare` is the room that the runtime leaves in a new array of a length, filled with zero
  -- values.
  abbrev pub fresh : (ℕ → ℕ) → A → List A → List (List A) → Slice × List (List A)
  fresh spare z xs store =
      (view (length store) (length xs), store ++ (xs ++ replicate (spare (length xs)) z) ∷ [])

  unfoldable pub append : (ℕ → ℕ) → A → A → Slice → List (List A) → Slice × List (List A)
  append spare z x nil store = fresh spare z (x ∷ []) store
  append spare z x (view a n) store =
      if ltb n (length (array a store))
      then (view a (suc n), set_at a (set_at n x (array a store)) store)
      else fresh spare z (contents store (view a n) ++ x ∷ []) store

  -- `copy(s[i:], s[i+1:])` for a slice of `n` elements: those behind index `i` move one to the left.
  unfoldable pub shift : ℕ → ℕ → List A → List A
  shift i n xs = take i xs ++ (take (n - suc i) (drop (suc i) xs) ++ drop (n - 1) xs)

  -- `copy(s[i:], s[i+1:]); s[len(s)-1] = z; s = s[:len(s)-1]`
  unfoldable pub remove_at : A → ℕ → Slice → List (List A) → Slice × List (List A)
  remove_at z i nil store = (nil, store)
  remove_at z i (view a n) store =
      (view a (n - 1), set_at a (set_at (n - 1) z (shift i n (array a store))) store)

  -- The loop over a slice that ends with the index of its last element that the test takes.
  unfoldable pub last_index : (A → Bool) → ℕ → Option ℕ → List A → Option ℕ
  last_index test k found [] = found
  last_index test k found (x ∷ xs) = last_index test (suc k) (if test x then some k else found) xs

  -- The removal of an element, where the loop has found one.
  unfoldable pub remove_last : (A → Bool) → A → Slice → List (List A) → Slice × List (List A)
  remove_last test z s store = elim (last_index test 0 none (contents store s)) [
    | none ↦ (s, store)
    | some i ↦ remove_at z i s store
  ]
