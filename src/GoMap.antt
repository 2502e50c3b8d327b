-- ===== src/GoMap.antt =====
-- Go's `map[string]V`, as the tables of proxybatcher/ use it: an association list in which every key
-- stands once.
pub mod Laws
pub mod Range
use dhcp_batcher.Common.{
  ℕ, Bytes, str_eq, Option, none, some, List, [], ◌∷◌, map, ◌≡◌, if◌then◌else◌,
}

module _ {ℓ} {V : Type ℓ} where
  -- `m[k]`, with the `ok` of the two-value form as the option.
  unfoldable pub lookup : Bytes → List (Bytes × V) → Option V
  lookup k [] = none
  lookup k ((j, v) ∷ m) = if str_eq j k then some v else lookup k m

  -- `m[k] = v`
  unfoldable pub insert : Bytes → V → List (Bytes × V) → List (Bytes × V)
  insert k v [] = (k, v) ∷ []
  insert k v ((j, w) ∷ m) = if str_eq j k then (j, v) ∷ m else (j, w) ∷ insert k v m

  -- `delete(m, k)`
  unfoldable pub delete : Bytes → List (Bytes × V) → List (Bytes × V)
  delete k [] = []
  delete k ((j, w) ∷ m) = if str_eq j k then m else (j, w) ∷ delete k m

  abbrev pub values : List (Bytes × V) → List V
  values = map (λ e. e.1)

-- Every key stands once.
abbrev pub IsMap {ℓ} : {V : Type ℓ} → List (Bytes × V) → Type ℓ
IsMap [] = Unit
IsMap ((k, v) ∷ m) = (lookup k m ≡ none) × IsMap m
