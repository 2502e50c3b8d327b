-- ===== src/GoMap/Laws.antt =====
-- Lookups after a write or a deletion of a map.
use dhcp_batcher.Common.{
  All, Bool-cases, inl, inr, Bytes, str_eq, str_eq_iff, none, some, List, [], ◌∷◌, ◌≡◌, refl, arith,
  if◌then◌else◌,
}
use dhcp_batcher.GoMap.{lookup, insert, delete, IsMap}

module _ {ℓ} {V : Type ℓ} where
  pub lookup-insert :
      (k j : Bytes) (v : V) (m : List (Bytes × V))
      → lookup j (insert k v m) ≡ (if str_eq k j then some v else lookup j m)
  unfolding lookup insert
  lookup-insert k j v [] = refl
  lookup-insert k j v ((i, w) ∷ m) =
      ground (arith, str_eq_iff k j, str_eq_iff i k, str_eq_iff i j, lookup-insert k j v m)

  pub lookup-insert_self :
      (k : Bytes) (v : V) (m : List (Bytes × V)) → lookup k (insert k v m) ≡ some v
  lookup-insert_self k v m = ground (arith, lookup-insert k k v m, str_eq_iff k k)

  pub insert-IsMap : (k : Bytes) (v : V) (m : List (Bytes × V)) → IsMap m → IsMap (insert k v m)
  unfolding insert lookup
  insert-IsMap k v [] h = (refl, tt)
  insert-IsMap k v ((i, w) ∷ m) h =
      ground (arith, str_eq_iff k i, str_eq_iff i k, lookup-insert k i v m, insert-IsMap k v m h.1)

  pub lookup-delete :
      (k j : Bytes) (m : List (Bytes × V))
      → IsMap m
      → lookup j (delete k m) ≡ (if str_eq k j then none else lookup j m)
  unfolding lookup delete
  lookup-delete k j [] h = ground arith
  lookup-delete k j ((i, w) ∷ m) h =
      ground (arith, str_eq_iff k j, str_eq_iff i k, str_eq_iff i j, lookup-delete k j m h.1)

  pub delete-IsMap : (k : Bytes) (m : List (Bytes × V)) → IsMap m → IsMap (delete k m)
  unfolding delete lookup
  delete-IsMap k [] h = tt
  delete-IsMap k ((i, w) ∷ m) h =
      ground (arith, str_eq_iff k i, str_eq_iff i k, lookup-delete k i m h.1, delete-IsMap k m h.1)

-- What holds of all values holds of them after a write of one that it holds of.
module _ {ℓ κ} {V : Type ℓ} (P : V → Type κ) where
  pub insert-All :
      (k : Bytes) (x : V) (m : List (Bytes × V))
      → P x
      → All (λ e. P e.1) m
      → All (λ e. P e.1) (insert k x m)
  unfolding insert
  insert-All k x [] p h = (p, tt)
  insert-All k x ((j, w) ∷ m) p (here, later) = elim (Bool-cases (str_eq j k)) [
    | inl e ↦ rw e ((p, later))
    | inr e ↦ rw e ((here, insert-All k x m p later))
  ]
