-- ===== src/GoMap/Range.antt =====
-- `for k, v := range m`: every entry once, in an order that Go leaves open, so a permutation of the
-- entries.
use mathlib.Core.List.{Permᴰ}
use mathlib.Core.Path.{subst}
use dhcp_batcher.Common.{All, Bytes, str_eq_iff, List, ◌≡◌, refl, ap, arith, ◌∙◌}
use dhcp_batcher.GoMap.{lookup, IsMap}

module _ {ℓ} {V : Type ℓ} where
  -- A permutation of a map's entries is the same map.
  pub perm-lookup :
      {l m : List (Bytes × V)}
      → Permᴰ l m
      → IsMap l
      → IsMap m × ((k : Bytes) → lookup k m ≡ lookup k l)
  unfolding lookup
  perm-lookup Permᴰ.nil h = (tt, λ k. refl)
  perm-lookup (Permᴰ.cons {a = (i, v)} {b = (j, w)} e p) h =
      let (later, same) = perm-lookup p h.1 in
      (
        ground (arith, same j, ap (λ x. x.0) e),
        λ k. ground (arith, same k, ap (λ x. x.0) e, ap (λ x. x.1) e),
      )
  perm-lookup (Permᴰ.swap {a = (i, v)} {b = (j, w)} {a' = (i', v')} {b' = (j', w')} {l} e e') h =
      let first = ap (λ x. x.0) e in
      let second = ap (λ x. x.0) e' in
      (
        ground (arith, first, second, str_eq_iff j i, str_eq_iff j' i'),
        λ k. ground (
          arith,
          first,
          second,
          ap (λ x. x.1) e,
          ap (λ x. x.1) e',
          str_eq_iff j i,
          str_eq_iff i k,
          str_eq_iff j k,
          str_eq_iff i' k,
          str_eq_iff j' k,
        ),
      )
  perm-lookup (Permᴰ.trans p q) h =
      let (mid, same) = perm-lookup p h in
      let (end, also) = perm-lookup q mid in (end, λ k. also k ∙ same k)

-- What holds of all entries holds in every order.
module _ {ℓ κ} {A : Type ℓ} (P : A → Type κ) where
  pub perm-All : {l m : List A} → Permᴰ l m → All P l → All P m
  perm-All Permᴰ.nil h = tt
  perm-All (Permᴰ.cons e p) (here, later) = (subst P e here, perm-All p later)
  perm-All (Permᴰ.swap e e') (x, (y, later)) = (subst P e' y, (subst P e x, later))
  perm-All (Permᴰ.trans p q) h = perm-All q (perm-All p h)
