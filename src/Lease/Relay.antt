-- ===== src/Lease/Relay.antt =====
-- The option 82 part of addLease (proxybatcher/proxy_lease.go), against the layout of RFC 3046 that
-- the comment of proxybatcher/proxy_handler.go quotes.
use dhcp_batcher.Common.{
  ℕ, suc, ◌+◌, ◌-◌, ◌%◌, ◌≤◌, ◌<◌, Bytes, none, some, [], ◌∷◌, ◌++◌, ◌≡◌, ◌↔◌, ◌⊎◌, inl, inr,
  Option-cases, true, refl, sym, ◌∙◌, arith, length, take, drop, length-append, length-take,
  length-drop, ltb, All, ◌>>=◌,
}
use mathlib.Core.List.{append_assoc}
use dhcp_batcher.Lease.{slice, relay_ids}

-- A sub-option: its code, its length and its value.
abbrev pub sub_option : ℕ → Bytes → Bytes
sub_option code v = code ∷ length v ∷ v

take_prefix : (xs ys : Bytes) → take (length xs) (xs ++ ys) ≡ xs
take_prefix [] ys = refl
take_prefix (x ∷ xs) ys = rw (take_prefix xs ys)

drop_prefix : (xs ys : Bytes) → drop (length xs) (xs ++ ys) ≡ ys
drop_prefix [] ys = refl
drop_prefix (x ∷ xs) ys = drop_prefix xs ys

-- A slice between two parts of its backing array is the part between.
slice_between :
    (before xs after : Bytes) (lo hi : ℕ)
    → lo ≡ length before
    → hi ≡ length before + length xs
    → slice (before ++ (xs ++ after)) lo hi ≡ some xs
unfolding slice
slice_between before xs after lo hi e e' =
    let width : hi - lo ≡ length xs = omega arith in
    ground (
      arith,
      width,
      drop_prefix before (xs ++ after),
      take_prefix xs after,
      length-append before (xs ++ after),
      length-append xs after,
    )

slice-length :
    (backing : Bytes) (lo hi : ℕ) {v : Bytes}
    → slice backing lo hi ≡ some v
    → (lo ≤ hi) × (hi ≤ length backing) × (length v ≡ hi - lo)
unfolding slice
slice-length backing lo hi e =
    ground (arith, length-take (hi - lo) (drop lo backing), length-drop lo backing)

slice_refused : (backing : Bytes) (lo hi : ℕ) → hi < lo → slice backing lo hi ≡ none
unfolding slice
slice_refused backing lo hi h = ground arith

slice_granted :
    (backing : Bytes) (lo hi : ℕ)
    → lo ≤ hi
    → hi ≤ length backing
    → (v : Bytes) × (slice backing lo hi ≡ some v) × (length v ≡ hi - lo)
unfolding slice
slice_granted backing lo hi p q = (
  take (hi - lo) (drop lo backing),
  ground arith,
  omega (arith, length-take (hi - lo) (drop lo backing), length-drop lo backing),
)

slice-eq-none :
    (backing : Bytes) (lo hi : ℕ) → slice backing lo hi ≡ none → (hi < lo) ⊎ (length backing < hi)
unfolding slice
slice-eq-none backing lo hi e = ground arith

-- With the circuit id cut out, what is left is the slice of the remote id.
relay_ids_step :
    (beyond rest cid : Bytes) (c n : ℕ)
    → 0 < length rest
    → slice (c ∷ n ∷ (rest ++ beyond)) 2 ((2 + n) % 256) ≡ some cid
    → relay_ids beyond (c ∷ n ∷ rest) ≡ (do
      rid ← slice (c ∷ n ∷ (rest ++ beyond)) (length cid + 4) (length rest + 2)
      some (cid, rid))
unfolding relay_ids
relay_ids_step beyond [] cid c n h e = elim h [ ]
relay_ids_step beyond (x ∷ rest) cid c n h e =
    let size : suc (length rest) + 2 ≡ suc (suc (suc (length rest))) = omega arith in
    let large : ltb 2 (suc (suc (suc (length rest)))) ≡ true = ground arith in rw (large, e, size)

relay_ids_stop :
    (beyond rest : Bytes) (c n : ℕ)
    → 0 < length rest
    → slice (c ∷ n ∷ (rest ++ beyond)) 2 ((2 + n) % 256) ≡ none
    → relay_ids beyond (c ∷ n ∷ rest) ≡ none
unfolding relay_ids
relay_ids_stop beyond [] c n h e = elim h [ ]
relay_ids_stop beyond (x ∷ rest) c n h e =
    let large : ltb 2 (suc (suc (suc (length rest)))) ≡ true = ground arith in rw (large, e)

-- Two sub-options of any codes whose values and headers have at most 255 bytes together are cut
-- into their two values, whatever stands behind them in the buffer.
pub relay_ids-sub_option :
    (beyond first second : Bytes) (c d : ℕ)
    → length first + length second + 4 ≤ 255
    → relay_ids beyond (sub_option c first ++ sub_option d second) ≡ some (first, second)
relay_ids-sub_option beyond first second c d h =
    let tail = sub_option d second in
    let sizes = length-append first tail in
    let header : Bytes = c ∷ length first ∷ [] in
    let header' : Bytes = d ∷ length second ∷ [] in
    let cid =
      slice_between header first (tail ++ beyond) 2 ((2 + length first) % 256) refl (omega arith) in
    let rid =
      slice_between (c ∷ length first ∷ (first ++ header')) second beyond (length first + 4)
        (length (first ++ tail) + 2) (omega (arith, length-append first header'))
        (omega (arith, sizes, length-append first header')) in
    let regroup : (first ++ tail) ++ beyond ≡ (first ++ header') ++ (second ++ beyond) =
      append_assoc first tail beyond ∙ sym (append_assoc first header' (second ++ beyond)) in
    rw
      (relay_ids_step beyond (first ++ tail) first c (length first) (omega (arith, sizes))
        (rw (append_assoc first tail beyond) cid))
      (rw (regroup, rid))

-- For an option 82 of more than two and at most 255 bytes whose second byte is n, cutting it panics
-- exactly when fewer than n + 2 bytes follow the first two.
pub relay_ids-eq-none_iff :
    (beyond rest : Bytes) (c n : ℕ)
    → 0 < length rest
    → n < 256
    → length rest + 2 ≤ 255
    → (relay_ids beyond (c ∷ n ∷ rest) ≡ none) ↔ (length rest < n + 2)
relay_ids-eq-none_iff beyond rest c n h hn hl =
    let backing : Bytes = c ∷ n ∷ (rest ++ beyond) in
    let size = length-append rest beyond in
    elim (Option-cases (slice backing 2 ((2 + n) % 256))) [
      | inl refused ↦ (
        λ _. omega (arith, slice-eq-none backing 2 ((2 + n) % 256) refused, size),
        λ _. relay_ids_stop beyond rest c n h refused,
      )
      | inr (cid, e) ↦
          let (low, high, width) = slice-length backing 2 ((2 + n) % 256) e in
          rw (relay_ids_step beyond rest cid c n h e) (
            ground (
              arith,
              slice_granted backing (length cid + 4) (length rest + 2),
              slice_refused backing (length cid + 4) (length rest + 2),
              size,
            ))
    ]

-- An option 82 that is too short for its own first length and the header of a second sub-option.
abbrev pub IsCutShort : Bytes → Type 0
IsCutShort [] = ⊥
IsCutShort (c ∷ []) = ⊥
IsCutShort (c ∷ n ∷ []) = ⊥
IsCutShort (c ∷ n ∷ x ∷ rest) = length (x ∷ rest) < n + 2

-- For an option 82 of at most 255 bytes, cutting it panics exactly when it is longer than two bytes
-- and fewer than n + 2 bytes follow the first two, where n is the second.
pub relay_ids-IsCutShort :
    (beyond o : Bytes)
    → All (λ b. b < 256) o
    → length o ≤ 255
    → (relay_ids beyond o ≡ none) ↔ IsCutShort o
unfolding relay_ids
relay_ids-IsCutShort beyond [] small h = (λ e. cc, λ bad. absurd bad)
relay_ids-IsCutShort beyond (c ∷ []) small h = (λ e. cc, λ bad. absurd bad)
relay_ids-IsCutShort beyond (c ∷ n ∷ []) small h = (λ e. cc, λ bad. absurd bad)
relay_ids-IsCutShort beyond (c ∷ n ∷ x ∷ rest) (_, (n_small, _)) h =
    relay_ids-eq-none_iff beyond (x ∷ rest) c n (omega arith) n_small (omega (arith, h))
