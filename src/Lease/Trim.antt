-- ===== src/Lease/Trim.antt =====
-- The timer of proxybatcher/proxy_lease.go: what a round of trim does to a lease, what any number
-- of rounds does, and what its counters count.
use mathlib.Core.Option
use dhcp_batcher.Common.{
  ℕ, zero, suc, ◌+◌, ◌-◌, ◌*◌, ◌^◌, ◌<◌, Bytes, bytes, str_eq, str_eq_iff, some, [], ◌∷◌, ◌≡◌, refl,
  ap, arith, All, leb, if◌then◌else◌,
}
use dhcp_batcher.GoMap.{lookup, IsMap}
use dhcp_batcher.Lease.{Lease, LeaseTable, trim_lease, trim_counts, trim, trim_tally}
use dhcp_batcher.Lease.Table.{IsLease, IsLeaseTable, flags_differ}

trim_lease-IsLease : (k : Bytes) (v : Lease) → IsLease (k, v) → IsLease (k, trim_lease v)
unfolding trim_lease
trim_lease-IsLease k v h =
    ground (
      arith,
      str_eq_iff v.is_expired (bytes "0"),
      str_eq_iff v.is_expired (bytes "1"),
      flags_differ,
    )

pub lookup-trim :
    (k : Bytes) (table : LeaseTable)
    → lookup k (trim table) ≡ Option.map trim_lease (lookup k table)
unfolding lookup trim
lookup-trim k [] = refl
lookup-trim k ((j, v) ∷ table) = ground (arith, lookup-trim k table)

trim-entries : (table : LeaseTable) → All IsLease table → All IsLease (trim table)
unfolding trim
trim-entries [] h = tt
trim-entries ((k, v) ∷ table) (here, later) =
    (trim_lease-IsLease k v here, trim-entries table later)

trim-IsMap : (table : LeaseTable) → IsMap table → IsMap (trim table)
unfolding trim
trim-IsMap [] h = tt
trim-IsMap ((k, v) ∷ table) (here, later) =
    (rw (lookup-trim k table, here) refl, trim-IsMap table later)

-- A round of trim keeps a well-formed lease table well formed.
pub trim-IsLeaseTable : (table : LeaseTable) → IsLeaseTable table → IsLeaseTable (trim table)
trim-IsLeaseTable table h = record {
  keys = trim-IsMap table h.keys;
  entries = trim-entries table h.entries;
}

-- `n` rounds, ten seconds apart.
unfoldable pub rounds : ℕ → LeaseTable → LeaseTable
rounds zero table = table
rounds (suc n) table = trim (rounds n table)

-- The lease that `seconds` leave of an unexpired one.
aged : ℕ → Lease → Lease
aged n v =
    if leb (10 * n) v.lease_time
    then record v { lease_time = v.lease_time - 10 * n; is_expired = bytes "0" }
    else record v { lease_time = 0; is_expired = bytes "1" }

trim_lease-aged :
    (n : ℕ) (v : Lease) → v.lease_time < 2 ^ 32 → trim_lease (aged n v) ≡ aged (suc n) v
unfolding trim_lease aged
trim_lease-aged n v h = ground (
  arith,
  str_eq_iff (bytes "0") (bytes "0"),
  str_eq_iff (bytes "1") (bytes "1"),
  str_eq_iff (bytes "0") (bytes "1"),
  str_eq_iff (bytes "1") (bytes "0"),
  flags_differ,
)

aged-zero : (v : Lease) → v.is_expired ≡ bytes "0" → aged 0 v ≡ v
unfolding aged
aged-zero v h = ground arith

-- An unexpired lease whose time is a 32-bit number is still in the table after any number of rounds
-- of trim: with ten seconds less for each round while that many are left, and from then on expired
-- with no time.
pub lookup-rounds :
    (n : ℕ) (k : Bytes) (v : Lease) (table : LeaseTable)
    → lookup k table ≡ some v
    → v.is_expired ≡ bytes "0"
    → v.lease_time < 2 ^ 32
    → lookup k (rounds n table)
      ≡ some (
          if leb (10 * n) v.lease_time
          then record v { lease_time = v.lease_time - 10 * n; is_expired = bytes "0" }
          else record v { lease_time = 0; is_expired = bytes "1" })
unfolding rounds aged
lookup-rounds n k v table found live small = unfold aged in aged_rounds n
  where
    aged_rounds : (n : ℕ) → lookup k (rounds n table) ≡ some (aged n v)
    aged_rounds zero = rw (aged-zero v live) found
    aged_rounds (suc n) =
        rw (lookup-trim k (rounds n table), aged_rounds n) (ap some (trim_lease-aged n v small))

trim_lease_expired : (v : Lease) → v.is_expired ≡ bytes "1" → trim_lease v ≡ v
unfolding trim_lease
trim_lease_expired v h =
    ground (
      arith,
      str_eq_iff v.is_expired (bytes "0"),
      str_eq_iff v.is_expired (bytes "1"),
      flags_differ,
    )

-- An expired lease stays in the table as it is after any number of rounds of trim.
pub lookup-rounds_expired :
    (n : ℕ) (k : Bytes) (v : Lease) (table : LeaseTable)
    → lookup k table ≡ some v
    → v.is_expired ≡ bytes "1"
    → lookup k (rounds n table) ≡ some v
unfolding rounds
lookup-rounds_expired zero k v table found dead = found
lookup-rounds_expired (suc n) k v table found dead =
    rw (lookup-trim k (rounds n table), lookup-rounds_expired n k v table found dead)
      (ap some (trim_lease_expired v dead))

-- How many leases are not marked as expired.
pub live_count : LeaseTable → ℕ
live_count [] = 0
live_count ((k, v) ∷ table) = (if str_eq v.is_expired (bytes "1") then 0 else 1) + live_count table

lease_counts :
    (v : Lease)
    → ((trim_counts v).0 + (trim_counts v).1 ≡ (if str_eq v.is_expired (bytes "1") then 0 else 1))
      × ((trim_counts v).0 ≡ (if str_eq (trim_lease v).is_expired (bytes "1") then 0 else 1))
unfolding trim_counts trim_lease
lease_counts v = ground (
  arith,
  str_eq_iff v.is_expired (bytes "0"),
  str_eq_iff v.is_expired (bytes "1"),
  str_eq_iff (bytes "1") (bytes "1"),
  str_eq_iff (bytes "0") (bytes "1"),
  flags_differ,
)

-- The counter of updated leases is the number of leases that are unexpired after the round, and the
-- two counters together are the number that were unexpired before it.
pub trim_tally-live_count :
    (table : LeaseTable)
    → ((trim_tally table).0 ≡ live_count (trim table))
      × ((trim_tally table).0 + (trim_tally table).1 ≡ live_count table)
unfolding trim_tally live_count trim
trim_tally-live_count [] = (refl, refl)
trim_tally-live_count ((k, v) ∷ table) =
    let (after, before) = trim_tally-live_count table in
    let (split, kept) = lease_counts v in omega arith
