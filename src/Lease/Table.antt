-- ===== src/Lease/Table.antt =====
-- What the lease table of proxybatcher/proxy_lease.go holds: the invariant of its entries, and what
-- addLease stores.
use mathlib.Core.Path.{subst}
use dhcp_batcher.Common.{
  ℕ, ◌^◌, ◌<◌, Bytes, bytes, str_eq, str_eq_iff, ne_of_str_eq, ◌≢◌, some, [], ◌∷◌, ◌≡◌, ◌⊎◌, inl,
  inr, refl, sym, arith, All, Option-cases, if◌then◌else◌,
}
use dhcp_batcher.GoMap.{lookup, insert, IsMap}
use dhcp_batcher.GoMap.Laws.{lookup-insert, insert-IsMap}
use dhcp_batcher.Lease.{
  Lease, LeaseTable, Options, option, option_router, option_relay_agent_information, to4, relay_ids,
  add_lease, init,
}

-- The flag is one of two texts, an expired lease has no time left, and the table's key is the MAC.
pub record IsLease (e : Bytes × Lease) : Type 0 where
  pub keyed : e.1.mac ≡ e.0
  pub fits : e.1.lease_time < 2 ^ 32
  pub flag : (e.1.is_expired ≡ bytes "0") ⊎ (e.1.is_expired ≡ bytes "1")
  pub spent : e.1.is_expired ≡ bytes "1" → e.1.lease_time ≡ 0

pub record IsLeaseTable (table : LeaseTable) : Type 0 where
  pub keys : IsMap table
  pub entries : All IsLease table

pub flags_differ : bytes "0" ≢ bytes "1"
unfolding bytes str_eq
flags_differ = ne_of_str_eq (bytes "0") (bytes "1") refl

All-insert :
    (k : Bytes) (v : Lease) (table : LeaseTable)
    → IsLease (k, v)
    → All IsLease table
    → All IsLease (insert k v table)
unfolding insert
All-insert k v [] h _ = (h, tt)
All-insert k v ((j, w) ∷ table) h (here, later) =
    ground (arith, str_eq_iff j k, All-insert k v table h later, h.keyed, h.fits, h.flag, h.spent)

-- The lease that addLease builds from the two ids.
abbrev pub new_lease : ℕ → Bytes → Bytes → ℕ → Options → Bytes × Bytes → Lease
new_lease now mac ip lease_time opts ids = record {
  mac = mac;
  ip = ip;
  router = to4 (option option_router opts);
  cid = ids.0;
  rid = ids.1;
  lease_time = lease_time;
  time_stamp = now;
  is_expired = bytes "0";
}

pub init-IsLeaseTable : IsLeaseTable init
unfolding init
init-IsLeaseTable = record { keys = tt; entries = tt }

-- A new lease with a 32-bit time keeps a table well formed.
pub insert_lease-IsLeaseTable :
    (now : ℕ) (mac ip : Bytes) (lease_time : ℕ) (opts : Options) (ids : Bytes × Bytes)
    (table : LeaseTable)
    → lease_time < 2 ^ 32
    → IsLeaseTable table
    → IsLeaseTable (insert mac (new_lease now mac ip lease_time opts ids) table)
insert_lease-IsLeaseTable now mac ip lease_time opts ids table small ok =
    let a = new_lease now mac ip lease_time opts ids in
    let fresh : IsLease (mac, a) = record {
      keyed = refl;
      fits = small;
      flag = inl refl;
      spent = λ f. absurd (flags_differ f);
    } in
    record {
      keys = insert-IsMap mac a table ok.keys;
      entries = All-insert mac a table fresh ok.entries;
    }

module _ (now : ℕ) (beyond mac ip : Bytes) (lease_time : ℕ) (opts : Options)
    (table : LeaseTable) where
  pub add_lease-eq-some :
      {table' : LeaseTable}
      → add_lease now beyond mac ip lease_time opts table ≡ some table'
      → (ids : Bytes × Bytes) × (relay_ids beyond (option option_relay_agent_information opts)
          ≡ some ids)
        × (table' ≡ insert mac (new_lease now mac ip lease_time opts ids) table)
  unfolding add_lease
  add_lease-eq-some e =
      elim (Option-cases (relay_ids beyond (option option_relay_agent_information opts))) [
        | inl refused ↦ absurd (ground arith)
        | inr (ids, found) ↦ (ids, found, ground arith)
      ]

  -- If addLease does not panic, given a 32-bit time and a well-formed table, the ids are those of
  -- option 82, the new table is well formed, and a lookup in it finds the new lease under the MAC
  -- address and what was there under any other key.
  pub add_lease_lem :
      {table' : LeaseTable}
      → add_lease now beyond mac ip lease_time opts table ≡ some table'
      → lease_time < 2 ^ 32
      → IsLeaseTable table
      → (ids : Bytes × Bytes) × (relay_ids beyond (option option_relay_agent_information opts)
          ≡ some ids)
        × IsLeaseTable table'
        × ((k : Bytes)
            → lookup k table' ≡ (
                if str_eq mac k
                then some (new_lease now mac ip lease_time opts ids)
                else lookup k table))
  add_lease_lem e small ok =
      let (ids, found, same) = add_lease-eq-some e in
      let a = new_lease now mac ip lease_time opts ids in
      (
        ids,
        found,
        subst IsLeaseTable (sym same)
            (insert_lease-IsLeaseTable now mac ip lease_time opts ids table small ok),
        λ k. rw same (lookup-insert mac k a table),
      )
