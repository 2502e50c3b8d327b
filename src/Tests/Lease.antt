-- ===== src/Tests/Lease.antt =====
-- Tests of proxybatcher/proxy_lease.go.
use dhcp_batcher.Common.{
  ℕ, ◌-◌, ◌*◌, Bytes, bytes, str_eq, none, some, List, [], ◌∷◌, ◌++◌, ◌≡◌, inl, refl, arith,
  if◌then◌else◌, leb,
}
use dhcp_batcher.GoMap.{lookup, insert}
use dhcp_batcher.Lease.{Lease, LeaseTable, Options, option, relay_ids, slice, add_lease, init}
use dhcp_batcher.Lease.Relay.{sub_option, relay_ids-sub_option}
use dhcp_batcher.Lease.Table.{IsLeaseTable, new_lease}
use dhcp_batcher.Lease.Loop.{
  TimerSignal, due, granted, timing, trim_loop, IsUnrenewed, trim_loop-expires,
}

abbrev mac : Bytes
mac = bytes "02:00:00:00:00:0a"

abbrev pub relay_option : Bytes
relay_option = 1 ∷ 3 ∷ 7 ∷ 8 ∷ 9 ∷ 2 ∷ 2 ∷ 4 ∷ 5 ∷ []

abbrev options : Options
options = (3, 10 ∷ 0 ∷ 0 ∷ 1 ∷ []) ∷ (82, relay_option) ∷ []

abbrev ids : Bytes × Bytes
ids = (7 ∷ 8 ∷ 9 ∷ [], 4 ∷ 5 ∷ [])

abbrev lease_of : ℕ → Bytes → Lease
lease_of seconds flag = record (new_lease 1000 mac (bytes "10.1.2.3") seconds options ids) {
  is_expired = flag;
}

abbrev table_of : ℕ → Bytes → LeaseTable
table_of seconds flag = (mac, lease_of seconds flag) ∷ []

relay_option-ids : relay_ids (99 ∷ 98 ∷ []) relay_option ≡ some ids
unfolding relay_ids slice
relay_option-ids = refl

-- A circuit id alone makes addLease panic.
circuit_id_only : relay_ids [] (1 ∷ 1 ∷ 7 ∷ []) ≡ none
unfolding relay_ids slice
circuit_id_only = refl

added :
    add_lease 1000 [] mac (bytes "10.1.2.3") 3600 options init ≡ some (table_of 3600 (bytes "0"))
unfolding add_lease init relay_ids slice option insert
added = refl

table_of-IsLeaseTable : IsLeaseTable (table_of 25 (bytes "0"))
unfolding lookup bytes
table_of-IsLeaseTable = record {
  keys = (refl, tt);
  entries = (
    record { keyed = refl; fits = ground arith; flag = inl refl; spent = λ e. ground arith },
    tt,
  );
}

relay_ids-sub_option_example :
    relay_ids (99 ∷ []) (sub_option 1 (7 ∷ 8 ∷ 9 ∷ []) ++ sub_option 2 (4 ∷ 5 ∷ []))
    ≡ some (7 ∷ 8 ∷ 9 ∷ [], 4 ∷ 5 ∷ [])
relay_ids-sub_option_example =
    relay_ids-sub_option (99 ∷ []) (7 ∷ 8 ∷ 9 ∷ []) (4 ∷ 5 ∷ []) 1 2 (ground arith)

abbrev signals : List TimerSignal
signals = due ∷ granted (bytes "02:00:00:00:00:0b") (lease_of 60 (bytes "0")) ∷ due ∷ due ∷ []

signals-IsUnrenewed : IsUnrenewed mac signals
unfolding str_eq bytes
signals-IsUnrenewed = (refl, tt)

-- A lease of 25 seconds is expired after three ticks, whatever is granted to others.
trim_loop-expires_example :
    (t : LeaseTable) × (trim_loop signals (table_of 25 (bytes "0")) ≡ timing t)
    × (lookup mac t
        ≡ some (
            if leb (10 * 3) 25 then lease_of (25 - 10 * 3) (bytes "0") else lease_of 0 (bytes "1")))
unfolding lookup str_eq bytes
trim_loop-expires_example =
    trim_loop-expires mac signals (lease_of 25 (bytes "0")) (table_of 25 (bytes "0")) refl refl
      (ground arith) signals-IsUnrenewed
