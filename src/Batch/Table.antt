-- ===== src/Batch/Table.antt =====
-- The batch table of proxybatcher/batch_scheduler.go: its invariant, and what UpdateBatchTable does.
use dhcp_batcher.Common.{
  Bytes, str_eq, str_eq_iff, some, List, [], ◌∷◌, ◌≡◌, refl, arith, All, if◌then◌else◌,
}
use dhcp_batcher.GoMap.{lookup, insert, IsMap}
use dhcp_batcher.GoMap.Laws.{lookup-insert, insert-IsMap}
use dhcp_batcher.Endpoint.{Update}
use dhcp_batcher.Net.Mac.{mac_string}
use dhcp_batcher.Options.{ProgramConfig}
use dhcp_batcher.Batch.{Assignment, RecordTable, init_table, update_batch_table}

-- An entry stands under its own MAC address.
abbrev pub IsKeyed : Bytes × Assignment → Type 0
IsKeyed e = e.1.mac_address ≡ e.0

pub record IsTable (b : RecordTable) : Type 0 where
  pub keys : IsMap b.entry
  pub keyed : All IsKeyed b.entry

insert-IsKeyed :
    (k : Bytes) (x : Assignment) (m : List (Bytes × Assignment))
    → x.mac_address ≡ k
    → All IsKeyed m
    → All IsKeyed (insert k x m)
unfolding insert
insert-IsKeyed k x [] h _ = (h, tt)
insert-IsKeyed k x ((j, w) ∷ m) h (here, later) =
    ground (arith, str_eq_iff j k, insert-IsKeyed k x m h later)

-- The assignment that an update stands for.
abbrev pub assignment : (Bytes → Bytes) → Update → Assignment
assignment ip_string u = record {
  expired = u.expired;
  ip_address = ip_string u.host_ip;
  mac_address = mac_string u.host_addr;
  remote_id = u.remote_id;
}

pub init_table-IsTable : (options : ProgramConfig) → IsTable (init_table options)
unfolding init_table
init_table-IsTable options = record { keys = tt; keyed = tt }

pub update_batch_table-IsTable :
    (ip_string : Bytes → Bytes) (u : Update) (b : RecordTable)
    → IsTable b
    → IsTable (update_batch_table ip_string u b)
unfolding update_batch_table
update_batch_table-IsTable ip_string u b h =
    let k = mac_string u.host_addr in
    let x = assignment ip_string u in
    record {
      keys = insert-IsMap k x b.entry h.keys;
      keyed = insert-IsKeyed k x b.entry refl h.keyed;
    }

pub lookup-update_batch_table :
    (ip_string : Bytes → Bytes) (u : Update) (b : RecordTable) (k : Bytes)
    → lookup k (update_batch_table ip_string u b).entry ≡ (
        if str_eq (mac_string u.host_addr) k
        then some (assignment ip_string u)
        else lookup k b.entry)
unfolding update_batch_table
lookup-update_batch_table ip_string u b k =
    lookup-insert (mac_string u.host_addr) k (assignment ip_string u) b.entry

-- From a table that meets its invariant an update keeps the invariant, a lookup finds the new
-- assignment under its MAC address and what was there under any other, and both counters stay.
pub update_batch_table_lem :
    (ip_string : Bytes → Bytes) (u : Update) (b : RecordTable)
    → IsTable b
    → IsTable (update_batch_table ip_string u b)
      × ((k : Bytes)
          → lookup k (update_batch_table ip_string u b).entry ≡ (
              if str_eq (mac_string u.host_addr) k
              then some (assignment ip_string u)
              else lookup k b.entry))
      × ((update_batch_table ip_string u b).current_id ≡ b.current_id)
      × ((update_batch_table ip_string u b).skipped_id ≡ b.skipped_id)
unfolding update_batch_table
update_batch_table_lem ip_string u b h = (
  update_batch_table-IsTable ip_string u b h,
  lookup-update_batch_table ip_string u b,
  refl,
  refl,
)
