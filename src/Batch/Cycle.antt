-- ===== src/Batch/Cycle.antt =====
-- One tick of the scheduler of proxybatcher/batch_scheduler.go, in both modes.
use mathlib.Core.List.{append-nil, append_assoc}
use dhcp_batcher.Common.{
  ◌<◌, Bytes, bytes, str_eq, List, [], ◌∷◌, ◌++◌, ◌≡◌, refl, sym, ◌∙◌, arith, length, map,
  if◌then◌else◌,
}
use dhcp_batcher.GoMap.{delete, values}
use dhcp_batcher.Lease.{Lease}
use dhcp_batcher.Options.{ProgramConfig}
use dhcp_batcher.Batch.{
  Assignment, Scheduler, next_id, drain, collect, batch_cycle, proxy_cycle, cycle,
}

pub drain-values :
    (order : List (Bytes × Assignment)) (t : List Assignment) (entry : List (Bytes × Assignment))
    → (drain order t entry).0 ≡ t ++ values order
unfolding drain
drain-values [] t entry = sym (append-nil t)
drain-values ((k, v) ∷ order) t entry =
    drain-values order (t ++ v ∷ []) (delete k entry) ∙ append_assoc t (v ∷ []) (values order)

-- The assignment that the scheduler makes of a lease.
abbrev pub lease_assignment : Lease → Assignment
lease_assignment v = record {
  expired = v.is_expired;
  ip_address = v.ip;
  mac_address = v.mac;
  remote_id = v.rid;
}

pub collect-map :
    (order : List (Bytes × Lease)) (t : List Assignment)
    → collect order t ≡ t ++ map lease_assignment (values order)
unfolding collect
collect-map [] t = sym (append-nil t)
collect-map ((k, v) ∷ order) t =
    collect-map order (t ++ lease_assignment v ∷ [])
    ∙ append_assoc t (lease_assignment v ∷ []) (map lease_assignment (values order))

-- A tick in batch mode over a table that is not empty hands the entries in the loop's order to
-- sendBatch as one batch, empties the table, counts the batch, and changes neither the other
-- counter nor the leases.
pub batch_cycle_full :
    (order : List (Bytes × Assignment)) (s : Scheduler)
    → 0 < length s.table.entry
    → ((batch_cycle order s).dispatched ≡ values order ∷ s.dispatched)
      × ((batch_cycle order s).table.entry ≡ [])
      × ((batch_cycle order s).table.current_id ≡ next_id s.table.current_id)
      × ((batch_cycle order s).table.skipped_id ≡ s.table.skipped_id)
      × ((batch_cycle order s).leases ≡ s.leases)
unfolding batch_cycle
batch_cycle_full order s h = ground (arith, drain-values order [] s.table.entry)

-- Over an empty table it only counts the tick as skipped.
pub batch_cycle_empty :
    (order : List (Bytes × Assignment)) (s : Scheduler)
    → s.table.entry ≡ []
    → batch_cycle order s
      ≡ record s { table = record s.table { skipped_id = next_id s.table.skipped_id } }
unfolding batch_cycle
batch_cycle_empty order s h = rw h refl

-- A tick in proxy mode over a lease table that is not empty hands one assignment for each lease,
-- expired or not, to sendBatch, counts the batch, and changes nothing else.
pub proxy_cycle_lem :
    (order : List (Bytes × Lease)) (s : Scheduler)
    → 0 < length s.leases
    → proxy_cycle order s ≡ record s {
      table = record s.table { current_id = next_id s.table.current_id };
      dispatched = map lease_assignment (values order) ∷ s.dispatched;
    }
unfolding proxy_cycle
proxy_cycle_lem order s h = ground (arith, collect-map order [])

-- No tick of any mode changes the lease table; in proxy mode it keeps the batch table's entries,
-- and in any other mode none are left.
pub cycle_entries :
    (options : ProgramConfig) (leases : List (Bytes × Lease)) (order : List (Bytes × Assignment))
    (s : Scheduler)
    → ((cycle options leases order s).leases ≡ s.leases)
      × ((cycle options leases order s).table.entry
          ≡ (if str_eq options.operation_mode (bytes "proxy") then s.table.entry else []))
unfolding cycle proxy_cycle batch_cycle
cycle_entries options leases order s = ground arith
