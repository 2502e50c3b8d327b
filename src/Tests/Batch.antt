-- ===== src/Tests/Batch.antt =====
-- Tests of proxybatcher/batch_scheduler.go.
use mathlib.Core.List.Permᴰ
use dhcp_batcher.Common.{
  ◌<◌, ◌≤◌, ◌*◌, ◌↔◌, Bytes, bytes, none, List, [], ◌∷◌, ◌≡◌, refl, arith, length, pos,
}
use dhcp_batcher.GoMap.{insert}
use dhcp_batcher.Endpoint.{Update}
use dhcp_batcher.Lease.{Lease, LeaseTable}
use dhcp_batcher.Batch.{second, Assignment, Scheduler, init_table, update_batch_table, batch_cycle}
use dhcp_batcher.Batch.Table.{init_table-IsTable}
use dhcp_batcher.Batch.Outbox.{view, OutboxStep, updated, IsSound, Step-OutboxStep}
use dhcp_batcher.Batch.Run.{update, tick, IsFresh, Run, start, updates, ticks, Delivers}
use dhcp_batcher.Batch.Delivery.{Run-Delivers}
use dhcp_batcher.Batch.Dispatch.{max_minutes, init_table-cycle_time_iff}
use dhcp_batcher.Tests.Options.{batch_options}

-- An address is printed as its bytes.
abbrev print : Bytes → Bytes
print ip = ip

abbrev change : Update
change = record {
  expired = bytes "0";
  router_ip = 10 ∷ 0 ∷ 0 ∷ 1 ∷ [];
  host_addr = 2 ∷ 0 ∷ 0 ∷ 0 ∷ 0 ∷ 10 ∷ [];
  host_ip = 10 ∷ 1 ∷ 2 ∷ 3 ∷ [];
  remote_id = [];
}

abbrev fresh : Scheduler
fresh = record { table = init_table batch_options; leases = []; dispatched = [] }

abbrev waiting : Scheduler
waiting = record fresh { table = update_batch_table print change fresh.table }

abbrev order : List (Bytes × Assignment)
order = waiting.table.entry

abbrev flushed : Scheduler
flushed = batch_cycle order waiting

fresh-IsFresh : IsFresh fresh
unfolding init_table
fresh-IsFresh = record { no_entry = refl; no_batch = refl; no_id = refl; no_skip = refl }

run : Run print fresh (tick ∷ update change ∷ []) flushed
run = ticks (updates start change) order (Permᴰ.refl order)

order-length : 0 < length order
unfolding update_batch_table insert init_table
order-length = ground arith

abbrev lease : Lease
lease = record {
  mac = bytes "02:00:00:00:00:0a";
  ip = bytes "10.1.2.3";
  router = none;
  cid = [];
  rid = [];
  lease_time = 0;
  time_stamp = 0;
  is_expired = bytes "1";
}

abbrev leases : LeaseTable
leases = (lease.mac, lease) ∷ []

abbrev leased : Scheduler
leased = record fresh { leases = leases }

Run-Delivers_example : Delivers print (tick ∷ update change ∷ []) flushed
Run-Delivers_example = Run-Delivers print fresh-IsFresh run

Step-OutboxStep_example :
    OutboxStep print (view fresh) (view waiting) (update change) × IsSound waiting
Step-OutboxStep_example =
    Step-OutboxStep {ip_string = print} {s = fresh} {s' = waiting} (updated change refl)
      (init_table-IsTable batch_options)

init_table-cycle_time_iff_example :
    ((init_table batch_options).cycle_time ≡ pos (5 * (60 * second))) ↔ (5 ≤ max_minutes)
init_table-cycle_time_iff_example = init_table-cycle_time_iff batch_options 5 refl (omega arith)
