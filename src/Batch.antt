-- ===== src/Batch.antt =====
-- proxybatcher/batch_scheduler.go: the batch table, its updates, and the scheduler that empties it.
-- A table holds the last assignment of every MAC address; a cycle of the scheduler hands what the
-- table of the mode holds to sendBatch. The log lines are not modelled, nor the HTTP client behind
-- sendBatch beyond the request that it is given.
pub mod Table
pub mod Cycle
pub mod Outbox
pub mod Run
pub mod Delivery
pub mod Dispatch
pub mod Loop
use mathlib.Core.List.{Permᴰ}
use dhcp_batcher.Common.{
  ℕ, suc, ◌+◌, ◌*◌, ◌%◌, ◌^◌, ◌≡◌, Bytes, bytes, str_eq, Bool, Option, none, some, List, [], ◌∷◌,
  ◌++◌, length, ltb, map, if◌then◌else◌, ℤ, pos, pos_part, neg_part, sub_ℕ, int64, eqb_ℤ,
}
use dhcp_batcher.GoMap.{insert, delete}
use dhcp_batcher.Endpoint.{Update}
use dhcp_batcher.Lease.{Lease, LeaseTable}
use dhcp_batcher.Net.Mac.{mac_string}
use dhcp_batcher.Options.{ProgramConfig}

pub record Assignment : Type 0 where
  pub expired : Bytes
  pub ip_address : Bytes
  pub mac_address : Bytes
  pub remote_id : Bytes

-- batchID is an int; its two's complement pattern stands here. The cycle time is in nanoseconds.
pub record RecordTable : Type 0 where
  pub cycle_time : ℤ
  pub sonar_instance : Bytes
  pub sonar_api_key : Bytes
  pub sonar_user : Bytes
  pub current_id : ℕ
  pub skipped_id : ℕ
  pub entry : List (Bytes × Assignment)

-- One more, in 64 bits.
abbrev pub next_id : ℕ → ℕ
next_id n = (n + 1) % 2 ^ 64

abbrev pub second : ℕ
second = 1000000000

-- A number of minutes as a time.Duration.
unfoldable pub minutes : ℤ → ℤ
unfolding int64
minutes n = int64 (sub_ℕ (pos_part n * (60 * second)) (neg_part n * (60 * second)))

-- initTable: an empty map, and a cycle of 15 seconds where the option is 0.
unfoldable pub init_table : ProgramConfig → RecordTable
init_table options = record {
  cycle_time =
      if eqb_ℤ options.batch.scheduler_cycle_time (pos 0)
      then pos (15 * second)
      else minutes options.batch.scheduler_cycle_time;
  sonar_instance = options.sonar.instance_name;
  sonar_api_key = options.sonar.api_key;
  sonar_user = options.sonar.api_username;
  current_id = 0;
  skipped_id = 0;
  entry = [];
}

-- UpdateBatchTable; `ip_string` is net.IP's String. The map is written under the mutex.
unfoldable pub update_batch_table : (Bytes → Bytes) → Update → RecordTable → RecordTable
update_batch_table ip_string u b =
    let x : Assignment = record {
      expired = u.expired;
      mac_address = mac_string u.host_addr;
      ip_address = ip_string u.host_ip;
      remote_id = u.remote_id;
    } in
    record b { entry = insert (mac_string u.host_addr) x b.entry }

-- The loop over b.entry, in the order in which Go visits it: each entry is appended to the batch and
-- deleted from the map.
unfoldable pub drain :
    List (Bytes × Assignment)
    → List Assignment
    → List (Bytes × Assignment)
    → List Assignment × List (Bytes × Assignment)
drain [] t entry = (t, entry)
drain ((k, v) ∷ order) t entry = drain order (t ++ v ∷ []) (delete k entry)

-- The loop over leaseTable.entry.
unfoldable pub collect : List (Bytes × Lease) → List Assignment → List Assignment
collect [] t = t
collect ((k, v) ∷ order) t = collect order (
    t
    ++ record { expired = v.is_expired; ip_address = v.ip; mac_address = v.mac; remote_id = v.rid }
      ∷ [])

-- What the scheduler reads and writes; `dispatched` are the batches that it has handed to sendBatch,
-- the last one first.
pub record Scheduler : Type 0 where
  pub table : RecordTable
  pub leases : LeaseTable
  pub dispatched : List (List Assignment)

-- A cycle in batch mode.
unfoldable pub batch_cycle : List (Bytes × Assignment) → Scheduler → Scheduler
batch_cycle order s =
    if ltb 0 (length s.table.entry)
    then (let (t, left) = drain order [] s.table.entry in
        record s {
          table = record s.table { entry = []; current_id = next_id s.table.current_id };
          dispatched = t ∷ s.dispatched;
        })
    else record s { table = record s.table { skipped_id = next_id s.table.skipped_id } }

-- A cycle in proxy mode: the lease table stays as it is.
unfoldable pub proxy_cycle : List (Bytes × Lease) → Scheduler → Scheduler
proxy_cycle order s =
    if ltb 0 (length s.leases)
    then record s {
      table = record s.table { current_id = next_id s.table.current_id };
      dispatched = collect order [] ∷ s.dispatched;
    }
    else record s { table = record s.table { skipped_id = next_id s.table.skipped_id } }

-- A tick of RunBatchScheduler. The orders are those of the two loops.
unfoldable pub cycle :
    ProgramConfig → List (Bytes × Lease) → List (Bytes × Assignment) → Scheduler → Scheduler
cycle options lease_order entry_order s =
    if str_eq options.operation_mode (bytes "proxy")
    then proxy_cycle lease_order s
    else batch_cycle entry_order s

-- The request that sendBatch posts.
pub record Post : Type 0 where
  pub method : Bytes
  pub url : Bytes
  pub body : Bytes
  pub username : Bytes
  pub password : Bytes
  pub content_type : Bytes

-- What sendBatch does with a batch: a request handed to the HTTP client, nothing, or a panic.
pub data Sent : Type 0 where
  posted : Post → Sent
  nothing : Sent
  crashed : Sent

-- sendBatch up to the HTTP client. `marshal` is json.Marshal of the batch under "data"; `valid_url`
-- says whether http.NewRequest takes the URL, and where it does not the nil request is used all the
-- same. A version other than 1 sends nothing.
unfoldable pub send_batch :
    (List Assignment → Bytes) → (Bytes → Bool) → ProgramConfig → List Assignment → Sent
send_batch marshal valid_url options t =
    if eqb_ℤ options.sonar.version (pos 1)
    then (let url =
          bytes "https://"
          ++ (options.sonar.instance_name
              ++ bytes "/api/v1/network/ipam/batch_dynamic_ip_assignment") in
        if valid_url url
        then posted (record {
          method = bytes "post";
          url = url;
          body = marshal t;
          username = options.sonar.api_username;
          password = options.sonar.api_key;
          content_type = bytes "application/json";
        })
        else crashed)
    else nothing
