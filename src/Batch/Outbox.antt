-- ===== src/Batch/Outbox.antt =====
-- The abstract view of the batch table of proxybatcher/batch_scheduler.go, with keys and orders left
-- out: an outbox that remembers, for each MAC address, the assignment that waits, and the batches that
-- were sent, as functions of the MAC address.
use mathlib.Core.Path.{fun_ext, subst}
use mathlib.Core.List.{Permᴰ}
use dhcp_batcher.Common.{
  ◌<◌, Bytes, str_eq, str_eq_refl, Option, none, some, List, [], ◌∷◌, ◌≡◌, refl, sym, ap, ◌∙◌,
  arith, All, length, map, if◌then◌else◌,
}
use dhcp_batcher.GoMap.{lookup, IsMap, values}
use dhcp_batcher.GoMap.Range.{perm-lookup}
use dhcp_batcher.Endpoint.{Update}
use dhcp_batcher.Net.Mac.{mac_string}
use dhcp_batcher.Batch.{Assignment, RecordTable, Scheduler, update_batch_table, batch_cycle}
use dhcp_batcher.Batch.Table.{
  IsKeyed, IsTable, assignment, update_batch_table-IsTable, lookup-update_batch_table,
}
use dhcp_batcher.Batch.Cycle.{batch_cycle_full, batch_cycle_empty}

pub record Outbox : Type 0 where
  pub waiting : Bytes → Option Assignment
  pub sent : List (Bytes → Option Assignment)

-- A batch by MAC address.
abbrev pub keyed : List Assignment → List (Bytes × Assignment)
keyed = map (λ a. (a.mac_address, a))

abbrev pub contents : List Assignment → Bytes → Option Assignment
contents t k = lookup k (keyed t)

abbrev pub view : Scheduler → Outbox
view s = record { waiting = λ k. lookup k s.table.entry; sent = map contents s.dispatched }

-- The operations of the promise: a deposit replaces what waits under its address, and a flush sends
-- all that waits as one batch.
abbrev pub deposit : Bytes → Assignment → Outbox → Outbox
deposit k x o = record o { waiting = λ j. if str_eq k j then some x else o.waiting j }

abbrev pub flush : Outbox → Outbox
flush o = record { waiting = λ k. none; sent = o.waiting ∷ o.sent }

-- What happens to the table: an update is written, or the scheduler ticks.
pub data Event : Type 0 where
  update : Update → Event
  tick : Event

-- What an event does to an outbox: an update deposits its own assignment under its own address, and
-- a tick flushes if something waits and does nothing otherwise.
pub data OutboxStep (ip_string : Bytes → Bytes) (o : Outbox) (o' : Outbox) : Event → Type 0 where
  deposited :
      (u : Update)
      → o' ≡ deposit (mac_string u.host_addr) (assignment ip_string u) o
      → OutboxStep ip_string o o' (update u)
  flushed :
      (k : Bytes) (x : Assignment)
      → o.waiting k ≡ some x
      → o' ≡ flush o
      → OutboxStep ip_string o o' tick
  idle : ((k : Bytes) → o.waiting k ≡ none) → o' ≡ o → OutboxStep ip_string o o' tick

-- The steps of the program in batch mode: an update, and a tick with any order of its loop.
pub data Step (ip_string : Bytes → Bytes) (s : Scheduler) (s' : Scheduler) : Event → Type 0 where
  updated :
      (u : Update)
      → s' ≡ record s { table = update_batch_table ip_string u s.table }
      → Step ip_string s s' (update u)
  ticked :
      (order : List (Bytes × Assignment))
      → Permᴰ s.table.entry order
      → s' ≡ batch_cycle order s
      → Step ip_string s s' tick

pub keyed-values :
    (order : List (Bytes × Assignment)) → All IsKeyed order → keyed (values order) ≡ order
keyed-values [] _ = refl
keyed-values ((k, v) ∷ order) (here, later) = ground (arith, here, keyed-values order later)

-- A permutation of keyed entries is keyed.
pub perm-IsKeyed : {l m : List (Bytes × Assignment)} → Permᴰ l m → All IsKeyed l → All IsKeyed m
perm-IsKeyed Permᴰ.nil h = tt
perm-IsKeyed (Permᴰ.cons {a = (i, v)} {b = (j, w)} e p) (here, later) =
    (ground (arith, ap (λ x. x.0) e, ap (λ x. x.1) e, here), perm-IsKeyed p later)
perm-IsKeyed (Permᴰ.swap {a = (i, v)} {b = (j, w)} {a' = (i', v')} {b' = (j', w')} e e') h =
    ground (arith, ap (λ x. x.0) e, ap (λ x. x.0) e', ap (λ x. x.1) e, ap (λ x. x.1) e', h)
perm-IsKeyed (Permᴰ.trans p q) h = perm-IsKeyed q (perm-IsKeyed p h)

-- The batch of a tick holds, under each address, what the table held, and each address once.
pub contents-values :
    (entry order : List (Bytes × Assignment))
    → IsMap entry
    → All IsKeyed entry
    → Permᴰ entry order
    → (contents (values order) ≡ (λ k. lookup k entry)) × IsMap (keyed (values order))
contents-values entry order distinct keys p =
    let (still, same) = perm-lookup p distinct in
    let shape = keyed-values order (perm-IsKeyed p keys) in
    (fun_ext (λ k. ap (lookup k) shape ∙ same k), rw shape still)

-- The invariant of the scheduler: that of its table.
abbrev pub IsSound : Scheduler → Type 0
IsSound s = IsTable s.table

view-updated :
    (ip_string : Bytes → Bytes) (u : Update) (s : Scheduler)
    → view (record s { table = update_batch_table ip_string u s.table })
      ≡ deposit (mac_string u.host_addr) (assignment ip_string u) (view s)
view-updated ip_string u s = λ i. record {
  waiting = fun_ext (lookup-update_batch_table ip_string u s.table) i;
  sent = map contents s.dispatched;
}

view-flushed :
    (order : List (Bytes × Assignment)) (s : Scheduler)
    → IsSound s
    → Permᴰ s.table.entry order
    → 0 < length s.table.entry
    → view (batch_cycle order s) ≡ flush (view s)
unfolding lookup
view-flushed order s h p some_entry =
    let (sent, empty, _, _, _) = batch_cycle_full order s some_entry in
    let (same, _) = contents-values s.table.entry order h.keys h.keyed p in
    λ i. record {
      waiting = λ k. lookup k (empty i);
      sent = (ap (map contents) sent ∙ ap (λ b. b ∷ map contents s.dispatched) same) i;
    }

empty-IsTable : (b : RecordTable) → b.entry ≡ [] → IsTable b
empty-IsTable b e = record { keys = subst IsMap (sym e) tt; keyed = subst (All IsKeyed) (sym e) tt }

tick-OutboxStep :
    {ip_string : Bytes → Bytes} (order entry : List (Bytes × Assignment)) (s : Scheduler)
    → s.table.entry ≡ entry
    → Permᴰ s.table.entry order
    → IsSound s
    → OutboxStep ip_string (view s) (view (batch_cycle order s)) tick
      × IsSound (batch_cycle order s)
unfolding lookup
tick-OutboxStep order [] s none_left p h =
    let same = batch_cycle_empty order s none_left in
    (
      idle (λ k. ap (lookup k) none_left) (ap view same),
      subst IsSound (sym same) (record { keys = h.keys; keyed = h.keyed }),
    )
tick-OutboxStep order ((k, x) ∷ entry) s filled p h =
    let some_entry : 0 < length s.table.entry = omega (arith, ap length filled) in
    (
      flushed k x (ap (lookup k) filled ∙ ground (arith, str_eq_refl k))
          (view-flushed order s h p some_entry),
      empty-IsTable (batch_cycle order s).table (batch_cycle_full order s some_entry).1,
    )

-- From a table that meets its invariant every step of the program in batch mode is the step of the
-- abstract outbox for the same event, and the table still meets the invariant: an update deposits
-- its own assignment under its MAC address, and a tick, with any order of its loop, sends all that
-- waits as one batch if something waits and changes nothing in the outbox otherwise.
pub Step-OutboxStep :
    {ip_string : Bytes → Bytes} {s s' : Scheduler} {event : Event}
    → Step ip_string s s' event
    → IsSound s
    → OutboxStep ip_string (view s) (view s') event × IsSound s'
Step-OutboxStep {ip_string} {s} (updated u e) h = (
  deposited u (ap view e ∙ view-updated ip_string u s),
  subst IsSound (sym e) (update_batch_table-IsTable ip_string u s.table h),
)
Step-OutboxStep {ip_string} {s} (ticked order p e) h =
    subst (λ t. OutboxStep ip_string (view s) (view t) tick × IsSound t) (sym e)
      (tick-OutboxStep order s.table.entry s refl p h)
