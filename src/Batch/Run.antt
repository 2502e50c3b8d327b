-- ===== src/Batch/Run.antt =====
-- Runs of the batch mode of proxybatcher/batch_scheduler.go: any sequence of updates and ticks, with
-- any order of every loop, and what is to hold after it.
use mathlib.Core.List.{Permᴰ}
use dhcp_batcher.Common.{
  ℕ, suc, ◌-◌, ◌%◌, ◌^◌, ◌<◌, ◌≤◌, Bytes, str_eq, Bool, true, false, Option, none, some, List, [],
  ◌∷◌, ◌≡◌, ◌⊎◌, All, length, map, if◌then◌else◌,
}
use dhcp_batcher.GoMap.{lookup, IsMap}
use dhcp_batcher.Endpoint.{Update}
use dhcp_batcher.Net.Mac.{mac_string}
use dhcp_batcher.Batch.{Assignment, Scheduler, update_batch_table, batch_cycle}
use dhcp_batcher.Batch.Table.{assignment}
use dhcp_batcher.Batch.Outbox.{keyed, contents, IsSound}
pub use dhcp_batcher.Batch.Outbox.{Event, update, tick}

-- Some batch holds the assignment under the address.
abbrev pub AnyHolds : Bytes → Assignment → List (Bytes → Option Assignment) → Type 0
AnyHolds k x [] = ⊥
AnyHolds k x (b ∷ bs) = (b k ≡ some x) ⊎ AnyHolds k x bs

-- A run from a state with nothing in its table and nothing sent.
pub record IsFresh (s : Scheduler) : Type 0 where
  pub no_entry : s.table.entry ≡ []
  pub no_batch : s.dispatched ≡ []
  pub no_id : s.table.current_id ≡ 0
  pub no_skip : s.table.skipped_id ≡ 0

module _ (ip_string : Bytes → Bytes) where
  -- A run with its events, the last one first.
  pub data Run (s : Scheduler) : List Event → Scheduler → Type 0 where
    start : Run s [] s
    updates :
        {events : List Event} {t : Scheduler}
        → Run s events t
        → (u : Update)
        → Run s (update u ∷ events) (record t { table = update_batch_table ip_string u t.table })
    ticks :
        {events : List Event} {t : Scheduler}
        → Run s events t
        → (order : List (Bytes × Assignment)) → Permᴰ t.table.entry order
        → Run s (tick ∷ events) (batch_cycle order t)

  -- The last update of an address since the last tick.
  unfoldable pub pending : List Event → Bytes → Option Assignment
  pending [] k = none
  pending (tick ∷ events) k = none
  pending (update u ∷ events) k =
      if str_eq (mac_string u.host_addr) k then some (assignment ip_string u) else pending events k

  -- Whether there was an update since the last tick.
  unfoldable pub is_busy : List Event → Bool
  is_busy [] = false
  is_busy (tick ∷ events) = false
  is_busy (update u ∷ events) = true

  -- The batches of a run: each tick after an update sends what is pending.
  unfoldable pub batches : List Event → List (Bytes → Option Assignment)
  batches [] = []
  batches (update u ∷ events) = batches events
  batches (tick ∷ events) =
      if is_busy events then pending events ∷ batches events else batches events

  unfoldable pub tick_count : List Event → ℕ
  tick_count [] = 0
  tick_count (update u ∷ events) = tick_count events
  tick_count (tick ∷ events) = suc (tick_count events)

  -- What holds after a run: the table is what is pending, the batches are those of the events, each
  -- with every address once, and every tick is counted once, as a batch or as skipped.
  pub record Delivers (events : List Event) (s : Scheduler) : Type 0 where
    pub sound : IsSound s
    pub waiting : (k : Bytes) → lookup k s.table.entry ≡ pending events k
    pub busy :
        (is_busy events ≡ true × (0 < length s.table.entry))
        ⊎ (is_busy events ≡ false × (s.table.entry ≡ []))
    pub sent : map contents s.dispatched ≡ batches events
    pub distinct : All (λ t. IsMap (keyed t)) s.dispatched
    pub batch_count : s.table.current_id ≡ length (batches events) % 2 ^ 64
    pub skip_count : s.table.skipped_id ≡ (tick_count events - length (batches events)) % 2 ^ 64
    pub bounded : length (batches events) ≤ tick_count events
