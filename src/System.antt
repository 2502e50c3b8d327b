-- ===== src/System.antt =====
-- The program in batch mode as a whole: the endpoint of proxybatcher/batch_mode.go, the goroutines
-- that it starts with `go batchTable.UpdateBatchTable(...)`, and the scheduler of
-- proxybatcher/batch_scheduler.go, in any interleaving.
pub mod Sources
pub mod Delivery
pub mod Stale
pub mod Start
pub mod Ending
pub mod Stop
use mathlib.Core.List.{Permᴰ}
use dhcp_batcher.Common.{Bytes, Option, none, some, List, [], ◌∷◌, ◌++◌, ◌≡◌}
use dhcp_batcher.Options.{BatchRouterAuth, ProgramConfig}
use dhcp_batcher.Endpoint.{Request, Web, Update, Response, Outcome, panicked, finished, endpoint}
use dhcp_batcher.Batch.{
  Assignment, RecordTable, Scheduler, init_table, update_batch_table, batch_cycle,
}

-- The table with its scheduler, and the updates whose goroutines have been started and have not run.
pub record BatchSystem : Type 0 where
  pub scheduler : Scheduler
  pub started : List Update

-- The goroutine that a handler has started. net/http recovers a handler that panics.
abbrev pub started_by : Outcome → List Update
started_by panicked = []
started_by (finished r) = elim r.update [ none ↦ [] | some u ↦ u ∷ [] ]

abbrev pub boot_scheduler : ProgramConfig → Scheduler
boot_scheduler options = record { table = init_table options; leases = []; dispatched = [] }

module _ (web : Web) (options : ProgramConfig) where
  -- The updates that the requests of a past have started, the last request first.
  unfoldable pub accepted : List Request → List Update
  accepted [] = []
  accepted (req ∷ past) = started_by (endpoint web options.batch.routers req) ++ accepted past

  -- The states after the requests of a past: a request is handled, one of the started goroutines
  -- runs, whichever it is, or the scheduler ticks, with any order of its loop.
  pub data Reach : List Request → BatchSystem → Type 0 where
    boot : Reach [] (record { scheduler = boot_scheduler options; started = [] })
    handle :
        {past : List Request} {s : BatchSystem}
        → Reach past s
        → (req : Request)
        → Reach (req ∷ past) (record s {
          started = started_by (endpoint web options.batch.routers req) ++ s.started;
        })
    run :
        {past : List Request} {s : BatchSystem}
        → Reach past s
        → (before : List Update) (u : Update) (after : List Update)
        → s.started ≡ before ++ u ∷ after
        → Reach past (record {
          scheduler = record s.scheduler {
            table = update_batch_table web.ip.ip_string u s.scheduler.table;
          };
          started = before ++ after;
        })
    cycle :
        {past : List Request} {s : BatchSystem}
        → Reach past s
        → (order : List (Bytes × Assignment)) → Permᴰ s.scheduler.table.entry order
        → Reach past (record s { scheduler = batch_cycle order s.scheduler })
