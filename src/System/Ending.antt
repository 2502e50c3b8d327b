-- ===== src/System/Ending.antt =====
-- How the batch mode ends: the tail of startBatchModeServer of proxybatcher/batch_mode.go, from the
-- wait for an interrupt to the return of main, with the scheduler of proxybatcher/batch_scheduler.go that
-- takes the stop signal. The goroutines and the endpoint go on until main returns.
use mathlib.Core.List.{Permᴰ}
use dhcp_batcher.Common.{Bytes, List, [], ◌∷◌, ◌++◌, ◌≡◌}
use dhcp_batcher.Options.{ProgramConfig}
use dhcp_batcher.Endpoint.{Request, Web, Update, endpoint}
use dhcp_batcher.Batch.{Assignment, update_batch_table, batch_cycle}
use dhcp_batcher.System.{BatchSystem, boot_scheduler, started_by, Reach, boot, handle, run, cycle}

-- Where startBatchModeServer stands: at `<-stop`, at `ctl <- true`, at the Shutdown of either server,
-- or at its return, which is that of main.
pub data Phase : Type 0 where
  waiting : Phase
  signalling : Phase
  closing_redirect : Phase
  closing_endpoint : Phase
  returned : Phase

-- The next phase. The channel has no buffer: the send ends when RunBatchScheduler receives, and it
-- returns then. An error of a Shutdown is only logged.
unfoldable pub next_phase : Phase → Phase
next_phase waiting = signalling
next_phase signalling = closing_redirect
next_phase closing_redirect = closing_endpoint
next_phase closing_endpoint = returned
next_phase returned = returned

-- The endpoint takes requests, and goroutines run, until main returns: its Shutdown is the last call,
-- and waits for the requests that it finds.
abbrev pub IsOpen : Phase → Type 0
IsOpen returned = ⊥
IsOpen p = Unit

-- RunBatchScheduler has not received the stop signal.
abbrev pub IsScheduling : Phase → Type 0
IsScheduling waiting = Unit
IsScheduling signalling = Unit
IsScheduling p = ⊥

-- It has.
abbrev pub IsStopped : Phase → Type 0
IsStopped waiting = ⊥
IsStopped signalling = ⊥
IsStopped p = Unit

module _ (web : Web) (options : ProgramConfig) where
  abbrev pub answered : Request → BatchSystem → BatchSystem
  answered req s = record s {
    started = started_by (endpoint web options.batch.routers req) ++ s.started;
  }

  abbrev pub update_written : List Update → Update → List Update → BatchSystem → BatchSystem
  update_written before u after s = record {
    scheduler = record s.scheduler {
      table = update_batch_table web.ip.ip_string u s.scheduler.table;
    };
    started = before ++ after;
  }

  -- What a state of the program, with the phase of its main goroutine and the requests of its past,
  -- can become: in any phase but the last the endpoint handles requests and their goroutines run, and
  -- the scheduler ticks until it is stopped.
  pub data Follows (p₀ : Phase) (past₀ : List Request) (s₀ : BatchSystem)
      : Phase → List Request → BatchSystem → Type 0 where
    begin : Follows p₀ past₀ s₀ p₀ past₀ s₀
    answer :
        {p : Phase} {past : List Request} {s : BatchSystem}
        → Follows p₀ past₀ s₀ p past s
        → IsOpen p
        → (req : Request) → Follows p₀ past₀ s₀ p (req ∷ past) (answered req s)
    write :
        {p : Phase} {past : List Request} {s : BatchSystem}
        → Follows p₀ past₀ s₀ p past s
        → IsOpen p
        → (before : List Update) (u : Update) (after : List Update)
        → s.started ≡ before ++ u ∷ after
        → Follows p₀ past₀ s₀ p past (update_written before u after s)
    tick :
        {p : Phase} {past : List Request} {s : BatchSystem}
        → Follows p₀ past₀ s₀ p past s
        → IsScheduling p
        → (order : List (Bytes × Assignment)) → Permᴰ s.scheduler.table.entry order
        → Follows p₀ past₀ s₀ p past (record s { scheduler = batch_cycle order s.scheduler })
    pass :
        {p : Phase} {past : List Request} {s : BatchSystem}
        → Follows p₀ past₀ s₀ p past s
        → Follows p₀ past₀ s₀ (next_phase p) past s

  -- The states of the program from its start on.
  abbrev pub Live : Phase → List Request → BatchSystem → Type 0
  Live = Follows waiting [] (record { scheduler = boot_scheduler options; started = [] })

  -- The end of the program adds no state to those of the running system.
  pub Live-Reach :
      {p : Phase} {past : List Request} {s : BatchSystem} → Live p past s → Reach web options past s
  Live-Reach begin = boot
  Live-Reach (answer l o req) = handle (Live-Reach l) req
  Live-Reach (write l o before u after e) = run (Live-Reach l) before u after e
  Live-Reach (tick l on order p) = cycle (Live-Reach l) order p
  Live-Reach (pass l) = Live-Reach l
