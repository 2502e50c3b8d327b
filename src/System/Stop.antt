-- ===== src/System/Stop.antt =====
-- What the end of the batch mode leaves unsent: the time between the stop signal, which RunBatchScheduler
-- of proxybatcher/batch_scheduler.go takes, and the return of main, in proxybatcher/batch_mode.go.
use mathlib.Core.Path.{subst}
use dhcp_batcher.Common.{
  Bytes, str_eq, some, List, [], ◌∷◌, ◌++◌, ◌≡◌, refl, ap, ◌∙◌, arith, Bool-cases, inl, inr,
}
use dhcp_batcher.GoMap.{lookup}
use dhcp_batcher.GoMap.Laws.{lookup-insert}
use dhcp_batcher.Net.Mac.{mac_string}
use dhcp_batcher.Options.{ProgramConfig}
use dhcp_batcher.Endpoint.{Request, Web, Update}
use dhcp_batcher.Endpoint.Auth.{Authorised}
use dhcp_batcher.Batch.{Assignment, RecordTable, update_batch_table}
use dhcp_batcher.Batch.Table.{assignment}
use dhcp_batcher.System.{BatchSystem}
use dhcp_batcher.System.Stale.{started_by-endpoint, lookup-update_last}
use dhcp_batcher.System.Ending.{
  Phase, waiting, signalling, closing_redirect, closing_endpoint, returned, next_phase, IsOpen,
  IsScheduling, IsStopped, update_written, Follows, Live, begin, answer, write, tick, pass,
}

module _ (web : Web) (options : ProgramConfig) where
  -- What has become of the state in which the scheduler was stopped: some more requests, the same
  -- batches and counters, and every address of the table is still there.
  pub record Lingers (stop_past : List Request) (stop : BatchSystem) (past : List Request)
      (s : BatchSystem) : Type 0 where
    pub late : List Request
    pub later : past ≡ late ++ stop_past
    pub no_batch : s.scheduler.dispatched ≡ stop.scheduler.dispatched
    pub no_count : s.scheduler.table.current_id ≡ stop.scheduler.table.current_id
    pub no_skip : s.scheduler.table.skipped_id ≡ stop.scheduler.table.skipped_id
    pub kept :
        (k : Bytes) (x : Assignment)
        → lookup k stop.scheduler.table.entry ≡ some x
        → (y : Assignment) × (lookup k s.scheduler.table.entry ≡ some y)

  update-keeps :
      (u : Update) (b : RecordTable) (k : Bytes) (x : Assignment)
      → lookup k b.entry ≡ some x
      → (y : Assignment) × (lookup k (update_batch_table web.ip.ip_string u b).entry ≡ some y)
  unfolding update_batch_table
  update-keeps u b k x e = elim (Bool-cases (str_eq (mac_string u.host_addr) k)) [
    | inl same ↦ (
      assignment web.ip.ip_string u,
      ground
          (arith, lookup-insert (mac_string u.host_addr) k (assignment web.ip.ip_string u) b.entry),
    )
    | inr other ↦ (
      x,
      ground
          (arith, lookup-insert (mac_string u.host_addr) k (assignment web.ip.ip_string u) b.entry),
    )
  ]

  update-counts :
      (u : Update) (b : RecordTable)
      → ((update_batch_table web.ip.ip_string u b).current_id ≡ b.current_id)
        × ((update_batch_table web.ip.ip_string u b).skipped_id ≡ b.skipped_id)
  unfolding update_batch_table
  update-counts u b = (refl, refl)

  next_phase-IsStopped : (p : Phase) → IsStopped p → IsStopped (next_phase p)
  unfolding next_phase
  next_phase-IsStopped waiting stopped = absurd stopped
  next_phase-IsStopped signalling stopped = tt
  next_phase-IsStopped closing_redirect stopped = tt
  next_phase-IsStopped closing_endpoint stopped = tt
  next_phase-IsStopped returned stopped = tt

  no_tick : (p : Phase) → IsScheduling p → ¬ IsStopped p
  no_tick waiting on stopped = stopped
  no_tick signalling on stopped = stopped
  no_tick closing_redirect on stopped = on
  no_tick closing_endpoint on stopped = on
  no_tick returned on stopped = on

  module _ {p₀ : Phase} {past₀ : List Request} {s₀ : BatchSystem} (stopped : IsStopped p₀) where
    rest_of_run :
        {p : Phase} {past : List Request} {s : BatchSystem}
        → Follows web options p₀ past₀ s₀ p past s
        → IsStopped p × Lingers past₀ s₀ past s
    rest_of_run begin = (
      stopped,
      record {
        late = [];
        later = refl;
        no_batch = refl;
        no_count = refl;
        no_skip = refl;
        kept = λ k x e. (x, e);
      },
    )
    rest_of_run (answer l o req) =
        let (still, h) = rest_of_run l in
        (
          still,
          record {
            late = req ∷ h.late;
            later = ap (λ past. req ∷ past) h.later;
            no_batch = h.no_batch;
            no_count = h.no_count;
            no_skip = h.no_skip;
            kept = h.kept;
          },
        )
    rest_of_run (write {p} {past} {s} l o before u after e) =
        let (still, h) = rest_of_run l in
        let (count, skip) = update-counts u s.scheduler.table in
        (
          still,
          record {
            late = h.late;
            later = h.later;
            no_batch = h.no_batch;
            no_count = count ∙ h.no_count;
            no_skip = skip ∙ h.no_skip;
            kept = λ k x found.
                let (y, there) = h.kept k x found in update-keeps u s.scheduler.table k y there;
          },
        )
    rest_of_run (tick {p} l on order perm) = absurd (no_tick p on (rest_of_run l).0)
    rest_of_run (pass {p} l) = let (still, h) = rest_of_run l in (next_phase-IsStopped p still, h)

  -- From the very state in which the scheduler takes the stop signal on, whatever the order in which
  -- requests are handled, started goroutines run and main goes on, the scheduler stays stopped: no
  -- batch is handed to sendBatch, neither counter moves any more, and every address that the batch
  -- table held when the signal was taken stays in it until main returns.
  pub Follows-Lingers :
      {stop_past : List Request} {stop : BatchSystem} {p : Phase} {past : List Request}
      {s : BatchSystem}
      → Follows web options (next_phase signalling) stop_past stop p past s
      → IsStopped p × Lingers stop_past stop past s
  unfolding next_phase
  Follows-Lingers l = rest_of_run tt l

  -- An authorised request adds its update to the started ones.
  pub answer_update :
      {p : Phase} {past : List Request} {s : BatchSystem}
      → Live web options p past s
      → IsOpen p
      → (req : Request) (u : Update) → Authorised web options.batch.routers req u
      → Live web options p (req ∷ past) (record s { started = u ∷ s.started })
  answer_update {p} {past} {s} l o req u a =
      subst (λ new. Live web options p (req ∷ past) (record s { started = new ++ s.started }))
        (started_by-endpoint web options req u a) (answer l o req)

  -- From any state in which main sends the stop signal, an authorised request can still be handled
  -- and its update written before main returns, so that the table ends with its assignment, and no
  -- batch is sent.
  pub Live-lost :
      {past : List Request} {s : BatchSystem} (req : Request) (u : Update)
      → Live web options signalling past s
      → Authorised web options.batch.routers req u
      → (t : BatchSystem) × Live web options returned (req ∷ past) t
        × (lookup (mac_string u.host_addr) t.scheduler.table.entry
            ≡ some (assignment web.ip.ip_string u))
        × (t.scheduler.dispatched ≡ s.scheduler.dispatched)
        × (t.started ≡ s.started)
  unfolding next_phase
  Live-lost {past} {s} req u l a = (
    update_written web options [] u s.started s,
    pass (pass (write (answer_update (pass l) tt req u a) tt [] u s.started refl)),
    lookup-update_last web options u s.scheduler.table,
    refl,
    refl,
  )
