-- ===== src/System/Stale.antt =====
-- The order of the goroutines that proxybatcher/batch_mode.go starts for its requests.
use mathlib.Core.Path.{subst}
use dhcp_batcher.Common.{some, List, [], ◌∷◌, ◌++◌, ◌≡◌, refl, ap}
use dhcp_batcher.GoMap.{lookup}
use dhcp_batcher.GoMap.Laws.{lookup-insert_self}
use dhcp_batcher.Options.{ProgramConfig}
use dhcp_batcher.Endpoint.{Request, Web, Update, endpoint}
use dhcp_batcher.Endpoint.Auth.{Authorised, updated, endpoint-update_iff}
use dhcp_batcher.Net.Mac.{mac_string}
use dhcp_batcher.Batch.{RecordTable, update_batch_table}
use dhcp_batcher.Batch.Table.{assignment}
use dhcp_batcher.System.{BatchSystem, started_by, Reach, handle, run}

module _ (web : Web) (options : ProgramConfig) where
  -- An authorised request starts its update.
  pub started_by-endpoint :
      (req : Request) (u : Update)
      → Authorised web options.batch.routers req u
      → started_by (endpoint web options.batch.routers req) ≡ u ∷ []
  started_by-endpoint req u a =
      ap started_by
        ((endpoint-update_iff web options.batch.routers req u
            (updated web options.batch.routers req u)).1
          (a, refl)).0

  -- An authorised request adds its update to the started ones.
  pub handle_update :
      {past : List Request} {s : BatchSystem}
      → Reach web options past s
      → (req : Request) (u : Update) → Authorised web options.batch.routers req u
      → Reach web options (req ∷ past) (record s { started = u ∷ s.started })
  handle_update {past} {s} r req u a =
      subst (λ new. Reach web options (req ∷ past) (record s { started = new ++ s.started }))
        (started_by-endpoint req u a) (handle r req)

  -- The last update of a table wins.
  pub lookup-update_last :
      (u : Update) (b : RecordTable)
      → lookup (mac_string u.host_addr) (update_batch_table web.ip.ip_string u b).entry
        ≡ some (assignment web.ip.ip_string u)
  unfolding update_batch_table
  lookup-update_last u b =
      lookup-insert_self (mac_string u.host_addr) (assignment web.ip.ip_string u) b.entry

  -- From any state two authorised requests for one hardware address can be handled one after the
  -- other, and the goroutines run, so that the table ends with the assignment of the first under
  -- that address, with nothing waiting that was not waiting before and no batch sent.
  pub Reach-stale :
      {past : List Request} {s : BatchSystem} (first second : Request) (u v : Update)
      → Reach web options past s
      → Authorised web options.batch.routers first u
      → Authorised web options.batch.routers second v
      → u.host_addr ≡ v.host_addr
      → (t : BatchSystem) × Reach web options (second ∷ first ∷ past) t
        × (lookup (mac_string v.host_addr) t.scheduler.table.entry
            ≡ some (assignment web.ip.ip_string u))
        × (t.started ≡ s.started)
        × (t.scheduler.dispatched ≡ s.scheduler.dispatched)
  Reach-stale {past} {s} first second u v r au av same = (
    record s {
      scheduler = record s.scheduler {
        table =
            update_batch_table web.ip.ip_string u
              (update_batch_table web.ip.ip_string v s.scheduler.table);
      };
      started = s.started;
    },
    run (run (handle_update (handle_update r first u au) second v av) [] v (u ∷ s.started) refl) []
        u s.started refl,
    subst
        (λ a.
          lookup (mac_string a)
            (update_batch_table web.ip.ip_string u
              (update_batch_table web.ip.ip_string v s.scheduler.table)).entry
          ≡ some (assignment web.ip.ip_string u))
        same (lookup-update_last u (update_batch_table web.ip.ip_string v s.scheduler.table)),
    refl,
    refl,
  )
