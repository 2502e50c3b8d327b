-- ===== src/Tests/System.antt =====
-- Tests of the batch mode as a whole: one router reports two leases of one customer.
use dhcp_batcher.Common.{
  ◌<◌, pos_part, ap, ◌++◌, ◌⊎◌, Bytes, bytes, str_eq, is_empty, some, List, [], ◌∷◌, ◌++◌, ◌≡◌,
  refl, All,
}
use mathlib.Core.List.{Permᴰ}
use mathlib.Core.List.Permᴰ
use dhcp_batcher.GoMap.{lookup, insert}
use dhcp_batcher.Net.Mac.{
  parse_mac, mac_string, hex_digit, hex_byte, hex_value, octets, is_mac_size, parse_octets,
}
use dhcp_batcher.Options.{ProgramConfig}
use dhcp_batcher.Strings.{atoi, to_lower, is_ascii, lower_byte, digits_value, parse_digits, negate}
use dhcp_batcher.Endpoint.{
  Request, Update, finished, find_router, first_value, read_get, read_lease, check_lease,
  assignments, endpoint,
}
use dhcp_batcher.Endpoint.Auth.{Authorised, updated, endpoint-update_iff}
use dhcp_batcher.Batch.{Assignment, Scheduler, init_table, update_batch_table, batch_cycle}
use dhcp_batcher.Batch.Table.{assignment}
use dhcp_batcher.Batch.Run.{tick}
use dhcp_batcher.Batch.Loop.{
  Signal, stop, written, due, crashed, run_batch_scheduler, Ends, run_batch_scheduler-cases,
}
use dhcp_batcher.System.{
  BatchSystem, boot_scheduler, started_by, accepted, Reach, boot, handle, run, cycle,
}
use dhcp_batcher.System.Sources.{IsReported, applied, history, Reach-IsReported}
use dhcp_batcher.System.Delivery.{Fate, Reach-Fate}
use dhcp_batcher.System.Stale.{handle_update, Reach-stale}
use dhcp_batcher.System.Ending.{
  signalling, closing_redirect, returned, IsStopped, Follows, Live, begin, write, pass, next_phase,
  update_written,
}
use dhcp_batcher.System.Stop.{Lingers, answer_update, Follows-Lingers, Live-lost}
use dhcp_batcher.Tests.Endpoint.{
  web, routers, router_text, router_ip, request, good_request, change, good_run,
}
use dhcp_batcher.Tests.Options.{batch_options}

abbrev options : ProgramConfig
options = record batch_options { batch = record batch_options.batch { routers = routers } }

abbrev moved_request : Request
moved_request = request router_text (some (bytes "edge", bytes "pass"))

abbrev moved : Update
moved = record change { host_ip = router_ip }

moved_run : endpoint web routers moved_request ≡ finished (updated web routers moved_request moved)
unfolding endpoint str_eq bytes assignments find_router read_lease to_lower read_get first_value
    lookup check_lease is_empty parse_mac parse_octets is_mac_size octets hex_byte hex_value atoi
    digits_value is_ascii lower_byte negate parse_digits mac_string hex_digit
moved_run = refl

good-Authorised : Authorised web routers good_request change
good-Authorised =
    ((endpoint-update_iff web routers good_request change
        (updated web routers good_request change)).0
      (good_run, refl)).0

moved-Authorised : Authorised web routers moved_request moved
moved-Authorised =
    ((endpoint-update_iff web routers moved_request moved
        (updated web routers moved_request moved)).0
      (moved_run, refl)).0

-- The update of the first request has run, and the scheduler has ticked.
abbrev stored : Scheduler
stored = record (boot_scheduler options) {
  table = update_batch_table web.ip.ip_string change (init_table options);
}

abbrev entries : List (Bytes × Assignment)
entries = (mac_string change.host_addr, assignment web.ip.ip_string change) ∷ []

abbrev sent : BatchSystem
sent = record { scheduler = batch_cycle entries stored; started = moved ∷ [] }

stored_entries : Permᴰ stored.table.entry entries
unfolding update_batch_table init_table insert
stored_entries = Permᴰ.refl entries

sent-Reach : Reach web options (moved_request ∷ good_request ∷ []) sent
sent-Reach =
    cycle
      (run
        (handle_update web options
          (handle_update web options boot good_request change good-Authorised) moved_request moved
          moved-Authorised)
        (moved ∷ []) change [] refl)
      entries stored_entries

Reach-IsReported_example :
    All
      (λ e. IsReported web options (moved_request ∷ good_request ∷ []) e.1)
      sent.scheduler.table.entry
    × All
        (All (IsReported web options (moved_request ∷ good_request ∷ [])))
        sent.scheduler.dispatched
Reach-IsReported_example = Reach-IsReported web options sent-Reach

Reach-stale_example :
    (t : BatchSystem) × Reach web options (moved_request ∷ good_request ∷ []) t
    × (lookup (mac_string moved.host_addr) t.scheduler.table.entry
        ≡ some (assignment web.ip.ip_string change))
    × (t.started ≡ [])
    × (t.scheduler.dispatched ≡ [])
Reach-stale_example =
    Reach-stale web options good_request moved_request change moved boot good-Authorised
      moved-Authorised refl

abbrev reported : BatchSystem
reported = record { scheduler = batch_cycle entries stored; started = [] }

abbrev reported_run : Reach web options (good_request ∷ []) reported
reported_run =
    cycle (run (handle boot good_request) [] change [] (ap (λ o. started_by o ++ []) good_run))
      entries stored_entries

Reach-Fate_example :
    Permᴰ
      (accepted web options (good_request ∷ []))
      (applied (history web options reported_run) ++ [])
    × Fate
        (mac_string change.host_addr)
        (assignment web.ip.ip_string change)
        (tick ∷ [])
        reported.scheduler
unfolding history
Reach-Fate_example = Reach-Fate web options reported_run (tick ∷ []) change [] refl

abbrev signals : List Signal
signals = written change ∷ due [] entries ∷ stop ∷ written moved ∷ []

run_batch_scheduler-cases_example :
    ((pos_part (init_table options).cycle_time ≡ 0)
      × (run_batch_scheduler web.ip.ip_string options signals (boot_scheduler options) ≡ crashed))
    ⊎ ((0 < pos_part (init_table options).cycle_time)
        × Ends web.ip.ip_string options signals
            (boot_scheduler options)
            (run_batch_scheduler web.ip.ip_string options signals (boot_scheduler options)))
run_batch_scheduler-cases_example =
    run_batch_scheduler-cases web.ip.ip_string options signals (boot_scheduler options)

-- The first request is handled before the stop signal, and its update is written after it.
abbrev at_stop : BatchSystem
at_stop = record { scheduler = boot_scheduler options; started = change ∷ [] }

at_stop-Live : Live web options signalling (good_request ∷ []) at_stop
unfolding next_phase
at_stop-Live = pass (answer_update web options begin tt good_request change good-Authorised)

abbrev late : BatchSystem
late = update_written web options [] change [] at_stop

late-Follows :
    Follows web options
      (next_phase signalling)
      (good_request ∷ [])
      at_stop
      closing_redirect
      (good_request ∷ [])
      late
unfolding next_phase
late-Follows = write begin tt [] change [] refl

Follows-Lingers_example :
    IsStopped closing_redirect
    × Lingers web options (good_request ∷ []) at_stop (good_request ∷ []) late
Follows-Lingers_example = Follows-Lingers web options late-Follows

Live-lost_example :
    (t : BatchSystem) × Live web options returned (moved_request ∷ good_request ∷ []) t
    × (lookup (mac_string moved.host_addr) t.scheduler.table.entry
        ≡ some (assignment web.ip.ip_string moved))
    × (t.scheduler.dispatched ≡ [])
    × (t.started ≡ change ∷ [])
Live-lost_example = Live-lost web options moved_request moved at_stop-Live moved-Authorised
