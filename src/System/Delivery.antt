-- ===== src/System/Delivery.antt =====
-- What becomes of the updates that requests have started, over the whole of the batch mode
-- (proxybatcher/batch_mode.go and proxybatcher/batch_scheduler.go).
use mathlib.Core.Path.{subst}
use mathlib.Core.List.{Permᴰ}
use dhcp_batcher.Common.{
  Bytes, str_eq, str_eq_iff, some, List, [], ◌∷◌, ◌++◌, ◌≡◌, ◌⊎◌, inl, inr, refl, sym, ap, arith,
  map, Bool-cases,
}
use dhcp_batcher.GoMap.{lookup}
use dhcp_batcher.Options.{ProgramConfig}
use dhcp_batcher.Endpoint.{Request, Web, Update}
use dhcp_batcher.Net.Mac.{mac_string}
use dhcp_batcher.Batch.{Assignment, Scheduler, init_table, update_batch_table, batch_cycle}
use dhcp_batcher.Batch.Table.{assignment, update_batch_table-IsTable, lookup-update_batch_table}
use dhcp_batcher.Batch.Outbox.{
  Outbox, contents, view, OutboxStep, flushed, idle, ticked, IsSound, Step-OutboxStep,
}
use dhcp_batcher.Batch.Run.{Event, update, tick, Run, start, updates, ticks, AnyHolds, IsFresh}
use dhcp_batcher.Batch.Delivery.{Run-Delivers}
use dhcp_batcher.System.{BatchSystem, boot_scheduler, accepted, Reach}
use dhcp_batcher.System.Sources.{applied, history, Reach-Run}

abbrev pub IsTickless : List Event → Type 0
IsTickless [] = Unit
IsTickless (update u ∷ events) = IsTickless events
IsTickless (tick ∷ events) = ⊥

-- Among later events, the last one first, an update of the address was written before any tick.
abbrev pub IsReplaced : Bytes → List Event → Type 0
IsReplaced k later =
    (after : List Event) × (v : Update) × (before : List Event) × (later
      ≡ after ++ update v ∷ before)
    × IsTickless before
    × (mac_string v.host_addr ≡ k)

-- What has become of an assignment under an address after later events: it was replaced before a
-- tick, there was no tick and it is in the table, or it was handed to sendBatch.
abbrev pub Fate : Bytes → Assignment → List Event → Scheduler → Type 0
Fate k x later t =
    IsReplaced k later
    ⊎ (IsTickless later × (lookup k t.table.entry ≡ some x))
    ⊎ AnyHolds k x (map contents t.dispatched)

module _ (ip_string : Bytes → Bytes) (k : Bytes) (x : Assignment) where
  update-Fate :
      (later : List Event) (t : Scheduler) (v : Update)
      → Fate k x later t
      → Fate k x (update v ∷ later) (record t { table = update_batch_table ip_string v t.table })
  update-Fate later t v (inl (after, w, before, split, free, same)) =
      inl (update v ∷ after, w, before, ap (λ l. update v ∷ l) split, free, same)
  update-Fate later t v (inr (inl (free, e))) =
      let found = lookup-update_batch_table ip_string v t.table k in
      elim (Bool-cases (str_eq (mac_string v.host_addr) k)) [
        | inl same ↦ inl ([], v, later, refl, free, (str_eq_iff (mac_string v.host_addr) k).0 same)
        | inr differ ↦ inr (inl (free, ground (arith, found, e, differ)))
      ]
  update-Fate later t v (inr (inr sent)) = inr (inr sent)

  tick-Fate :
      (later : List Event) (t t' : Scheduler)
      → OutboxStep ip_string (view t) (view t') tick
      → Fate k x later t
      → Fate k x (tick ∷ later) t'
  tick-Fate later t t' step (inl (after, w, before, split, free, same)) =
      inl (tick ∷ after, w, before, ap (λ l. tick ∷ l) split, free, same)
  tick-Fate later t t' (flushed j y waits e) (inr (inl (free, found))) =
      inr (inr (subst (AnyHolds k x) (sym (ap (λ (o : Outbox). o.sent) e)) (inl found)))
  tick-Fate later t t' (idle nothing e) (inr (inl (free, found))) =
      let none_there = nothing k in absurd (ground arith)
  tick-Fate later t t' (flushed j y waits e) (inr (inr sent)) =
      inr (inr (subst (AnyHolds k x) (sym (ap (λ (o : Outbox). o.sent) e)) (inr sent)))
  tick-Fate later t t' (idle nothing e) (inr (inr sent)) =
      inr (inr (subst (AnyHolds k x) (sym (ap (λ (o : Outbox). o.sent) e)) sent))

  Run-Fate :
      {s t : Scheduler} {later : List Event}
      → Run ip_string s later t
      → IsSound s
      → lookup k s.table.entry ≡ some x
      → IsSound t × Fate k x later t
  Run-Fate start sound e = (sound, inr (inl (tt, e)))
  Run-Fate (updates {events} {t} ran v) sound e =
      let (ok, fate) = Run-Fate ran sound e in
      (update_batch_table-IsTable ip_string v t.table ok, update-Fate events t v fate)
  Run-Fate (ticks {events} {t} ran order p) sound e =
      let (ok, fate) = Run-Fate ran sound e in
      let (step, still) = Step-OutboxStep {ip_string = ip_string} (ticked order p refl) ok in
      (still, tick-Fate events t (batch_cycle order t) step fate)

-- A run through an update, and what follows it.
split-Run :
    {ip_string : Bytes → Bytes} {s : Scheduler} (later : List Event) (u : Update)
    (earlier : List Event) {t : Scheduler}
    → Run ip_string s (later ++ update u ∷ earlier) t
    → (m : Scheduler) × Run ip_string s earlier m
      × Run ip_string (record m { table = update_batch_table ip_string u m.table }) later t
split-Run [] u earlier (updates {t} ran _) = (t, ran, start)
split-Run (update v ∷ later) u earlier (updates ran _) =
    let (m, before, after) = split-Run later u earlier ran in (m, before, updates after v)
split-Run (tick ∷ later) u earlier (ticks ran order p) =
    let (m, before, after) = split-Run later u earlier ran in (m, before, ticks after order p)

module _ (web : Web) (options : ProgramConfig) where
  boot_scheduler-IsFresh : IsFresh (boot_scheduler options)
  unfolding init_table
  boot_scheduler-IsFresh = record { no_entry = refl; no_batch = refl; no_id = refl; no_skip = refl }

  updated-Fate :
      {t : Scheduler} (later : List Event) (u : Update) (earlier : List Event)
      → Run web.ip.ip_string (boot_scheduler options) (later ++ update u ∷ earlier) t
      → Fate (mac_string u.host_addr) (assignment web.ip.ip_string u) later t
  updated-Fate later u earlier ran =
      let (m, before, after) = split-Run later u earlier ran in
      let ip_string = web.ip.ip_string in
      let k = mac_string u.host_addr in
      let ok = (Run-Delivers ip_string boot_scheduler-IsFresh before).sound in
      let found = lookup-update_batch_table ip_string u m.table k in
      (Run-Fate ip_string k (assignment ip_string u) after
        (update_batch_table-IsTable ip_string u m.table ok)
        (ground (arith, found, str_eq_iff k k))).1

  -- Whatever the order in which requests are handled, started goroutines run and the scheduler
  -- ticks, the updates that requests have started are, up to their order, those written to the table
  -- and those whose goroutines have not run yet; and of every update that was written its own
  -- assignment is still in the table, if there was no tick since, or was handed to sendBatch in a
  -- batch, unless another update of the same hardware address was written after it and before the
  -- next tick.
  pub Reach-Fate :
      {past : List Request} {s : BatchSystem} (r : Reach web options past s) (later : List Event)
      (u : Update) (earlier : List Event)
      → history web options r ≡ later ++ update u ∷ earlier
      → Permᴰ (accepted web options past) (applied (history web options r) ++ s.started)
        × Fate (mac_string u.host_addr) (assignment web.ip.ip_string u) later s.scheduler
  Reach-Fate {s} r later u earlier split =
      let (ran, p) = Reach-Run web options r in
      let ip_string = web.ip.ip_string in
      (
        p,
        updated-Fate later u earlier
            (subst (λ l. Run ip_string (boot_scheduler options) l s.scheduler) split ran),
      )
