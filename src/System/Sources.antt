-- ===== src/System/Sources.antt =====
-- Where the assignments that reach Sonar come from, over the whole of the batch mode
-- (proxybatcher/batch_mode.go and proxybatcher/batch_scheduler.go).
use mathlib.Core.Path.{subst}
use mathlib.Core.List.{Permᴰ}
use mathlib.Core.List.Permᴰ
use dhcp_batcher.Common.{
  ltb, length, Bytes, Option, none, some, List, [], ◌∷◌, ◌++◌, ◌≡◌, ◌⊎◌, inl, inr, refl, sym, All,
  All-append, Bool-cases,
}
use dhcp_batcher.GoMap.{values}
use dhcp_batcher.GoMap.Range.{perm-All}
use dhcp_batcher.GoMap.Laws.{insert-All}
use dhcp_batcher.Options.{ProgramConfig}
use dhcp_batcher.Endpoint.{Request, Web, Update, Outcome, panicked, finished, endpoint}
use dhcp_batcher.Endpoint.Auth.{Authorised, endpoint-update_iff}
use dhcp_batcher.Net.Mac.{mac_string}
use dhcp_batcher.Batch.{Assignment, Scheduler, init_table, update_batch_table, batch_cycle}
use dhcp_batcher.Batch.Table.{assignment}
use dhcp_batcher.Batch.Cycle.{drain-values}
use dhcp_batcher.Batch.Run.{Event, update, tick, Run, start, updates, ticks}
use dhcp_batcher.System.{
  BatchSystem, started_by, boot_scheduler, accepted, Reach, boot, handle, run, cycle,
}

-- The updates among the events of a run of the table.
unfoldable pub applied : List Event → List Update
applied [] = []
applied (tick ∷ events) = applied events
applied (update u ∷ events) = u ∷ applied events

module _ {ℓ κ} {A : Type ℓ} (P : A → Type κ) where
  pub All-left : (xs ys : List A) → All P (xs ++ ys) → All P xs
  All-left [] ys h = tt
  All-left (x ∷ xs) ys (here, later) = (here, All-left xs ys later)

-- The order of two groups does not matter.
regroup {ℓ} : {A : Type ℓ} (xs ys zs : List A) → Permᴰ (xs ++ (ys ++ zs)) (ys ++ (xs ++ zs))
regroup [] ys zs = Permᴰ.refl (ys ++ zs)
regroup (x ∷ xs) ys zs =
    Permᴰ.trans (Permᴰ.cons refl (regroup xs ys zs)) (Permᴰ.symm (Permᴰ.middle x ys (xs ++ zs)))

-- A property of the assignments of all updates of a run holds in the table and in the batches.
module _ (ip_string : Bytes → Bytes) (P : Assignment → Type 0) where
  values-All : (m : List (Bytes × Assignment)) → All (λ e. P e.1) m → All P (values m)
  values-All [] h = tt
  values-All ((k, v) ∷ m) (here, later) = (here, values-All m later)

  abbrev Holds : Scheduler → Type 0
  Holds s = All (λ e. P e.1) s.table.entry × All (All P) s.dispatched

  update-Holds :
      (u : Update) (s : Scheduler)
      → P (assignment ip_string u)
      → Holds s
      → Holds (record s { table = update_batch_table ip_string u s.table })
  unfolding update_batch_table
  update-Holds u s p (entries, sent) =
      (insert-All P (mac_string u.host_addr) (assignment ip_string u) s.table.entry p entries, sent)

  tick-Holds :
      (order : List (Bytes × Assignment)) (s : Scheduler)
      → Permᴰ s.table.entry order
      → Holds s
      → Holds (batch_cycle order s)
  unfolding batch_cycle
  tick-Holds order s p (entries, sent) = elim (Bool-cases (ltb 0 (length s.table.entry))) [
    | inl e ↦ rw e (
      tt,
      (
        subst (All P) (sym (drain-values order [] s.table.entry))
            (values-All order (perm-All (λ e. P e.1) p entries)),
        sent,
      ),
    )
    | inr e ↦ rw e (entries, sent)
  ]

  Run-Holds :
      {s t : Scheduler} {events : List Event}
      → Run ip_string s events t
      → Holds s
      → All (λ u. P (assignment ip_string u)) (applied events)
      → Holds t
  unfolding applied
  Run-Holds start h us = h
  Run-Holds (updates {t} r u) h (here, later) = update-Holds u t here (Run-Holds r h later)
  Run-Holds (ticks {t} r order p) h us = tick-Holds order t p (Run-Holds r h us)

module _ (web : Web) (options : ProgramConfig) where
  -- An assignment that a request of the past stands for, which was authorised as Endpoint/Auth says:
  -- an address of no configured router needs blank credentials.
  abbrev pub IsReported : List Request → Assignment → Type 0
  IsReported [] x = ⊥
  IsReported (req ∷ past) x =
      ((u : Update) × Authorised web options.batch.routers req u
        × (x ≡ assignment web.ip.ip_string u))
      ⊎ IsReported past x

  -- What was written to the table and when the scheduler ticked on the way to a state, the last event
  -- first.
  unfoldable pub history :
      {past : List Request} {s : BatchSystem} → Reach web options past s → List Event
  history boot = []
  history (handle r req) = history r
  history (run r before u after e) = update u ∷ history r
  history (cycle r order p) = tick ∷ history r

  -- In any interleaving of requests, goroutines and ticks the scheduler has been through the run of
  -- the history, and the updates of the history together with the goroutines that have not run yet
  -- are, up to their order, those that the requests started.
  pub Reach-Run :
      {past : List Request} {s : BatchSystem} (r : Reach web options past s)
      → Run web.ip.ip_string (boot_scheduler options) (history r) s.scheduler
        × Permᴰ (accepted web options past) (applied (history r) ++ s.started)
  unfolding accepted applied history
  Reach-Run boot = (start, Permᴰ.nil)
  Reach-Run (handle {past} {s} r req) =
      let (ran, p) = Reach-Run r in
      let new = started_by (endpoint web options.batch.routers req) in
      (ran, Permᴰ.trans (Permᴰ.append_left new p) (regroup new (applied (history r)) s.started))
  Reach-Run (run {past} {s} r before u after e) =
      let (ran, p) = Reach-Run r in
      (
        updates ran u,
        Permᴰ.trans (subst (λ l. Permᴰ (accepted web options past) (applied (history r) ++ l)) e p)
            (Permᴰ.trans (Permᴰ.append_left (applied (history r)) (Permᴰ.middle u before after))
              (Permᴰ.middle u (applied (history r)) (before ++ after))),
      )
  Reach-Run (cycle {past} {s} r order p) = let (ran, q) = Reach-Run r in (ticks ran order p, q)

  -- What a handler starts stands for an authorised request.
  update-All :
      {P : Update → Type 0} (o : Option Update)
      → ((u : Update) → o ≡ some u → P u)
      → All P (elim o [ none ↦ [] | some u ↦ u ∷ [] ])
  update-All none f = tt
  update-All (some u) f = (f u refl, tt)

  started-All :
      (req : Request) (past : List Request) (o : Outcome)
      → endpoint web options.batch.routers req ≡ o
      → All (λ u. IsReported (req ∷ past) (assignment web.ip.ip_string u)) (started_by o)
  started-All req past panicked e = tt
  started-All req past (finished r) e =
      update-All r.update
        (λ u h. inl (u, ((endpoint-update_iff web options.batch.routers req u r).0 (e, h)).0, refl))

  later-All :
      (req : Request) (past : List Request) (us : List Update)
      → All (λ u. IsReported past (assignment web.ip.ip_string u)) us
      → All (λ u. IsReported (req ∷ past) (assignment web.ip.ip_string u)) us
  later-All req past [] h = tt
  later-All req past (u ∷ us) (here, later) = (inr here, later-All req past us later)

  pub accepted-All :
      (past : List Request)
      → All (λ u. IsReported past (assignment web.ip.ip_string u)) (accepted web options past)
  unfolding accepted
  accepted-All [] = tt
  accepted-All (req ∷ past) =
      All-append (λ u. IsReported (req ∷ past) (assignment web.ip.ip_string u))
        (started_by (endpoint web options.batch.routers req)) (accepted web options past)
        (started-All req past (endpoint web options.batch.routers req) refl)
        (later-All req past (accepted web options past) (accepted-All past))

  -- Whatever the order in which requests are handled, started goroutines run and the scheduler
  -- ticks, every assignment in the batch table and in every batch handed to sendBatch stands for a
  -- request that was handled before, with an acceptable lease and the credentials that the endpoint
  -- asks of the request's address: those of the first configured router with that address, and blank
  -- ones for an address of no configured router, whose updates are written all the same.
  pub Reach-IsReported :
      {past : List Request} {s : BatchSystem}
      → Reach web options past s
      → All (λ e. IsReported past e.1) s.scheduler.table.entry
        × All (All (IsReported past)) s.scheduler.dispatched
  unfolding init_table
  Reach-IsReported {past} {s} r =
      let (ran, p) = Reach-Run r in
      Run-Holds web.ip.ip_string (IsReported past) ran (tt, tt)
        (All-left (λ u. IsReported past (assignment web.ip.ip_string u)) (applied (history r))
          s.started
          (perm-All (λ u. IsReported past (assignment web.ip.ip_string u)) p (accepted-All past)))
