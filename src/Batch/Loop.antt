-- ===== src/Batch/Loop.antt =====
-- proxybatcher/batch_scheduler.go, the loop of RunBatchScheduler: what it receives, and how it ends.
use dhcp_batcher.Common.{
  zero, suc, ◌<◌, ℤ, pos, negsuc, pos_part, ltb_ℤ, Bytes, Bool, true, false, List, [], ◌∷◌, ◌++◌,
  ◌≡◌, ◌⊎◌, inl, inr, refl, ap, arith, if◌then◌else◌,
}
use dhcp_batcher.Options.{ProgramConfig}
use dhcp_batcher.Endpoint.{Update}
use dhcp_batcher.Lease.{Lease}
use dhcp_batcher.Batch.{Assignment, RecordTable, Scheduler, update_batch_table, cycle}

-- What happens to the scheduler while its loop runs: a value on the channel `ctl`, an update of the
-- table by another goroutine, or a tick, with the orders of the two loops over the tables.
pub data Signal : Type 0 where
  stop : Signal
  written : Update → Signal
  due : List (Bytes × Lease) → List (Bytes × Assignment) → Signal

-- The loop has panicked, still runs, or has returned.
pub data LoopState : Type 0 where
  crashed : LoopState
  running : Scheduler → LoopState
  exited : Scheduler → LoopState

-- time.NewTicker at the start of the function: it panics where the cycle time is not positive.
unfoldable pub run_batch_scheduler_starts : RecordTable → Bool
run_batch_scheduler_starts b = ltb_ℤ (pos 0) b.cycle_time

module _ (ip_string : Bytes → Bytes) (options : ProgramConfig) where
  -- The loop over `select`.
  unfoldable pub scheduler_loop : List Signal → Scheduler → LoopState
  scheduler_loop [] s = running s
  scheduler_loop (stop ∷ signals) s = exited s
  scheduler_loop (written u ∷ signals) s =
      scheduler_loop signals (record s { table = update_batch_table ip_string u s.table })
  scheduler_loop (due leases order ∷ signals) s =
      scheduler_loop signals (cycle options leases order s)

  unfoldable pub run_batch_scheduler : List Signal → Scheduler → LoopState
  run_batch_scheduler signals s =
      let ran = scheduler_loop signals s in
      if run_batch_scheduler_starts s.table then ran else crashed

  -- What one signal other than a stop makes of the state of the scheduler.
  pub data Effect (s : Scheduler) : Signal → Scheduler → Type 0 where
    write :
        (u : Update)
        → Effect s (written u) (record s { table = update_batch_table ip_string u s.table })
    tick :
        (leases : List (Bytes × Lease)) (order : List (Bytes × Assignment))
        → Effect s (due leases order) (cycle options leases order s)

  -- The same for some signals, one after the other. A stop has no effect that goes on.
  pub data Effects : Scheduler → List Signal → Scheduler → Type 0 where
    no_signal : {s : Scheduler} → Effects s [] s
    next :
        {signals : List Signal} {s t u : Scheduler} {x : Signal}
        → Effect s x t
        → Effects t signals u
        → Effects s (x ∷ signals) u

module _ (ip_string : Bytes → Bytes) (options : ProgramConfig) where
  -- How a run over signals ends: at its first stop, or it goes on.
  abbrev pub Ends : List Signal → Scheduler → LoopState → Type 0
  Ends signals s end =
      ((before : List Signal) × (after : List Signal) × (t : Scheduler) × (signals
          ≡ before ++ stop ∷ after)
        × Effects ip_string options s before t
        × (end ≡ exited t))
      ⊎ ((t : Scheduler) × Effects ip_string options s signals t × (end ≡ running t))

  more :
      {x : Signal} {signals : List Signal} {s t : Scheduler} {end : LoopState}
      → Effect ip_string options s x t
      → Ends signals t end
      → Ends (x ∷ signals) s end
  more {x} one (inl (before, after, u, split, rest, e)) =
      inl (x ∷ before, after, u, ap (λ l. x ∷ l) split, next one rest, e)
  more one (inr (u, rest, e)) = inr (u, next one rest, e)

  scheduler_loop-Ends :
      (signals : List Signal) (s : Scheduler)
      → Ends signals s (scheduler_loop ip_string options signals s)
  unfolding scheduler_loop
  scheduler_loop-Ends [] s = inr (s, no_signal, refl)
  scheduler_loop-Ends (stop ∷ signals) s = inl ([], signals, s, refl, no_signal, refl)
  scheduler_loop-Ends (written u ∷ signals) s =
      more (write u)
        (scheduler_loop-Ends signals (record s { table = update_batch_table ip_string u s.table }))
  scheduler_loop-Ends (due leases order ∷ signals) s =
      more (tick leases order) (scheduler_loop-Ends signals (cycle options leases order s))

  starts-cases :
      (b : RecordTable)
      → ((run_batch_scheduler_starts b ≡ false) × (pos_part b.cycle_time ≡ 0))
        ⊎ ((run_batch_scheduler_starts b ≡ true) × (0 < pos_part b.cycle_time))
  unfolding run_batch_scheduler_starts
  starts-cases b = by_sign b.cycle_time
    where
      by_sign :
          (c : ℤ)
          → ((ltb_ℤ (pos 0) c ≡ false) × (pos_part c ≡ 0))
            ⊎ ((ltb_ℤ (pos 0) c ≡ true) × (0 < pos_part c))
      by_sign (pos zero) = inl (refl, refl)
      by_sign (pos (suc n)) = inr (ground arith, omega arith)
      by_sign (negsuc n) = inl (ground arith, refl)

  -- For any sequence of updates, ticks and stop signals RunBatchScheduler panics at its ticker if
  -- the cycle time is not positive; if it is positive, it returns at the first stop signal in the
  -- state that the updates and ticks before it lead to, one after the other, or, where there is no
  -- stop signal, still runs in the state that all of them lead to.
  pub run_batch_scheduler-cases :
      (signals : List Signal) (s : Scheduler)
      → ((pos_part s.table.cycle_time ≡ 0)
          × (run_batch_scheduler ip_string options signals s ≡ crashed))
        ⊎ ((0 < pos_part s.table.cycle_time)
            × Ends signals s (run_batch_scheduler ip_string options signals s))
  unfolding run_batch_scheduler
  run_batch_scheduler-cases signals s = elim (starts-cases s.table) [
    | inl (bad, sign) ↦ inl (sign, rw (run_batch_scheduler, bad) refl)
    | inr (good, sign) ↦ inr (sign, rw (run_batch_scheduler, good) (scheduler_loop-Ends signals s))
  ]
