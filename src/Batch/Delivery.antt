-- ===== src/Batch/Delivery.antt =====
-- What Sonar is sent over a whole run of the batch mode of proxybatcher/batch_scheduler.go.
use mathlib.Core.Path.{fun_ext, subst, ap₂}
use mathlib.Core.List.{Permᴰ}
use dhcp_batcher.Common.{
  suc, ◌<◌, Bytes, true, false, List, [], ◌∷◌, ◌≡◌, inl, inr, refl, sym, ap, ◌∙◌, arith, All,
  length, map,
}
use dhcp_batcher.GoMap.{lookup, insert, IsMap}
use dhcp_batcher.Endpoint.{Update}
use dhcp_batcher.Net.Mac.{mac_string}
use dhcp_batcher.Batch.{Assignment, RecordTable, Scheduler, update_batch_table, batch_cycle}
use dhcp_batcher.Batch.Table.{IsKeyed, IsTable, assignment, update_batch_table_lem}
use dhcp_batcher.Batch.Cycle.{batch_cycle_full, batch_cycle_empty}
use dhcp_batcher.Batch.Outbox.{keyed, contents, contents-values}
use dhcp_batcher.Batch.Run.{
  Event, update, tick, IsFresh, Run, start, updates, ticks, pending, is_busy, batches, tick_count,
  Delivers,
}

insert_pos :
    (k : Bytes) (x : Assignment) (m : List (Bytes × Assignment)) → 0 < length (insert k x m)
unfolding insert
insert_pos k x [] = omega arith
insert_pos k x ((j, w) ∷ m) = ground arith

module _ (ip_string : Bytes → Bytes) where
  fresh-Delivers : (s : Scheduler) → IsFresh s → Delivers ip_string [] s
  unfolding pending is_busy batches tick_count lookup
  fresh-Delivers s h = record {
    sound = record {
      keys = subst IsMap (sym h.no_entry) tt;
      keyed = subst (All IsKeyed) (sym h.no_entry) tt;
    };
    waiting = λ k. ap (lookup k) h.no_entry;
    busy = inr (refl, h.no_entry);
    sent = ap (map contents) h.no_batch;
    distinct = subst (All (λ t. IsMap (keyed t))) (sym h.no_batch) tt;
    batch_count = omega (arith, h.no_id);
    skip_count = omega (arith, h.no_skip);
    bounded = omega arith;
  }

  length-insert_pos :
      (u : Update) (b : RecordTable) → 0 < length (update_batch_table ip_string u b).entry
  unfolding update_batch_table
  length-insert_pos u b = insert_pos (mac_string u.host_addr) (assignment ip_string u) b.entry

  update-Delivers :
      (events : List Event) (s : Scheduler) (u : Update)
      → Delivers ip_string events s
      → Delivers ip_string
          (update u ∷ events)
          (record s { table = update_batch_table ip_string u s.table })
  unfolding pending is_busy batches tick_count
  update-Delivers events s u d =
      let (sound, found, same_id, same_skip) = update_batch_table_lem ip_string u s.table d.sound in
      record {
        sound = sound;
        waiting = λ k. ground (arith, found k, d.waiting k);
        busy = inl (refl, length-insert_pos u s.table);
        sent = d.sent;
        distinct = d.distinct;
        batch_count = same_id ∙ d.batch_count;
        skip_count = same_skip ∙ d.skip_count;
        bounded = d.bounded;
      }

  batches-update :
      (u : Update) (events : List Event)
      → batches ip_string (update u ∷ events) ≡ batches ip_string events
  unfolding batches
  batches-update u events = refl

  batches-busy :
      (events : List Event)
      → is_busy ip_string events ≡ true
      → batches ip_string (tick ∷ events) ≡ pending ip_string events ∷ batches ip_string events
  unfolding batches
  batches-busy events h = rw h refl

  batches-idle :
      (events : List Event)
      → is_busy ip_string events ≡ false
      → batches ip_string (tick ∷ events) ≡ batches ip_string events
  unfolding batches
  batches-idle events h = rw h refl

  tick_count-tick :
      (events : List Event)
      → tick_count ip_string (tick ∷ events) ≡ suc (tick_count ip_string events)
  unfolding tick_count
  tick_count-tick events = refl

  -- A tick leaves nothing pending.
  tick_waiting :
      (events : List Event) (t : Scheduler)
      → t.table.entry ≡ []
      → ((k : Bytes) → lookup k t.table.entry ≡ pending ip_string (tick ∷ events) k)
        × (is_busy ip_string (tick ∷ events) ≡ false)
  unfolding lookup pending is_busy
  tick_waiting events t h = (λ k. ap (lookup k) h, refl)

  empty-IsTable : (b : RecordTable) → b.entry ≡ [] → IsTable b
  empty-IsTable b e = record {
    keys = subst IsMap (sym e) tt;
    keyed = subst (All IsKeyed) (sym e) tt;
  }

  busy-Delivers :
      (events : List Event) (s : Scheduler) (order : List (Bytes × Assignment))
      → Permᴰ s.table.entry order
      → Delivers ip_string events s
      → is_busy ip_string events ≡ true
      → 0 < length s.table.entry
      → Delivers ip_string (tick ∷ events) (batch_cycle order s)
  busy-Delivers events s order p d is_so some_entry =
      let (sent, empty, one_more, same_skip, _) = batch_cycle_full order s some_entry in
      let (same, once) = contents-values s.table.entry order d.sound.keys d.sound.keyed p in
      let shape = batches-busy events is_so in
      let count = ap length shape in
      record {
        sound = empty-IsTable (batch_cycle order s).table empty;
        waiting = (tick_waiting events (batch_cycle order s) empty).0;
        busy = inr ((tick_waiting events (batch_cycle order s) empty).1, empty);
        sent =
            ap (map contents) sent
            ∙ (ap₂ (λ b bs. b ∷ bs) (same ∙ fun_ext d.waiting) d.sent ∙ sym shape);
        distinct = subst (All (λ t. IsMap (keyed t))) (sym sent) (once, d.distinct);
        batch_count = omega (arith, one_more, d.batch_count, count);
        skip_count =
            omega (arith, same_skip, d.skip_count, count, d.bounded, tick_count-tick events);
        bounded = omega (arith, count, d.bounded, tick_count-tick events);
      }

  idle-Delivers :
      (events : List Event) (s : Scheduler) (order : List (Bytes × Assignment))
      → Delivers ip_string events s
      → is_busy ip_string events ≡ false
      → s.table.entry ≡ []
      → Delivers ip_string (tick ∷ events) (batch_cycle order s)
  idle-Delivers events s order d is_so none_left =
      let same = batch_cycle_empty order s none_left in
      let shape = batches-idle events is_so in
      let count = ap length shape in
      let empty = ap (λ (t : Scheduler). t.table.entry) same ∙ none_left in
      let same_id = ap (λ (t : Scheduler). t.table.current_id) same in
      let one_more = ap (λ (t : Scheduler). t.table.skipped_id) same in
      let same_sent = ap (λ (t : Scheduler). t.dispatched) same in
      record {
        sound = empty-IsTable (batch_cycle order s).table empty;
        waiting = (tick_waiting events (batch_cycle order s) empty).0;
        busy = inr ((tick_waiting events (batch_cycle order s) empty).1, empty);
        sent = ap (map contents) same_sent ∙ (d.sent ∙ sym shape);
        distinct = subst (All (λ t. IsMap (keyed t))) (sym same_sent) d.distinct;
        batch_count = omega (arith, same_id, d.batch_count, count);
        skip_count =
            omega (arith, one_more, d.skip_count, count, d.bounded, tick_count-tick events);
        bounded = omega (arith, count, d.bounded, tick_count-tick events);
      }

  -- After any run of updates and ticks in batch mode from a fresh state, with any order of the
  -- loops, the table holds the last update of each address since the last tick, the batches are
  -- exactly what was pending at each tick after an update, each address once, and the two counters
  -- count the batches and the other ticks in 64 bits.
  pub Run-Delivers :
      {s t : Scheduler} {events : List Event}
      → IsFresh s
      → Run ip_string s events t
      → Delivers ip_string events t
  Run-Delivers {s} h start = fresh-Delivers s h
  Run-Delivers h (updates {events} {t} run u) = update-Delivers events t u (Run-Delivers h run)
  Run-Delivers h (ticks {events} {t} run order p) =
      let d = Run-Delivers h run in
      elim d.busy [
        | inl (is_so, some_entry) ↦ busy-Delivers events t order p d is_so some_entry
        | inr (is_so, none_left) ↦ idle-Delivers events t order d is_so none_left
      ]
