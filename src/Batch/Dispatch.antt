-- ===== src/Batch/Dispatch.antt =====
-- How often the scheduler of proxybatcher/batch_scheduler.go ticks: the cycle time of initTable.
use dhcp_batcher.Common.{ℕ, ◌*◌, ◌≤◌, ◌<◌, ◌↔◌, ◌≡◌, arith, pos, int64}
use dhcp_batcher.Options.{ProgramConfig}
use dhcp_batcher.Batch.{second, minutes, init_table}

-- The longest cycle whose length in nanoseconds is a 64-bit integer.
abbrev pub max_minutes : ℕ
max_minutes = 153722867

pub minutes-pos : (n : ℕ) → n ≤ max_minutes → minutes (pos n) ≡ pos (n * (60 * second))
unfolding minutes int64
minutes-pos n h = ground arith

minutes-exact : (n : ℕ) → minutes (pos n) ≡ pos (n * (60 * second)) → n ≤ max_minutes
unfolding minutes int64
minutes-exact n e = ground arith

-- For a positive cycle time the scheduler's cycle is exactly that number of minutes if and only if
-- it is at most 153722867, the most whose nanoseconds fit into 64 bits.
pub init_table-cycle_time_iff :
    (options : ProgramConfig) (n : ℕ)
    → options.batch.scheduler_cycle_time ≡ pos n
    → 0 < n
    → ((init_table options).cycle_time ≡ pos (n * (60 * second))) ↔ (n ≤ max_minutes)
unfolding init_table
init_table-cycle_time_iff options n e h = (
  λ same. minutes-exact n (ground (arith, e, h, same)),
  λ small. ground (arith, e, h, minutes-pos n small),
)
