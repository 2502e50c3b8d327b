-- ===== src/Lease/Loop.antt =====
-- proxybatcher/proxy_lease.go, the loop of trim: what it receives, what becomes of a lease while it
-- runs, and how it ends.
use dhcp_batcher.Common.{
  ℕ, zero, suc, ◌-◌, ◌*◌, ◌^◌, ◌<◌, Bytes, bytes, str_eq, false, some, List, [], ◌∷◌, ◌≡◌, refl, ap,
  ◌∙◌, leb, if◌then◌else◌,
}
use dhcp_batcher.GoMap.{lookup, insert}
use dhcp_batcher.GoMap.Laws.{lookup-insert}
use dhcp_batcher.Lease.{Lease, LeaseTable, trim}
use dhcp_batcher.Lease.Trim.{rounds, lookup-trim, lookup-rounds}

-- What happens to the table while the loop runs: the stop signal, a tick of ten seconds, or the write of
-- a lease by addLease.
pub data TimerSignal : Type 0 where
  stop : TimerSignal
  due : TimerSignal
  granted : Bytes → Lease → TimerSignal

-- The loop runs, or it has returned.
pub data TimerState : Type 0 where
  timing : LeaseTable → TimerState
  exited : LeaseTable → TimerState

-- The loop over `select`.
unfoldable pub trim_loop : List TimerSignal → LeaseTable → TimerState
trim_loop [] table = timing table
trim_loop (stop ∷ signals) table = exited table
trim_loop (due ∷ signals) table = trim_loop signals (trim table)
trim_loop (granted k v ∷ signals) table = trim_loop signals (insert k v table)

-- There is no stop among the signals, and none of them writes under the key.
abbrev pub IsUnrenewed : Bytes → List TimerSignal → Type 0
IsUnrenewed k [] = Unit
IsUnrenewed k (stop ∷ signals) = ⊥
IsUnrenewed k (due ∷ signals) = IsUnrenewed k signals
IsUnrenewed k (granted j v ∷ signals) = (str_eq j k ≡ false) × IsUnrenewed k signals

-- How many ticks there are.
abbrev pub ticks : List TimerSignal → ℕ
ticks [] = 0
ticks (stop ∷ signals) = ticks signals
ticks (due ∷ signals) = suc (ticks signals)
ticks (granted k v ∷ signals) = ticks signals

module _ (k : Bytes) where
  -- Two tables have the same under the key; the key's part of a round depends on no other.
  rounds-lookup :
      (n : ℕ) (a b : LeaseTable)
      → lookup k a ≡ lookup k b
      → lookup k (rounds n a) ≡ lookup k (rounds n b)
  unfolding rounds
  rounds-lookup zero a b e = e
  rounds-lookup (suc n) a b e =
      simp (lookup-trim k (rounds n a), lookup-trim k (rounds n b), rounds-lookup n a b e)

  rounds-trim : (n : ℕ) (a : LeaseTable) → rounds n (trim a) ≡ rounds (suc n) a
  unfolding rounds
  rounds-trim zero a = refl
  rounds-trim (suc n) a = ap trim (rounds-trim n a)

  -- Other leases do not matter to the lease of a key.
  pub trim_loop-lookup :
      (signals : List TimerSignal) (table : LeaseTable)
      → IsUnrenewed k signals
      → (t : LeaseTable) × (trim_loop signals table ≡ timing t)
        × (lookup k t ≡ lookup k (rounds (ticks signals) table))
  unfolding trim_loop rounds
  trim_loop-lookup [] table h = (table, refl, refl)
  trim_loop-lookup (stop ∷ signals) table h = absurd h
  trim_loop-lookup (due ∷ signals) table h =
      let (t, e, same) = trim_loop-lookup signals (trim table) h in
      (t, e, same ∙ ap (lookup k) (rounds-trim (ticks signals) table))
  trim_loop-lookup (granted j v ∷ signals) table (other, h) =
      let (t, e, same) = trim_loop-lookup signals (insert j v table) h in
      (
        t,
        e,
        same
            ∙ rounds-lookup (ticks signals) (insert j v table) table
                (rw (lookup-insert j k v table, other) refl),
      )

  -- An unexpired lease whose time is a 32-bit number is still in the table after any ticks of the
  -- loop of trim and any writes of other leases, without a stop: with ten seconds less for each
  -- tick while that many are left, and from then on expired with no time.
  pub trim_loop-expires :
      (signals : List TimerSignal) (v : Lease) (table : LeaseTable)
      → lookup k table ≡ some v
      → v.is_expired ≡ bytes "0"
      → v.lease_time < 2 ^ 32
      → IsUnrenewed k signals
      → (t : LeaseTable) × (trim_loop signals table ≡ timing t)
        × (lookup k t
            ≡ some (
                if leb (10 * ticks signals) v.lease_time
                then record v {
                  lease_time = v.lease_time - 10 * ticks signals;
                  is_expired = bytes "0";
                }
                else record v { lease_time = 0; is_expired = bytes "1" }))
  trim_loop-expires signals v table found live small h =
      let (t, e, same) = trim_loop-lookup signals table h in
      (t, e, same ∙ lookup-rounds (ticks signals) k v table found live small)
