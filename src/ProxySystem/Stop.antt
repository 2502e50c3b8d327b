-- ===== src/ProxySystem/Stop.antt =====
-- What stands still at the end of the proxy mode of proxybatcher/proxy_handler.go, once one of the loops
-- of proxybatcher/batch_scheduler.go and proxybatcher/proxy_lease.go has taken the stop signal.
use mathlib.Core.Path.{subst}
use dhcp_batcher.Common.{ℕ, Bytes, bytes, some, List, ◌≡◌, inl, inr, refl, arith}
use dhcp_batcher.GoMap.{lookup, insert}
use dhcp_batcher.GoMap.Laws.{lookup-insert}
use dhcp_batcher.Dhcp.{Dhcp}
use dhcp_batcher.Net.{IpText}
use dhcp_batcher.Net.Mac.{mac_string}
use dhcp_batcher.Options.{ProgramConfig}
use dhcp_batcher.Lease.{Lease, LeaseTable, trim}
use dhcp_batcher.Lease.Table.{flags_differ}
use dhcp_batcher.Proxy.{Handler}
use dhcp_batcher.Batch.{Assignment, RecordTable}
use dhcp_batcher.Server.{ServeIfConn, Datagram, Write, serve}
use dhcp_batcher.ProxySystem.{Network, ProxySystem, env, started}
use dhcp_batcher.ProxySystem.Grants.{serve_dhcp-leases, serve-Handled}
use dhcp_batcher.ProxySystem.Ending.{
  Receiver, scheduler, timer, ProxyPhase, returning, IsTiming, IsScheduling, ProxyFollows, begin,
  take, trimmed, tick, interrupt, stopped,
}

-- No lease of a table is marked as expired that was not so in another.
abbrev pub NoneExpires : LeaseTable → LeaseTable → Type 0
NoneExpires before after =
    (k : Bytes) (v : Lease)
    → lookup k after ≡ some v
    → v.is_expired ≡ bytes "1"
    → lookup k before ≡ some v

-- What stands still after a state once one of the loops has returned in it: the batches and their
-- counters, or the expiry of leases.
abbrev pub StandsStill : Receiver → ProxySystem → ProxySystem → Type 0
StandsStill scheduler stop s =
    (s.dispatched ≡ stop.dispatched)
    × (s.table.current_id ≡ stop.table.current_id)
    × (s.table.skipped_id ≡ stop.table.skipped_id)
StandsStill timer stop s = NoneExpires stop.handler.leases s.handler.leases

insert-NoneExpires :
    (k : Bytes) (a : Lease) (table : LeaseTable)
    → a.is_expired ≡ bytes "0"
    → NoneExpires table (insert k a table)
insert-NoneExpires k a table live j v found dead =
    ground (arith, lookup-insert k j a table, flags_differ)

begin-StandsStill : (r : Receiver) (s₀ : ProxySystem) → StandsStill r s₀ s₀
begin-StandsStill scheduler s₀ = (refl, refl, refl)
begin-StandsStill timer s₀ = λ k v found dead. found

taken-StandsStill :
    (r : Receiver) (s₀ s : ProxySystem) (h : Handler)
    → NoneExpires s.handler.leases h.leases
    → StandsStill r s₀ s
    → StandsStill r s₀ (record s { handler = h })
taken-StandsStill scheduler s₀ s h none still = still
taken-StandsStill timer s₀ s h none still = λ k v found dead. still k v (none k v found dead) dead

trimmed-StandsStill :
    (r : Receiver) (s₀ s : ProxySystem)
    → IsTiming (returning r)
    → StandsStill r s₀ s
    → StandsStill r s₀ (record s { handler = record s.handler { leases = trim s.handler.leases } })
trimmed-StandsStill scheduler s₀ s on still = still
trimmed-StandsStill timer s₀ s on still = absurd on

tick-StandsStill :
    (r : Receiver) (s₀ s : ProxySystem) (table : RecordTable) (dispatched : List (List Assignment))
    → IsScheduling (returning r)
    → StandsStill r s₀ s
    → StandsStill r s₀ (record s { table = table; dispatched = dispatched })
tick-StandsStill scheduler s₀ s table dispatched on still = absurd on
tick-StandsStill timer s₀ s table dispatched on still = still

module _ (d : Dhcp) (ip : IpText) (net : Network) (options : ProgramConfig) where
  open d use {Packet, view, parse_options}

  -- A datagram expires no lease.
  serve-NoneExpires :
      (conn : ServeIfConn) (now : ℕ) (beyond : Bytes) (servers : List Bytes)
      (order : List (ℕ × Bytes)) (g : Datagram d) (h : Handler) {h' : Handler} {ws : List (Write d)}
      → serve d conn (env d ip net options now beyond) servers order g h ≡ some (h', ws)
      → NoneExpires h.leases h'.leases
  serve-NoneExpires conn now beyond servers order g h {h'} e k v found dead =
      elim (serve-Handled d (env d ip net options now beyond) conn servers order g h e) [
        | inl same ↦ subst (λ x. lookup k x.leases ≡ some v) same found
        | inr r ↦
            elim (serve_dhcp-leases d (env d ip net options now beyond) r.order g.packet r.type
              (parse_options g.packet) h r.run) [
                | inl kept ↦ subst (λ x. lookup k x ≡ some v) kept found
                | inr grant ↦
                    insert-NoneExpires (mac_string (view g.packet).ch_addr) _ h.leases refl k v
                      (subst (λ x. lookup k x ≡ some v) grant.leases found) dead
              ]
      ]

  module _ (r : Receiver) {past₀ : List (Datagram d)} {s₀ : ProxySystem} where
    -- From the very state in which a loop takes the one stop signal of startDHCPProxy on, whatever
    -- the order of datagrams, rounds of the timer and ticks, the work of that loop stands still: if
    -- it is the scheduler, no batch is sent and no counter moves; if it is the timer, no lease
    -- becomes expired that was not so before.
    pub ProxyFollows-StandsStill :
        {p : ProxyPhase} {past : List (Datagram d)} {s : ProxySystem}
        → ProxyFollows d ip net options (returning r) past₀ s₀ p past s
        → (p ≡ returning r) × StandsStill r s₀ s
    ProxyFollows-StandsStill begin = (refl, begin-StandsStill r s₀)
    ProxyFollows-StandsStill (take {p} {past} {s} l conn of now beyond order g visited {h} e) =
        let (same, still) = ProxyFollows-StandsStill l in
        (
          same,
          taken-StandsStill r s₀ s h
              (serve-NoneExpires conn now beyond (started d ip net options).dhcp_servers order g
                s.handler e)
              still,
        )
    ProxyFollows-StandsStill (trimmed {p} {past} {s} l on) =
        let (same, still) = ProxyFollows-StandsStill l in
        (same, trimmed-StandsStill r s₀ s (subst IsTiming same on) still)
    ProxyFollows-StandsStill (tick {p} {past} {s} l on order visited) =
        let (same, still) = ProxyFollows-StandsStill l in
        (same, tick-StandsStill r s₀ s _ _ (subst IsScheduling same on) still)
    ProxyFollows-StandsStill (interrupt l) =
        let (same, _) = ProxyFollows-StandsStill l in absurd (ground arith)
    ProxyFollows-StandsStill (stopped l other) =
        let (same, _) = ProxyFollows-StandsStill l in absurd (ground arith)
