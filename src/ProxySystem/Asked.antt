-- ===== src/ProxySystem/Asked.antt =====
-- Where the leases of the proxy and the batches of its scheduler come from, over the whole of the proxy
-- mode.
use mathlib.Core.Path.{subst}
use mathlib.Core.List.{Permᴰ}
use dhcp_batcher.Common.{
  ℕ, Bytes, str_eq, str_eq_iff, Bool, true, false, Option, some, List, [], ◌∷◌, ◌≡◌, ◌⊎◌, inl, inr,
  refl, sym, ap, ◌∙◌, arith, All, All_weaken, map, get_or, ltb, length, Bool-cases,
}
use dhcp_batcher.GoMap.{lookup, values}
use dhcp_batcher.GoMap.Laws.{lookup-insert, insert-All}
use dhcp_batcher.Net.Mac.{mac_string}
use dhcp_batcher.Dhcp.{Dhcp}
use dhcp_batcher.Net.{IpText}
use dhcp_batcher.Options.{ProgramConfig}
use dhcp_batcher.Lease.{Lease, LeaseTable, option, trim, trim_lease, init}
use dhcp_batcher.Proxy.{MessageType, ack, Handler, is_known}
use dhcp_batcher.Proxy.Request.{begins}
use dhcp_batcher.Proxy.Trace.{serve_dhcp-m}
use dhcp_batcher.Proxy.Start.{start_dhcp_proxy}
use dhcp_batcher.Batch.{Assignment, proxy_cycle}
use dhcp_batcher.Batch.Cycle.{lease_assignment, collect-map}
use dhcp_batcher.Server.{Datagram, message_type, option_message_type}
use dhcp_batcher.GoMap.Range.{perm-All}
use dhcp_batcher.ProxySystem.{
  Network, ProxySystem, ProxyReach, boot_proxy, receive, age, send, env, started, scheduler_of,
}
use dhcp_batcher.ProxySystem.Grants.{serve_dhcp-leases, Handled, serve-Handled}

trim_lease-keeps : (v : Lease) → ((trim_lease v).mac ≡ v.mac) × ((trim_lease v).ip ≡ v.ip)
unfolding trim_lease
trim_lease-keeps v = ground arith

module _ (d : Dhcp) where
  open d use {Packet, view, parse_options}

  abbrev pub typed_as : Datagram d → Option MessageType
  typed_as g = message_type (option option_message_type (parse_options g.packet))

  -- A DISCOVER or a REQUEST among the datagrams began the transaction.
  abbrev pub IsBegun : Bytes → List (Datagram d) → Type 0
  IsBegun x [] = ⊥
  IsBegun x (g ∷ past) =
      ((t : MessageType) × (typed_as g ≡ some t) × (begins t ≡ true) × ((view g.packet).x_id ≡ x))
      ⊎ IsBegun x past

  -- An ACK among the datagrams assigned the address to the hardware address, in a transaction that
  -- had been begun before it.
  abbrev pub IsAcked : (Bytes → Bytes) → Bytes → Bytes → List (Datagram d) → Type 0
  IsAcked ip_string mac ip [] = ⊥
  IsAcked ip_string mac ip (g ∷ past) =
      ((typed_as g ≡ some ack)
        × (mac ≡ mac_string (view g.packet).ch_addr)
        × (ip ≡ ip_string (view g.packet).yi_addr)
        × IsBegun (view g.packet).x_id past)
      ⊎ IsAcked ip_string mac ip past

  module _ (ip : IpText) (net : Network) (options : ProgramConfig) where
    abbrev pub LeaseAcked : List (Datagram d) → Lease → Type 0
    LeaseAcked past v = IsAcked ip.ip_string v.mac v.ip past

    abbrev pub AssignmentAcked : List (Datagram d) → Assignment → Type 0
    AssignmentAcked past a = IsAcked ip.ip_string a.mac_address a.ip_address past

    -- The invariant: known transactions were begun, and leases and batches were acknowledged.
    pub record Explained (past : List (Datagram d)) (s : ProxySystem) : Type 0 where
      pub known : (x : Bytes) → get_or (lookup x s.handler.m) false ≡ true → IsBegun x past
      pub leases : All (λ e. LeaseAcked past e.1) s.handler.leases
      pub sent : All (All (AssignmentAcked past)) s.dispatched

    -- A datagram that is ignored keeps the invariant.
    ignored-Explained :
        (g : Datagram d) {past : List (Datagram d)} {s : ProxySystem}
        → Explained past s
        → Explained (g ∷ past) s
    ignored-Explained g {past} {s} h = record {
      known = λ x e. inr (h.known x e);
      leases =
          All_weaken (λ e. LeaseAcked past e.1) (λ e. LeaseAcked (g ∷ past) e.1) (λ e p. inr p)
            s.handler.leases h.leases;
      sent =
          All_weaken (All (AssignmentAcked past)) (All (AssignmentAcked (g ∷ past)))
            (λ batch p.
              All_weaken (AssignmentAcked past) (AssignmentAcked (g ∷ past)) (λ a q. inr q) batch p)
            s.dispatched h.sent;
    }

    Handled-known :
        (now : ℕ) (beyond : Bytes) (g : Datagram d) (past : List (Datagram d)) (h h' : Handler)
        → Handled d (env d ip net options now beyond) g h h'
        → ((x : Bytes) → get_or (lookup x h.m) false ≡ true → IsBegun x past)
        → (x : Bytes) → get_or (lookup x h'.m) false ≡ true
        → IsBegun x (g ∷ past)
    Handled-known now beyond g past h h' r known x e =
        let m =
          serve_dhcp-m d (env d ip net options now beyond) r.order g.packet r.type
            (parse_options g.packet) h r.run in
        let e1 = subst (λ (l : List (Bytes × Bool)). get_or (lookup x l) false ≡ true) m e in
        elim (Bool-cases (begins r.type)) [
          | inr idle ↦ inr (known x (rw idle at e1))
          | inl begun ↦
              let e2 = rw (begun, lookup-insert (view g.packet).x_id x true h.m) at e1 in
              elim (Bool-cases (str_eq (view g.packet).x_id x)) [
                | inl same ↦
                    inl (r.type, r.typed, begun, (str_eq_iff (view g.packet).x_id x).0 same)
                | inr other ↦ inr (known x (rw other at e2))
              ]
        ]

    Handled-leases :
        (now : ℕ) (beyond : Bytes) (g : Datagram d) {past : List (Datagram d)} {s : ProxySystem}
        (h' : Handler)
        → Handled d (env d ip net options now beyond) g s.handler h'
        → Explained past s
        → All (λ e. LeaseAcked (g ∷ past) e.1) h'.leases
    unfolding is_known
    Handled-leases now beyond g {past} {s} h' r h =
        let old = (ignored-Explained g h).leases in
        elim (serve_dhcp-leases d (env d ip net options now beyond) r.order g.packet r.type
          (parse_options g.packet) s.handler r.run) [
            | inl same ↦ subst (All (λ e. LeaseAcked (g ∷ past) e.1)) (sym same) old
            | inr grant ↦ subst (All (λ e. LeaseAcked (g ∷ past) e.1)) (sym grant.leases) (
                insert-All (LeaseAcked (g ∷ past)) _ _ s.handler.leases
                  (inl (
                    r.typed ∙ ap some grant.type,
                    refl,
                    refl,
                    h.known (view g.packet).x_id grant.known,
                  ))
                  old)
          ]

    Handled-Explained :
        (now : ℕ) (beyond : Bytes) (g : Datagram d) {past : List (Datagram d)} {s : ProxySystem}
        (h' : Handler)
        → Handled d (env d ip net options now beyond) g s.handler h'
        → Explained past s
        → Explained (g ∷ past) (record s { handler = h' })
    Handled-Explained now beyond g {past} {s} h' r h = record {
      known = Handled-known now beyond g past s.handler h' r h.known;
      leases = Handled-leases now beyond g h' r h;
      sent = (ignored-Explained g h).sent;
    }

    trim_lease-acked :
        (past : List (Datagram d)) (v : Lease) → LeaseAcked past v → LeaseAcked past (trim_lease v)
    trim_lease-acked past v h =
        let (mac, ip_text) = trim_lease-keeps v in
        subst (λ i. IsAcked ip.ip_string (trim_lease v).mac i past) (sym ip_text)
          (subst (λ m. IsAcked ip.ip_string m v.ip past) (sym mac) h)

    trim-Explained :
        (past : List (Datagram d)) (table : LeaseTable)
        → All (λ e. LeaseAcked past e.1) table
        → All (λ e. LeaseAcked past e.1) (trim table)
    unfolding trim
    trim-Explained past [] h = tt
    trim-Explained past ((k, v) ∷ table) (here, later) =
        (trim_lease-acked past v here, trim-Explained past table later)

    batch-Explained :
        (past : List (Datagram d)) (order : List (Bytes × Lease))
        → All (λ e. LeaseAcked past e.1) order
        → All (AssignmentAcked past) (map lease_assignment (values order))
    batch-Explained past [] h = tt
    batch-Explained past ((k, v) ∷ order) (here, later) = (here, batch-Explained past order later)

    send-Explained :
        (past : List (Datagram d)) (order : List (Bytes × Lease)) (s : ProxySystem)
        → Permᴰ s.handler.leases order
        → Explained past s
        → All (All (AssignmentAcked past)) (proxy_cycle order (scheduler_of s)).dispatched
    unfolding proxy_cycle
    send-Explained past order s visited h = elim (Bool-cases (ltb 0 (length s.handler.leases))) [
      | inr empty ↦ rw (proxy_cycle, empty) h.sent
      | inl full ↦
          rw (proxy_cycle, full)
            (
              subst (All (AssignmentAcked past)) (sym (collect-map order [])) (
                  batch-Explained past order
                    (perm-All (λ e. LeaseAcked past e.1) visited h.leases)),
              h.sent,
            )
    ]

    -- Whatever the order in which the two loops take datagrams, the timer runs and the scheduler
    -- ticks, every known transaction was begun by a DISCOVER or a REQUEST, and the hardware address
    -- and IP address of every lease in the table, and of every assignment handed to sendBatch, are
    -- those of an ACK that came in a transaction begun before it.
    pub ProxyReach-Explained :
        {past : List (Datagram d)} {s : ProxySystem}
        → ProxyReach d ip net options past s
        → Explained past s
    unfolding start_dhcp_proxy init proxy_cycle lookup
    ProxyReach-Explained boot_proxy = record {
      known = λ x e. absurd (ground arith);
      leases = tt;
      sent = tt;
    }
    ProxyReach-Explained (receive {past} {s} r conn of now beyond order g visited {h} e) =
        elim (serve-Handled d (env d ip net options now beyond) conn
          (started d ip net options).dhcp_servers order g s.handler e) [
            | inl same ↦
                subst (λ k. Explained (g ∷ past) (record s { handler = k })) (sym same)
                  (ignored-Explained g (ProxyReach-Explained r))
            | inr handled ↦ Handled-Explained now beyond g h handled (ProxyReach-Explained r)
          ]
    ProxyReach-Explained (age {past} {s} r) =
        let h = ProxyReach-Explained r in
        record {
          known = h.known;
          leases = trim-Explained past s.handler.leases h.leases;
          sent = h.sent;
        }
    ProxyReach-Explained (send {past} {s} r order visited) =
        let h = ProxyReach-Explained r in
        record { known = h.known; leases = h.leases; sent = send-Explained past order s visited h }
