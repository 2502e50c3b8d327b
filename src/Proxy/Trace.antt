-- ===== src/Proxy/Trace.antt =====
-- Packets one after another through ServeDHCP (proxybatcher/proxy_handler.go): which transactions the
-- handler's map holds.
use dhcp_batcher.Common.{
  ℕ, Bytes, str_eq_iff, true, false, Option, none, some, List, [], ◌∷◌, ◌≡◌, ◌⊎◌, inl, inr, ◌↔◌,
  refl, arith, Option-cases, Bool-cases, get_or, if◌then◌else◌,
}
use dhcp_batcher.GoMap.{lookup, insert}
use dhcp_batcher.GoMap.Laws.{lookup-insert}
use dhcp_batcher.Lease.{LeaseTable, Options, option, add_lease}
use dhcp_batcher.Net.Mac.{mac_string}
use dhcp_batcher.Dhcp.{Dhcp}
use dhcp_batcher.Proxy.{
  MessageType, discover, request, offer, ack, nak, release, decline, inform, Handler, Env, uint32,
  option_ip_address_lease_time, is_known, remember, record_lease, serve_dhcp,
}
use dhcp_batcher.Proxy.Request.{begins}
use dhcp_batcher.Proxy.Reply.{IsServer}

-- A transaction was begun by a packet of the past.
abbrev pub Began : Bytes → List (MessageType × Bytes) → Type 0
Began x [] = ⊥
Began x ((t, y) ∷ past) = ((begins t ≡ true) × (y ≡ x)) ⊎ Began x past

module _ (d : Dhcp) where
  open d use {Packet, view}

  -- The handler after the packets of the past, the latest first; the type and the transaction of
  -- each is kept. A handler starts without transactions.
  pub data Trace : List (MessageType × Bytes) → Handler → Type 0 where
    start : (leases : LeaseTable) → Trace [] (record { m = []; leases = leases })
    step :
        {past : List (MessageType × Bytes)} {h h' : Handler} (env : Env) (order : List (ℕ × Bytes))
        (p : Packet) (t : MessageType) (options : Options) (out : Option Packet)
        → Trace past h
        → serve_dhcp d env order p t options h ≡ some (h', out)
        → Trace ((t, (view p).x_id) ∷ past) h'

  pub record_lease-m :
      (env : Env) (p : Packet) (options : Options) (h : Handler) {h' : Handler}
      → record_lease d env p options h ≡ some h'
      → h'.m ≡ h.m
  unfolding record_lease
  record_lease-m env p options h e =
      elim (Option-cases (uint32 (option option_ip_address_lease_time options))) [
        | inl bad ↦ absurd (ground arith)
        | inr (secs, time) ↦
            let leases =
              add_lease env.now env.beyond (mac_string (view p).ch_addr)
                (env.ip_string (view p).yi_addr) secs (d.parse_options p) h.leases in
            elim (Option-cases leases) [
              | inl bad ↦ absurd (ground arith)
              | inr (table, added) ↦ ground arith
            ]
      ]

  -- One packet writes at most its own transaction.
  pub serve_dhcp-m :
      (env : Env) (order : List (ℕ × Bytes)) (p : Packet) (t : MessageType) (options : Options)
      (h : Handler) {h' : Handler} {out : Option Packet}
      → serve_dhcp d env order p t options h ≡ some (h', out)
      → h'.m ≡ (if begins t then insert (view p).x_id true h.m else h.m)
  unfolding serve_dhcp remember
  serve_dhcp-m env order p discover options h e = ground arith
  serve_dhcp-m env order p request options h e = ground arith
  serve_dhcp-m env order p offer options h e = ground arith
  serve_dhcp-m env order p nak options h e = ground arith
  serve_dhcp-m env order p release options h e = ground arith
  serve_dhcp-m env order p decline options h e = ground arith
  serve_dhcp-m env order p inform options h e = ground arith
  serve_dhcp-m env order p ack options h e = elim (Option-cases (record_lease d env p options h)) [
    | inl bad ↦ ground arith
    | inr (g, recorded) ↦ ground (arith, record_lease-m env p options h recorded)
  ]

  Trace-lookup :
      (x : Bytes) {past : List (MessageType × Bytes)} {h : Handler}
      → Trace past h
      → (get_or (lookup x h.m) false ≡ true) ↔ Began x past
  unfolding lookup
  Trace-lookup x (start leases) = ground arith
  Trace-lookup x (step {h} env order p t options out tr e) =
      let before = Trace-lookup x tr in
      let written = serve_dhcp-m env order p t options h e in
      ground
        (arith, before, written, lookup-insert (view p).x_id x true h.m, str_eq_iff (view p).x_id x)

  pub known_iff :
      {past : List (MessageType × Bytes)} {h : Handler}
      → Trace past h
      → (p : Packet) → (is_known d h p ≡ true) ↔ Began (view p).x_id past
  unfolding is_known
  known_iff tr p = Trace-lookup (view p).x_id tr

  module _ {past : List (MessageType × Bytes)} {h : Handler} (tr : Trace past h) (env : Env)
      (order : List (ℕ × Bytes)) (p : Packet) (options : Options) where
    -- After any sequence of packets from a handler without transactions, an OFFER, ACK or NAK of a
    -- transaction that no DISCOVER and no REQUEST of the past began is dropped and changes nothing.
    pub serve_dhcp_unasked :
        (t : MessageType)
        → IsServer t
        → (Began (view p).x_id past → ⊥)
        → serve_dhcp d env order p t options h ≡ some (h, none)
    unfolding serve_dhcp
    serve_dhcp_unasked offer _ fresh = ground (arith, known_iff tr p)
    serve_dhcp_unasked ack _ fresh = ground (arith, known_iff tr p)
    serve_dhcp_unasked nak _ fresh = ground (arith, known_iff tr p)
    serve_dhcp_unasked _ c fresh = absurd c

    -- After any sequence of packets from a handler without transactions, an OFFER is forwarded
    -- exactly when a DISCOVER or a REQUEST of the past began its transaction.
    pub offer-Began_iff :
        ((h' : Handler) × (q : Packet) × (serve_dhcp d env order p offer options h
            ≡ some (h', some q)))
        ↔ Began (view p).x_id past
    unfolding serve_dhcp
    offer-Began_iff = elim (Bool-cases (is_known d h p)) [
      | inl e ↦ rw e (λ _. (known_iff tr p).0 e, λ _. (_, _, refl))
      | inr e ↦
          rw e (
            λ (h', q, bad). absurd (ground arith),
            λ began. absurd (ground (arith, known_iff tr p)),
          )
    ]
