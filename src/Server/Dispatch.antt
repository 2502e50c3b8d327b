-- ===== src/Server/Dispatch.antt =====
-- What Serve (proxybatcher/proxy_server.go) drops and where it sends what it forwards.
use mathlib.Core.List.{Permᴰ}
use dhcp_batcher.Common.{
  ℕ, ◌≤◌, Bytes, true, false, Option, none, some, List, [], ◌∷◌, ◌≡◌, ◌≢◌, ◌⊎◌, ◌↔◌, inl, inr, refl,
  ◌∙◌, arith, length, map, ltb, ◌==◌, if◌then◌else◌, ◌>>=◌, Option-cases, Bool-cases,
}
use dhcp_batcher.Dhcp.{Dhcp}
use dhcp_batcher.Lease.{option, option_router, to4}
use dhcp_batcher.Proxy.{MessageType, offer, Handler, Env, serve_dhcp, is_known}
use dhcp_batcher.Proxy.Request.{IsClient, IsForwarded, serve_dhcp-IsForwarded}
use dhcp_batcher.Proxy.Reply.{IsAnswer, serve_dhcp-IsAnswer}
use dhcp_batcher.Server.{
  ServeIfConn, option_message_type, message_type, ipv4, Datagram, Write, read_from, write_to,
  upstream, downstream, dispatch, serve,
}

module _ (d : Dhcp) (conn : ServeIfConn) (env : Env) (servers : List Bytes) where
  open d use {Packet, view, parse_options}

  -- The datagram came in on one of the two interfaces, or there is no word on its interface.
  abbrev pub IsLocal : Option ℕ → Type 0
  IsLocal none = Unit
  IsLocal (some i) = (i ≡ conn.if_index) ⊎ (i ≡ conn.other_index)

  -- A datagram that reaches ServeDHCP, with its message type.
  pub record IsServed (g : Datagram d) (t : MessageType) : Type 0 where
    pub here : IsLocal g.index
    pub large : 240 ≤ g.size
    pub hw : (view g.packet).h_len ≤ 16
    pub type : message_type (option option_message_type (parse_options g.packet)) ≡ some t

  read_from-ge_iff :
      (g : Datagram d) → (240 ≤ read_from d conn g) ↔ (IsLocal g.index × (240 ≤ g.size))
  unfolding read_from
  read_from-ge_iff g = elim (Option-cases g.index) [
    | inl anywhere ↦ ground arith
    | inr (i, here) ↦ ground arith
  ]

  -- A datagram of a third interface, of fewer than 240 bytes, with a hardware address longer than
  -- 16, or without a message type of one byte from 1 to 8, changes nothing and is not answered.
  pub serve_unserved :
      (order : List (ℕ × Bytes)) (g : Datagram d) (h : Handler)
      → ((t : MessageType) → IsServed g t → ⊥)
      → serve d conn env servers order g h ≡ some (h, [])
  unfolding serve
  serve_unserved order g h out =
      let local = read_from-ge_iff g in
      elim (Option-cases (message_type (option option_message_type (parse_options g.packet)))) [
        | inl other ↦ ground arith
        | inr (t, type) ↦ elim (Bool-cases (ltb (read_from d conn g) 240)) [
          | inl small ↦ ground arith
          | inr large ↦ elim (Bool-cases (ltb 16 (view g.packet).h_len)) [
            | inl wide ↦ ground arith
            | inr narrow ↦
                let (here, size) = local.0 (ground arith) in
                absurd
                  (out t (record { here = here; large = size; hw = ground arith; type = type }))
          ]
        ]
      ]

  serve_served :
      (order : List (ℕ × Bytes)) (g : Datagram d) (h : Handler) (t : MessageType)
      → IsServed g t
      → serve d conn env servers order g h ≡ (do
        (h', res) ← serve_dhcp d env order g.packet t (parse_options g.packet) h
        ws ← dispatch d conn g.index env servers res
        some (h', ws))
  unfolding serve
  serve_served order g h t s =
      let large : ltb (read_from d conn g) 240 ≡ false =
        ground (arith, (read_from-ge_iff g).1 (s.here, s.large)) in
      let narrow : ltb 16 (view g.packet).h_len ≡ false = ground (arith, s.hw) in
      rw (large, narrow, s.type) refl

  -- The write of a packet to one server.
  abbrev pub to_server : Packet → Bytes → Write d
  to_server q server = record {
    packet = q;
    ip = server;
    port = 67;
    src = env.proxy_server_ip;
    index = conn.other_index;
  }

  upstream-map :
      (i : ℕ) (q : Packet) (ips : List Bytes)
      → upstream d conn (some i) env q ips ≡ some (map (to_server q) ips)
  unfolding upstream write_to
  upstream-map i q [] = refl
  upstream-map i q (ip ∷ ips) = rw (upstream-map i q ips) refl

  -- The write of a packet to the router that an option names.
  abbrev pub to_router : Packet → Bytes → List (Write d)
  to_router q o =
      if length o == 4
      then record {
        packet = q;
        ip = ipv4 o;
        port = 67;
        src = env.proxy_server_ip;
        index = conn.if_index;
      }
        ∷ []
      else []

  downstream-to_router :
      (i : ℕ) (q : Packet)
      → downstream d conn (some i) env q
        ≡ some (to_router q (option option_router (parse_options q)))
  unfolding downstream write_to
  downstream-to_router i q = ground arith

  upstream-none : (q : Packet) (ips : List Bytes) → ips ≢ [] → upstream d conn none env q ips ≡ none
  unfolding upstream write_to
  upstream-none q [] h = absurd (h refl)
  upstream-none q (ip ∷ ips) h = refl

  module _ (ip : Bytes) (order : List (ℕ × Bytes)) (g : Datagram d) (h : Handler)
      (addr : to4 env.proxy_server_ip ≡ some ip)
      (visited : Permᴰ (parse_options g.packet) order) where
    -- If the proxy has an IPv4 address, a DISCOVER, REQUEST, RELEASE or DECLINE that reaches the
    -- handler and came with a control message is written once to each of the configured servers, in
    -- their order, at port 67, from the proxy's address and on the other interface, as the
    -- forwarded packet, and no lease changes.
    pub serve_client :
        (i : ℕ) (t : MessageType)
        → IsServed g t
        → IsClient d t
        → g.index ≡ some i
        → (h' : Handler) × (q : Packet) × (serve d conn env servers order g h
            ≡ some (h', map (to_server q) servers))
          × IsForwarded d ip g.packet q
          × (h'.leases ≡ h.leases)
    unfolding dispatch
    serve_client i t s client index =
        let (h', q, run, forwarded, leases, _) =
          serve_dhcp-IsForwarded d env ip g.packet order addr s.hw visited t
            (parse_options g.packet) h client in
        (
          h',
          q,
          serve_served order g h t s
              ∙ rw (run, index, forwarded.op_code, upstream-map i q servers) refl,
          forwarded,
          leases,
        )

    -- If the proxy has an IPv4 address and a server is configured, a DISCOVER, REQUEST, RELEASE or
    -- DECLINE that reaches the handler without a control message makes the loop panic.
    pub serve_no_control :
        (t : MessageType)
        → IsServed g t
        → IsClient d t
        → g.index ≡ none
        → servers ≢ []
        → serve d conn env servers order g h ≡ none
    unfolding dispatch
    serve_no_control t s client index some_server =
        let (h', q, run, forwarded, _, _) =
          serve_dhcp-IsForwarded d env ip g.packet order addr s.hw visited t
            (parse_options g.packet) h client in
        serve_served order g h t s
        ∙ rw (run, index, forwarded.op_code, upstream-none q servers some_server) refl

    -- If the proxy has an IPv4 address, an OFFER of a known transaction that reaches the handler
    -- and came with a control message is written as the proxy's answer, once, at port 67 of the
    -- router that its option 3 names if that has four bytes, and not at all if it has not; the
    -- handler stays as it was.
    pub serve_offer :
        (i : ℕ)
        → IsServed g offer
        → is_known d h g.packet ≡ true
        → g.index ≡ some i
        → (q : Packet) × (serve d conn env servers order g h
            ≡ some (h, to_router q (option option_router (parse_options g.packet))))
          × IsAnswer d ip g.packet q
    unfolding dispatch
    serve_offer i s known index =
        let (q, run, answer) =
          serve_dhcp-IsAnswer d env ip g.packet order addr s.hw visited offer
            (parse_options g.packet) h tt known in
        let same = answer.options option_router (λ e. ground arith) in
        (
          q,
          serve_served order g h offer s
              ∙ rw (run, index, answer.op_code, downstream-to_router i q, same) refl,
          answer,
        )
