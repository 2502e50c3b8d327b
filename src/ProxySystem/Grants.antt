-- ===== src/ProxySystem/Grants.antt =====
-- What one packet does to the lease table (ServeDHCP of proxybatcher/proxy_handler.go), and one
-- datagram to the handler (Serve of proxybatcher/proxy_server.go).
use mathlib.Core.Path.{subst}
use dhcp_batcher.Common.{
  ℕ, Bytes, ltb, true, Option, some, List, ◌≡◌, ◌⊎◌, inl, inr, refl, sym, ap, ◌∙◌, arith,
  Option-cases, Bool-cases, get_or, >>=-eq-some,
}
use dhcp_batcher.GoMap.{insert}
use dhcp_batcher.Net.Mac.{mac_string}
use dhcp_batcher.Dhcp.{Dhcp}
use dhcp_batcher.Lease.{Options, option, add_lease}
use dhcp_batcher.Lease.Table.{new_lease, add_lease-eq-some}
use dhcp_batcher.Proxy.{
  MessageType, discover, offer, request, decline, ack, nak, release, inform, Handler, Env, uint32,
  option_ip_address_lease_time, is_known, record_lease, serve_dhcp, remember,
}
use dhcp_batcher.Server.{
  ServeIfConn, Datagram, Write, read_from, message_type, option_message_type, dispatch, serve,
}
use dhcp_batcher.Server.Loop.{pair-injective}

module _ (d : Dhcp) (env : Env) where
  open d use {Packet, view, parse_options}

  -- The lease that an ACK of a known transaction adds to the table.
  pub record Grants (p : Packet) (options : Options) (t : MessageType) (h h' : Handler)
      : Type 0 where
    pub type : t ≡ ack
    pub known : is_known d h p ≡ true
    pub secs : ℕ
    pub time : uint32 (option option_ip_address_lease_time options) ≡ some secs
    pub ids : Bytes × Bytes
    pub leases :
        h'.leases
        ≡ insert
            (mac_string (view p).ch_addr)
            (new_lease env.now
              (mac_string (view p).ch_addr)
              (env.ip_string (view p).yi_addr)
              secs
              (parse_options p)
              ids)
            h.leases

  record_lease-Grants :
      (p : Packet) (options : Options) (h : Handler) {h' : Handler}
      → is_known d h p ≡ true
      → record_lease d env p options h ≡ some h'
      → Grants p options ack h h'
  unfolding record_lease
  record_lease-Grants p options h known e =
      let (secs, time, e1) =
        >>=-eq-some (uint32 (option option_ip_address_lease_time options)) _ e in
      let mac = mac_string (view p).ch_addr in
      let ip_text = env.ip_string (view p).yi_addr in
      let (leases, added, e2) =
        >>=-eq-some (add_lease env.now env.beyond mac ip_text secs (parse_options p) h.leases) _
          e1 in
      let (ids, cut, same) =
        add_lease-eq-some env.now env.beyond mac ip_text secs (parse_options p) h.leases added in
      record {
        type = refl;
        known = known;
        secs = secs;
        time = time;
        ids = ids;
        leases = ap (λ o. (get_or o h).leases) (sym e2) ∙ same;
      }

  -- A packet leaves the leases alone, or grants one.
  pub serve_dhcp-leases :
      (order : List (ℕ × Bytes)) (p : Packet) (t : MessageType) (options : Options) (h : Handler)
      {h' : Handler} {out : Option Packet}
      → serve_dhcp d env order p t options h ≡ some (h', out)
      → (h'.leases ≡ h.leases) ⊎ Grants p options t h h'
  unfolding serve_dhcp remember
  serve_dhcp-leases order p discover options h e = inl (ground arith)
  serve_dhcp-leases order p request options h e = inl (ground arith)
  serve_dhcp-leases order p offer options h e = inl (ground arith)
  serve_dhcp-leases order p nak options h e = inl (ground arith)
  serve_dhcp-leases order p release options h e = inl (ground arith)
  serve_dhcp-leases order p decline options h e = inl (ground arith)
  serve_dhcp-leases order p inform options h e = inl (ground arith)
  serve_dhcp-leases order p ack options h e = elim (Bool-cases (is_known d h p)) [
    | inr fresh ↦ inl (ground arith)
    | inl known ↦ elim (Option-cases (record_lease d env p options h)) [
      | inl bad ↦ absurd (ground arith)
      | inr (g, recorded) ↦ inr (
          subst (Grants p options ack h) (pair-injective (rw (serve_dhcp, known, recorded) at e)).0
            (record_lease-Grants p options h known recorded))
    ]
  ]

  -- What one round of Serve does to the handler: nothing, or what ServeDHCP does with the message.
  pub record Handled (g : Datagram d) (h h' : Handler) : Type 0 where
    pub type : MessageType
    pub typed : message_type (option option_message_type (parse_options g.packet)) ≡ some type
    pub order : List (ℕ × Bytes)
    pub result : Option Packet
    pub run : serve_dhcp d env order g.packet type (parse_options g.packet) h ≡ some (h', result)

  -- A round that ends without a panic leaves the handler as it was, or handles a message.
  pub serve-Handled :
      (conn : ServeIfConn) (servers : List Bytes) (order : List (ℕ × Bytes)) (g : Datagram d)
      (h : Handler) {h' : Handler} {ws : List (Write d)}
      → serve d conn env servers order g h ≡ some (h', ws)
      → (h' ≡ h) ⊎ Handled g h h'
  unfolding serve
  serve-Handled conn servers order g h e = elim (Bool-cases (ltb (read_from d conn g) 240)) [
    | inl small ↦ inl (sym (pair-injective (rw (serve, small) at e)).0)
    | inr large ↦ elim (Bool-cases (ltb 16 (view g.packet).h_len)) [
      | inl wide ↦ inl (sym (pair-injective (rw (serve, large, wide) at e)).0)
      | inr narrow ↦
          elim (Option-cases (message_type (option option_message_type (parse_options g.packet)))) [
            | inl other ↦ inl (sym (pair-injective (rw (serve, large, narrow, other) at e)).0)
            | inr (t, typed) ↦
                let e1 = rw (serve, large, narrow, typed) at e in
                let ((h1, res), run, e2) =
                  >>=-eq-some (serve_dhcp d env order g.packet t (parse_options g.packet) h) _ e1 in
                let (ws1, sent, e3) = >>=-eq-some (dispatch d conn g.index env servers res) _ e2 in
                let same = (pair-injective e3).0 in
                inr (record {
                  type = t;
                  typed = typed;
                  order = order;
                  result = res;
                  run =
                      subst
                        (λ k.
                          serve_dhcp d env order g.packet t (parse_options g.packet) h
                          ≡ some (k, res))
                        same run;
                })
          ]
    ]
  ]
