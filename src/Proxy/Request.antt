-- ===== src/Proxy/Request.antt =====
-- The packets of a client that ServeDHCP (proxybatcher/proxy_handler.go) forwards to the servers.
use mathlib.Core.List.{Permᴰ, append_assoc, append-nil}
use dhcp_batcher.Common.{
  ℕ, ◌≤◌, Bytes, Bool, true, false, some, List, [], ◌∷◌, ◌++◌, ◌≡◌, refl, sym, ap, ◌∙◌, arith, All,
  ◌||◌,
}
use dhcp_batcher.GoMap.Laws.{lookup-insert_self}
use dhcp_batcher.Lease.{Options, option, to4}
use dhcp_batcher.Dhcp.{Fields, Dhcp, IsStorable, boot_request, blank, last_option}
use dhcp_batcher.Dhcp.Copies.{perm-IsStorable, last_option_copied}
use dhcp_batcher.Proxy.{
  MessageType, discover, request, release, decline, Handler, Env, add_options, discover_packet,
  request_packet, is_known, remember, serve_dhcp,
}

-- DISCOVER and REQUEST begin a transaction.
abbrev pub begins : MessageType → Bool
begins discover = true
begins request = true
begins _ = false

module _ (d : Dhcp) where
  open d use {Packet, view, parse_options}

  -- Copying options appends them and changes nothing else.
  pub add_options-view :
      (order : List (ℕ × Bytes)) (p : Packet)
      → All IsStorable order
      → view (add_options d order p) ≡ record (view p) { options = (view p).options ++ order }
  unfolding add_options
  add_options-view [] p h =
      ap (λ o. record (view p) { options = o }) (sym (append-nil (view p).options))
  add_options-view ((k, v) ∷ order) p (short, h) =
      add_options-view order (d.add_option k v p) h
      ∙ (ap (λ (f : Fields). record f { options = f.options ++ order })
            (d.add_option-view k v p short)
          ∙ ap (λ o. record (view p) { options = o })
              (append_assoc (view p).options ((k, v) ∷ []) order))

  discover_packet-view :
      (env : Env) (ip : Bytes) (p : Packet)
      → to4 env.proxy_server_ip ≡ some ip
      → (view p).h_len ≤ 16
      → view (discover_packet d env p) ≡ record (blank boot_request) {
        ch_addr = (view p).ch_addr;
        h_len = (view p).h_len;
        gi_addr = ip;
        x_id = (view p).x_id;
      }
  unfolding discover_packet
  discover_packet-view env ip p e h = grind (
    arith, d.new_packet-view, d.set_ch_addr-view, d.set_gi_addr-view, d.set_x_id-view,
    d.set_broadcast-view,
  )

  request_packet-view :
      (env : Env) (ip : Bytes) (p : Packet)
      → to4 env.proxy_server_ip ≡ some ip
      → (view p).h_len ≤ 16
      → view (request_packet d env p) ≡ record (blank boot_request) {
        ch_addr = (view p).ch_addr;
        h_len = (view p).h_len;
        file = (view p).file;
        ci_addr = (view p).ci_addr;
        si_addr = (view p).si_addr;
        gi_addr = ip;
        x_id = (view p).x_id;
      }
  unfolding request_packet
  request_packet-view env ip p e h = grind (
    arith, d.new_packet-view, d.set_ch_addr-view, d.set_file-view, d.set_ci_addr-view,
    d.set_si_addr-view, d.set_gi_addr-view, d.set_x_id-view, d.set_broadcast-view,
  )

  -- The types of packets that a client sends and the proxy forwards.
  abbrev pub IsClient : MessageType → Type 0
  IsClient discover = Unit
  IsClient request = Unit
  IsClient release = Unit
  IsClient decline = Unit
  IsClient _ = ⊥

  -- What a packet of a client looks like to the servers: a request of the same transaction, for the
  -- same hardware address, that names the proxy as the gateway and holds the same options.
  pub record IsForwarded (ip : Bytes) (p q : Packet) : Type 0 where
    pub op_code : (view q).op_code ≡ boot_request
    pub x_id : (view q).x_id ≡ (view p).x_id
    pub ch_addr : (view q).ch_addr ≡ (view p).ch_addr
    pub gi_addr : (view q).gi_addr ≡ ip
    pub options : (code : ℕ) → option code (parse_options q) ≡ option code (parse_options p)

  module _ (env : Env) (ip : Bytes) (p : Packet) (order : List (ℕ × Bytes))
      (addr : to4 env.proxy_server_ip ≡ some ip) (hw : (view p).h_len ≤ 16)
      (visited : Permᴰ (parse_options p) order) where
    copied-IsForwarded :
        (q : Packet)
        → (view q).op_code ≡ boot_request
        → (view q).x_id ≡ (view p).x_id
        → (view q).ch_addr ≡ (view p).ch_addr
        → (view q).gi_addr ≡ ip
        → (view q).options ≡ []
        → IsForwarded ip p (add_options d order q)
    copied-IsForwarded q op xid ch gi none_yet =
        let short = perm-IsStorable visited (d.parse_options-IsStorable p) in
        let seen = add_options-view order q short in
        record {
          op_code = ap (λ (f : Fields). f.op_code) seen ∙ op;
          x_id = ap (λ (f : Fields). f.x_id) seen ∙ xid;
          ch_addr = ap (λ (f : Fields). f.ch_addr) seen ∙ ch;
          gi_addr = ap (λ (f : Fields). f.gi_addr) seen ∙ gi;
          options = λ code.
              d.option-parse_options code (add_options d order q)
              ∙ (ap (λ (f : Fields). last_option code f.options []) seen
                  ∙ (ap (λ o. last_option code (o ++ order) []) none_yet
                      ∙ last_option_copied code visited (d.parse_options-IsOptionMap p)));
        }

    known-remember : (h : Handler) → is_known d (remember d p h) p ≡ true
    unfolding is_known remember
    known-remember h = ground (arith, lookup-insert_self (view p).x_id true h.m)

    discover-IsForwarded : IsForwarded ip p (add_options d order (discover_packet d env p))
    discover-IsForwarded =
        let seen = discover_packet-view env ip p addr hw in
        copied-IsForwarded (discover_packet d env p) (ap (λ (f : Fields). f.op_code) seen)
          (ap (λ (f : Fields). f.x_id) seen) (ap (λ (f : Fields). f.ch_addr) seen)
          (ap (λ (f : Fields). f.gi_addr) seen) (ap (λ (f : Fields). f.options) seen)

    request-IsForwarded : IsForwarded ip p (add_options d order (request_packet d env p))
    request-IsForwarded =
        let seen = request_packet-view env ip p addr hw in
        copied-IsForwarded (request_packet d env p) (ap (λ (f : Fields). f.op_code) seen)
          (ap (λ (f : Fields). f.x_id) seen) (ap (λ (f : Fields). f.ch_addr) seen)
          (ap (λ (f : Fields). f.gi_addr) seen) (ap (λ (f : Fields). f.options) seen)

    -- If the proxy has an IPv4 address and the packet's hardware address has at most 16 bytes, a
    -- DISCOVER, REQUEST, RELEASE or DECLINE is forwarded, for any order of the loop over its
    -- options, as a request of the same transaction and hardware address with the same options and
    -- the proxy as gateway; no lease changes, and the transaction is known afterwards if it was
    -- before or the packet is a DISCOVER or a REQUEST.
    pub serve_dhcp-IsForwarded :
        (t : MessageType) (options : Options) (h : Handler)
        → IsClient t
        → (h' : Handler) × (q : Packet) × (serve_dhcp d env order p t options h ≡ some (h', some q))
          × IsForwarded ip p q
          × (h'.leases ≡ h.leases)
          × (is_known d h' p ≡ (begins t || is_known d h p))
    unfolding serve_dhcp remember
    serve_dhcp-IsForwarded discover options h _ =
        (_, _, refl, discover-IsForwarded, refl, known-remember h)
    serve_dhcp-IsForwarded request options h _ =
        (_, _, refl, request-IsForwarded, refl, known-remember h)
    serve_dhcp-IsForwarded release options h _ = (_, _, refl, request-IsForwarded, refl, refl)
    serve_dhcp-IsForwarded decline options h _ = (_, _, refl, request-IsForwarded, refl, refl)
    serve_dhcp-IsForwarded _ options h c = absurd c
