-- ===== src/Proxy/Reply.antt =====
-- The packets of a server that ServeDHCP (proxybatcher/proxy_handler.go) forwards to the clients.
use mathlib.Core.List.{Permᴰ}
use dhcp_batcher.Common.{
  ℕ, ◌≤◌, Bytes, true, some, List, [], ◌∷◌, ◌++◌, ◌≡◌, ◌≢◌, refl, sym, ap, ◌∙◌, arith, length, All,
}
use dhcp_batcher.Lease.{Options, option, to4}
use dhcp_batcher.Dhcp.{Fields, Dhcp, IsStorable, boot_reply, last_option}
use dhcp_batcher.Dhcp.Copies.{perm-IsStorable, last_option_copied, last_option-append}
use dhcp_batcher.Proxy.{
  MessageType, offer, ack, nak, Handler, Env, proxy_id, option_server_identifier, add_options,
  add_nak_options, offer_packet, ack_packet, nak_packet, is_known, serve_dhcp,
}
use dhcp_batcher.Proxy.Request.{add_options-view}
use dhcp_batcher.Proxy.Copied.{
  renamed, last_option-renamed, renamed-server_identifier, to4-length, copied, add_nak_options-view,
  offer_packet-view, ack_packet-view, nak_packet-view,
}

-- The types of packets that a server sends.
abbrev pub IsServer : MessageType → Type 0
IsServer offer = Unit
IsServer ack = Unit
IsServer nak = Unit
IsServer _ = ⊥

module _ (d : Dhcp) where
  open d use {Packet, view, parse_options}

  -- What a packet of a server looks like to the client: a reply of the same transaction for the same
  -- hardware address, with the same address for the client and the same options, but for the server
  -- identifier, which is the proxy's address.
  pub record IsAnswer (ip : Bytes) (p q : Packet) : Type 0 where
    pub op_code : (view q).op_code ≡ boot_reply
    pub x_id : (view q).x_id ≡ (view p).x_id
    pub ch_addr : (view q).ch_addr ≡ (view p).ch_addr
    pub yi_addr : (view q).yi_addr ≡ (view p).yi_addr
    pub server : option option_server_identifier (parse_options q) ≡ ip
    pub options :
        (code : ℕ)
        → code ≢ option_server_identifier
        → option code (parse_options q) ≡ option code (parse_options p)

  module _ (env : Env) (ip : Bytes) (p : Packet) (order : List (ℕ × Bytes))
      (addr : to4 env.proxy_server_ip ≡ some ip) (hw : (view p).h_len ≤ 16)
      (visited : Permᴰ (parse_options p) order) where
    proxy_id-eq : proxy_id env ≡ ip
    proxy_id-eq = rw addr refl

    proxy_id-length : length (proxy_id env) ≤ 255
    proxy_id-length = rw addr (omega (arith, to4-length env.proxy_server_ip ip addr))

    proxy_id-IsStorable : IsStorable (option_server_identifier, proxy_id env)
    proxy_id-IsStorable = (proxy_id-length, λ e. ground arith, λ e. ground arith)

    storable : All IsStorable order
    storable = perm-IsStorable visited (d.parse_options-IsStorable p)

    view-IsAnswer :
        (q : Packet) (opts : List (ℕ × Bytes))
        → view q ≡ record (copied d p) { options = opts }
        → last_option option_server_identifier opts [] ≡ ip
        → ((code : ℕ)
            → code ≢ option_server_identifier
            → last_option code opts [] ≡ last_option code order [])
        → IsAnswer ip p q
    view-IsAnswer q opts seen named same = record {
      op_code = ap (λ (f : Fields). f.op_code) seen;
      x_id = ap (λ (f : Fields). f.x_id) seen;
      ch_addr = ap (λ (f : Fields). f.ch_addr) seen;
      yi_addr = ap (λ (f : Fields). f.yi_addr) seen;
      server =
          d.option-parse_options option_server_identifier q
          ∙ (ap (λ (f : Fields). last_option option_server_identifier f.options []) seen ∙ named);
      options = λ code ne.
          d.option-parse_options code q
          ∙ (ap (λ (f : Fields). last_option code f.options []) seen
              ∙ (same code ne ∙ last_option_copied code visited (d.parse_options-IsOptionMap p)));
    }

    offered-IsAnswer :
        (q : Packet)
        → view q ≡ copied d p
        → IsAnswer ip p
            (d.add_option option_server_identifier (proxy_id env) (add_options d order q))
    offered-IsAnswer q e =
        let id = proxy_id env in
        let entry : List (ℕ × Bytes) = (option_server_identifier, id) ∷ [] in
        view-IsAnswer (d.add_option option_server_identifier id (add_options d order q))
          (order ++ entry)
          (d.add_option-view option_server_identifier id (add_options d order q) proxy_id-IsStorable
            ∙ (ap (λ (f : Fields). record f { options = f.options ++ entry })
                  (add_options-view d order q storable)
                ∙ ap (λ (f : Fields). record f { options = (f.options ++ order) ++ entry }) e))
          (last_option-append option_server_identifier option_server_identifier [] id order
            ∙ proxy_id-eq)
          (λ code ne. ground (arith, last_option-append code option_server_identifier [] id order))

    nak-IsAnswer :
        option option_server_identifier (parse_options p) ≢ []
        → IsAnswer ip p (add_nak_options d env order (nak_packet d p))
    nak-IsAnswer named =
        let id = proxy_id env in
        view-IsAnswer (add_nak_options d env order (nak_packet d p)) (renamed id order)
          (add_nak_options-view d env order (nak_packet d p) proxy_id-length storable
            ∙ ap (λ (f : Fields). record f { options = f.options ++ renamed id order })
                (nak_packet-view d p hw))
          (renamed-server_identifier id order (λ e. named (
              sym (
                last_option_copied option_server_identifier visited (d.parse_options-IsOptionMap p))
              ∙ e))
            ∙ proxy_id-eq)
          (λ code ne. last_option-renamed id code order [] ne)

    -- A NAK, whether it names its server or not, keeps its transaction.
    pub nak-x_id : (view (add_nak_options d env order (nak_packet d p))).x_id ≡ (view p).x_id
    nak-x_id =
        ap (λ (f : Fields). f.x_id)
          (add_nak_options-view d env order (nak_packet d p) proxy_id-length storable)
        ∙ ap (λ (f : Fields). f.x_id) (nak_packet-view d p hw)

    pub offer-IsAnswer : IsAnswer ip p (
        d.add_option option_server_identifier
          (proxy_id env)
          (add_options d order (offer_packet d p)))
    offer-IsAnswer = offered-IsAnswer (offer_packet d p) (offer_packet-view d p hw)

    pub ack-IsAnswer : IsAnswer ip p (
        d.add_option option_server_identifier (proxy_id env) (add_options d order (ack_packet d p)))
    ack-IsAnswer = offered-IsAnswer (ack_packet d p) (ack_packet-view d p hw)

    -- An OFFER, and a NAK that names its server.
    abbrev pub IsPassed : MessageType → Type 0
    IsPassed offer = Unit
    IsPassed nak = option option_server_identifier (parse_options p) ≢ []
    IsPassed _ = ⊥

    -- If the proxy has an IPv4 address and the packet's hardware address has at most 16 bytes, an
    -- OFFER, or a NAK that names its server, of a known transaction is forwarded, for any order of
    -- the loop over its options, as a reply of the same transaction, hardware address and client
    -- address with the same options but the server identifier, which is the proxy's address; the
    -- handler stays as it was.
    pub serve_dhcp-IsAnswer :
        (t : MessageType) (options : Options) (h : Handler)
        → IsPassed t
        → is_known d h p ≡ true
        → (q : Packet) × (serve_dhcp d env order p t options h ≡ some (h, some q)) × IsAnswer ip p q
    unfolding serve_dhcp
    serve_dhcp-IsAnswer offer options h _ e = rw e (_, refl, offer-IsAnswer)
    serve_dhcp-IsAnswer nak options h named e = rw e (_, refl, nak-IsAnswer named)
    serve_dhcp-IsAnswer _ options h c e = absurd c
