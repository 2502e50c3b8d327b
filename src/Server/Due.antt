-- ===== src/Server/Due.antt =====
-- What ServeDHCP returns (proxybatcher/proxy_handler.go), of any packet, when it returns a packet.
use mathlib.Core.List.{Permᴰ}
use mathlib.Core.Path.{subst}
use dhcp_batcher.Common.{
  ℕ, ◌≤◌, Bytes, true, Option, some, List, ◌≡◌, ◌⊎◌, inl, inr, sym, ◌∙◌, arith, Option-cases,
  Bool-cases,
}
use dhcp_batcher.Dhcp.{Dhcp, boot_request}
use dhcp_batcher.Lease.{Options, to4}
use dhcp_batcher.Proxy.{
  MessageType, discover, offer, request, decline, ack, nak, release, inform, Handler, Env, is_known,
  record_lease, serve_dhcp,
}
use dhcp_batcher.Proxy.Request.{IsClient, serve_dhcp-IsForwarded}
use dhcp_batcher.Proxy.Reply.{nak-x_id, ack-IsAnswer, offer-IsAnswer}

packet-injective :
    {A B : Type 0} {a b : A} {x y : B}
    → ◌≡◌ {A = Option (A × Option B)} (some (a, some x)) (some (b, some y))
    → x ≡ y
packet-injective e = cc

module _ (d : Dhcp) (env : Env) (ip : Bytes) (addr : to4 env.proxy_server_ip ≡ some ip) where
  open d use {Packet, view, parse_options}

  -- A packet that is forwarded for `p`: of the same transaction, and either a request or of a
  -- transaction that is known.
  abbrev pub IsDue : Handler → Packet → Packet → Type 0
  IsDue h p q =
      ((view q).x_id ≡ (view p).x_id)
      × (((view q).op_code ≡ boot_request) ⊎ (is_known d h p ≡ true))

  module _ (p : Packet) (order : List (ℕ × Bytes)) (options : Options) (h : Handler)
      (hw : (view p).h_len ≤ 16) (visited : Permᴰ (parse_options p) order) where
    client-IsDue :
        (t : MessageType) {h' : Handler} {q : Packet}
        → IsClient d t
        → serve_dhcp d env order p t options h ≡ some (h', some q)
        → IsDue h p q
    client-IsDue t c e =
        let (g, r, run, f, _, _) =
          serve_dhcp-IsForwarded d env ip p order addr hw visited t options h c in
        let same = packet-injective (sym run ∙ e) in subst (IsDue h p) same (f.x_id, inl f.op_code)

    pub serve_dhcp-IsDue :
        (t : MessageType) {h' : Handler} {q : Packet}
        → serve_dhcp d env order p t options h ≡ some (h', some q)
        → IsDue h p q
    unfolding serve_dhcp
    serve_dhcp-IsDue discover e = client-IsDue discover tt e
    serve_dhcp-IsDue request e = client-IsDue request tt e
    serve_dhcp-IsDue release e = client-IsDue release tt e
    serve_dhcp-IsDue decline e = client-IsDue decline tt e
    serve_dhcp-IsDue offer e = elim (Bool-cases (is_known d h p)) [
      | inl known ↦ ground (arith, offer-IsAnswer d env ip p order addr hw visited)
      | inr fresh ↦ absurd (ground arith)
    ]
    serve_dhcp-IsDue nak e = elim (Bool-cases (is_known d h p)) [
      | inl known ↦ ground (arith, nak-x_id d env ip p order addr hw visited)
      | inr fresh ↦ absurd (ground arith)
    ]
    serve_dhcp-IsDue ack e = elim (Bool-cases (is_known d h p)) [
      | inl known ↦ elim (Option-cases (record_lease d env p options h)) [
        | inl bad ↦ absurd (ground arith)
        | inr (g, recorded) ↦ ground (arith, ack-IsAnswer d env ip p order addr hw visited)
      ]
      | inr fresh ↦ absurd (ground arith)
    ]
    serve_dhcp-IsDue inform e = absurd (ground arith)
