-- ===== src/Proxy/Copied.antt =====
-- The packets that ServeDHCP (proxybatcher/proxy_handler.go) builds of a server's packet, field by
-- field, and the options that it copies to a NAK.
use mathlib.Core.List.{append_assoc, append-nil}
use dhcp_batcher.Common.{
  ℕ, ◌≤◌, Bytes, some, List, [], ◌∷◌, ◌++◌, ◌≡◌, ◌≢◌, ◌⊎◌, inl, inr, refl, sym, ap, ◌∙◌, arith,
  length, All, ◌==◌, if◌then◌else◌, length-drop, Bool-cases,
}
use dhcp_batcher.Lease.{to4}
use dhcp_batcher.Dhcp.{Fields, Dhcp, IsStorable, boot_reply, blank, last_option}
use dhcp_batcher.Proxy.{
  Env, proxy_id, option_server_identifier, add_nak_options, offer_packet, ack_packet, nak_packet,
}

-- The options that the NAK case adds.
abbrev pub renamed : Bytes → List (ℕ × Bytes) → List (ℕ × Bytes)
renamed ip [] = []
renamed ip ((k, v) ∷ opts) = (k, if k == option_server_identifier then ip else v) ∷ renamed ip opts

pub last_option-renamed :
    (ip : Bytes) (c : ℕ) (opts : List (ℕ × Bytes)) (v : Bytes)
    → c ≢ option_server_identifier
    → last_option c (renamed ip opts) v ≡ last_option c opts v
unfolding last_option
last_option-renamed ip c [] v h = refl
last_option-renamed ip c ((k, w) ∷ opts) v h =
    ground (arith, last_option-renamed ip c opts w h, last_option-renamed ip c opts v h)

-- Either the server identifier is not among the options or the proxy's address replaces it.
last_option-renamed_id :
    (ip : Bytes) (opts : List (ℕ × Bytes))
    → ((v : Bytes)
        → (last_option option_server_identifier opts v ≡ v)
          × (last_option option_server_identifier (renamed ip opts) v ≡ v))
      ⊎ ((v : Bytes) → last_option option_server_identifier (renamed ip opts) v ≡ ip)
unfolding last_option
last_option-renamed_id ip [] = inl (λ v. (refl, refl))
last_option-renamed_id ip ((k, w) ∷ opts) = elim (last_option-renamed_id ip opts) [
  | inr always ↦ inr (λ v. ground (arith, always v, always ip))
  | inl never ↦ elim (Bool-cases (k == option_server_identifier)) [
    | inl e ↦ inr (λ v. ground (arith, never ip))
    | inr e ↦ inl (λ v. ground (arith, never v))
  ]
]

-- If the packet named a server, its copy names the proxy.
pub renamed-server_identifier :
    (ip : Bytes) (opts : List (ℕ × Bytes))
    → last_option option_server_identifier opts [] ≢ []
    → last_option option_server_identifier (renamed ip opts) [] ≡ ip
renamed-server_identifier ip opts named = elim (last_option-renamed_id ip opts) [
  | inr always ↦ always []
  | inl never ↦ absurd (named (never []).0)
]

pub to4-length : (ip v : Bytes) → to4 ip ≡ some v → length v ≡ 4
unfolding to4
to4-length ip v h = ground (arith, length-drop 12 ip)

module _ (d : Dhcp) where
  open d use {Packet, view, parse_options}

  add_nak_option-view :
      (env : Env) (k : ℕ) (v : Bytes) (p : Packet)
      → length (proxy_id env) ≤ 255
      → IsStorable (k, v)
      → view (
          if k == option_server_identifier
          then d.add_option k (proxy_id env) p
          else d.add_option k v p)
        ≡ record (view p) {
          options =
              (view p).options
              ++ (k, if k == option_server_identifier then proxy_id env else v) ∷ [];
        }
  add_nak_option-view env k v p small fits =
      let (bound, low, high) = fits in
      ground (
        arith,
        d.add_option-view k v p fits,
        d.add_option-view k (proxy_id env) p (small, low, high),
      )

  pub add_nak_options-view :
      (env : Env) (order : List (ℕ × Bytes)) (p : Packet)
      → length (proxy_id env) ≤ 255
      → All IsStorable order
      → view (add_nak_options d env order p)
        ≡ record (view p) { options = (view p).options ++ renamed (proxy_id env) order }
  unfolding add_nak_options
  add_nak_options-view env [] p small h =
      ap (λ o. record (view p) { options = o }) (sym (append-nil (view p).options))
  add_nak_options-view env ((k, v) ∷ order) p small (fits, h) =
      let v' = if k == option_server_identifier then proxy_id env else v in
      let opts = renamed (proxy_id env) order in
      let p' =
        if k == option_server_identifier
        then d.add_option k (proxy_id env) p
        else d.add_option k v p in
      add_nak_options-view env order p' small h
      ∙ (ap (λ (f : Fields). record f { options = f.options ++ opts })
            (add_nak_option-view env k v p small fits)
          ∙ ap (λ o. record (view p) { options = o })
              (append_assoc (view p).options ((k, v') ∷ []) opts))

  -- What the three cases copy.
  abbrev pub copied : Packet → Fields
  copied p = record (blank boot_reply) {
    x_id = (view p).x_id;
    file = (view p).file;
    flags = (view p).flags;
    yi_addr = (view p).yi_addr;
    gi_addr = (view p).gi_addr;
    si_addr = (view p).si_addr;
    ch_addr = (view p).ch_addr;
    h_len = (view p).h_len;
    secs = (view p).secs;
  }

  module _ (p : Packet) (hw : (view p).h_len ≤ 16) where
    pub offer_packet-view : view (offer_packet d p) ≡ copied p
    unfolding offer_packet
    offer_packet-view = grind (
      arith, d.new_packet-view, d.set_ch_addr-view, d.set_file-view, d.set_flags-view,
      d.set_yi_addr-view, d.set_si_addr-view, d.set_gi_addr-copy, d.set_x_id-view, d.set_secs-view,
    )

    pub ack_packet-view : view (ack_packet d p) ≡ copied p
    unfolding ack_packet
    ack_packet-view = grind (
      arith, d.new_packet-view, d.set_ch_addr-view, d.set_file-view, d.set_flags-view,
      d.set_yi_addr-view, d.set_si_addr-view, d.set_gi_addr-copy, d.set_x_id-view, d.set_secs-view,
    )

    pub nak_packet-view : view (nak_packet d p) ≡ copied p
    unfolding nak_packet
    nak_packet-view = grind (
      arith, d.new_packet-view, d.set_ch_addr-view, d.set_file-view, d.set_flags-view,
      d.set_yi_addr-view, d.set_si_addr-view, d.set_gi_addr-copy, d.set_x_id-view, d.set_secs-view,
    )
