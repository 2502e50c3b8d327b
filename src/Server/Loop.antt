-- ===== src/Server/Loop.antt =====
-- Many rounds of Serve (proxybatcher/proxy_server.go), from a handler that has seen a past of packets.
use mathlib.Core.List.{Permᴰ, append_assoc}
use mathlib.Core.Path.{subst}
use dhcp_batcher.Common.{
  ℕ, ◌≤◌, Bytes, Option, none, some, List, [], ◌∷◌, ◌++◌, ◌≡◌, ◌⊎◌, inl, inr, refl, sym, ◌∙◌, arith,
  All, ltb, ◌==◌, ◌>>=◌, >>=-eq-some, All-append, Option-cases, Bool-cases,
}
use dhcp_batcher.Dhcp.{Dhcp, boot_request}
use dhcp_batcher.Lease.{option, to4}
use dhcp_batcher.Proxy.{MessageType, Handler, Env, serve_dhcp}
use dhcp_batcher.Proxy.Trace.{Began, Trace, step, known_iff}
use dhcp_batcher.Server.{
  ServeIfConn, option_message_type, message_type, Datagram, Write, read_from, write_to, upstream,
  downstream, dispatch, serve, serve_loop,
}
use dhcp_batcher.Server.Due.{serve_dhcp-IsDue}

pub pair-injective :
    {A B : Type 0} {a b : A} {x y : B}
    → ◌≡◌ {A = Option (A × B)} (some (a, x)) (some (b, y))
    → (a ≡ b) × (x ≡ y)
pair-injective e = (cc, cc)

module _ (d : Dhcp) (env : Env) (ip : Bytes) (addr : to4 env.proxy_server_ip ≡ some ip) where
  open d use {Packet, view, parse_options}

  module _ (conn : ServeIfConn) (servers : List Bytes) where
    upstream-packet :
        (cm : Option ℕ) (q : Packet) (ips : List Bytes) {ws : List (Write d)}
        → upstream d conn cm env q ips ≡ some ws
        → All (λ (w : Write d). w.packet ≡ q) ws
    unfolding upstream write_to
    upstream-packet cm q [] e = ground arith
    upstream-packet none q (v ∷ ips) e = absurd (ground arith)
    upstream-packet (some i) q (v ∷ ips) e =
        elim (Option-cases (upstream d conn (some i) env q ips)) [
          | inl bad ↦ absurd (ground arith)
          | inr (rest, run) ↦ ground (arith, upstream-packet (some i) q ips run)
        ]

    dispatch-packet :
        (cm : Option ℕ) (q : Packet) {ws : List (Write d)}
        → dispatch d conn cm env servers (some q) ≡ some ws
        → All (λ (w : Write d). w.packet ≡ q) ws
    unfolding dispatch downstream write_to
    dispatch-packet cm q e = elim (Bool-cases ((view q).op_code == 1)) [
      | inl up ↦ upstream-packet cm q servers (ground arith)
      | inr down ↦ ground arith
    ]

    -- A write of a packet that is a request, or of a transaction that was begun.
    abbrev pub IsAsked : List (MessageType × Bytes) → Write d → Type 0
    IsAsked past w = ((view w.packet).op_code ≡ boot_request) ⊎ Began (view w.packet).x_id past

    All-IsAsked :
        (past : List (MessageType × Bytes)) (q : Packet) (ws : List (Write d))
        → ((view q).op_code ≡ boot_request) ⊎ Began (view q).x_id past
        → All (λ (w : Write d). w.packet ≡ q) ws
        → All (IsAsked past) ws
    All-IsAsked past q [] due h = tt
    All-IsAsked past q (w ∷ ws) due (same, later) = (
      subst (λ r. ((view r).op_code ≡ boot_request) ⊎ Began (view r).x_id past) (sym same) due,
      All-IsAsked past q ws due later,
    )

    IsAsked-cons :
        (m : MessageType × Bytes) (past : List (MessageType × Bytes)) (ws : List (Write d))
        → All (IsAsked past) ws
        → All (IsAsked (m ∷ past)) ws
    IsAsked-cons m past [] h = tt
    IsAsked-cons m past (w ∷ ws) (inl op, later) = (inl op, IsAsked-cons m past ws later)
    IsAsked-cons m past (w ∷ ws) (inr began, later) =
        (inr (inr began), IsAsked-cons m past ws later)

    serve-cases :
        (order : List (ℕ × Bytes)) (g : Datagram d) (h : Handler)
        → (serve d conn env servers order g h ≡ some (h, []))
          ⊎ ((t : MessageType) × ((view g.packet).h_len ≤ 16)
              × (serve d conn env servers order g h ≡ (do
                (h', res) ← serve_dhcp d env order g.packet t (parse_options g.packet) h
                ws ← dispatch d conn g.index env servers res
                some (h', ws))))
    unfolding serve
    serve-cases order g h = elim (Bool-cases (ltb (read_from d conn g) 240)) [
      | inl small ↦ inl (rw (small, serve) refl)
      | inr large ↦ elim (Bool-cases (ltb 16 (view g.packet).h_len)) [
        | inl wide ↦ inl (rw (large, serve, wide) refl)
        | inr narrow ↦
            elim (Option-cases
              (message_type (option option_message_type (parse_options g.packet)))) [
                | inl other ↦ inl (rw (large, serve, narrow, other) refl)
                | inr (t, type) ↦ inr (t, ground arith, rw (large, serve, narrow, type) refl)
              ]
      ]
    ]

    written-IsAsked :
        (order : List (ℕ × Bytes)) (g : Datagram d) (t : MessageType) (h h' : Handler)
        (past : List (MessageType × Bytes)) (res : Option Packet) (ws : List (Write d))
        → (view g.packet).h_len ≤ 16
        → Permᴰ (parse_options g.packet) order
        → Trace d past h
        → serve_dhcp d env order g.packet t (parse_options g.packet) h ≡ some (h', res)
        → dispatch d conn g.index env servers res ≡ some ws
        → All (IsAsked past) ws
    unfolding dispatch
    written-IsAsked order g t h h' past none ws hw visited seen run sent = ground arith
    written-IsAsked order g t h h' past (some q) ws hw visited seen run sent =
        let (same, due) =
          serve_dhcp-IsDue d env ip addr g.packet order (parse_options g.packet) h hw visited t
            run in
        let began = known_iff d seen g.packet in
        All-IsAsked past q ws (ground (arith, same, due, began)) (dispatch-packet g.index q sent)

    -- What a round or several of them come to: a longer past, and writes that were asked for.
    abbrev pub Continues : List (MessageType × Bytes) → Handler → List (Write d) → Type 0
    Continues past h' ws =
        (more : List (MessageType × Bytes)) × Trace d (more ++ past) h'
        × All (IsAsked (more ++ past)) ws

    serve-Continues :
        (order : List (ℕ × Bytes)) (g : Datagram d) (h h' : Handler)
        (past : List (MessageType × Bytes)) (ws : List (Write d))
        → Permᴰ (parse_options g.packet) order
        → Trace d past h
        → serve d conn env servers order g h ≡ some (h', ws)
        → Continues past h' ws
    serve-Continues order g h h' past ws visited seen e = elim (serve-cases order g h) [
      | inl idle ↦
          let (same, none_sent) = pair-injective (sym idle ∙ e) in
          ([], subst (Trace d past) same seen, subst (All (IsAsked past)) none_sent tt)
      | inr (t, hw, shape) ↦
          let ((h1, res), run, e1) =
            >>=-eq-some (serve_dhcp d env order g.packet t (parse_options g.packet) h) _
              (sym shape ∙ e) in
          let (ws1, sent, e2) = >>=-eq-some (dispatch d conn g.index env servers res) _ e1 in
          let (same, same_ws) = pair-injective e2 in
          let m : MessageType × Bytes = (t, (view g.packet).x_id) in
          (
            m ∷ [],
            subst (Trace d (m ∷ past)) same
                (step env order g.packet t (parse_options g.packet) res seen run),
            subst (All (IsAsked (m ∷ past))) same_ws (
                IsAsked-cons m past ws1
                  (written-IsAsked order g t h h1 past res ws1 hw visited seen run sent)),
          )
    ]

    IsAsked-append :
        (more past : List (MessageType × Bytes)) (ws : List (Write d))
        → All (IsAsked past) ws
        → All (IsAsked (more ++ past)) ws
    IsAsked-append [] past ws h = h
    IsAsked-append (m ∷ more) past ws h =
        IsAsked-cons m (more ++ past) ws (IsAsked-append more past ws h)

    -- The order of every read is one of its packet's options.
    abbrev pub AllVisited : List (List (ℕ × Bytes) × Datagram d) → Type 0
    AllVisited [] = Unit
    AllVisited ((order, g) ∷ reads) = Permᴰ (parse_options g.packet) order × AllVisited reads

    -- If the proxy has an IPv4 address and the rounds of Serve over a list of reads end without a
    -- panic, from a handler that has seen a past of packets and with any order of the loops over
    -- the options, the handler they end with has seen a longer past, and every packet that they
    -- wrote is a request or belongs to a transaction that a DISCOVER or a REQUEST of that past
    -- began.
    pub serve_loop-Continues :
        (reads : List (List (ℕ × Bytes) × Datagram d)) (h h' : Handler)
        (past : List (MessageType × Bytes)) (ws : List (Write d))
        → AllVisited reads
        → Trace d past h
        → serve_loop d conn env servers reads h ≡ some (h', ws)
        → Continues past h' ws
    unfolding serve_loop
    serve_loop-Continues [] h h' past ws visited seen e =
        let (same, none_sent) = pair-injective e in
        ([], subst (Trace d past) same seen, subst (All (IsAsked past)) none_sent tt)
    serve_loop-Continues ((order, g) ∷ reads) h h' past ws (here, later) seen e =
        let ((h1, ws1), run, e1) = >>=-eq-some (serve d conn env servers order g h) _ e in
        let ((h2, ws2), rest, e2) = >>=-eq-some (serve_loop d conn env servers reads h1) _ e1 in
        let (same, same_ws) = pair-injective e2 in
        let (more1, tr1, asked1) = serve-Continues order g h h1 past ws1 here seen run in
        let (more2, tr2, asked2) =
          serve_loop-Continues reads h1 h2 (more1 ++ past) ws2 later tr1 rest in
        let group = sym (append_assoc more2 more1 past) in
        let asked =
          All-append (IsAsked (more2 ++ (more1 ++ past))) ws1 ws2
            (IsAsked-append more2 (more1 ++ past) ws1 asked1) asked2 in
        (
          more2 ++ more1,
          subst (λ l. Trace d l h') group (subst (Trace d (more2 ++ (more1 ++ past))) same tr2),
          subst (λ l. All (IsAsked l) ws) group
              (subst (All (IsAsked (more2 ++ (more1 ++ past)))) same_ws asked),
        )
