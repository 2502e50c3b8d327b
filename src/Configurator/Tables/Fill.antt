-- ===== src/Configurator/Tables/Fill.antt =====
-- What a loop that fills a table of proxybatcher/configurator.go leaves in it.
use dhcp_batcher.Common.{
  ℕ, zero, suc, ◌+◌, ◌-◌, ◌<◌, ◌≤◌, Bytes, bytes, Bool, true, ◌&&◌, some, List, [], ◌∷◌, ◌≡◌, refl,
  ap, ◌∙◌, arith, length, get_elem?, ◌==◌, if◌then◌else◌, Bool-cases, inl, inr, some-injective,
}
use dhcp_batcher.Options.{BatchRouterAuth}
use dhcp_batcher.Configurator.Forms.{server_rows}
use dhcp_batcher.Configurator.Tables.{
  TableWidget, fill, router_header, put_router, show_routers, open_routers, server_header,
  put_server, show_servers, fill_loaded, open_servers,
}

module _ {ℓ} {A : Type ℓ} (w : TableWidget) (column : A → ℕ → Bytes) (width : ℕ) where
  open w use {Table, row_count, cell, insert_row}

  -- The table shows a list: one row for each element, in their order, below the header.
  pub record Shows (xs : List A) (t : Table) : Type ℓ where
    pub rows : row_count t ≡ suc (length xs)
    pub cells :
        (i : ℕ) (x : A) (c : ℕ)
        → get_elem? xs i ≡ some x
        → c < width
        → cell t (suc i) c ≡ column x c

  -- What a step of the loop does to a table that ends above its row.
  pub record Puts (put : A → ℕ → Table → Table) : Type ℓ where
    pub count : (v : A) (k : ℕ) (t : Table) → row_count t ≡ k → row_count (put v k t) ≡ suc k
    pub here : (v : A) (k c : ℕ) (t : Table) → c < width → cell (put v k t) k c ≡ column v c
    pub above : (v : A) (k r c : ℕ) (t : Table) → r < k → cell (put v k t) r c ≡ cell t r c

  module _ (put : A → ℕ → Table → Table) (puts : Puts put) where
    -- The rows of an element and of those behind it.
    row_at :
        (t : Table) (v : A) (vs : List A) (k i : ℕ) (x : A) (c : ℕ)
        → get_elem? (v ∷ vs) i ≡ some x
        → cell t (k + 1) c ≡ column v c
        → ((j : ℕ) → get_elem? vs j ≡ some x → cell t (suc (suc k) + j) c ≡ column x c)
        → cell t (suc k + i) c ≡ column x c
    row_at t v vs k zero x c got here later =
        let e : suc k + 0 ≡ k + 1 = omega arith in
        rw e (here ∙ ap (λ y. column y c) (some-injective got))
    row_at t v vs k (suc i) x c got here later =
        let e : suc k + suc i ≡ suc (suc k) + i = omega arith in rw e (later i got)

    -- The loop from round `k` over a table of a header and `k` rows.
    pub fill_lem :
        (k : ℕ) (xs : List A) (t : Table)
        → row_count t ≡ suc k
        → (row_count (fill w put k xs t) ≡ suc k + length xs)
          × ((r c : ℕ) → r ≤ k → cell (fill w put k xs t) r c ≡ cell t r c)
          × ((i : ℕ) (x : A) (c : ℕ)
              → get_elem? xs i ≡ some x
              → c < width
              → cell (fill w put k xs t) (suc k + i) c ≡ column x c)
    unfolding fill
    fill_lem k [] t e = (omega (arith, e), λ r c h. refl, λ i x c got h. absurd (ground arith))
    fill_lem k (v ∷ vs) t e =
        let t' = put v (k + 1) (insert_row (k + 1) t) in
        let same : insert_row (k + 1) t ≡ t = w.insert_row_end (k + 1) t (omega (arith, e)) in
        let count : row_count t' ≡ suc (suc k) =
          rw same (puts.count v (k + 1) t (omega (arith, e)) ∙ omega arith) in
        let (n, above, below) = fill_lem (suc k) vs t' count in
        (
          omega (arith, n),
          λ r c h. above r c (omega arith) ∙ rw same (puts.above v (k + 1) r c t (omega arith)),
          λ i x c got h.
              row_at (fill w put (suc k) vs t') v vs k i x c got
                (above (k + 1) c (omega arith) ∙ puts.here v (k + 1) c (insert_row (k + 1) t) h)
                (λ j e. below j x c e h),
        )

    -- Filling a table that has only its header makes it show the list.
    pub fill-Shows : (xs : List A) (t : Table) → row_count t ≡ 1 → Shows xs (fill w put 0 xs t)
    fill-Shows xs t e =
        let (n, above, below) = fill_lem 0 xs t e in
        record {
          rows = omega (arith, n);
          cells =
              λ i x c got h. let same : suc i ≡ 1 + i = omega arith in rw same (below i x c got h);
        }

-- The columns of the two tables.
abbrev pub router_column : BatchRouterAuth → ℕ → Bytes
router_column v zero = v.router_ip
router_column v (suc zero) = v.username
router_column v (suc (suc c)) = v.password

abbrev pub server_column : Bytes → ℕ → Bytes
server_column v c = v

module _ (w : TableWidget) where
  open w use {Table, row_count, cell, clear, set_cell, row_count-set_cell, cell-set_cell}

  abbrev pub ShowsRouters : List BatchRouterAuth → Table → Type 0
  ShowsRouters = Shows w router_column 3

  abbrev pub ShowsServers : List Bytes → Table → Type 0
  ShowsServers = Shows w server_column 1

  put_server-Puts : Puts w server_column 1 (put_server w)
  unfolding put_server
  put_server-Puts = record {
    count = λ v k t e. ground (arith, row_count-set_cell k 0 v t);
    here = λ v k c t h. ground (arith, cell-set_cell k 0 v t k c);
    above = λ v k r c t h. ground (arith, cell-set_cell k 0 v t r c);
  }

  put_router-here :
      (v : BatchRouterAuth) (k c : ℕ) (t : Table)
      → c < 3
      → cell (put_router w v k t) k c ≡ router_column v c
  unfolding put_router
  put_router-here v k c t h =
      let t1 = set_cell k 0 v.router_ip t in
      let t2 = set_cell k 1 v.username t1 in
      let last = cell-set_cell k 2 v.password t2 k c in
      let middle = cell-set_cell k 1 v.username t1 k c in
      let first = cell-set_cell k 0 v.router_ip t k c in by_column c h _ _ _ _ last middle first
    where
      by_column :
          (c : ℕ)
          → c < 3
          → (a b x y : Bytes) → a ≡ (if k == k && 2 == c then v.password else b)
          → b ≡ (if k == k && 1 == c then v.username else x)
          → x ≡ (if k == k && 0 == c then v.router_ip else y)
          → a ≡ router_column v c
      by_column zero h a b x y last middle first = ground arith
      by_column (suc zero) h a b x y last middle first = ground arith
      by_column (suc (suc zero)) h a b x y last middle first = ground arith
      by_column (suc (suc (suc c))) h a b x y last middle first = absurd (omega arith)

  put_router-Puts : Puts w router_column 3 (put_router w)
  unfolding put_router
  put_router-Puts = record {
    count = λ v k t e.
        let t1 = set_cell k 0 v.router_ip t in
        let t2 = set_cell k 1 v.username t1 in
        ground (
          arith,
          row_count-set_cell k 0 v.router_ip t,
          row_count-set_cell k 1 v.username t1,
          row_count-set_cell k 2 v.password t2,
        );
    here = λ v k c t h. put_router-here v k c t h;
    above = λ v k r c t h.
        let t1 = set_cell k 0 v.router_ip t in
        let t2 = set_cell k 1 v.username t1 in
        ground (
          arith,
          cell-set_cell k 0 v.router_ip t r c,
          cell-set_cell k 1 v.username t1 r c,
          cell-set_cell k 2 v.password t2 r c,
        );
  }

  server_header-rows : (t : Table) → row_count t ≡ 0 → row_count (server_header w t) ≡ 1
  unfolding server_header
  server_header-rows t e = ground (arith, row_count-set_cell 0 0 (bytes "Upstream DHCP Server") t)

  router_header-rows : (t : Table) → row_count t ≡ 0 → row_count (router_header w t) ≡ 1
  unfolding router_header
  router_header-rows t e =
      let t1 = set_cell 0 0 (bytes "Router IP") t in
      let t2 = set_cell 0 1 (bytes "Username") t1 in
      ground (
        arith,
        row_count-set_cell 0 0 (bytes "Router IP") t,
        row_count-set_cell 0 1 (bytes "Username") t1,
        row_count-set_cell 0 2 (bytes "Password") t2,
      )

  -- After ADD the tables show the lists.
  pub show_servers-Shows :
      (servers : List Bytes) (t : Table) → ShowsServers servers (show_servers w servers t)
  unfolding show_servers
  show_servers-Shows servers t =
      fill-Shows w server_column 1 (put_server w) put_server-Puts servers
        (server_header w (clear t)) (server_header-rows (clear t) (w.row_count-clear t))

  pub show_routers-Shows :
      (routers : List BatchRouterAuth) (t : Table) → ShowsRouters routers (show_routers w routers t)
  unfolding show_routers
  show_routers-Shows routers t =
      fill-Shows w router_column 3 (put_router w) put_router-Puts routers
        (router_header w (clear t)) (router_header-rows (clear t) (w.row_count-clear t))

  -- A page that opens over loaded options shows all its routers, and the servers that are addresses.
  pub open_routers-Shows :
      (routers : List BatchRouterAuth) → ShowsRouters routers (open_routers w true routers)
  unfolding open_routers
  open_routers-Shows routers =
      fill-Shows w router_column 3 (put_router w) put_router-Puts routers (router_header w w.new)
        (router_header-rows w.new w.row_count-new)

  fill_loaded-fill :
      (is_ip : Bytes → Bool) (k rem : ℕ) (vs : List Bytes) (t : Table)
      → rem ≤ k
      → fill_loaded w is_ip k rem vs t ≡ fill w (put_server w) (k - rem) (server_rows is_ip vs) t
  unfolding fill_loaded fill server_rows
  fill_loaded-fill is_ip k rem [] t h = refl
  fill_loaded-fill is_ip k rem (v ∷ vs) t h = elim (Bool-cases (is_ip v)) [
    | inl good ↦
        let here : k + 1 - rem ≡ k - rem + 1 = omega arith in
        let next : suc k - rem ≡ suc (k - rem) = omega arith in
        let t' = put_server w v (k - rem + 1) (w.insert_row (k - rem + 1) t) in
        rw (good, here)
          (fill_loaded-fill is_ip (suc k) rem vs t' (omega arith)
            ∙ ap (λ n. fill w (put_server w) n (server_rows is_ip vs) t') next)
    | inr bad ↦
        let next : suc k - (rem + 1) ≡ k - rem = omega arith in
        rw bad (
          fill_loaded-fill is_ip (suc k) (rem + 1) vs t (omega arith)
          ∙ ap (λ n. fill w (put_server w) n (server_rows is_ip vs) t) next)
  ]

  pub open_servers-Shows :
      (is_ip : Bytes → Bool) (servers : List Bytes)
      → ShowsServers (server_rows is_ip servers) (open_servers w is_ip true servers)
  unfolding open_servers
  open_servers-Shows is_ip servers =
      let t = server_header w (clear w.new) in
      rw (fill_loaded-fill is_ip 0 0 servers t (omega arith)) (
        fill-Shows w server_column 1 (put_server w) put_server-Puts (server_rows is_ip servers) t
          (server_header-rows (clear w.new) (w.row_count-clear w.new)))
