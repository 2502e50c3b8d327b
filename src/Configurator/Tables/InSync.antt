-- ===== src/Configurator/Tables/InSync.antt =====
-- proxybatcher/configurator.go: the table of the DHCP servers and the list that is saved.
use mathlib.Core.Path.{subst}
use native.Mathlib.Nat.{le_of_eq}
use dhcp_batcher.Common.{
  ℕ, zero, suc, ◌<◌, Bytes, str_eq, str_eq_iff, str_eq_refl, Bool, true, false, some, List, [], ◌∷◌,
  ◌≡◌, ◌⊎◌, inl, inr, refl, sym, ap, ◌∙◌, arith, length, get_elem?, ltb, Bool-cases, if_both,
}
use dhcp_batcher.GoSlice.Last.{contents-remove_last}
use dhcp_batcher.Options.{ProgramConfig}
use dhcp_batcher.Configurator.{Session, open_session}
use dhcp_batcher.Configurator.Pages.{
  add_router, remove_router, select_router, add_server, remove_server, select_server, proxy_page,
  servers, UiEvent, on_routers, on_proxy, callback,
}
use dhcp_batcher.Configurator.Servers.{HasServers, callback-HasServers}
use dhcp_batcher.Configurator.Tables.{TableWidget, open_servers}
use dhcp_batcher.Configurator.Tables.Fill.{ShowsServers, show_servers-Shows, server_column}
use dhcp_batcher.Configurator.Tables.Removed.{without, get-below, Removes-last, remove_row-Shows}
use dhcp_batcher.Configurator.Tables.Kept.{
  AllDistinct-get, form_servers, router_servers, Removes-nil,
}
use dhcp_batcher.Configurator.Tables.Screen.{
  Screen, press_add_router, press_remove_router, select_router_row, press_add_server,
  press_remove_server, select_server_row, open_screen, Steps, opened, on_form, adds_router,
  removes_router, selects_router, adds_server, removes_server, selects_server,
}

module _ (w : TableWidget) (is_ip : Bytes → Bool) (spare : ℕ → ℕ) (load_yaml : Bool) where
  open w use {Table, row_count, cell, remove_row}

  -- The list is one of distinct addresses, and the table shows it, or the list is still empty; without
  -- loaded options the table is then empty too.
  pub record InSync (s : Session) (t : Table) : Type 0 where
    pub list : HasServers is_ip s
    pub table :
        ((load_yaml ≡ false → row_count t ≡ 0) × (servers s ≡ [])) ⊎ ShowsServers w (servers s) t

  -- A callback that keeps the list, over the same table.
  kept-InSync :
      (s : Session) (t : Table) (e : UiEvent)
      → servers (callback is_ip spare e s) ≡ servers s
      → InSync s t
      → InSync (callback is_ip spare e s) t
  kept-InSync s t e same h = record {
    list = callback-HasServers is_ip spare e s h.list;
    table =
        subst (λ l. ((load_yaml ≡ false → row_count t ≡ 0) × (l ≡ [])) ⊎ ShowsServers w l t)
          (sym same) h.table;
  }

  -- A text that is no address adds nothing.
  no_server :
      (text : Bytes) (s : Session)
      → is_ip text ≡ false
      → servers (callback is_ip spare (on_proxy (add_server text)) s) ≡ servers s
  unfolding callback proxy_page
  no_server text s bad = rw (proxy_page, bad) refl

  -- The button only makes the callback for rows.
  no_removal :
      (rows : ℕ) (s : Session)
      → servers (callback is_ip spare (on_proxy (remove_server rows)) s) ≡ servers s
  unfolding callback proxy_page
  no_removal rows s = elim (Bool-cases (ltb 1 rows)) [
    | inl e ↦ rw (proxy_page, e) refl
    | inr e ↦ rw (proxy_page, e) refl
  ]

  -- The server of a selected row is removed, and no other.
  selected_servers :
      (s : Session) (i : ℕ) (x : Bytes)
      → HasServers is_ip s
      → s.removes_servers ≡ true
      → get_elem? (servers s) i ≡ some x
      → servers (callback is_ip spare (on_proxy (select_server x)) s) ≡ without i (servers s)
  unfolding callback proxy_page
  selected_servers s i x h on got =
      rw (proxy_page, on)
        (Removes-last (λ v. str_eq v x) i x
          (contents-remove_last (λ v. str_eq v x) [] s.proxy.upstream_server_ips s.server_store
            h.fits)
          got (str_eq_refl x)
          (λ j y at same. le_of_eq (
            AllDistinct-get (servers s) i j x h.once got (at ∙ ap some ((str_eq_iff y x).0 same)))))

  selected_none :
      (s : Session) (ip : Bytes)
      → HasServers is_ip s
      → servers s ≡ []
      → servers (callback is_ip spare (on_proxy (select_server ip)) s) ≡ []
  unfolding callback proxy_page
  selected_none s ip h e =
      if_both (λ (u : Session). servers u ≡ []) s.removes_servers
        (λ on.
          Removes-nil (λ v. str_eq v ip)
            (contents-remove_last (λ v. str_eq v ip) [] s.proxy.upstream_server_ips s.server_store
              h.fits)
            e)
        (λ off. e)

  get-at : (vs : List Bytes) (i : ℕ) → i < length vs → (x : Bytes) × (get_elem? vs i ≡ some x)
  get-at [] i h = absurd (omega arith)
  get-at (v ∷ vs) zero h = (v, refl)
  get-at (v ∷ vs) (suc i) h = get-at vs i (omega arith)

  selected-InSync :
      (s : Session) (t : Table) (i : ℕ)
      → s.removes_servers ≡ true
      → suc i < row_count t
      → InSync s t
      → InSync
          (callback is_ip spare (on_proxy (select_server (cell t (suc i) 0))) s)
          (remove_row (suc i) t)
  selected-InSync s t i on below h = elim h.table [
    | inl (no_row, none_there) ↦ record {
      list = callback-HasServers is_ip spare (on_proxy (select_server (cell t (suc i) 0))) s h.list;
      table = inl (
        (λ fresh. absurd (omega (arith, no_row fresh))),
        selected_none s (cell t (suc i) 0) h.list none_there,
      );
    }
    | inr shows ↦
        let (x, got) = get-at (servers s) i (omega (arith, shows.rows)) in
        let same : cell t (suc i) 0 ≡ x = shows.cells i x 0 got (omega arith) in
        record {
          list =
              callback-HasServers is_ip spare (on_proxy (select_server (cell t (suc i) 0))) s
                h.list;
          table = inr (
              rw (same, selected_servers s i x h.list on got)
                (remove_row-Shows w server_column 1 (servers s) i t (get-below (servers s) i x got)
                  shows));
        }
  ]

  Steps-InSync_from :
      {start s : Screen w}
      → InSync start.session start.server_table
      → Steps w is_ip spare start s
      → InSync s.session s.server_table
  unfolding press_add_router press_remove_router select_router_row press_add_server
      press_remove_server select_server_row
  Steps-InSync_from h opened = h
  Steps-InSync_from h (on_form {s} steps e form) =
      kept-InSync s.session s.server_table e (form_servers is_ip spare e s.session form)
        (Steps-InSync_from h steps)
  Steps-InSync_from h (adds_router {s} steps) =
      kept-InSync s.session s.server_table (on_routers add_router)
        (router_servers is_ip spare add_router s.session) (Steps-InSync_from h steps)
  Steps-InSync_from h (removes_router {s} steps) =
      let e = remove_router (row_count s.router_table) in
      kept-InSync s.session s.server_table (on_routers e) (router_servers is_ip spare e s.session)
        (Steps-InSync_from h steps)
  Steps-InSync_from h (selects_router {s} steps i below) =
      let e = select_router (cell s.router_table (suc i) 0) in
      if_both (λ (u : Screen w). InSync u.session u.server_table) s.session.removes_routers
        (λ on.
          kept-InSync s.session s.server_table (on_routers e)
            (router_servers is_ip spare e s.session) (Steps-InSync_from h steps))
        (λ off. Steps-InSync_from h steps)
  Steps-InSync_from h (adds_server {s} steps text) = elim (Bool-cases (is_ip text)) [
    | inl good ↦ rw good (record {
      list =
          callback-HasServers is_ip spare (on_proxy (add_server text)) s.session
            (Steps-InSync_from h steps).list;
      table = inr (
          show_servers-Shows w
            (servers (callback is_ip spare (on_proxy (add_server text)) s.session)) s.server_table);
    })
    | inr bad ↦ rw bad (
        kept-InSync s.session s.server_table (on_proxy (add_server text))
          (no_server text s.session bad) (Steps-InSync_from h steps))
  ]
  Steps-InSync_from h (removes_server {s} steps) =
      kept-InSync s.session s.server_table (on_proxy (remove_server (row_count s.server_table)))
        (no_removal (row_count s.server_table) s.session) (Steps-InSync_from h steps)
  Steps-InSync_from h (selects_server {s} steps i below) =
      if_both (λ (u : Screen w). InSync u.session u.server_table) s.session.removes_servers
        (λ on. selected-InSync s.session s.server_table i on below (Steps-InSync_from h steps))
        (λ off. Steps-InSync_from h steps)

  open_screen-InSync :
      (options : ProgramConfig)
      → InSync
          (open_screen w is_ip spare load_yaml options).session
          (open_screen w is_ip spare load_yaml options).server_table
  unfolding open_screen open_session open_servers
  open_screen-InSync options = record {
    list = record { fits = tt; parsed = tt; once = tt };
    table = inl ((λ fresh. ground (arith, w.row_count-new)), refl);
  }

  -- Whatever the user does on the pages, over loaded options or none, the list of DHCP servers has
  -- only texts that parse as addresses, none of them twice, and either the table shows exactly that
  -- list, one row for each server in their order below the header, or the list is empty, and then
  -- without loaded options so is the table.
  pub Steps-InSync :
      (options : ProgramConfig) {s : Screen w}
      → Steps w is_ip spare (open_screen w is_ip spare load_yaml options) s
      → InSync s.session s.server_table
  Steps-InSync options = Steps-InSync_from (open_screen-InSync options)
