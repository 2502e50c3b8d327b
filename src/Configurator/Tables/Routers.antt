-- ===== src/Configurator/Tables/Routers.antt =====
-- proxybatcher/configurator.go: a row of the table of the routers, and the router that is removed.
use dhcp_batcher.Common.{ℕ, suc, ◌≤◌, Bytes, str_eq_iff, Bool, true, some, ◌≡◌, arith, get_elem?}
use dhcp_batcher.GoSlice.Last.{contents-remove_last}
use dhcp_batcher.Options.{BatchRouterAuth}
use dhcp_batcher.Configurator.{zero_router}
use dhcp_batcher.Configurator.Pages.{callback, router_page, has_address, is_complete}
use dhcp_batcher.Configurator.Routers.{routers, HasRouters}
use dhcp_batcher.Configurator.Tables.{TableWidget}
use dhcp_batcher.Configurator.Tables.Fill.{ShowsRouters, show_routers-Shows, router_column}
use dhcp_batcher.Configurator.Tables.Removed.{without, get-below, Removes-last, remove_row-Shows}
use dhcp_batcher.Configurator.Tables.Screen.{Screen, press_add_router, select_router_row}

module _ (w : TableWidget) (is_ip : Bytes → Bool) (spare : ℕ → ℕ) where
  open w use {Table, row_count, cell, remove_row}

  -- The table after ADD ROUTER shows the list, if a router was added.
  pub press_add_router-Shows :
      (s : Screen w)
      → is_complete is_ip s.session.router ≡ true
      → ShowsRouters w
          (routers (press_add_router w is_ip spare s).session)
          (press_add_router w is_ip spare s).router_table
  unfolding press_add_router
  press_add_router-Shows s e = rw e (show_routers-Shows w _ s.router_table)

  -- If the table shows the list of routers and the row of one is selected after REMOVE ROUTER, the
  -- row that goes is that of the selected router, but the router that is removed from the list is
  -- the last one with its address.
  pub select_router_row-without :
      (s : Screen w) (i j : ℕ) (x y : BatchRouterAuth)
      → HasRouters is_ip s.session
      → s.session.removes_routers ≡ true
      → ShowsRouters w (routers s.session) s.router_table
      → get_elem? (routers s.session) i ≡ some x
      → get_elem? (routers s.session) j ≡ some y
      → y.router_ip ≡ x.router_ip
      → ((k : ℕ) (z : BatchRouterAuth)
          → get_elem? (routers s.session) k ≡ some z
          → z.router_ip ≡ x.router_ip
          → k ≤ j)
      → let t = select_router_row w is_ip spare (suc i) s in
        (routers t.session ≡ without j (routers s.session))
        × ShowsRouters w (without i (routers s.session)) t.router_table
  unfolding select_router_row callback router_page
  select_router_row-without s i j x y h on shows at_i at_j same last =
      let test = has_address x.router_ip in
      let ip : cell s.router_table (suc i) 0 ≡ x.router_ip = shows.cells i x 0 at_i (omega arith) in
      let list =
        Removes-last test j y
          (contents-remove_last test zero_router s.session.routers s.session.router_store h.fits)
          at_j ((str_eq_iff y.router_ip x.router_ip).1 same)
          (λ k z at hit. last k z at ((str_eq_iff z.router_ip x.router_ip).0 hit)) in
      simp (select_router_row, on, ip, router_page)
        (
          list,
          remove_row-Shows w router_column 3 (routers s.session) i s.router_table
              (get-below (routers s.session) i x at_i) shows,
        )
