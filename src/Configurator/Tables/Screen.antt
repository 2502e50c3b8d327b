-- ===== src/Configurator/Tables/Screen.antt =====
-- proxybatcher/configurator.go: the pages with their tables, in any sequence of what the user does. The
-- buttons of the lists change the tables too, and a row that is selected says what is removed.
use dhcp_batcher.Common.{ℕ, suc, ◌<◌, Bytes, Bool, if◌then◌else◌}
use dhcp_batcher.Options.{ProgramConfig}
use dhcp_batcher.Configurator.{Session, open_session}
use dhcp_batcher.Configurator.Routers.{routers}
use dhcp_batcher.Configurator.Pages.{
  add_router, remove_router, select_router, add_server, remove_server, select_server, servers,
  UiEvent, on_routers, on_proxy, callback, is_complete,
}
use dhcp_batcher.Configurator.Tables.{
  TableWidget, show_routers, open_routers, show_servers, open_servers,
}

-- The callbacks that neither read nor change a table.
abbrev pub IsForm : UiEvent → Type 0
IsForm (on_routers add_router) = ⊥
IsForm (on_routers (remove_router rows)) = ⊥
IsForm (on_routers (select_router ip)) = ⊥
IsForm (on_proxy (add_server text)) = ⊥
IsForm (on_proxy (remove_server rows)) = ⊥
IsForm (on_proxy (select_server ip)) = ⊥
IsForm e = Unit

module _ (w : TableWidget) where
  open w use {Table, row_count, cell, remove_row}

  pub record Screen : Type 0 where
    pub session : Session
    pub router_table : Table
    pub server_table : Table

  module _ (is_ip : Bytes → Bool) (spare : ℕ → ℕ) where
    -- ADD ROUTER: the table is shown again where the router was added.
    unfoldable pub press_add_router : Screen → Screen
    press_add_router s =
        let next = callback is_ip spare (on_routers add_router) s.session in
        record s {
          session = next;
          router_table =
              if is_complete is_ip s.session.router
              then show_routers w (routers next) s.router_table
              else s.router_table;
        }

    unfoldable pub press_remove_router : Screen → Screen
    press_remove_router s = record s {
      session =
          callback is_ip spare (on_routers (remove_router (row_count s.router_table))) s.session;
    }

    -- A row of the table is selected: the callback is there once REMOVE ROUTER was pressed.
    unfoldable pub select_router_row : ℕ → Screen → Screen
    select_router_row row s =
        let ip = cell s.router_table row 0 in
        if s.session.removes_routers
        then record s {
          session = callback is_ip spare (on_routers (select_router ip)) s.session;
          router_table = remove_row row s.router_table;
        }
        else s

    -- The same for the DHCP servers; the table is shown again for every text that is an address.
    unfoldable pub press_add_server : Bytes → Screen → Screen
    press_add_server text s =
        let next = callback is_ip spare (on_proxy (add_server text)) s.session in
        record s {
          session = next;
          server_table =
              if is_ip text then show_servers w (servers next) s.server_table else s.server_table;
        }

    unfoldable pub press_remove_server : Screen → Screen
    press_remove_server s = record s {
      session =
          callback is_ip spare (on_proxy (remove_server (row_count s.server_table))) s.session;
    }

    unfoldable pub select_server_row : ℕ → Screen → Screen
    select_server_row row s =
        let ip = cell s.server_table row 0 in
        if s.session.removes_servers
        then record s {
          session = callback is_ip spare (on_proxy (select_server ip)) s.session;
          server_table = remove_row row s.server_table;
        }
        else s

    -- The screen when the pages have been built.
    unfoldable pub open_screen : Bool → ProgramConfig → Screen
    open_screen load_yaml options = record {
      session = open_session spare load_yaml options;
      router_table = open_routers w load_yaml options.batch.routers;
      server_table = open_servers w is_ip load_yaml options.proxy.upstream_server_ips;
    }

    -- What the user can do. The header cannot be selected, and a row that is selected is there.
    pub data Steps (start : Screen) : Screen → Type 0 where
      opened : Steps start start
      on_form :
          {s : Screen}
          → Steps start s
          → (e : UiEvent) → IsForm e
          → Steps start (record s { session = callback is_ip spare e s.session })
      adds_router : {s : Screen} → Steps start s → Steps start (press_add_router s)
      removes_router : {s : Screen} → Steps start s → Steps start (press_remove_router s)
      selects_router :
          {s : Screen}
          → Steps start s
          → (i : ℕ) → suc i < row_count s.router_table
          → Steps start (select_router_row (suc i) s)
      adds_server :
          {s : Screen} → Steps start s → (text : Bytes) → Steps start (press_add_server text s)
      removes_server : {s : Screen} → Steps start s → Steps start (press_remove_server s)
      selects_server :
          {s : Screen}
          → Steps start s
          → (i : ℕ) → suc i < row_count s.server_table
          → Steps start (select_server_row (suc i) s)
