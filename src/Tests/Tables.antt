-- ===== src/Tests/Tables.antt =====
-- Tests of the tables and the menu of proxybatcher/configurator.go, over models of the widgets, and of the
-- next start of the program.
use dhcp_batcher.Common.{
  ℕ, zero, suc, sym, ap, ◌+◌, ◌-◌, ◌<◌, ◌≤◌, Bytes, bytes, str_eq, is_empty, Bool, true, false,
  ◌&&◌, some, [], ◌∷◌, ◌≡◌, ◌↔◌, refl, arith, ltb, lt→ltb, ◌==◌, get_elem?, if◌then◌else◌,
}
use dhcp_batcher.GoSlice.{append, replicate}
use dhcp_batcher.Options.{ProgramConfig, BatchRouterAuth}
use dhcp_batcher.Configurator.{open_session}
use dhcp_batcher.Configurator.Pages.{
  callback, proxy_page, router_page, is_found, on_routers, remove_router, session,
}
use dhcp_batcher.Configurator.Tables.{
  TableWidget, fill, server_header, put_server, show_servers, open_servers, open_routers,
  router_header, put_router,
}
use dhcp_batcher.Configurator.Tables.Screen.{
  Screen, press_add_server, press_remove_server, select_server_row, open_screen,
  press_remove_router, select_router_row, Steps, opened, adds_server, removes_server,
  selects_server,
}
use dhcp_batcher.Configurator.Tables.InSync.{InSync, Steps-InSync}
use dhcp_batcher.Configurator.Tables.Fill.{ShowsRouters, open_routers-Shows}
use dhcp_batcher.Configurator.Tables.Removed.{without}
use dhcp_batcher.Configurator.Tables.Routers.{select_router_row-without}
use dhcp_batcher.Configurator.Routers.{routers, HasRouters, session-HasRouters}
use mathlib.Core.Path.{subst}
use dhcp_batcher.Configurator.Menu.{
  PagesWidget, MenuItem, proxy_options, batch_options, page_of, chosen, router_table, server_table,
}
use dhcp_batcher.Configurator.Menu.Visible.{chosen-shows}
use dhcp_batcher.Tests.Options.{sys, batch_options as loaded_options}

-- A table as its number of rows and its cells.
abbrev Cells : Type 0
Cells = ℕ × (ℕ → ℕ → Bytes)

abbrev put : ℕ → ℕ → Bytes → Cells → Cells
put r c x (n, f) =
    (if ltb r n then n else r + 1, λ r' c'. if r == r' && c == c' then x else f r' c')

abbrev insert : ℕ → Cells → Cells
insert r (n, f) =
    if ltb r n
    then (n + 1, λ r' c. if ltb r' r then f r' c else if r' == r then [] else f (r' - 1) c)
    else (n, f)

abbrev remove : ℕ → Cells → Cells
remove r (n, f) =
    if ltb r n then (n - 1, λ r' c. if ltb r' r then f r' c else f (r' + 1) c) else (n, f)

insert_end : (r : ℕ) (t : Cells) → t.0 ≤ r → insert r t ≡ t
insert_end r (n, f) h = ground arith

remove_count : (r : ℕ) (t : Cells) → r < t.0 → (remove r t).0 ≡ t.0 - 1
remove_count r (n, f) h = ground arith

remove_cell :
    (r : ℕ) (t : Cells) (r' c : ℕ)
    → r < t.0
    → (remove r t).1 r' c ≡ (if ltb r' r then t.1 r' c else t.1 (r' + 1) c)
remove_cell r (n, f) r' c h = rw (lt→ltb r n h) refl

abbrev widget : TableWidget
widget = record {
  Table = Cells;
  row_count = λ t. t.0;
  cell = λ t. t.1;
  new = (0, λ r c. []);
  clear = λ t. (0, λ r c. []);
  set_cell = put;
  insert_row = insert;
  remove_row = remove;
  row_count-new = refl;
  row_count-clear = λ t. refl;
  row_count-set_cell = λ r c x t. refl;
  cell-set_cell = λ r c x t r' c'. refl;
  insert_row_end = insert_end;
  row_count-remove_row = remove_count;
  cell-remove_row = remove_cell;
}

abbrev no_room : ℕ → ℕ
no_room n = 0

abbrev address : Bytes
address = bytes "10.0.0.1"

abbrev first : Screen widget
first =
    press_add_server widget sys.is_ip no_room address
      (open_screen widget sys.is_ip no_room false loaded_options)

-- The server stands in the first row below the header.
first_row : (first.server_table.0 ≡ 2) × (first.server_table.1 1 0 ≡ address)
unfolding press_add_server open_screen open_session open_servers callback proxy_page is_found
    show_servers server_header fill put_server append replicate str_eq bytes
first_row = (refl, refl)

steps : Steps widget sys.is_ip no_room (open_screen widget sys.is_ip no_room false loaded_options) (
    select_server_row widget sys.is_ip no_room 1
      (press_remove_server widget sys.is_ip no_room first))
unfolding press_remove_server
steps = selects_server (removes_server (adds_server opened address)) 0 (omega (arith, first_row.0))

Steps-InSync_example :
    let s =
      select_server_row widget sys.is_ip no_room 1
        (press_remove_server widget sys.is_ip no_room first) in
    InSync widget sys.is_ip no_room false s.session s.server_table
Steps-InSync_example = Steps-InSync widget sys.is_ip no_room false loaded_options steps

-- Two routers of one address: the row of the first goes, and the second is removed.
abbrev edge : BatchRouterAuth
edge = record { username = bytes "edge"; password = bytes "secret"; router_ip = address }

abbrev core : BatchRouterAuth
core = record { username = bytes "core"; password = bytes "hidden"; router_ip = address }

abbrev twin_options : ProgramConfig
twin_options = record loaded_options {
  batch = record loaded_options.batch { routers = edge ∷ core ∷ [] };
}

abbrev twins : Screen widget
twins =
    press_remove_router widget sys.is_ip no_room
      (open_screen widget sys.is_ip no_room true twin_options)

twins-HasRouters : HasRouters sys.is_ip twins.session
unfolding press_remove_router open_screen open_routers fill router_header put_router session
    is_empty str_eq bytes
twins-HasRouters =
    session-HasRouters sys.is_ip no_room true twin_options (on_routers (remove_router 3) ∷ [])
      (refl, (refl, tt))

twins_removes : twins.session.removes_routers ≡ true
unfolding press_remove_router open_screen open_routers fill router_header put_router callback
    router_page
twins_removes = refl

twins_routers : routers twins.session ≡ edge ∷ core ∷ []
unfolding press_remove_router open_screen open_session open_routers fill router_header put_router
    callback router_page replicate
twins_routers = refl

twins-Shows : ShowsRouters widget (routers twins.session) twins.router_table
unfolding press_remove_router open_screen
twins-Shows =
    subst (λ l. ShowsRouters widget l twins.router_table) (sym twins_routers)
      (open_routers-Shows widget (edge ∷ core ∷ []))

twins_last :
    (k : ℕ) (z : BatchRouterAuth)
    → get_elem? (routers twins.session) k ≡ some z
    → z.router_ip ≡ edge.router_ip
    → k ≤ 1
twins_last k z e same = let e' = rw twins_routers at e in in_two k e'
  where
    in_two : (k : ℕ) → get_elem? (edge ∷ core ∷ []) k ≡ some z → k ≤ 1
    in_two zero e = omega arith
    in_two (suc zero) e = omega arith
    in_two (suc (suc k)) e = absurd (ground arith)

select_router_row-without_example :
    let t = select_router_row widget sys.is_ip no_room 1 twins in
    (routers t.session ≡ without 1 (routers twins.session))
    × ShowsRouters widget (without 0 (routers twins.session)) t.router_table
select_router_row-without_example =
    select_router_row-without widget sys.is_ip no_room twins 0 1 edge core twins-HasRouters
      twins_removes twins-Shows (ap (λ l. get_elem? l 0) twins_routers)
      (ap (λ l. get_elem? l 1) twins_routers) refl twins_last

-- Pages as the names that there are and those that are visible.
abbrev Sheets : Type 0
Sheets = (Bytes → Bool) × (Bytes → Bool)

show_lem :
    (name : Bytes) (p : Sheets) (other : Bytes)
    → p.0 name ≡ true
    → (if p.0 name then (if str_eq name other then true else p.1 other) else p.1 other)
      ≡ (if str_eq name other then true else p.1 other)
show_lem name p other h = rw h refl

switch_lem :
    (name : Bytes) (p : Sheets) (other : Bytes)
    → p.0 other ≡ true
    → (p.0 other && str_eq name other) ≡ str_eq name other
switch_lem name p other h = rw h refl

abbrev sheets : PagesWidget
sheets = record {
  Pages = Sheets;
  has_page = λ p. p.0;
  is_visible = λ p. p.1;
  new = (λ name. false, λ name. false);
  add_page = λ name visible p. (
    λ other. if str_eq name other then true else p.0 other,
    λ other. if str_eq name other then visible else p.1 other,
  );
  switch_to_page = λ name p. (p.0, λ other. p.0 other && str_eq name other);
  show_page = λ name p. (
    p.0,
    λ other. if p.0 name then (if str_eq name other then true else p.1 other) else p.1 other,
  );
  hide_page = λ name p. (p.0, λ other. if str_eq name other then false else p.1 other);
  has_page-new = λ name. refl;
  has_page-add = λ name visible p other. refl;
  has_page-switch = λ name p other. refl;
  has_page-show = λ name p other. refl;
  has_page-hide = λ name p other. refl;
  is_visible-add = λ name visible p other. refl;
  is_visible-switch = switch_lem;
  is_visible-show = show_lem;
  is_visible-hide = λ name p other. refl;
}

-- After the page of the proxy, that of the batch options leaves the table of the servers visible.
chosen-shows_example :
    let g = chosen sheets (batch_options ∷ proxy_options ∷ []) in
    ((e : MenuItem) → (sheets.is_visible g.pages (page_of e) ≡ true) ↔ (e ≡ batch_options))
    × (sheets.is_visible g.tables router_table ≡ false)
    × (sheets.is_visible g.tables server_table ≡ true)
chosen-shows_example = chosen-shows sheets batch_options (proxy_options ∷ [])
