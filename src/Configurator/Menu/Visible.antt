-- ===== src/Configurator/Menu/Visible.antt =====
-- Which page and which table the menu of proxybatcher/configurator.go leaves visible.
use dhcp_batcher.Common.{
  Bytes, bytes, str_eq, str_eq_refl, str_eq_iff, sym, ap, ◌∙◌, Bool, true, false, List, [], ◌∷◌,
  ◌≡◌, ◌↔◌, refl, arith, if◌then◌else◌,
}
use dhcp_batcher.Configurator.Menu.{
  PagesWidget, MenuItem, operation_mode, sonar_options, batch_options, batch_routers, proxy_options,
  logging_options, page_of, router_table, server_table, open_grid, choose_tables, choose, chosen,
}

-- Whether an entry of the menu is the one for the routers.
abbrev pub is_routers : MenuItem → Bool
is_routers batch_routers = true
is_routers item = false

-- Whether the last choice but those of the batch options was the proxy's page.
abbrev pub proxy_chosen : List MenuItem → Bool
proxy_chosen [] = false
proxy_chosen (batch_options ∷ past) = proxy_chosen past
proxy_chosen (proxy_options ∷ past) = true
proxy_chosen (item ∷ past) = false

-- The entry of a page, by its name.
item_of : Bytes → MenuItem
item_of name =
    if str_eq name (bytes "Operation Mode")
    then operation_mode
    else if str_eq name (bytes "Sonar Options")
    then sonar_options
    else if str_eq name (bytes "Batch Options")
    then batch_options
    else if str_eq name (bytes "Batch Router Options")
    then batch_routers
    else if str_eq name (bytes "Proxy Options")
    then proxy_options
    else logging_options

item_of-page_of : (e : MenuItem) → item_of (page_of e) ≡ e
unfolding item_of page_of str_eq bytes
item_of-page_of operation_mode = refl
item_of-page_of sonar_options = refl
item_of-page_of batch_options = refl
item_of-page_of batch_routers = refl
item_of-page_of proxy_options = refl
item_of-page_of logging_options = refl

page_of-injective : (e e' : MenuItem) → page_of e ≡ page_of e' → e ≡ e'
page_of-injective e e' same = sym (item_of-page_of e) ∙ ap item_of same ∙ item_of-page_of e'

tables_differ' : str_eq server_table router_table ≡ false
unfolding str_eq bytes
tables_differ' = refl

tables_differ : str_eq router_table server_table ≡ false
unfolding str_eq bytes
tables_differ = refl

module _ (w : PagesWidget) where
  open w use {Pages, has_page, is_visible}

  choose_tables-has :
      (item : MenuItem) (t : Pages) (name : Bytes)
      → has_page (choose_tables w item t) name ≡ has_page t name
  unfolding choose_tables
  choose_tables-has operation_mode t name = rw (w.has_page-hide, w.has_page-hide) refl
  choose_tables-has sonar_options t name = rw (w.has_page-hide, w.has_page-hide) refl
  choose_tables-has batch_options t name = rw (w.has_page-hide) refl
  choose_tables-has batch_routers t name = rw (w.has_page-hide, w.has_page-show) refl
  choose_tables-has proxy_options t name = rw (w.has_page-hide, w.has_page-show) refl
  choose_tables-has logging_options t name = rw (w.has_page-hide, w.has_page-hide) refl

  chosen-has :
      (past : List MenuItem) (name : Bytes)
      → has_page (open_grid w).tables name ≡ true
      → has_page (chosen w past).tables name ≡ true
  unfolding chosen choose
  chosen-has [] name h = h
  chosen-has (item ∷ past) name h =
      rw (choose_tables-has item (chosen w past).tables name) (chosen-has past name h)

  tables_have :
      (has_page (open_grid w).tables router_table ≡ true)
      × (has_page (open_grid w).tables server_table ≡ true)
  unfolding open_grid str_eq bytes
  tables_have = (rw (w.has_page-add, w.has_page-add) refl, rw w.has_page-add refl)

  tables_hidden :
      (is_visible (open_grid w).tables router_table ≡ false)
      × (is_visible (open_grid w).tables server_table ≡ false)
  unfolding open_grid str_eq bytes
  tables_hidden = (rw (w.is_visible-add, w.is_visible-add) refl, rw w.is_visible-add refl)

  hide_self : (name : Bytes) (t : Pages) → is_visible (w.hide_page name t) name ≡ false
  hide_self name t = ground (arith, w.is_visible-hide name t name, str_eq_refl name)

  hide_other :
      (name other : Bytes) (t : Pages)
      → str_eq name other ≡ false
      → is_visible (w.hide_page name t) other ≡ is_visible t other
  hide_other name other t e = ground (arith, w.is_visible-hide name t other)

  show_self :
      (name : Bytes) (t : Pages)
      → has_page t name ≡ true
      → is_visible (w.show_page name t) name ≡ true
  show_self name t h = ground (arith, w.is_visible-show name t name, str_eq_refl name)

  choose_tables-router :
      (item : MenuItem) (t : Pages)
      → has_page t router_table ≡ true
      → is_visible (choose_tables w item t) router_table ≡ is_routers item
  unfolding choose_tables
  choose_tables-router operation_mode t h =
      hide_other server_table router_table _ tables_differ' ∙ hide_self router_table t
  choose_tables-router sonar_options t h =
      hide_other server_table router_table _ tables_differ' ∙ hide_self router_table t
  choose_tables-router batch_options t h = hide_self router_table t
  choose_tables-router batch_routers t h =
      hide_other server_table router_table _ tables_differ' ∙ show_self router_table t h
  choose_tables-router proxy_options t h = hide_self router_table _
  choose_tables-router logging_options t h = hide_self router_table _

  choose_tables-server :
      (item : MenuItem) (past : List MenuItem) (t : Pages)
      → has_page t server_table ≡ true
      → is_visible t server_table ≡ proxy_chosen past
      → is_visible (choose_tables w item t) server_table ≡ proxy_chosen (item ∷ past)
  unfolding choose_tables
  choose_tables-server operation_mode past t h v = hide_self server_table _
  choose_tables-server sonar_options past t h v = hide_self server_table _
  choose_tables-server batch_options past t h v =
      hide_other router_table server_table t tables_differ ∙ v
  choose_tables-server batch_routers past t h v = hide_self server_table _
  choose_tables-server proxy_options past t h v =
      hide_other router_table server_table _ tables_differ ∙ show_self server_table t h
  choose_tables-server logging_options past t h v =
      hide_other router_table server_table _ tables_differ ∙ hide_self server_table t

  server_visible :
      (past : List MenuItem) → is_visible (chosen w past).tables server_table ≡ proxy_chosen past
  unfolding chosen choose
  server_visible [] = tables_hidden.1
  server_visible (item ∷ past) =
      choose_tables-server item past (chosen w past).tables
        (chosen-has past server_table tables_have.1) (server_visible past)

  pages_have : (e : MenuItem) → has_page (open_grid w).pages (page_of e) ≡ true
  unfolding open_grid page_of str_eq bytes
  pages_have operation_mode =
      rw
        (
          w.has_page-add, w.has_page-add, w.has_page-add, w.has_page-add, w.has_page-add,
          w.has_page-add,
        )
        refl
  pages_have sonar_options =
      rw (w.has_page-add, w.has_page-add, w.has_page-add, w.has_page-add, w.has_page-add) refl
  pages_have batch_options =
      rw (w.has_page-add, w.has_page-add, w.has_page-add, w.has_page-add) refl
  pages_have batch_routers = rw (w.has_page-add, w.has_page-add, w.has_page-add) refl
  pages_have proxy_options = rw (w.has_page-add, w.has_page-add) refl
  pages_have logging_options = rw (w.has_page-add) refl

  chosen-has_page :
      (past : List MenuItem) (e : MenuItem) → has_page (chosen w past).pages (page_of e) ≡ true
  unfolding chosen choose
  chosen-has_page [] e = pages_have e
  chosen-has_page (item ∷ past) e =
      w.has_page-switch (page_of item) (chosen w past).pages (page_of e) ∙ chosen-has_page past e

  -- After any choices in the menu exactly the page of the last one is visible, the table of the
  -- routers is visible exactly if the last one was the page of the routers, and the table of the
  -- DHCP servers exactly if the last one that was not the page of the batch options was the page of
  -- the proxy options.
  pub chosen-shows :
      (item : MenuItem) (past : List MenuItem)
      → let g = chosen w (item ∷ past) in
        ((e : MenuItem) → (is_visible g.pages (page_of e) ≡ true) ↔ (e ≡ item))
        × (is_visible g.tables router_table ≡ is_routers item)
        × (is_visible g.tables server_table ≡ proxy_chosen (item ∷ past))
  unfolding chosen choose
  chosen-shows item past = (
    λ e.
        let shown =
          w.is_visible-switch (page_of item) (chosen w past).pages (page_of e)
            (chosen-has_page past e) in
        (
          λ v.
              page_of-injective e item
                (sym ((str_eq_iff (page_of item) (page_of e)).0 (sym shown ∙ v))),
          λ same. shown ∙ (str_eq_iff (page_of item) (page_of e)).1 (ap page_of (sym same)),
        ),
    choose_tables-router item (chosen w past).tables (chosen-has past router_table tables_have.0),
    server_visible (item ∷ past),
  )
