-- ===== src/Configurator/Menu.antt =====
-- proxybatcher/configurator.go: the menu, and which page and which table stand beside it. The containers
-- of the pages are those of package tview, which is not part of the repository: PagesWidget is what its
-- documentation says of the calls. The focus is left out.
pub mod Visible
use dhcp_batcher.Common.{
  Bytes, bytes, str_eq, str_eq_refl, str_eq_iff, sym, ap, ◌∙◌, Bool, true, false, not, List, [],
  ◌∷◌, ◌≡◌, ◌↔◌, ◌⊎◌, refl, arith, if◌then◌else◌,
}

-- A container of named pages, of which any may be visible. A call for a name without a page does
-- nothing that is visible.
pub record PagesWidget : Type 1 where
  pub Pages : Type 0
  pub has_page : Pages → Bytes → Bool
  pub is_visible : Pages → Bytes → Bool
  pub new : Pages
  pub add_page : Bytes → Bool → Pages → Pages
  pub switch_to_page : Bytes → Pages → Pages
  pub show_page : Bytes → Pages → Pages
  pub hide_page : Bytes → Pages → Pages
  pub has_page-new : (name : Bytes) → has_page new name ≡ false
  pub has_page-add :
      (name : Bytes) (visible : Bool) (p : Pages) (other : Bytes)
      → has_page (add_page name visible p) other
        ≡ (if str_eq name other then true else has_page p other)
  pub has_page-switch :
      (name : Bytes) (p : Pages) (other : Bytes)
      → has_page (switch_to_page name p) other ≡ has_page p other
  pub has_page-show :
      (name : Bytes) (p : Pages) (other : Bytes)
      → has_page (show_page name p) other ≡ has_page p other
  pub has_page-hide :
      (name : Bytes) (p : Pages) (other : Bytes)
      → has_page (hide_page name p) other ≡ has_page p other
  pub is_visible-add :
      (name : Bytes) (visible : Bool) (p : Pages) (other : Bytes)
      → is_visible (add_page name visible p) other
        ≡ (if str_eq name other then visible else is_visible p other)
  pub is_visible-switch :
      (name : Bytes) (p : Pages) (other : Bytes)
      → has_page p other ≡ true
      → is_visible (switch_to_page name p) other ≡ str_eq name other
  pub is_visible-show :
      (name : Bytes) (p : Pages) (other : Bytes)
      → has_page p name ≡ true
      → is_visible (show_page name p) other
        ≡ (if str_eq name other then true else is_visible p other)
  pub is_visible-hide :
      (name : Bytes) (p : Pages) (other : Bytes)
      → is_visible (hide_page name p) other
        ≡ (if str_eq name other then false else is_visible p other)

-- The entries of the menu that lead to a page.
pub data MenuItem : Type 0 where
  operation_mode sonar_options batch_options batch_routers proxy_options logging_options : MenuItem

-- The page that an entry leads to.
unfoldable pub page_of : MenuItem → Bytes
page_of operation_mode = bytes "Operation Mode"
page_of sonar_options = bytes "Sonar Options"
page_of batch_options = bytes "Batch Options"
page_of batch_routers = bytes "Batch Router Options"
page_of proxy_options = bytes "Proxy Options"
page_of logging_options = bytes "Logging Options"

abbrev pub router_table : Bytes
router_table = bytes "Batch Router Table"

abbrev pub server_table : Bytes
server_table = bytes "DHCP Server IPs"

module _ (w : PagesWidget) where
  open w use {Pages, has_page, is_visible, add_page, switch_to_page, show_page, hide_page}

  -- configPage and batchRouterTablePage.
  pub record Grid : Type 0 where
    pub pages : Pages
    pub tables : Pages

  unfoldable pub open_grid : Grid
  open_grid = record {
    pages = add_page (bytes "Logging Options") false (
        add_page (bytes "Proxy Options") false (
          add_page (bytes "Batch Router Options") false (
            add_page (bytes "Batch Options") false (
              add_page (bytes "Sonar Options") false
                (add_page (bytes "Operation Mode") true w.new)))));
    tables =
        add_page (bytes "DHCP Server IPs") false
          (add_page (bytes "Batch Router Table") false w.new);
  }

  -- What an entry does to the tables.
  unfoldable pub choose_tables : MenuItem → Pages → Pages
  choose_tables operation_mode t = hide_page server_table (hide_page router_table t)
  choose_tables sonar_options t = hide_page server_table (hide_page router_table t)
  choose_tables batch_options t = hide_page router_table t
  choose_tables batch_routers t = hide_page server_table (show_page router_table t)
  choose_tables proxy_options t = hide_page router_table (show_page server_table t)
  choose_tables logging_options t = hide_page router_table (hide_page server_table t)

  unfoldable pub choose : MenuItem → Grid → Grid
  choose item g = record {
    pages = switch_to_page (page_of item) g.pages;
    tables = choose_tables item g.tables;
  }

  -- The grid after choices, the last first.
  unfoldable pub chosen : List MenuItem → Grid
  chosen [] = open_grid
  chosen (item ∷ past) = choose item (chosen past)
