-- ===== src/Configurator/Tables.antt =====
-- proxybatcher/configurator.go: the two tables beside the pages, which show the lists of the routers and
-- of the DHCP servers, and in which a row is selected for removal. The tables are those of package tview,
-- which is not part of the repository: TableWidget is what its documentation says of the calls.
pub mod Fill
pub mod Removed
pub mod Screen
pub mod Kept
pub mod InSync
pub mod Routers
use dhcp_batcher.Common.{
  ℕ, suc, ◌+◌, ◌-◌, ◌<◌, ◌≤◌, Bytes, bytes, Bool, ◌&&◌, List, [], ◌∷◌, ◌≡◌, ltb, leb, ◌==◌,
  if◌then◌else◌,
}
use dhcp_batcher.Options.{BatchRouterAuth}

-- A table of texts: its rows, and the text of a cell, empty where none was set. The title, the colours,
-- and which cells can be selected are left out.
pub record TableWidget : Type 1 where
  pub Table : Type 0
  pub row_count : Table → ℕ
  pub cell : Table → ℕ → ℕ → Bytes
  pub new : Table
  pub clear : Table → Table
  pub set_cell : ℕ → ℕ → Bytes → Table → Table
  pub insert_row : ℕ → Table → Table
  pub remove_row : ℕ → Table → Table
  pub row_count-new : row_count new ≡ 0
  pub row_count-clear : (t : Table) → row_count (clear t) ≡ 0
  pub row_count-set_cell :
      (r c : ℕ) (x : Bytes) (t : Table)
      → row_count (set_cell r c x t) ≡ (if ltb r (row_count t) then row_count t else r + 1)
  pub cell-set_cell :
      (r c : ℕ) (x : Bytes) (t : Table) (r' c' : ℕ)
      → cell (set_cell r c x t) r' c' ≡ (if r == r' && c == c' then x else cell t r' c')
  -- "If row is equal or larger than the current number of rows, this function has no effect."
  pub insert_row_end : (r : ℕ) (t : Table) → row_count t ≤ r → insert_row r t ≡ t
  pub row_count-remove_row :
      (r : ℕ) (t : Table) → r < row_count t → row_count (remove_row r t) ≡ row_count t - 1
  pub cell-remove_row :
      (r : ℕ) (t : Table) (r' c : ℕ)
      → r < row_count t
      → cell (remove_row r t) r' c ≡ (if ltb r' r then cell t r' c else cell t (r' + 1) c)

module _ (w : TableWidget) where
  open w use {Table, clear, set_cell, insert_row}

  -- A loop over a list that inserts and sets the row behind the header for each element; `put` sets the
  -- cells of an element in a row.
  unfoldable pub fill {ℓ} : {A : Type ℓ} → (A → ℕ → Table → Table) → ℕ → List A → Table → Table
  fill put k [] t = t
  fill put k (v ∷ vs) t = fill put (suc k) vs (put v (k + 1) (insert_row (k + 1) t))

  -- The table of the routers: its header, a row, and the whole.
  unfoldable pub router_header : Table → Table
  router_header t =
      set_cell 0 2 (bytes "Password")
        (set_cell 0 1 (bytes "Username") (set_cell 0 0 (bytes "Router IP") t))

  unfoldable pub put_router : BatchRouterAuth → ℕ → Table → Table
  put_router v row t =
      set_cell row 2 v.password (set_cell row 1 v.username (set_cell row 0 v.router_ip t))

  unfoldable pub show_routers : List BatchRouterAuth → Table → Table
  show_routers routers t = fill put_router 0 routers (router_header (clear t))

  -- The table when the page is built, over the loaded routers.
  unfoldable pub open_routers : Bool → List BatchRouterAuth → Table
  open_routers load_yaml routers =
      if load_yaml then fill put_router 0 routers (router_header w.new) else w.new

  -- The table of the DHCP servers.
  unfoldable pub server_header : Table → Table
  server_header t = set_cell 0 0 (bytes "Upstream DHCP Server") t

  unfoldable pub put_server : Bytes → ℕ → Table → Table
  put_server v row t = set_cell row 0 v t

  unfoldable pub show_servers : List Bytes → Table → Table
  show_servers servers t = fill put_server 0 servers (server_header (clear t))

  -- The loop over the loaded servers, which leaves out the texts that are no addresses: `rem` counts
  -- those. There are never more of them than rounds, so the row is a number.
  unfoldable pub fill_loaded : (Bytes → Bool) → ℕ → ℕ → List Bytes → Table → Table
  fill_loaded is_ip k rem [] t = t
  fill_loaded is_ip k rem (v ∷ vs) t =
      if is_ip v
      then fill_loaded is_ip (suc k) rem vs
          (put_server v (k + 1 - rem) (insert_row (k + 1 - rem) t))
      else fill_loaded is_ip (suc k) (rem + 1) vs t

  unfoldable pub open_servers : (Bytes → Bool) → Bool → List Bytes → Table
  open_servers is_ip load_yaml servers =
      if load_yaml then fill_loaded is_ip 0 0 servers (server_header (clear w.new)) else w.new
