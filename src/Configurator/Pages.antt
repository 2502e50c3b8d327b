-- ===== src/Configurator/Pages.antt =====
-- proxybatcher/configurator.go: the callbacks of the pages, one step each.
use dhcp_batcher.Common.{
  ℕ, pos, Bytes, str_eq, is_empty, Bool, true, false, not, ◌&&◌, Option, none, some, List, [], ◌∷◌,
  ltb, ◌==◌, get_or, if◌then◌else◌,
}
use dhcp_batcher.GoSlice.{Slice, contents, append, remove_last}
use dhcp_batcher.Options.{BatchRouterAuth}
use dhcp_batcher.Strings.{atoi}
use dhcp_batcher.Configurator.{Session, zero_router}
use dhcp_batcher.Configurator.Password.{generate_random_string}

-- The page of the Sonar options.
pub data SonarEvent : Type 0 where
  choose_version : ℕ → SonarEvent
  type_api_username type_api_key type_instance type_bearer_token : Bytes → SonarEvent
  save_sonar : SonarEvent

unfoldable pub sonar_page : SonarEvent → Session → Session
sonar_page (choose_version index) s = record s {
  sonar = record s.sonar { version = if index == 0 then pos 1 else pos 2 };
}
sonar_page (type_api_username text) s = record s { sonar = record s.sonar { api_username = text } }
sonar_page (type_api_key text) s = record s { sonar = record s.sonar { api_key = text } }
sonar_page (type_instance text) s = record s { sonar = record s.sonar { instance_name = text } }
sonar_page (type_bearer_token text) s = record s { sonar = record s.sonar { bearer_token = text } }
sonar_page save_sonar s = record s { config = record s.config { sonar = s.sonar } }

-- The page of the batch options. Its field of the address has no callback: `save_batch` carries the
-- text that it holds.
pub data BatchEvent : Type 0 where
  choose_tls : ℕ → BatchEvent
  type_tls_key type_tls_cert type_http_port type_tls_port type_cycle_time : Bytes → BatchEvent
  save_batch : Bytes → BatchEvent

-- `is_ip` says whether net.ParseIP takes a text.
unfoldable pub batch_page : (Bytes → Bool) → BatchEvent → Session → Session
batch_page is_ip (choose_tls index) s = record s {
  batch = record s.batch { is_tls_enabled = not (index == 0) };
}
batch_page is_ip (type_tls_key text) s = record s { batch = record s.batch { tls_key = text } }
batch_page is_ip (type_tls_cert text) s = record s { batch = record s.batch { tls_cert = text } }
batch_page is_ip (type_http_port text) s = record s {
  batch = record s.batch { http_server_port = text };
}
batch_page is_ip (type_tls_port text) s = record s {
  batch = record s.batch { tls_server_port = text };
}
batch_page is_ip (type_cycle_time text) s = record s {
  batch = record s.batch { scheduler_cycle_time = get_or (atoi text) (pos 5) };
}
batch_page is_ip (save_batch text) s =
    if is_ip text then record s { config = record s.config { batch = s.batch } } else s

-- The page of the routers. `generate_password` carries what crypto/rand.Read does; `remove_router`
-- carries the number of rows of the table, with its header, and `select_router` the text in the first
-- column of the selected row.
pub data RouterEvent : Type 0 where
  type_router_ip type_router_username type_router_password : Bytes → RouterEvent
  generate_password : (ℕ → Option Bytes) → RouterEvent
  add_router : RouterEvent
  remove_router : ℕ → RouterEvent
  select_router : Bytes → RouterEvent
  save_routers : RouterEvent

abbrev pub has_address : Bytes → BatchRouterAuth → Bool
has_address ip v = str_eq v.router_ip ip

-- The test before a router is added.
abbrev pub is_complete : (Bytes → Bool) → BatchRouterAuth → Bool
is_complete is_ip r =
    (not (is_empty r.router_ip) && (not (is_empty r.password) && not (is_empty r.username)))
    && is_ip r.router_ip

abbrev set_routers : Slice × List (List BatchRouterAuth) → Session → Session
set_routers (routers, store) s = record s { routers = routers; router_store = store }

-- `spare` is the room that append leaves in a new array.
unfoldable pub router_page : (Bytes → Bool) → (ℕ → ℕ) → RouterEvent → Session → Session
router_page is_ip spare (type_router_ip text) s = record s {
  router = record s.router { router_ip = text };
}
router_page is_ip spare (type_router_username text) s = record s {
  router = record s.router { username = text };
}
router_page is_ip spare (type_router_password text) s = record s {
  router = record s.router { password = text };
}
router_page is_ip spare (generate_password read) s = elim (generate_random_string read 64) [
  | none ↦ s
  | some text ↦ record s { router = record s.router { password = text } }
]
router_page is_ip spare add_router s =
    if is_complete is_ip s.router
    then record (set_routers (append spare zero_router s.router s.routers s.router_store) s) {
      router = zero_router;
    }
    else s
router_page is_ip spare (remove_router rows) s =
    if ltb 1 rows then record s { removes_routers = true } else s
router_page is_ip spare (select_router ip) s =
    if s.removes_routers
    then set_routers (remove_last (has_address ip) zero_router s.routers s.router_store) s
    else s
router_page is_ip spare save_routers s = record s {
  config = record s.config { batch = record s.config.batch { routers = s.routers } };
}

-- The page of the proxy options, with the same conventions.
pub data ProxyEvent : Type 0 where
  choose_upstream choose_downstream choose_proxy_ip : Bytes → ProxyEvent
  add_server : Bytes → ProxyEvent
  remove_server : ℕ → ProxyEvent
  select_server : Bytes → ProxyEvent
  save_proxy : ProxyEvent

-- The loop that looks for a server that is already there.
unfoldable pub is_found : Bytes → List Bytes → Bool
is_found text [] = false
is_found text (v ∷ servers) = if str_eq v text then true else is_found text servers

abbrev set_servers : Slice × List (List Bytes) → Session → Session
set_servers (servers, store) s = record s {
  proxy = record s.proxy { upstream_server_ips = servers };
  server_store = store;
}

abbrev pub servers : Session → List Bytes
servers s = contents s.server_store s.proxy.upstream_server_ips

unfoldable pub proxy_page : (Bytes → Bool) → (ℕ → ℕ) → ProxyEvent → Session → Session
proxy_page is_ip spare (choose_upstream option) s = record s {
  proxy = record s.proxy { upstream_interface = option };
}
proxy_page is_ip spare (choose_downstream option) s = record s {
  proxy = record s.proxy { downstream_interface = option };
}
proxy_page is_ip spare (choose_proxy_ip option) s = record s {
  proxy = record s.proxy { proxy_server_ip = option };
}
proxy_page is_ip spare (add_server text) s =
    if is_ip text && not (is_found text (servers s))
    then set_servers (append spare [] text s.proxy.upstream_server_ips s.server_store) s
    else s
proxy_page is_ip spare (remove_server rows) s =
    if ltb 1 rows then record s { removes_servers = true } else s
proxy_page is_ip spare (select_server ip) s =
    if s.removes_servers
    then set_servers (remove_last (λ v. str_eq v ip) [] s.proxy.upstream_server_ips s.server_store)
        s
    else s
proxy_page is_ip spare save_proxy s = record s { config = record s.config { proxy = s.proxy } }

-- The page of the logging options.
pub data LogEvent : Type 0 where
  choose_log_mode choose_log_format type_log_output : Bytes → LogEvent
  save_logging : LogEvent

unfoldable pub logging_page : LogEvent → Session → Session
logging_page (choose_log_mode option) s = record s { logging = record s.logging { mode = option } }
logging_page (choose_log_format option) s = record s {
  logging = record s.logging { format = option };
}
logging_page (type_log_output text) s = record s { logging = record s.logging { output = text } }
logging_page save_logging s = record s { config = record s.config { logging = s.logging } }

-- All pages; `save_mode` carries the chosen option of the page of the operation mode.
pub data UiEvent : Type 0 where
  save_mode : Bytes → UiEvent
  on_sonar : SonarEvent → UiEvent
  on_batch : BatchEvent → UiEvent
  on_routers : RouterEvent → UiEvent
  on_proxy : ProxyEvent → UiEvent
  on_logging : LogEvent → UiEvent

unfoldable pub callback : (Bytes → Bool) → (ℕ → ℕ) → UiEvent → Session → Session
callback is_ip spare (save_mode option) s = record s {
  config = record s.config { operation_mode = option };
}
callback is_ip spare (on_sonar e) s = sonar_page e s
callback is_ip spare (on_batch e) s = batch_page is_ip e s
callback is_ip spare (on_routers e) s = router_page is_ip spare e s
callback is_ip spare (on_proxy e) s = proxy_page is_ip spare e s
callback is_ip spare (on_logging e) s = logging_page e s

-- A session: the callbacks in their order.
unfoldable pub session : (Bytes → Bool) → (ℕ → ℕ) → List UiEvent → Session → Session
session is_ip spare [] s = s
session is_ip spare (e ∷ events) s = session is_ip spare events (callback is_ip spare e s)
