-- ===== src/Configurator.antt =====
-- proxybatcher/configurator.go: the pages of the terminal configurator. The package tview, which
-- draws the pages and calls the program back, is not part of the repository: a session is any sequence
-- of its callbacks, each with the texts and the options that it passes or that the callback reads. What
-- a callback does to the widgets is not modelled. The slices are those of GoSlice, since the pages
-- share the arrays of the routers and of the DHCP servers with the configuration that is saved.
pub mod Forms
pub mod Shown
pub mod Password
pub mod Pages
pub mod Frames
pub mod Routers
pub mod Servers
pub mod Entry
pub mod Saved
pub mod Unserved
pub mod Tables
pub mod Rerun
pub mod Menu
use dhcp_batcher.Common.{
  ℕ, ℤ, pos, Bytes, Bool, true, false, Option, none, some, List, [], ◌∷◌, ◌++◌, length,
  if◌then◌else◌,
}
use dhcp_batcher.GoSlice.{Slice, nil, view, contents, replicate}
use dhcp_batcher.Options.{
  BatchRouterAuth, SonarConfig, BatchConfig, ProxyConfig, LoggingConfig, ProgramConfig,
}

-- batchConfig, proxyConfig and programConfig, with their slices.
pub record BatchDraft : Type 0 where
  pub is_tls_enabled : Bool
  pub tls_key : Bytes
  pub tls_cert : Bytes
  pub endpoint_username : Bytes
  pub endpoint_password : Bytes
  pub server_ip : Bytes
  pub http_server_port : Bytes
  pub tls_server_port : Bytes
  pub scheduler_cycle_time : ℤ
  pub routers : Slice

pub record ProxyDraft : Type 0 where
  pub upstream_interface : Bytes
  pub downstream_interface : Bytes
  pub upstream_server_ips : Slice
  pub proxy_server_ip : Bytes

pub record ConfigDraft : Type 0 where
  pub operation_mode : Bytes
  pub sonar : SonarConfig
  pub batch : BatchDraft
  pub proxy : ProxyDraft
  pub logging : LoggingConfig

-- The zero values.
abbrev pub zero_router : BatchRouterAuth
zero_router = record { username = []; password = []; router_ip = [] }

abbrev pub zero_sonar : SonarConfig
zero_sonar = record {
  version = pos 0;
  api_username = [];
  api_key = [];
  instance_name = [];
  bearer_token = [];
}

abbrev pub zero_batch : BatchDraft
zero_batch = record {
  is_tls_enabled = false;
  tls_key = [];
  tls_cert = [];
  endpoint_username = [];
  endpoint_password = [];
  server_ip = [];
  http_server_port = [];
  tls_server_port = [];
  scheduler_cycle_time = pos 0;
  routers = nil;
}

abbrev pub zero_proxy : ProxyDraft
zero_proxy = record {
  upstream_interface = [];
  downstream_interface = [];
  upstream_server_ips = nil;
  proxy_server_ip = [];
}

abbrev pub zero_logging : LoggingConfig
zero_logging = record { mode = []; format = []; output = [] }

abbrev pub zero_config : ConfigDraft
zero_config = record {
  operation_mode = [];
  sonar = zero_sonar;
  batch = zero_batch;
  proxy = zero_proxy;
  logging = zero_logging;
}

-- The variables that the callbacks share: the configuration that is saved, what each page is working
-- on, whether the tables have their callback for a selected row, and the arrays of the slices.
pub record Session : Type 0 where
  pub config : ConfigDraft
  pub sonar : SonarConfig
  pub batch : BatchDraft
  pub router : BatchRouterAuth
  pub routers : Slice
  pub removes_routers : Bool
  pub proxy : ProxyDraft
  pub removes_servers : Bool
  pub logging : LoggingConfig
  pub router_store : List (List BatchRouterAuth)
  pub server_store : List (List Bytes)

-- The values of a configuration, its slices read.
abbrev pub read_batch : List (List BatchRouterAuth) → BatchDraft → BatchConfig
read_batch store b = record {
  is_tls_enabled = b.is_tls_enabled;
  tls_key = b.tls_key;
  tls_cert = b.tls_cert;
  endpoint_username = b.endpoint_username;
  endpoint_password = b.endpoint_password;
  server_ip = b.server_ip;
  http_server_port = b.http_server_port;
  tls_server_port = b.tls_server_port;
  scheduler_cycle_time = b.scheduler_cycle_time;
  routers = contents store b.routers;
}

abbrev pub read_proxy : List (List Bytes) → ProxyDraft → ProxyConfig
read_proxy store p = record {
  upstream_interface = p.upstream_interface;
  downstream_interface = p.downstream_interface;
  upstream_server_ips = contents store p.upstream_server_ips;
  proxy_server_ip = p.proxy_server_ip;
}

-- "SAVE AND QUIT": the options that are then written to the file.
unfoldable pub save_and_quit : Session → ProgramConfig
save_and_quit s = record {
  operation_mode = s.config.operation_mode;
  sonar = s.config.sonar;
  batch = read_batch s.router_store s.config.batch;
  proxy = read_proxy s.server_store s.config.proxy;
  logging = s.config.logging;
}

-- The loaded options of batch mode. The array of the loaded routers is number 0.
abbrev pub loaded_routers : BatchConfig → Slice
loaded_routers b = view 0 (length b.routers)

abbrev pub loaded_batch : BatchConfig → BatchDraft
loaded_batch b = record {
  is_tls_enabled = b.is_tls_enabled;
  tls_key = b.tls_key;
  tls_cert = b.tls_cert;
  endpoint_username = b.endpoint_username;
  endpoint_password = b.endpoint_password;
  server_ip = b.server_ip;
  http_server_port = b.http_server_port;
  tls_server_port = b.tls_server_port;
  scheduler_cycle_time = b.scheduler_cycle_time;
  routers = loaded_routers b;
}

-- The variables when the pages have been built and nothing has been called back: all zero but for
-- the pages that start from the loaded options. `spare` is the room that the array of the
-- loaded routers has. The page of the proxy starts empty even then.
unfoldable pub open_session : (ℕ → ℕ) → Bool → ProgramConfig → Session
open_session spare load_yaml options = record {
  config = zero_config;
  sonar = if load_yaml then options.sonar else zero_sonar;
  batch = if load_yaml then loaded_batch options.batch else zero_batch;
  router = zero_router;
  routers = if load_yaml then loaded_routers options.batch else nil;
  removes_routers = false;
  proxy = zero_proxy;
  removes_servers = false;
  logging = if load_yaml then options.logging else zero_logging;
  router_store =
      (options.batch.routers ++ replicate (spare (length options.batch.routers)) zero_router) ∷ [];
  server_store = [];
}
