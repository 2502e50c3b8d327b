-- ===== src/Tests/Configurator.antt =====
-- Tests of proxybatcher/configurator.go: a session that sets up the batch mode with one router.
use dhcp_batcher.Common.{
  ℕ, Bytes, bytes, str_eq, is_empty, true, false, Option, some, inr, if◌then◌else◌, List, [], ◌∷◌,
  ◌++◌, ◌≡◌, refl, arith, All,
}
use dhcp_batcher.GoSlice.{append, set_at, replicate}
use dhcp_batcher.GoSlice.Last.{Removes}
use dhcp_batcher.Options.{ProgramConfig, BatchRouterAuth, ProxyConfig}
use dhcp_batcher.Options.Check.{ConfigError, lower}
use dhcp_batcher.Strings.{to_lower, is_ascii, lower_byte}
use dhcp_batcher.Configurator.{Session, open_session, save_and_quit, zero_router}
use dhcp_batcher.Configurator.Pages.{
  save_mode, add_server, save_proxy, type_router_ip, type_router_username, type_router_password,
  add_router, remove_router, select_router, save_routers, UiEvent, on_routers, on_proxy, callback,
  session, router_page, proxy_page, has_address, is_found,
}
use dhcp_batcher.Configurator.Routers.{
  routers, HasRouters, session-HasRouters, save_routers-select_router,
}
use dhcp_batcher.Configurator.Unserved.{AddsNoServer}
use dhcp_batcher.Configurator.Rerun.{write_options, rerun-refused}
use dhcp_batcher.Options.Load.{Flags, Disk, init_config}
use dhcp_batcher.Main.{main, refused}
use dhcp_batcher.Configurator.Entry.{enter_all, save_routers-enter_all}
use dhcp_batcher.Tests.Options.{sys, batch_options}

abbrev address : Bytes
address = bytes "10.0.0.1"

abbrev no_room : ℕ → ℕ
no_room n = 0

-- A router is entered, the mode is saved, then the routers, then the batch options.
abbrev events : List UiEvent
events =
    on_routers (type_router_ip address)
    ∷ on_routers (type_router_username (bytes "edge"))
    ∷ on_routers (type_router_password (bytes "secret"))
    ∷ on_routers add_router
    ∷ save_mode (bytes "batch")
    ∷ on_routers save_routers
    ∷ []

abbrev entered : Session
entered = session sys.is_ip no_room events (open_session no_room false batch_options)

abbrev edge : BatchRouterAuth
edge = record { username = bytes "edge"; password = bytes "secret"; router_ip = address }

-- The router is in the list that the page works on, and in the configuration.
entered_routers :
    (routers entered ≡ edge ∷ []) × ((save_and_quit entered).batch.routers ≡ edge ∷ [])
unfolding session callback router_page open_session append bytes is_empty str_eq replicate
    save_and_quit
entered_routers = (refl, refl)

session-HasRouters_example : HasRouters sys.is_ip entered
session-HasRouters_example = session-HasRouters sys.is_ip no_room false batch_options events tt

entered_edge : ¬ All (λ v. has_address address v ≡ false) (routers entered)
unfolding session callback router_page open_session append bytes is_empty str_eq replicate
entered_edge h = ground (arith, h.0)

-- The saved list is left with an empty router.
save_routers-select_router_example :
    let t =
      session sys.is_ip no_room
        (on_routers save_routers
          ∷ on_routers (remove_router 2)
          ∷ on_routers (select_router address)
          ∷ [])
        entered in
    ((save_and_quit t).batch.routers ≡ routers t ++ zero_router ∷ [])
    × Removes (has_address address) (routers entered) (routers t)
save_routers-select_router_example =
    save_routers-select_router sys.is_ip no_room 2 address entered
      (session-HasRouters sys.is_ip no_room false batch_options events tt) (omega arith)
      entered_edge

abbrev server_events : List UiEvent
server_events =
    save_mode (bytes "proxy")
    ∷ on_proxy (add_server address)
    ∷ on_proxy (add_server address)
    ∷ on_proxy save_proxy
    ∷ []

-- A second entry of the same server is not added.
saved_servers :
    (save_and_quit (
      session sys.is_ip no_room server_events
        (open_session no_room true batch_options))).proxy.upstream_server_ips
    ≡ address ∷ []
unfolding session callback proxy_page open_session append bytes str_eq is_found replicate
    save_and_quit set_at
saved_servers = refl

abbrev mode_events : List UiEvent
mode_events = save_mode (bytes "proxy") ∷ on_proxy save_proxy ∷ []

mode_events-AddsNoServer : AddsNoServer mode_events
mode_events-AddsNoServer = (λ text e. ground arith, (λ text e. ground arith, tt))

abbrev unserved : ProgramConfig
unserved =
    save_and_quit (session sys.is_ip no_room mode_events (open_session no_room true batch_options))

-- The first run asks for the configurator over the loaded options, and the second reads what it saved.
abbrev disk : Disk
disk = record {
  file = some [];
  unmarshal = λ text. if is_empty text then some batch_options else some unserved;
  is_missing = λ path. true;
}

abbrev marshal : ProgramConfig → Option Bytes
marshal c = some (1 ∷ [])

abbrev no_flags : Flags
no_flags = record {
  passed = [];
  logging_mode = [];
  logging_output = [];
  run_configurator = false;
  load_yaml = false;
}

abbrev configurator_flags : Flags
configurator_flags = record no_flags {
  passed = bytes "configurator" ∷ bytes "loadyaml" ∷ [];
  run_configurator = true;
  load_yaml = true;
}

rerun-refused_example :
    (e : ConfigError) × (main sys (init_config (write_options marshal true unserved disk) no_flags)
      ≡ refused e)
unfolding save_and_quit session callback proxy_page open_session lower to_lower is_ascii lower_byte
    bytes init_config is_empty
rerun-refused_example =
    rerun-refused disk marshal sys no_room configurator_flags no_flags true batch_options unserved
      mode_events (1 ∷ []) refl refl refl refl refl (inr (mode_events-AddsNoServer, refl))

abbrev loaded_proxy : ProxyConfig
loaded_proxy = record {
  upstream_interface = bytes "eth0";
  downstream_interface = bytes "eth1";
  upstream_server_ips = address ∷ [];
  proxy_server_ip = address;
}

abbrev interfaces : List Bytes
interfaces = bytes "lo" ∷ bytes "eth0" ∷ bytes "eth1" ∷ []

abbrev core : BatchRouterAuth
core = record { username = bytes "core"; password = bytes "hidden"; router_ip = address }

save_routers-enter_all_example :
    (save_and_quit (
      callback sys.is_ip no_room
        (on_routers save_routers)
        (session sys.is_ip no_room (enter_all (core ∷ edge ∷ [])) entered))).batch.routers
    ≡ routers entered ++ core ∷ edge ∷ []
unfolding is_empty str_eq bytes
save_routers-enter_all_example =
    save_routers-enter_all sys.is_ip no_room (core ∷ edge ∷ []) entered
      (session-HasRouters sys.is_ip no_room false batch_options events tt) (refl, (refl, tt))
