-- ===== src/Tests/Start.antt =====
-- Tests of what the program starts with: initConfig, the servers of batch mode, and startDHCPProxy.
use dhcp_batcher.Common.{
  Bytes, bytes, str_eq, true, false, none, some, ◌↔◌, [], ◌∷◌, ◌≡◌, ◌≢◌, refl, arith,
}
use dhcp_batcher.Options.{ProgramConfig, ProxyConfig}
use dhcp_batcher.Options.Check.Passes.{ProxyOk}
use dhcp_batcher.Options.Load.{
  Flags, Disk, loaded, init_config, is_mode, override_mode, override_output, IsOverridden,
  init_config-IsOverridden, is_flag_passed, visit,
}
use dhcp_batcher.Options.Check.{cleaned}
use dhcp_batcher.Batch.{init_table}
use dhcp_batcher.Main.{batch_server}
use dhcp_batcher.Main.Program.{World, program, Serves, program-batch_server_iff}
use dhcp_batcher.Lease.Table.{IsLeaseTable}
use dhcp_batcher.Dhcp.Model.{fields_dhcp}
use dhcp_batcher.Proxy.Trace.{Trace}
use dhcp_batcher.Proxy.Start.{start_dhcp_proxy, AllParsed, start_dhcp_proxy-ProxyOk}
use dhcp_batcher.Tests.Options.{sys, batch_options}
use dhcp_batcher.Tests.Endpoint.{ip_text, router_text}

abbrev disk : Disk
disk = record { file = some []; unmarshal = λ text. some batch_options; is_missing = λ path. true }

abbrev flags : Flags
flags = record {
  passed = bytes "logging_mode" ∷ bytes "logging_output" ∷ [];
  logging_mode = bytes "warn";
  logging_output = bytes "logs";
  run_configurator = false;
  load_yaml = false;
}

-- The mode is overridden, and the output, which does not exist, is not.
abbrev overridden_options : ProgramConfig
overridden_options = record batch_options {
  logging = record batch_options.logging { mode = bytes "warn" };
}

loaded_options : init_config disk flags ≡ loaded overridden_options
unfolding init_config override_mode override_output is_flag_passed visit is_mode str_eq bytes
loaded_options = refl

init_config-IsOverridden_example :
    (text : Bytes) × (before : ProgramConfig) × (disk.file ≡ some text)
    × (disk.unmarshal text ≡ some before)
    × (flags.run_configurator ≡ false)
    × IsOverridden disk flags before overridden_options
init_config-IsOverridden_example =
    init_config-IsOverridden disk flags overridden_options loaded_options

abbrev world : World
world = record {
  sys = sys;
  disk = disk;
  flags = flags;
  unicode = λ text. text;
  open_file = λ path. none;
}

abbrev served : ProgramConfig
served = cleaned sys overridden_options

program-batch_server_iff_example :
    ((program world).1 ≡ batch_server served (init_table served)) ↔ Serves world served
program-batch_server_iff_example = program-batch_server_iff world served

abbrev pub proxy : ProxyConfig
proxy = record batch_options.proxy { upstream_server_ips = router_text ∷ [] }

-- The one address of the system parses.
sys_parses : (s : Bytes) → sys.is_ip s ≡ true → (v : Bytes) × (ip_text.parse_ip s ≡ some v)
unfolding str_eq bytes
sys_parses s e = (10 ∷ 0 ∷ 0 ∷ 1 ∷ [], rw e refl)

proxy_ok : ProxyOk sys proxy
unfolding str_eq bytes
proxy_ok = record { ip = refl; some_server = λ e. ground arith; servers = (refl, tt) }

start_dhcp_proxy-ProxyOk_example :
    AllParsed ip_text proxy.upstream_server_ips (start_dhcp_proxy ip_text proxy).dhcp_servers
    × ((start_dhcp_proxy ip_text proxy).dhcp_servers ≢ [])
    × (ip_text.parse_ip proxy.proxy_server_ip
        ≡ some (start_dhcp_proxy ip_text proxy).proxy_server_ip)
    × Trace fields_dhcp [] (start_dhcp_proxy ip_text proxy).handler
    × IsLeaseTable (start_dhcp_proxy ip_text proxy).handler.leases
start_dhcp_proxy-ProxyOk_example =
    start_dhcp_proxy-ProxyOk sys ip_text sys_parses fields_dhcp proxy proxy_ok
