-- ===== src/Tests/Options.antt =====
-- Tests of proxybatcher/options.go.
use dhcp_batcher.Common.{
  bytes, str_eq, is_empty, true, false, none, some, [], ◌≡◌, ◌↔◌, refl, pos, negsuc,
}
use dhcp_batcher.Options.{SonarConfig, BatchConfig, ProxyConfig, ProgramConfig}
use dhcp_batcher.Strings.{atoi, remove_first, to_lower, strip_prefix, is_ascii, lower_byte}
use dhcp_batcher.Options.Check.{
  System, pass, clean_instance, lower, check_modes, check_batch, check_v1, check_instance,
  check_version, check_config, cleaned,
}
use dhcp_batcher.Options.Check.Passes.{ConfigOk, check_config_iff}

abbrev sonar : SonarConfig
sonar = record {
  version = pos 1;
  api_username = bytes "sonar";
  api_key = bytes "secret";
  instance_name = bytes "https://Demo.sonar.software";
  bearer_token = [];
}

abbrev batch : BatchConfig
batch = record {
  is_tls_enabled = false;
  tls_key = [];
  tls_cert = [];
  endpoint_username = bytes "admin";
  endpoint_password = bytes "0123456789abcdef";
  server_ip = bytes "10.0.0.1";
  http_server_port = bytes "80";
  tls_server_port = bytes "443";
  scheduler_cycle_time = pos 5;
  routers = [];
}

abbrev proxy : ProxyConfig
proxy = record {
  upstream_interface = bytes "eth0";
  downstream_interface = bytes "eth1";
  upstream_server_ips = [];
  proxy_server_ip = bytes "10.0.0.1";
}

abbrev pub batch_options : ProgramConfig
batch_options = record {
  operation_mode = bytes "Batch";
  sonar = sonar;
  batch = batch;
  proxy = proxy;
  logging = record { mode = bytes "info"; format = bytes "text"; output = bytes "stdout" };
}

-- A system on which every file is there and one address is one.
abbrev pub sys : System
sys = record {
  exists = λ path. true;
  is_ip = λ s. str_eq s (bytes "10.0.0.1");
  unicode_lower = λ s. s;
}

atoi_minus : atoi (bytes "-12") ≡ some (negsuc 11)
unfolding atoi bytes
atoi_minus = refl

atoi_text : atoi (bytes "1x") ≡ none
unfolding atoi bytes
atoi_text = refl

cleaned_name : (cleaned sys batch_options).sonar.instance_name ≡ bytes "demo.sonar.software"
unfolding clean_instance lower to_lower remove_first strip_prefix is_ascii lower_byte bytes
cleaned_name = refl

pub accepted : check_config sys batch_options ≡ (pass, cleaned sys batch_options)
unfolding check_config bytes check_modes str_eq lower to_lower check_batch check_version check_v1
    is_empty check_instance clean_instance remove_first
accepted = refl

check_config_iff_example :
    (check_config sys batch_options ≡ (pass, cleaned sys batch_options))
    ↔ ConfigOk sys batch_options
check_config_iff_example = check_config_iff sys batch_options
