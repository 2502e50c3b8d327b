-- ===== src/Options.antt =====
-- proxybatcher/options.go: the program's configuration. The yaml tags are the keys of
-- conf/proxybatcher.yaml.
pub mod Check
pub mod Load
use dhcp_batcher.Common.{ℤ, Bytes, List, Bool}

pub record BatchRouterAuth : Type 0 where
  pub username : Bytes
  pub password : Bytes
  pub router_ip : Bytes

pub record SonarConfig : Type 0 where
  pub version : ℤ
  pub api_username : Bytes
  pub api_key : Bytes
  pub instance_name : Bytes
  pub bearer_token : Bytes

pub record BatchConfig : Type 0 where
  pub is_tls_enabled : Bool
  pub tls_key : Bytes
  pub tls_cert : Bytes
  pub endpoint_username : Bytes
  pub endpoint_password : Bytes
  pub server_ip : Bytes
  pub http_server_port : Bytes
  pub tls_server_port : Bytes
  pub scheduler_cycle_time : ℤ
  pub routers : List BatchRouterAuth

pub record ProxyConfig : Type 0 where
  pub upstream_interface : Bytes
  pub downstream_interface : Bytes
  pub upstream_server_ips : List Bytes
  pub proxy_server_ip : Bytes

pub record LoggingConfig : Type 0 where
  pub mode : Bytes
  pub format : Bytes
  pub output : Bytes

pub record ProgramConfig : Type 0 where
  pub operation_mode : Bytes
  pub sonar : SonarConfig
  pub batch : BatchConfig
  pub proxy : ProxyConfig
  pub logging : LoggingConfig
