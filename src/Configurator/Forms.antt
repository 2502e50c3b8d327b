-- ===== src/Configurator/Forms.antt =====
-- proxybatcher/configurator.go: what the pages show when they open. The options of a drop-down are
-- counted from 0.
use dhcp_batcher.Common.{
  ℕ, ℤ, pos, Bytes, bytes, str_eq, is_empty, Bool, Option, none, some, List, [], ◌∷◌, get_or, eqb_ℤ,
  if◌then◌else◌,
}
use dhcp_batcher.GoSlice.{last_index}
use dhcp_batcher.Options.{SonarConfig, BatchConfig, ProxyConfig, LoggingConfig, ProgramConfig}
use dhcp_batcher.Strings.{to_lower}

-- getSystemInterfaces: the names that net.Interfaces returns, or none for its error.
unfoldable pub get_system_interfaces : Option (List Bytes) → List Bytes
get_system_interfaces none = bytes "unable to get system interfaces" ∷ []
get_system_interfaces (some names) = names

-- The loop of getSystemIPAddresses; `parse_cidr` is the address that net.ParseCIDR reads, printed.
unfoldable pub readable_addresses : (Bytes → Option Bytes) → List Bytes → List Bytes
readable_addresses parse_cidr [] = []
readable_addresses parse_cidr (v ∷ addresses) =
    let rest = readable_addresses parse_cidr addresses in
    elim (parse_cidr v) [ none ↦ rest | some ip ↦ ip ∷ rest ]

unfoldable pub get_system_ip_addresses : (Bytes → Option Bytes) → Option (List Bytes) → List Bytes
get_system_ip_addresses parse_cidr none = bytes "unable to get system ips" ∷ []
get_system_ip_addresses parse_cidr (some addresses) = readable_addresses parse_cidr addresses

-- The drop-down of the operation mode, "batch" and "proxy".
unfoldable pub mode_index : Bool → ProgramConfig → ℕ
mode_index load_yaml options =
    if load_yaml then (if str_eq options.operation_mode (bytes "batch") then 0 else 1) else 0

-- The page of the Sonar options; the drop-down is "Sonar v1" and "Sonar v2".
pub record SonarForm : Type 0 where
  pub version_index : ℕ
  pub api_username : Bytes
  pub api_key : Bytes
  pub instance_uri : Bytes
  pub bearer_token : Bytes

unfoldable pub sonar_form : Bool → SonarConfig → SonarForm
sonar_form load_yaml sonar =
    if load_yaml
    then record {
      version_index = if eqb_ℤ sonar.version (pos 1) then 0 else 1;
      api_username = sonar.api_username;
      api_key = sonar.api_key;
      instance_uri = sonar.instance_name;
      bearer_token = sonar.bearer_token;
    }
    else record {
      version_index = 0;
      api_username = [];
      api_key = [];
      instance_uri = [];
      bearer_token = [];
    }

-- The page of the batch options; the drop-down is "no" and "yes".
pub record BatchForm : Type 0 where
  pub enable_tls : ℕ
  pub tls_key : Bytes
  pub tls_cert : Bytes
  pub ip_address : Bytes
  pub http_port : Bytes
  pub tls_port : Bytes
  pub cycle_time : Bytes

abbrev or_default : Bytes → Bytes → Bytes
or_default text default = if is_empty text then default else text

-- `itoa` is strconv.Itoa.
unfoldable pub batch_form : (ℤ → Bytes) → Bool → BatchConfig → BatchForm
batch_form itoa load_yaml batch =
    if load_yaml
    then record {
      enable_tls = if batch.is_tls_enabled then 0 else 1;
      tls_key = or_default batch.tls_key (bytes "./certs/proxybatcher.key");
      tls_cert = or_default batch.tls_cert (bytes "./certs/proxybatcher.crt");
      ip_address = batch.server_ip;
      http_port = or_default batch.http_server_port (bytes "80");
      tls_port = or_default batch.tls_server_port (bytes "443");
      cycle_time = itoa batch.scheduler_cycle_time;
    }
    else record {
      enable_tls = 1;
      tls_key = bytes "./certs/proxybatcher.key";
      tls_cert = bytes "./certs/proxybatcher.crt";
      ip_address = bytes "127.0.0.1";
      http_port = bytes "80";
      tls_port = bytes "443";
      cycle_time = bytes "5";
    }

-- The page of the proxy options: the chosen interfaces and address.
pub record ProxyForm : Type 0 where
  pub upstream_index : ℕ
  pub downstream_index : ℕ
  pub ip_index : ℕ
  pub rows : List Bytes

-- The index that a loop over the choices ends with: the last match, or 0.
abbrev pub chosen_index : Bytes → List Bytes → ℕ
chosen_index text choices = get_or (last_index (λ v. str_eq v text) 0 none choices) 0

-- The rows of the table of DHCP servers: the texts that are addresses.
unfoldable pub server_rows : (Bytes → Bool) → List Bytes → List Bytes
server_rows is_ip [] = []
server_rows is_ip (v ∷ servers) =
    let rest = server_rows is_ip servers in if is_ip v then v ∷ rest else rest

unfoldable pub proxy_form :
    (Bytes → Bool) → Bool → List Bytes → List Bytes → ProxyConfig → ProxyForm
proxy_form is_ip load_yaml interfaces ip_addresses proxy =
    if load_yaml
    then record {
      upstream_index = chosen_index proxy.upstream_interface interfaces;
      downstream_index = chosen_index proxy.downstream_interface interfaces;
      ip_index = chosen_index proxy.proxy_server_ip ip_addresses;
      rows = server_rows is_ip proxy.upstream_server_ips;
    }
    else record { upstream_index = 0; downstream_index = 0; ip_index = 0; rows = [] }

-- The page of the logging options.
pub record LoggingForm : Type 0 where
  pub mode_index : ℕ
  pub format_index : ℕ
  pub output : Bytes

abbrev pub logging_modes : List Bytes
logging_modes = bytes "debug" ∷ bytes "info" ∷ bytes "warn" ∷ []

abbrev pub logging_formats : List Bytes
logging_formats = bytes "text" ∷ bytes "json" ∷ []

-- `unicode` is what strings.ToLower does with a text that is not ASCII.
unfoldable pub logging_form : (Bytes → Bytes) → Bool → LoggingConfig → LoggingForm
logging_form unicode load_yaml logging =
    if load_yaml
    then (let mode = to_lower unicode logging.mode in
        let format = to_lower unicode logging.format in
        record {
          mode_index =
              if str_eq mode (bytes "debug")
              then 0
              else if str_eq mode (bytes "info")
              then 1
              else if str_eq mode (bytes "warn")
              then 2
              else 0;
          format_index =
              if str_eq format (bytes "text")
              then 0
              else if str_eq format (bytes "json")
              then 1
              else 1;
          output =
              if is_empty (to_lower unicode logging.output)
              then bytes "./logs/proxybatcher.log"
              else logging.output;
        })
    else record { mode_index = 0; format_index = 1; output = bytes "./logs/proxybatcher.log" }
