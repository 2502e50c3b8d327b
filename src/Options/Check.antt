-- ===== src/Options/Check.antt =====
-- proxybatcher/options.go, checkConfig: the checks that the program makes before it starts.
pub mod Passes
use dhcp_batcher.Common.{
  ℕ, Bytes, bytes, str_eq, is_empty, Bool, true, false, not, ◌&&◌, ◌||◌, Option, none, some, List,
  [], ◌∷◌, length, ltb, if◌then◌else◌, ℤ, pos, ltb_ℤ, eqb_ℤ,
}
use dhcp_batcher.Options.{SonarConfig, BatchConfig, ProxyConfig, ProgramConfig}
use dhcp_batcher.Strings.{to_lower, remove_first, atoi}

-- The errors that checkConfig returns, named for the option and the fault.
pub data ConfigError : Type 0 where
  tls_key_not_found tls_cert_not_found tls_port_not_integer : ConfigError
  username_short password_short batch_ip_invalid : ConfigError
  proxy_ip_invalid dhcp_ips_missing dhcp_ip_invalid : ConfigError
  version_invalid : ConfigError
  api_username_long api_username_blank api_key_long api_key_blank bearer_token_long : ConfigError
  instance_invalid : ConfigError

-- What the checks need of the system and of the libraries: whether os.Stat finds a path, whether
-- net.ParseIP takes a text, and strings.ToLower of a text that is not ASCII.
pub record System : Type 0 where
  pub exists : Bytes → Bool
  pub is_ip : Bytes → Bool
  pub unicode_lower : Bytes → Bytes

pub data Verdict : Type 0 where
  pass : Verdict
  fail : ConfigError → Verdict

-- The next check is made if the one before it passes.
infixl 5 ◌>>◌
abbrev pub ◌>>◌ : Verdict → Verdict → Verdict
pass >> next = next
fail e >> next = fail e

-- `if refused { return error }`
abbrev pub fail_if : Bool → ConfigError → Verdict
fail_if true e = fail e
fail_if false e = pass

abbrev pub is_none {ℓ} : {A : Type ℓ} → Option A → Bool
is_none none = true
is_none (some a) = false

module _ (sys : System) where
  unfoldable pub lower : Bytes → Bytes
  lower = to_lower sys.unicode_lower

  unfoldable pub check_tls : BatchConfig → Verdict
  check_tls batch =
      fail_if (not (sys.exists batch.tls_key)) tls_key_not_found
      >> fail_if (not (sys.exists batch.tls_cert)) tls_cert_not_found
      >> fail_if (is_none (atoi batch.tls_server_port)) tls_port_not_integer

  unfoldable pub check_batch : BatchConfig → Verdict
  check_batch batch =
      (if batch.is_tls_enabled then check_tls batch else pass)
      >> fail_if (ltb (length batch.endpoint_username) 5) username_short
      >> fail_if (ltb (length batch.endpoint_password) 16) password_short
      >> fail_if (not (sys.is_ip batch.server_ip)) batch_ip_invalid

  unfoldable pub check_servers : List Bytes → Verdict
  check_servers [] = pass
  check_servers (s ∷ servers) = fail_if (not (sys.is_ip s)) dhcp_ip_invalid >> check_servers servers

  abbrev no_servers : List Bytes → Bool
  no_servers [] = true
  no_servers (s ∷ servers) = false

  unfoldable pub check_proxy : ProxyConfig → Verdict
  check_proxy proxy =
      fail_if (not (sys.is_ip proxy.proxy_server_ip)) proxy_ip_invalid
      >> fail_if (no_servers proxy.upstream_server_ips) dhcp_ips_missing
      >> check_servers proxy.upstream_server_ips

-- The test of the version joins its two halves by "and".
unfoldable pub check_version : SonarConfig → Verdict
check_version sonar =
    fail_if (ltb_ℤ sonar.version (pos 1) && ltb_ℤ (pos 2) sonar.version) version_invalid

unfoldable pub check_v1 : SonarConfig → Verdict
check_v1 sonar =
    fail_if (ltb 256 (length sonar.api_username)) api_username_long
    >> fail_if (is_empty sonar.api_username) api_username_blank
    >> fail_if (ltb 1925 (length sonar.api_key)) api_key_long
    >> fail_if (is_empty sonar.api_key) api_key_blank

unfoldable pub check_v2 : SonarConfig → Verdict
check_v2 sonar = fail_if (ltb 1925 (length sonar.bearer_token)) bearer_token_long

-- The host name as it is kept: in lower case, without the first "https://".
unfoldable pub clean_instance : System → Bytes → Bytes
clean_instance sys name = remove_first (bytes "https://") (lower sys name)

unfoldable pub check_instance : Bytes → Verdict
check_instance name = fail_if (ltb 256 (length name) || is_empty name) instance_invalid

-- The checks before the instance name is rewritten.
unfoldable pub check_modes : System → ProgramConfig → Verdict
check_modes sys options =
    (if str_eq (lower sys options.operation_mode) (bytes "batch")
      then check_batch sys options.batch
      else pass)
    >> (if str_eq (lower sys options.operation_mode) (bytes "proxy")
        then check_proxy sys options.proxy
        else pass)
    >> check_version options.sonar
    >> (if eqb_ℤ options.sonar.version (pos 1) then check_v1 options.sonar else pass)
    >> (if eqb_ℤ options.sonar.version (pos 2) then check_v2 options.sonar else pass)

-- The options with the instance name rewritten.
abbrev pub cleaned : System → ProgramConfig → ProgramConfig
cleaned sys options = record options {
  sonar = record options.sonar { instance_name = clean_instance sys options.sonar.instance_name };
}

-- checkConfig: the verdict, and the options that it leaves.
unfoldable pub check_config : System → ProgramConfig → Verdict × ProgramConfig
check_config sys options = elim (check_modes sys options) [
  | fail e ↦ (fail e, options)
  | pass ↦ (check_instance (clean_instance sys options.sonar.instance_name), cleaned sys options)
]
