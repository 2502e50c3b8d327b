-- ===== src/Tests/Logging.antt =====
-- Tests of proxybatcher/logging.go, and of how the servers and the scheduler of batch mode start.
use dhcp_batcher.Common.{
  ◌==◌, if◌then◌else◌, Bytes, bytes, str_eq, is_empty, false, Option, none, [], ◌≡◌, ◌≢◌, ◌⊎◌, refl,
  arith, length, negsuc,
}
use dhcp_batcher.Options.{ProgramConfig, LoggingConfig}
use dhcp_batcher.Options.Load.{loaded}
use dhcp_batcher.Options.Check.{
  cleaned, check_config, check_modes, check_batch, check_version, check_v1, check_instance,
  clean_instance, lower, pass,
}
use dhcp_batcher.Options.Check.Passes.{check_config_iff}
use dhcp_batcher.Strings.{to_lower, is_ascii, lower_byte, remove_first, strip_prefix}
use dhcp_batcher.Batch.{init_table}
use dhcp_batcher.Logging.{init_logging, log_file, stderr}
use dhcp_batcher.Logging.Output.{start_up, init_logging-output}
use dhcp_batcher.Main.{main, batch_server}
use dhcp_batcher.Batch.Loop.{run_batch_scheduler_starts}
use dhcp_batcher.Endpoint.Servers.{TlsPackage}
use dhcp_batcher.System.Start.{main-negative_cycle}
use dhcp_batcher.Tests.Options.{sys, batch_options}

abbrev file_logging : LoggingConfig
file_logging = record { mode = bytes "Debug"; format = bytes "json"; output = bytes "./Logs/a.log" }

abbrev same_text : Bytes → Bytes
same_text s = s

abbrev opens : Bytes → Option Bytes
opens path = none

-- The path is opened in lower case.
lower_path : (start_up same_text opens file_logging).0.output ≡ log_file (bytes "./logs/a.log")
unfolding init_logging to_lower is_ascii lower_byte bytes str_eq
lower_path = refl

init_logging-output_example :
    let path = to_lower same_text file_logging.output in
    let (l, errors) = start_up same_text opens file_logging in
    ((path ≡ bytes "console") × (l.output ≡ stderr) × (errors ≡ []))
    ⊎ ((path ≢ bytes "console") × (opens path ≡ none) × (l.output ≡ log_file path) × (errors ≡ []))
    ⊎ ((path ≢ bytes "console") × (opens path ≢ none) × (l.output ≡ stderr) × (length errors ≡ 3))
init_logging-output_example = init_logging-output same_text opens file_logging

-- The constants of crypto/tls, which are those of the registry of TLS parameters.
abbrev tls : TlsPackage
tls = record {
  curve_p256 = 23;
  x25519 = 29;
  version_tls12 = 0x0303;
  ecdhe_ecdsa_aes_256_gcm = 0xc02c;
  ecdhe_rsa_aes_256_gcm = 0xc030;
  ecdhe_ecdsa_chacha20 = 0xcca9;
  ecdhe_rsa_chacha20 = 0xcca8;
  ecdhe_ecdsa_aes_128_gcm = 0xc02b;
  ecdhe_rsa_aes_128_gcm = 0xc02f;
  suite_name = λ c.
      if c == 0xc02c
      then bytes "TLS_ECDHE_ECDSA_WITH_AES_256_GCM_SHA384"
      else if c == 0xc030
      then bytes "TLS_ECDHE_RSA_WITH_AES_256_GCM_SHA384"
      else if c == 0xcca9
      then bytes "TLS_ECDHE_ECDSA_WITH_CHACHA20_POLY1305_SHA256"
      else if c == 0xcca8
      then bytes "TLS_ECDHE_RSA_WITH_CHACHA20_POLY1305_SHA256"
      else if c == 0xc02b
      then bytes "TLS_ECDHE_ECDSA_WITH_AES_128_GCM_SHA256"
      else if c == 0xc02f
      then bytes "TLS_ECDHE_RSA_WITH_AES_128_GCM_SHA256"
      else [];
  ecdsa_256 = refl;
  rsa_256 = refl;
  ecdsa_chacha = refl;
  rsa_chacha = refl;
  ecdsa_128 = refl;
  rsa_128 = refl;
}

abbrev negative_options : ProgramConfig
negative_options = record batch_options {
  operation_mode = bytes "batch";
  batch = record batch_options.batch { scheduler_cycle_time = negsuc 4 };
}

negative_accepted : check_config sys negative_options ≡ (pass, cleaned sys negative_options)
unfolding bytes str_eq check_config check_modes check_batch check_version check_v1 check_instance
    clean_instance lower to_lower is_ascii lower_byte remove_first strip_prefix is_empty
negative_accepted = refl

-- Five minutes back: the checks pass, and the scheduler's goroutine panics.
main-negative_cycle_example :
    (main sys (loaded negative_options)
      ≡ batch_server (cleaned sys negative_options) (init_table (cleaned sys negative_options)))
    × (run_batch_scheduler_starts (init_table (cleaned sys negative_options)) ≡ false)
main-negative_cycle_example =
    main-negative_cycle sys negative_options 4
      ((check_config_iff sys negative_options).0 negative_accepted) refl refl (omega arith)
