-- ===== src/Logging/Output.antt =====
-- Where the log of proxybatcher/logging.go goes: what initLogging does to the logger, and what
-- startBatchModeServer of proxybatcher/batch_mode.go does to it then.
use dhcp_batcher.Common.{
  Bytes, bytes, str_eq, str_eq_iff, Option, none, List, [], ◌≡◌, ◌≢◌, ◌⊎◌, inl, inr, arith, length,
  Bool-cases, Option-cases,
}
use dhcp_batcher.Options.{LoggingConfig}
use dhcp_batcher.Strings.{to_lower}
use dhcp_batcher.Logging.{
  json_formatter, text_formatter, stderr, log_file, Logger, LogLine, new_logger, init_basic_logging,
  set_formatter, init_logging,
}

module _ (unicode : Bytes → Bytes) (open_file : Bytes → Option Bytes)
    (logging : LoggingConfig) where
  abbrev pub start_up : Logger × List LogLine
  start_up = init_logging unicode open_file logging (init_basic_logging new_logger)

  -- After initBasicLogging and initLogging the log goes to the standard error if the output is
  -- console, in any case; otherwise to the file that the lower-case form of the path names if it
  -- can be opened, and if it cannot to the standard error, with three errors.
  pub init_logging-output :
      let path = to_lower unicode logging.output in
      let (l, errors) = start_up in
      ((path ≡ bytes "console") × (l.output ≡ stderr) × (errors ≡ []))
      ⊎ ((path ≢ bytes "console")
          × (open_file path ≡ none)
          × (l.output ≡ log_file path)
          × (errors ≡ []))
      ⊎ ((path ≢ bytes "console")
          × (open_file path ≢ none)
          × (l.output ≡ stderr)
          × (length errors ≡ 3))
  unfolding init_logging
  init_logging-output =
      let path = to_lower unicode logging.output in
      elim (Bool-cases (str_eq path (bytes "console"))) [
        | inl console ↦ ground (arith, str_eq_iff path (bytes "console"))
        | inr other ↦ elim (Option-cases (open_file path)) [
          | inl opened ↦ ground (arith, str_eq_iff path (bytes "console"))
          | inr (e, failed) ↦ ground (arith, str_eq_iff path (bytes "console"))
        ]
      ]

  -- After initBasicLogging and initLogging the lines are written as JSON if the format is json, in
  -- any case, and as text otherwise.
  pub init_logging-formatter :
      let format = to_lower unicode logging.format in
      ((format ≡ bytes "json") × (start_up.0.formatter ≡ json_formatter))
      ⊎ ((format ≢ bytes "json") × (start_up.0.formatter ≡ text_formatter))
  unfolding init_logging set_formatter init_basic_logging
  init_logging-formatter =
      let format = to_lower unicode logging.format in
      ground (arith, str_eq_iff format (bytes "json"))
