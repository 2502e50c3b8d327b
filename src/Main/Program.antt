-- ===== src/Main/Program.antt =====
-- proxybatcher/dhcp-batcher.go: main from its first line, with the configuration file, the flags and the
-- loggers. The ballast, which nothing reads, is left out.
use dhcp_batcher.Common.{
  Bytes, bytes, str_eq_iff, Option, ◌≡◌, ◌↔◌, inl, inr, refl, sym, ◌∙◌, arith,
}
use dhcp_batcher.Options.{ProgramConfig}
use dhcp_batcher.Options.Load.{Flags, Disk, Loaded, load_error, configured, loaded, init_config}
use dhcp_batcher.Options.Check.{System, cleaned}
use dhcp_batcher.Options.Check.Passes.{ConfigOk}
use dhcp_batcher.Batch.{RecordTable, init_table}
use dhcp_batcher.Logging.{Logger, new_logger, init_basic_logging, init_logging}
use dhcp_batcher.Main.{
  Started, not_loaded, batch_server, start_mode, main, main-cases, main-batch_server_iff,
}

-- What the program finds when it is started.
pub record World : Type 0 where
  pub sys : System
  pub disk : Disk
  pub flags : Flags
  pub unicode : Bytes → Bytes
  pub open_file : Bytes → Option Bytes

-- What main does once initConfig has ended, over the logger that initBasicLogging has left.
unfoldable pub go_on : World → Loaded → Logger → Logger × Started
go_on world (loaded options) l = (
  (init_logging world.unicode world.open_file options.logging l).0,
  main world.sys (loaded options),
)
go_on world other l = (l, not_loaded)

unfoldable pub program : World → Logger × Started
program world = go_on world (init_config world.disk world.flags) (init_basic_logging new_logger)

start_mode-batch :
    (options o : ProgramConfig) (t : RecordTable)
    → start_mode options ≡ batch_server o t
    → (options.operation_mode ≡ bytes "batch") × (o ≡ options)
unfolding start_mode
start_mode-batch options o t e = ground (arith, str_eq_iff options.operation_mode (bytes "batch"))

module _ (world : World) where
  -- The options that main runs the endpoint with, and where they come from.
  abbrev pub Serves : ProgramConfig → Type 0
  Serves o =
      (after : ProgramConfig) × (init_config world.disk world.flags ≡ loaded after)
      × ConfigOk world.sys after
      × (after.operation_mode ≡ bytes "batch")
      × (o ≡ cleaned world.sys after)

  go_on-Serves :
      (o : ProgramConfig) (r : Loaded) (l : Logger)
      → init_config world.disk world.flags ≡ r
      → (go_on world r l).1 ≡ batch_server o (init_table o)
      → Serves o
  unfolding go_on
  go_on-Serves o load_error l read e = absurd (ground arith)
  go_on-Serves o (configured load_yaml options) l read e = absurd (ground arith)
  go_on-Serves o (loaded after) l read e = elim (main-cases world.sys after) [
    | inl (err, bad) ↦ absurd (ground (arith, sym bad ∙ e))
    | inr (ok, go) ↦
        let (mode, same) =
          start_mode-batch (cleaned world.sys after) o (init_table o) (sym go ∙ e) in
        (after, read, ok, mode, same)
  ]

  -- From its first line the program comes to run the endpoint over a fresh table with some options
  -- exactly when initConfig loads options that meet the requirements of checkConfig and whose
  -- operation mode is the text batch, in lower case, and these, cleaned, are the options.
  pub program-batch_server_iff :
      (o : ProgramConfig) → ((program world).1 ≡ batch_server o (init_table o)) ↔ Serves o
  unfolding program go_on
  program-batch_server_iff o = (
    λ e. go_on-Serves o (init_config world.disk world.flags) (init_basic_logging new_logger) refl e,
    λ (after, read, ok, mode, same).
        rw (read, same) ((main-batch_server_iff world.sys after).1 (ok, mode)),
  )
