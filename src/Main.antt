-- ===== src/Main.antt =====
-- proxybatcher/dhcp-batcher.go: main, from the configuration that initConfig has read to the server
-- that it starts. The ballast, the calls of the loggers and the servers themselves are left
-- out.
pub mod Program
use dhcp_batcher.Common.{
  bytes, str_eq, str_eq_iff, ◌≡◌, ◌≢◌, ◌↔◌, ◌⊎◌, inl, inr, refl, sym, ap, ◌∙◌, arith, if◌then◌else◌,
}
use dhcp_batcher.Options.{ProgramConfig}
use dhcp_batcher.Options.Load.{Loaded, load_error, configured, loaded}
use dhcp_batcher.Options.Check.{
  ConfigError, System, Verdict, pass, fail, cleaned, check_config, check_modes, check_instance,
  clean_instance,
}
use dhcp_batcher.Options.Check.Passes.{ConfigOk, check_config_iff}
use dhcp_batcher.Batch.{RecordTable, init_table}

-- How main goes on: it returns, or it has started the scheduler over a table and runs the server of
-- a mode, or it returns at once since the mode is neither.
pub data Started : Type 0 where
  not_loaded : Started
  refused : ConfigError → Started
  batch_server : ProgramConfig → RecordTable → Started
  dhcp_proxy : ProgramConfig → RecordTable → Started
  no_mode : ProgramConfig → RecordTable → Started

-- The switch over the mode.
unfoldable pub start_mode : ProgramConfig → Started
start_mode options =
    if str_eq options.operation_mode (bytes "batch")
    then batch_server options (init_table options)
    else if str_eq options.operation_mode (bytes "proxy")
    then dhcp_proxy options (init_table options)
    else no_mode options (init_table options)

-- What follows checkConfig.
abbrev pub proceed : Verdict × ProgramConfig → Started
proceed (fail e, left) = refused e
proceed (pass, left) = start_mode left

-- main, with how initConfig ended, which returns an error after the configurator too.
unfoldable pub main : System → Loaded → Started
main sys load_error = not_loaded
main sys (configured load_yaml options) = not_loaded
main sys (loaded options) = proceed (check_config sys options)

module _ (sys : System) (options : ProgramConfig) where
  check_config-cases :
      ((e : ConfigError) × (left : ProgramConfig) × (check_config sys options ≡ (fail e, left)))
      ⊎ (check_config sys options ≡ (pass, cleaned sys options))
  unfolding check_config
  check_config-cases = by_modes (check_modes sys options) refl
    where
      by_name :
          (v : Verdict)
          → check_modes sys options ≡ pass
          → check_instance (clean_instance sys options.sonar.instance_name) ≡ v
          → ((e : ConfigError) × (left : ProgramConfig) × (check_config sys options
                ≡ (fail e, left)))
            ⊎ (check_config sys options ≡ (pass, cleaned sys options))
      by_name pass ok e = inr (rw (ok, check_config, e) refl)
      by_name (fail f) ok e = inl (f, cleaned sys options, rw (ok, check_config, e) refl)

      by_modes :
          (v : Verdict)
          → check_modes sys options ≡ v
          → ((e : ConfigError) × (left : ProgramConfig) × (check_config sys options
                ≡ (fail e, left)))
            ⊎ (check_config sys options ≡ (pass, cleaned sys options))
      by_modes pass e = by_name _ e refl
      by_modes (fail f) e = inl (f, options, rw (e, check_config) refl)

  main_ok : ConfigOk sys options → main sys (loaded options) ≡ start_mode (cleaned sys options)
  unfolding main
  main_ok h = ap proceed ((check_config_iff sys options).1 h)

  pub main-cases :
      ((e : ConfigError) × (main sys (loaded options) ≡ refused e))
      ⊎ (ConfigOk sys options × (main sys (loaded options) ≡ start_mode (cleaned sys options)))
  unfolding main
  main-cases = elim check_config-cases [
    | inl (e, left, bad) ↦ inl (e, ap proceed bad)
    | inr good ↦ let ok = (check_config_iff sys options).0 good in inr (ok, main_ok ok)
  ]

  -- Options that do not meet the requirements are refused.
  pub main-refused :
      ¬ ConfigOk sys options → (e : ConfigError) × (main sys (loaded options) ≡ refused e)
  main-refused bad = elim main-cases [ inl run ↦ run | inr (ok, go) ↦ absurd (bad ok) ]

  start_mode-batch_server :
      start_mode (cleaned sys options)
        ≡ batch_server (cleaned sys options) (init_table (cleaned sys options))
      → options.operation_mode ≡ bytes "batch"
  unfolding start_mode
  start_mode-batch_server e = ground (arith, str_eq_iff options.operation_mode (bytes "batch"))

  -- Main comes to run the endpoint over a fresh table, with the cleaned options, exactly when the
  -- options meet the requirements of checkConfig and the operation mode is the text batch, in lower
  -- case.
  pub main-batch_server_iff :
      (main sys (loaded options)
        ≡ batch_server (cleaned sys options) (init_table (cleaned sys options)))
      ↔ (ConfigOk sys options × (options.operation_mode ≡ bytes "batch"))
  unfolding start_mode
  main-batch_server_iff = (
    λ run. elim main-cases [
      | inl (e, bad) ↦ absurd (ground arith)
      | inr (ok, go) ↦ (ok, start_mode-batch_server (sym go ∙ run))
    ],
    λ (ok, mode). main_ok ok ∙ ground (arith, str_eq_iff options.operation_mode (bytes "batch")),
  )
