-- ===== src/Configurator/Rerun.antt =====
-- From one run of the program to the next: initConfig of proxybatcher/options.go calls the configurator of
-- proxybatcher/configurator.go, SAVE AND QUIT writes the file, and main reads it at the next start.
use dhcp_batcher.Common.{
  ℕ, Bytes, bytes, Bool, true, false, Option, none, some, List, ◌≡◌, ◌⊎◌, inl, inr, refl, ap, ◌∙◌,
  Option-cases, if◌then◌else◌,
}
use dhcp_batcher.Options.{ProgramConfig}
use dhcp_batcher.Options.Check.{ConfigError, System, lower}
use dhcp_batcher.Options.Check.Passes.{ConfigOk}
use dhcp_batcher.Options.Load.{
  Flags, Disk, configured, loaded, init_config, override_mode, override_output,
}
use dhcp_batcher.Main.{main, refused, main-refused}
use dhcp_batcher.Configurator.{open_session, save_and_quit}
use dhcp_batcher.Configurator.Pages.{UiEvent, session}
use dhcp_batcher.Configurator.Saved.{fresh-not_ok}
use dhcp_batcher.Configurator.Unserved.{AddsNoServer, no_server-not_ok}

-- What "SAVE AND QUIT" does to the file: nothing where yaml.Marshal fails, and otherwise what WriteFile
-- does; an error of WriteFile is dropped, and the file is as it was.
unfoldable pub write_options : (ProgramConfig → Option Bytes) → Bool → ProgramConfig → Disk → Disk
write_options marshal can_write options disk = elim (marshal options) [
  | none ↦ disk
  | some text ↦ if can_write then record disk { file = some text } else disk
]

module _ (disk : Disk) (marshal : ProgramConfig → Option Bytes) where
  -- The options of the next start.
  abbrev pub overridden : Flags → ProgramConfig → ProgramConfig
  overridden flags options = record options {
    logging = override_output disk flags (override_mode flags options.logging);
  }

  rerun :
      (flags : Flags) (options : ProgramConfig) (text : Bytes)
      → flags.run_configurator ≡ false
      → marshal options ≡ some text
      → disk.unmarshal text ≡ some options
      → init_config (write_options marshal true options disk) flags
        ≡ loaded (overridden flags options)
  unfolding init_config write_options override_output
  rerun flags options text off e back =
      let written : write_options marshal true options disk ≡ record disk { file = some text } =
        rw (write_options, e) refl in
      rw written (simp (init_config, back, off))

  -- A file that could not be written is read again as it was, and no error says so.
  pub rerun_unwritten :
      (flags : Flags) (options : ProgramConfig)
      → init_config (write_options marshal false options disk) flags ≡ init_config disk flags
  unfolding write_options
  rerun_unwritten flags options = elim (Option-cases (marshal options)) [
    | inl none_made ↦ rw (write_options, none_made) refl
    | inr (text, made) ↦ rw (write_options, made) refl
  ]

  -- If initConfig calls the configurator, a session of it saves a configuration, the file can be
  -- written, and yaml reads back what it wrote, then the next start without the configurator is
  -- refused by checkConfig if no options were loaded and the mode is batch, or if no DHCP server
  -- was added and the mode is proxy, whatever else was entered and whatever flags are passed.
  pub rerun-refused :
      (sys : System) (spare : ℕ → ℕ) (first next : Flags) (load_yaml : Bool)
      (options saved : ProgramConfig) (events : List UiEvent) (text : Bytes)
      → init_config disk first ≡ configured load_yaml options
      → saved
        ≡ save_and_quit (session sys.is_ip spare events (open_session spare load_yaml options))
      → marshal saved ≡ some text
      → disk.unmarshal text ≡ some saved
      → next.run_configurator ≡ false
      → ((load_yaml ≡ false) × (lower sys saved.operation_mode ≡ bytes "batch"))
        ⊎ (AddsNoServer events × (lower sys saved.operation_mode ≡ bytes "proxy"))
      → (e : ConfigError) × (main sys (init_config (write_options marshal true saved disk) next)
          ≡ refused e)
  rerun-refused sys spare first next load_yaml options saved events text ran quit written back off
        faulty =
      let checked = overridden next saved in
      let bad : ¬ ConfigOk sys checked = elim faulty [
        | inl (fresh, batch) ↦
            fresh-not_ok sys spare options events checked
              (ap (λ c. c.batch) quit
                ∙ ap
                    (λ b.
                      (save_and_quit
                        (session sys.is_ip spare events (open_session spare b options))).batch)
                    fresh)
              batch
        | inr (none_added, proxy) ↦
            no_server-not_ok sys spare load_yaml options events checked none_added
              (ap (λ c. c.proxy) quit) proxy
      ] in
      let (e, refusal) = main-refused sys checked bad in
      (e, ap (main sys) (rerun next saved text off written back) ∙ refusal)
