-- ===== src/Options/Load.antt =====
-- proxybatcher/options.go, initConfig: the configuration file and the flags that override it. The
-- log lines are not modelled.
use dhcp_batcher.Common.{
  Bytes, bytes, str_eq, str_eq_iff, Bool, true, false, not, ◌||◌, ◌&&◌, Option, none, some, List,
  [], ◌∷◌, ◌↔◌, ◌≡◌, ◌⊎◌, inl, inr, refl, arith, Option-cases, Bool-cases, if◌then◌else◌,
}
use mathlib.Core.Path.{subst}
use dhcp_batcher.Options.{ProgramConfig, LoggingConfig}

-- The flags of the command line: the names of those that were passed, in the order in which
-- flag.Visit visits them, and the values of all, which are empty texts and false where they were not.
pub record Flags : Type 0 where
  pub passed : List Bytes
  pub logging_mode : Bytes
  pub logging_output : Bytes
  pub run_configurator : Bool
  pub load_yaml : Bool

-- isFlagPassed: the function that flag.Visit calls for each flag sets `found`.
unfoldable pub visit : Bytes → List Bytes → Bool → Bool
visit name [] found = found
visit name (f ∷ flags) found = visit name flags (if str_eq f name then true else found)

unfoldable pub is_flag_passed : Flags → Bytes → Bool
is_flag_passed flags name = visit name flags.passed false

-- The configuration file, none for an error of the read; yaml.Unmarshal; and whether os.Stat says
-- that a path does not exist.
pub record Disk : Type 0 where
  pub file : Option Bytes
  pub unmarshal : Bytes → Option ProgramConfig
  pub is_missing : Bytes → Bool

-- How initConfig ends: with an error, with the configurator, which it calls over the options of the file
-- with whether to load them, or with the options.
pub data Loaded : Type 0 where
  load_error : Loaded
  configured : Bool → ProgramConfig → Loaded
  loaded : ProgramConfig → Loaded

unfoldable pub is_mode : Bytes → Bool
is_mode s =
    str_eq s (bytes "none")
    || str_eq s (bytes "info")
    || str_eq s (bytes "warn")
    || str_eq s (bytes "debug")

unfoldable pub override_mode : Flags → LoggingConfig → LoggingConfig
override_mode flags logging =
    if is_flag_passed flags (bytes "logging_mode") && is_mode flags.logging_mode
    then record logging { mode = flags.logging_mode }
    else logging

unfoldable pub override_output : Disk → Flags → LoggingConfig → LoggingConfig
override_output disk flags logging =
    if is_flag_passed flags (bytes "logging_output")
    then (if str_eq flags.logging_output (bytes "console")
        then record logging { output = bytes "console" }
        else if not (disk.is_missing flags.logging_output)
        then record logging { output = flags.logging_output }
        else logging)
    else logging

unfoldable pub init_config : Disk → Flags → Loaded
init_config disk flags = elim disk.file [
  | none ↦ load_error
  | some text ↦ elim (disk.unmarshal text) [
    | none ↦ load_error
    | some options ↦
        if flags.run_configurator
        then configured flags.load_yaml options
        else loaded (record options {
          logging = override_output disk flags (override_mode flags options.logging);
        })
  ]
]

-- What stands in a list.
abbrev pub IsListed : Bytes → List Bytes → Type 0
IsListed name [] = ⊥
IsListed name (f ∷ flags) = (f ≡ name) ⊎ IsListed name flags

visit_iff :
    (name : Bytes) (flags : List Bytes) (found : Bool)
    → (visit name flags found ≡ true) ↔ ((found ≡ true) ⊎ IsListed name flags)
unfolding visit
visit_iff name [] found = (λ e. inl e, λ h. elim h [ inl e ↦ e | inr no_flag ↦ absurd no_flag ])
visit_iff name (f ∷ flags) found =
    let ih = visit_iff name flags (if str_eq f name then true else found) in
    (
      λ e. elim (ih.0 e) [
        | inl now ↦ elim (Bool-cases (str_eq f name)) [
          | inl same ↦ inr (inl ((str_eq_iff f name).0 same))
          | inr other ↦ inl (rw other at now)
        ]
        | inr later ↦ inr (inr later)
      ],
      λ h. elim h [
        | inl old ↦ ih.1 (inl (ground arith))
        | inr (inl same) ↦ ih.1 (inl (rw ((str_eq_iff f name).1 same) refl))
        | inr (inr later) ↦ ih.1 (inr later)
      ],
    )

-- isFlagPassed finds exactly the flags that were passed.
pub is_flag_passed_iff :
    (flags : Flags) (name : Bytes) → (is_flag_passed flags name ≡ true) ↔ IsListed name flags.passed
unfolding is_flag_passed
is_flag_passed_iff flags name =
    let both = visit_iff name flags.passed false in
    (
      λ e. elim (both.0 e) [ inl e' ↦ absurd (ground arith) | inr listed ↦ listed ],
      λ l. both.1 (inr l),
    )

-- A flag that is passed and acceptable is what the option becomes.
pub record IsOverridden (disk : Disk) (flags : Flags) (before after : ProgramConfig) : Type 0 where
  pub rest : record after { logging = before.logging } ≡ before
  pub format : after.logging.format ≡ before.logging.format
  pub mode :
      (after.logging.mode ≡ before.logging.mode)
      ⊎ (IsListed (bytes "logging_mode") flags.passed
          × (flags.logging_mode ≡ after.logging.mode)
          × (is_mode after.logging.mode ≡ true))
  pub output :
      (after.logging.output ≡ before.logging.output)
      ⊎ (IsListed (bytes "logging_output") flags.passed
          × (flags.logging_output ≡ after.logging.output)
          × ((after.logging.output ≡ bytes "console")
              ⊎ (disk.is_missing after.logging.output ≡ false)))

loaded-injective : {a b : ProgramConfig} → loaded a ≡ loaded b → a ≡ b
loaded-injective e = cc

module _ (disk : Disk) (flags : Flags) where
  override_mode-output :
      (logging : LoggingConfig) → (override_mode flags logging).output ≡ logging.output
  unfolding override_mode
  override_mode-output logging = ground arith

  override_output-output :
      (logging : LoggingConfig)
      → ((override_output disk flags logging).output ≡ logging.output)
        ⊎ (IsListed (bytes "logging_output") flags.passed
            × (flags.logging_output ≡ (override_output disk flags logging).output)
            × (((override_output disk flags logging).output ≡ bytes "console")
                ⊎ (disk.is_missing (override_output disk flags logging).output ≡ false)))
  unfolding override_output
  override_output-output logging =
      elim (Bool-cases (is_flag_passed flags (bytes "logging_output"))) [
        | inr off ↦ inl (rw off refl)
        | inl on ↦
            let listed = (is_flag_passed_iff flags (bytes "logging_output")).0 on in
            rw on (grind (arith, str_eq_iff flags.logging_output (bytes "console"), listed))
      ]

  override_mode-mode :
      (logging : LoggingConfig)
      → ((override_mode flags logging).mode ≡ logging.mode)
        ⊎ (IsListed (bytes "logging_mode") flags.passed
            × (flags.logging_mode ≡ (override_mode flags logging).mode)
            × (is_mode (override_mode flags logging).mode ≡ true))
  unfolding override_mode
  override_mode-mode logging = elim (Bool-cases (is_flag_passed flags (bytes "logging_mode"))) [
    | inr off ↦ inl (rw off refl)
    | inl on ↦
        let listed = (is_flag_passed_iff flags (bytes "logging_mode")).0 on in
        rw on (grind (arith, listed))
  ]

  override_output-mode :
      (logging : LoggingConfig)
      → ((override_output disk flags logging).mode ≡ logging.mode)
        × ((override_output disk flags logging).format ≡ logging.format)
  unfolding override_output
  override_output-mode logging = ground arith

  overridden :
      (options : ProgramConfig)
      → IsOverridden disk flags options (record options {
        logging = override_output disk flags (override_mode flags options.logging);
      })
  unfolding override_output override_mode
  overridden options = record {
    rest = refl;
    format = ground arith;
    mode =
        rw (override_output-mode (override_mode flags options.logging)).0
          (override_mode-mode options.logging);
    output = ground (
      arith,
      override_output-output (override_mode flags options.logging),
      override_mode-output options.logging,
    );
  }

  -- If initConfig loads options, the file could be read and parsed, the configurator was not asked
  -- for, and the options are those of the file but for the logging mode, which may be an acceptable
  -- mode passed as a flag, and the logging output, which may be console or an existing path passed
  -- as a flag.
  pub init_config-IsOverridden :
      (after : ProgramConfig)
      → init_config disk flags ≡ loaded after
      → (text : Bytes) × (before : ProgramConfig) × (disk.file ≡ some text)
        × (disk.unmarshal text ≡ some before)
        × (flags.run_configurator ≡ false)
        × IsOverridden disk flags before after
  unfolding init_config override_mode is_flag_passed override_output
  init_config-IsOverridden after e = elim (Option-cases disk.file) [
    | inl no_file ↦ absurd (ground arith)
    | inr (text, read) ↦ elim (Option-cases (disk.unmarshal text)) [
      | inl bad ↦ absurd (ground arith)
      | inr (before, parsed) ↦ elim (Bool-cases flags.run_configurator) [
        | inl form ↦ absurd (ground arith)
        | inr no_form ↦
            let run = rw (read, init_config, parsed, no_form) at e in
            (
              text,
              before,
              read,
              parsed,
              no_form,
              subst (IsOverridden disk flags before) (loaded-injective run) (overridden before),
            )
      ]
    ]
  ]
