-- ===== src/Logging.antt =====
-- proxybatcher/logging.go: where the program's log goes, and what the endpoint writes to it. The
-- package logrus is not part of the repository: a logger is its formatter, its level and its output.
pub mod Lines
pub mod Output
use dhcp_batcher.Common.{
  ℕ, Bytes, bytes, str_eq, Bool, true, false, not, Option, none, some, List, [], ◌∷◌, ◌++◌, leb,
  if◌then◌else◌,
}
use dhcp_batcher.Options.{LoggingConfig}
use dhcp_batcher.Strings.{to_lower}

pub data Formatter : Type 0 where
  json_formatter text_formatter : Formatter

pub data Level : Type 0 where
  error_level warn_level info_level debug_level : Level

pub data LogOutput : Type 0 where
  stdout stderr : LogOutput
  log_file : Bytes → LogOutput

pub record Logger : Type 0 where
  pub formatter : Formatter
  pub level : Level
  pub output : LogOutput

pub record LogLine : Type 0 where
  pub level : Level
  pub text : Bytes

-- logrus.New: text at level info to the standard error.
abbrev pub new_logger : Logger
new_logger = record { formatter = text_formatter; level = info_level; output = stderr }

-- initBasicLogging. Its call of SetLevel is for the logger of the package logrus, not for this one.
unfoldable pub init_basic_logging : Logger → Logger
init_basic_logging l = record l { formatter = text_formatter; output = stdout }

-- The two switches of initLogging.
unfoldable pub set_formatter : Bytes → Logger → Logger
set_formatter format l =
    if str_eq format (bytes "json")
    then record l { formatter = json_formatter }
    else if str_eq format (bytes "text")
    then l
    else record l { formatter = text_formatter }

unfoldable pub level_of : Bytes → Level
level_of mode =
    if str_eq mode (bytes "debug")
    then debug_level
    else if str_eq mode (bytes "info")
    then info_level
    else if str_eq mode (bytes "warn")
    then warn_level
    else info_level

-- initLogging: the logger, and the errors that it writes. `unicode` is what strings.ToLower does with
-- a text that is not ASCII, and `open_file` what os.OpenFile does: none, or the text of its error.
unfoldable pub init_logging :
    (Bytes → Bytes) → (Bytes → Option Bytes) → LoggingConfig → Logger → Logger × List LogLine
init_logging unicode open_file logging l =
    let set = record (set_formatter (to_lower unicode logging.format) l) {
      level = level_of (to_lower unicode logging.mode);
      output = stderr;
    } in
    let path = to_lower unicode logging.output in
    if str_eq path (bytes "console") then (set, []) else elim (open_file path) [
      | none ↦ (record set { output = log_file path }, [])
      | some e ↦ (
        set,
        record { level = error_level; text = bytes "logger: unable to open " ++ logging.output }
            ∷ record { level = error_level; text = e }
            ∷ record { level = error_level; text = bytes "logger: output will be stderr" }
            ∷ [],
      )
    ]

-- The headline of endpointLogger, and its lines at level debug.
abbrev warn_line : Bytes → LogLine
warn_line text = record { level = warn_level; text = text }

abbrev pub info_line : Bytes → LogLine
info_line text = record { level = info_level; text = text }

abbrev pub debug_line : Bytes → LogLine
debug_line text = record { level = debug_level; text = text }

-- A block of endpointLogger: its headline, the query where the block writes it, and the error.
abbrev pub block : Bytes → Option Bytes → Option Bytes → List LogLine
block headline query none =
    info_line headline ∷ elim query [ none ↦ [] | some q ↦ debug_line (bytes "uri: " ++ q) ∷ [] ]
block headline query (some e) =
    warn_line headline
    ∷ (elim query [ none ↦ [] | some q ↦ debug_line (bytes "uri: " ++ q) ∷ [] ]
        ++ debug_line (bytes "err: " ++ e) ∷ [])

-- endpointLogger: the lines that it writes, one block for each of the four modes.
unfoldable pub endpoint_logger : Bytes → Bytes → Bytes → Bytes → Option Bytes → Bytes → List LogLine
endpoint_logger endpoint_uri condition router_ip rawquery err mode =
    let what = endpoint_uri ++ (bytes ":" ++ condition) in
    let from_source = what ++ (bytes ", source " ++ router_ip) in
    if str_eq mode (bytes "get")
    then block (bytes "get: " ++ from_source) (some rawquery) err
    else if str_eq mode (bytes "post")
    then block (bytes "post: " ++ from_source) none err
    else if str_eq mode (bytes "auth")
    then block (bytes "auth: " ++ (what ++ (bytes " " ++ router_ip))) none err
    else if str_eq mode []
    then block from_source (some rawquery) err
    else []

-- logrus writes a line whose level the logger's level takes in.
abbrev rank : Level → ℕ
rank error_level = 2
rank warn_level = 3
rank info_level = 4
rank debug_level = 5

unfoldable pub written : Level → List LogLine → List LogLine
written level [] = []
written level (l ∷ lines) =
    let rest = written level lines in if leb (rank l.level) (rank level) then l ∷ rest else rest
