-- ===== src/Logger.antt =====
-- core/common/xrpc_logger.cc: the default logger and its level. spdlog is a parameter: loggers are
-- shared objects, so an operation on one changes the state of the library.
pub mod Levels
use xrpc.Base.{
  ℕ, ◌+◌, Bool, true, false, ◌&&◌, Option, none, some, List, [], ◌∷◌, ◌++◌, map, Bytes, codes,
  text_eq, leb, if◌then◌else◌, Result, ok, throw,
}
use xrpc.Base.Dict.{Dict}
use xrpc.Config.{load, get}

pub data LogLevel : Type 0 where
  trace debug info warn error critical : LogLevel

-- `spdlog::level`, without `off`.
pub data SpdLevel : Type 0 where
  trace debug info warn err critical : SpdLevel

-- `basic_file_sink_mt` throws where it cannot open the file, with the text of the `spdlog_ex`. The
-- macros log to the default logger. `shown` formats the message of `InitLogger`.
pub record Spdlog : Type 1 where
  pub State : Type 0
  pub Sink : Type 0
  pub Logger : Type 0
  pub file_sink : Bytes → Bool → State → State × Result Sink
  pub new_logger : Bytes → Sink → State → State × Logger
  pub set_level : Logger → SpdLevel → State → State
  pub set_default_logger : Logger → State → State
  pub set_pattern : Bytes → State → State
  pub flush_on : Logger → SpdLevel → State → State
  pub level : State → Logger → SpdLevel
  pub shown : Bytes → SpdLevel → Bytes
  pub log : SpdLevel → Bytes → State → State

-- The `switch`.
abbrev pub spd_level : LogLevel → SpdLevel
spd_level LogLevel.trace = SpdLevel.trace
spd_level LogLevel.debug = SpdLevel.debug
spd_level LogLevel.info = SpdLevel.info
spd_level LogLevel.warn = SpdLevel.warn
spd_level LogLevel.error = SpdLevel.err
spd_level LogLevel.critical = SpdLevel.critical

abbrev pub pattern : Bytes
pattern = codes "[%Y-%m-%d %H:%M:%S.%e] [%l] %v"

abbrev pub logger_failed : Bytes
logger_failed = codes "Failed to initialize logger: "

abbrev pub load_failed : Bytes
load_failed = codes "Failed to load config file: "

abbrev pub invalid_level : Bytes
invalid_level = codes "Invalid log_level in config: "

-- `::tolower` in the C locale.
unfoldable pub to_lower : ℕ → ℕ
to_lower c = if leb b'A' c && leb c b'Z' then c + 32 else c

-- `std::transform` of the whole text.
abbrev pub lower : Bytes → Bytes
lower = map to_lower

unfoldable pub level_of : Bytes → Result LogLevel
level_of s =
    if text_eq s (codes "trace")
    then ok LogLevel.trace
    else if text_eq s (codes "debug")
    then ok LogLevel.debug
    else if text_eq s (codes "info")
    then ok LogLevel.info
    else if text_eq s (codes "warn")
    then ok LogLevel.warn
    else if text_eq s (codes "error")
    then ok LogLevel.error
    else if text_eq s (codes "critical")
    then ok LogLevel.critical
    else throw (invalid_level ++ s)

module _ (spd : Spdlog) where
  -- From the logger on.
  unfoldable pub install : Bytes → LogLevel → spd.Sink → spd.State → spd.State
  install file level sink s =
      let (s₁, logger) = spd.new_logger (codes "xrpc") sink s in
      let s₂ = spd.set_level logger (spd_level level) s₁ in
      let s₃ = spd.set_pattern pattern (spd.set_default_logger logger s₂) in
      let s₄ = spd.flush_on logger SpdLevel.debug s₃ in
      let s₅ = spd.log SpdLevel.info (spd.shown file (spd.level s₄ logger)) s₄ in
      spd.log SpdLevel.debug (codes "Debug logging enabled, testing output") s₅

  abbrev pub with_sink :
      Bytes → LogLevel → spd.State × Result spd.Sink → spd.State × Result (Unit {0})
  with_sink file level (s, ok sink) = (install file level sink s, ok tt)
  with_sink file level (s, throw what) = (s, throw (logger_failed ++ what))

  unfoldable pub init_logger : Bytes → LogLevel → spd.State → spd.State × Result (Unit {0})
  init_logger file level s = with_sink file level (spd.file_sink file true s)

  abbrev pub with_level : Dict Bytes → Result LogLevel → spd.State → spd.State × Result (Unit {0})
  with_level config (ok level) s =
      init_logger (get (codes "log_file") (codes "xrpc.log") config) level s
  with_level config (throw what) s = (s, throw what)

  abbrev pub with_config : Result (Dict Bytes) → spd.State → spd.State × Result (Unit {0})
  with_config (ok config) s =
      with_level config (level_of (lower (get (codes "log_level") (codes "info") config))) s
  with_config (throw what) s = (s, throw (load_failed ++ what))

  -- `text` is what the file holds.
  unfoldable pub init_logger_from_config :
      Bytes → Option Bytes → spd.State → spd.State × Result (Unit {0})
  init_logger_from_config config_file text s = with_config (load config_file text []) s
