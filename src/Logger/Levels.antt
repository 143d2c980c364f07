-- ===== src/Logger/Levels.antt =====
-- What InitLoggerFromConfig of core/common/xrpc_logger.cc sets up, and when it throws.
use xrpc.Base.{
  ◌≡◌, ◌≢◌, refl, ap, ◌∙◌, true, false, Option, none, some, [], ◌++◌, Bytes, codes, text_eq,
  text_eq_iff, ok, throw, Bool-cases, inl, inr,
}
use xrpc.Base.Dict.{Dict}
use xrpc.Config.{load, get, open_failed}
use xrpc.Logger.{
  LogLevel, SpdLevel, Spdlog, spd_level, logger_failed, load_failed, invalid_level, lower, level_of,
  install, init_logger, init_logger_from_config, with_level, with_sink,
}

-- The name of a level in the configuration file.
abbrev pub name_of : LogLevel → Bytes
name_of LogLevel.trace = codes "trace"
name_of LogLevel.debug = codes "debug"
name_of LogLevel.info = codes "info"
name_of LogLevel.warn = codes "warn"
name_of LogLevel.error = codes "error"
name_of LogLevel.critical = codes "critical"

level_of-name_of : (l : LogLevel) → level_of (name_of l) ≡ ok l
unfolding level_of text_eq
level_of-name_of LogLevel.trace = refl
level_of-name_of LogLevel.debug = refl
level_of-name_of LogLevel.info = refl
level_of-name_of LogLevel.warn = refl
level_of-name_of LogLevel.error = refl
level_of-name_of LogLevel.critical = refl

differs : {s t : Bytes} → s ≢ t → text_eq s t ≡ false
differs {s} {t} h = elim (Bool-cases (text_eq s t)) [
  | inl same ↦ elim (h ((text_eq_iff s t).0 same)) [ ]
  | inr other ↦ other
]

level_of_unknown :
    (s : Bytes) → ((l : LogLevel) → s ≢ name_of l) → level_of s ≡ throw (invalid_level ++ s)
unfolding level_of
level_of_unknown s h =
    rw
      (
        differs (h LogLevel.trace),
        differs (h LogLevel.debug),
        differs (h LogLevel.info),
        differs (h LogLevel.warn),
        differs (h LogLevel.error),
        differs (h LogLevel.critical),
      )
      refl

-- A logger as spdlog shows it.
pub record Looks : Type 0 where
  pub level : SpdLevel
  pub flush : SpdLevel
  pub file : Bytes

-- What spdlog documents of the calls.
pub record SpdlogLaws (spd : Spdlog) : Type 0 where
  pub default_logger : spd.State → spd.Logger
  pub looks : spd.State → spd.Logger → Looks
  pub file_of : spd.Sink → Bytes
  pub file_of-file_sink :
      (file : Bytes) (s s' : spd.State) (sink : spd.Sink)
      → spd.file_sink file true s ≡ (s', ok sink)
      → file_of sink ≡ file
  pub looks-new_logger :
      (name : Bytes) (sink : spd.Sink) (s : spd.State)
      → (looks (spd.new_logger name sink s).0 (spd.new_logger name sink s).1).file ≡ file_of sink
  pub looks-set_level :
      (g : spd.Logger) (v : SpdLevel) (s : spd.State)
      → looks (spd.set_level g v s) g ≡ record (looks s g) { level = v }
  pub looks-flush_on :
      (g : spd.Logger) (v : SpdLevel) (s : spd.State)
      → looks (spd.flush_on g v s) g ≡ record (looks s g) { flush = v }
  pub looks-set_default :
      (g : spd.Logger) (s : spd.State) → looks (spd.set_default_logger g s) g ≡ looks s g
  pub looks-set_pattern :
      (g : spd.Logger) (p : Bytes) (s : spd.State) → looks (spd.set_pattern p s) g ≡ looks s g
  pub looks-log :
      (g : spd.Logger) (v : SpdLevel) (t : Bytes) (s : spd.State)
      → looks (spd.log v t s) g ≡ looks s g
  pub default-set_default :
      (g : spd.Logger) (s : spd.State) → default_logger (spd.set_default_logger g s) ≡ g
  pub default-set_pattern :
      (p : Bytes) (s : spd.State) → default_logger (spd.set_pattern p s) ≡ default_logger s
  pub default-flush_on :
      (g : spd.Logger) (v : SpdLevel) (s : spd.State)
      → default_logger (spd.flush_on g v s) ≡ default_logger s
  pub default-log :
      (v : SpdLevel) (t : Bytes) (s : spd.State) → default_logger (spd.log v t s) ≡ default_logger s

-- The default logger has this level and file, and flushes from `debug` on.
abbrev pub LogsTo : {spd : Spdlog} → SpdlogLaws spd → spd.State → LogLevel → Bytes → Type 0
LogsTo laws s level file =
    laws.looks s (laws.default_logger s)
    ≡ record { level = spd_level level; flush = SpdLevel.debug; file = file }

-- Why the initialisation throws: the configuration does not open, its level has no such name, or
-- the log file does not open.
pub data Fails (spd : Spdlog) (config_file : Bytes) (s : spd.State)
    : Option Bytes → spd.State → Bytes → Type 0 where
  no_config : Fails spd config_file s none s (load_failed ++ (open_failed ++ config_file))
  no_level :
      (text : Bytes) (config : Dict Bytes)
      → load config_file (some text) [] ≡ ok config
      → ((l : LogLevel) → lower (get (codes "log_level") (codes "info") config) ≢ name_of l)
      → Fails spd config_file s
          (some text)
          s
          (invalid_level ++ lower (get (codes "log_level") (codes "info") config))
  no_sink :
      (text : Bytes) (config : Dict Bytes) (level : LogLevel) (s' : spd.State) (what : Bytes)
      → load config_file (some text) [] ≡ ok config
      → lower (get (codes "log_level") (codes "info") config) ≡ name_of level
      → spd.file_sink (get (codes "log_file") (codes "xrpc.log") config) true s ≡ (s', throw what)
      → Fails spd config_file s (some text) s' (logger_failed ++ what)

module _ (spd : Spdlog) where
  named_level :
      (config_file : Bytes) (text : Option Bytes) (config : Dict Bytes) (level : LogLevel)
      (s : spd.State)
      → load config_file text [] ≡ ok config
      → lower (get (codes "log_level") (codes "info") config) ≡ name_of level
      → init_logger_from_config spd config_file text s
        ≡ init_logger spd (get (codes "log_file") (codes "xrpc.log") config) level s
  unfolding init_logger_from_config
  named_level config_file text config level s loaded named =
      rw loaded (ap (λ l. with_level spd config l s) (ap level_of named ∙ level_of-name_of level))

  opened_sink :
      (file : Bytes) (level : LogLevel) (s : spd.State)
      → init_logger spd file level s ≡ with_sink spd file level (spd.file_sink file true s)
  unfolding init_logger
  opened_sink file level s = refl

  install-LogsTo :
      (laws : SpdlogLaws spd) (file : Bytes) (level : LogLevel) (s : spd.State) (sink : spd.Sink)
      → laws.file_of sink ≡ file
      → LogsTo laws (install spd file level sink s) level file
  unfolding install
  install-LogsTo laws file level s sink h =
      rw
        (
          laws.default-log, laws.default-log, laws.default-flush_on, laws.default-set_pattern,
          laws.default-set_default, laws.looks-log, laws.looks-log, laws.looks-flush_on,
          laws.looks-set_pattern, laws.looks-set_default, laws.looks-set_level,
          laws.looks-new_logger, h,
        )
        refl

  -- When the configuration file loads, its `log_level` is the name of a level in letters of either
  -- case (or is missing: `info`), and the log file opens, then InitLoggerFromConfig returns, and
  -- the default logger has that level, writes the `log_file` (or `xrpc.log`) and flushes from
  -- `debug` on.
  pub init_logger_from_config-LogsTo :
      (laws : SpdlogLaws spd) (config_file : Bytes) (text : Option Bytes) (config : Dict Bytes)
      (level : LogLevel) (s s' : spd.State) (sink : spd.Sink)
      → load config_file text [] ≡ ok config
      → lower (get (codes "log_level") (codes "info") config) ≡ name_of level
      → spd.file_sink (get (codes "log_file") (codes "xrpc.log") config) true s ≡ (s', ok sink)
      → ((init_logger_from_config spd config_file text s).1 ≡ ok tt)
        × LogsTo laws
            (init_logger_from_config spd config_file text s).0
            level
            (get (codes "log_file") (codes "xrpc.log") config)
  init_logger_from_config-LogsTo laws config_file text config level s s' sink loaded named opened =
      let file = get (codes "log_file") (codes "xrpc.log") config in
      let whole =
        named_level config_file text config level s loaded named
        ∙ opened_sink file level s
        ∙ ap (with_sink spd file level) opened in
      rw whole (
        refl,
        install-LogsTo laws file level s' sink (laws.file_of-file_sink file s s' sink opened),
      )

  -- InitLoggerFromConfig throws with the text of each failure, and leaves spdlog as it was before,
  -- or as the failed opening of the log file leaves it.
  pub init_logger_from_config-Fails :
      {text : Option Bytes} {s' : spd.State} {what : Bytes} (config_file : Bytes) (s : spd.State)
      → Fails spd config_file s text s' what
      → init_logger_from_config spd config_file text s ≡ (s', throw what)
  init_logger_from_config-Fails config_file s no_config =
      unfold init_logger_from_config load in refl
  init_logger_from_config-Fails config_file s (no_level text config loaded unknown) =
      unfold init_logger_from_config in
      rw loaded (ap (λ l. with_level spd config l s) (level_of_unknown _ unknown))
  init_logger_from_config-Fails config_file s
        (no_sink text config level s' what loaded named failed) =
      let file = get (codes "log_file") (codes "xrpc.log") config in
      named_level config_file (some text) config level s loaded named
      ∙ opened_sink file level s
      ∙ ap (with_sink spd file level) failed
