-- ===== src/Examples/Logging.antt =====
-- The theorems on the logger, with a spdlog whose one logger is the default one.
use xrpc.Base.{
  ◌≡◌, refl, true, some, [], ◌∷◌, Bytes, codes, ok, throw, if◌then◌else◌, text_eq, arith,
}
use xrpc.Base.Dict.{lookup, insert}
use xrpc.Config.{
  get, load, load_lines, get_lines, parse_line, split_entry, trim, find_first_not_blank,
  find_last_not_blank,
}
use xrpc.Base.Decimal.{find_byte}
use xrpc.Logger.{LogLevel, SpdLevel, Spdlog, to_lower, init_logger_from_config}
use xrpc.Logger.Levels.{Looks, SpdlogLaws, LogsTo, init_logger_from_config-LogsTo}

-- The file "/" does not open.
abbrev one_logger : Spdlog
one_logger = record {
  State = Looks;
  Sink = Bytes;
  Logger = Unit {0};
  file_sink =
      λ file truncate s. (s, if text_eq file (codes "/") then throw (codes "denied") else ok file);
  new_logger = λ name sink s. (record s { file = sink }, tt);
  set_level = λ g v s. record s { level = v };
  set_default_logger = λ g s. s;
  set_pattern = λ p s. s;
  flush_on = λ g v s. record s { flush = v };
  level = λ s g. s.level;
  shown = λ file v. file;
  log = λ v text s. s;
}

file_of-file_sink :
    (file : Bytes) (s s' : Looks) (sink : Bytes)
    → one_logger.file_sink file true s ≡ (s', ok sink)
    → sink ≡ file
file_of-file_sink file s s' sink e = ground arith

abbrev one_logger_laws : SpdlogLaws one_logger
one_logger_laws = record {
  default_logger = λ s. tt;
  looks = λ s g. s;
  file_of = λ sink. sink;
  file_of-file_sink = file_of-file_sink;
  looks-new_logger = λ name sink s. refl;
  looks-set_level = λ g v s. refl;
  looks-flush_on = λ g v s. refl;
  looks-set_default = λ g s. refl;
  looks-set_pattern = λ g p s. refl;
  looks-log = λ g v t s. refl;
  default-set_default = λ g s. refl;
  default-set_pattern = λ p s. refl;
  default-flush_on = λ g v s. refl;
  default-log = λ v t s. refl;
}

abbrev quiet : Looks
quiet = record { level = SpdLevel.critical; flush = SpdLevel.critical; file = [] }

abbrev settings : Bytes
settings = codes "log_level=WaRN"

init_logger_from_config-LogsTo_example :
    ((init_logger_from_config one_logger (codes "a.conf") (some settings) quiet).1 ≡ ok tt)
    × LogsTo one_logger_laws
        (init_logger_from_config one_logger (codes "a.conf") (some settings) quiet).0
        LogLevel.warn
        (codes "xrpc.log")
unfolding text_eq lookup get insert load load_lines get_lines parse_line split_entry trim
    find_first_not_blank find_last_not_blank find_byte to_lower
init_logger_from_config-LogsTo_example =
    init_logger_from_config-LogsTo one_logger one_logger_laws (codes "a.conf") (some settings)
      ((codes "log_level", codes "WaRN") ∷ []) LogLevel.warn quiet quiet (codes "xrpc.log") refl
      refl refl
