-- ===== src/Loggers/Spdlog.antt =====
-- src/adapters/logging/spdlog/spdlog_logger.cpp. The sink of spdlog is an argument: which levels it
-- wants; what it does with a text is its own.
use tpmkit.Base.{Bool, not, List, [], ◌∷◌, ◌++◌, Option, none, some, codes, if◌then◌else◌, ℕ}
use tpmkit.Outcome.{Throws, returns, throws, tpmkit_error}
use tpmkit.Logging.{LogLevel, trace, debug, info, warn, error, unlisted, LogRecord}
use tpmkit.Loggers.Line.{append_fields}

-- `spdlog::level::level_enum`, as far as it is used.
pub data SpdlogLevel : Type 0 where
  spd_trace spd_debug spd_info spd_warn spd_err : SpdlogLevel

unfoldable pub to_spdlog_level : LogLevel → SpdlogLevel
to_spdlog_level trace = spd_trace
to_spdlog_level debug = spd_debug
to_spdlog_level info = spd_info
to_spdlog_level warn = spd_warn
to_spdlog_level error = spd_err
to_spdlog_level (unlisted n) = spd_info

pub record Sink : Type 0 where
  pub should_log : SpdlogLevel → Bool

pub data SinkCall : Type 0 where
  logs : SpdlogLevel → List ℕ → SinkCall
  flushes : SinkCall

-- `spdlog_logger`
pub record SpdlogLogger : Type 0 where
  pub sink : Option Sink

unfoldable pub make_spdlog_logger : Option Sink → Throws SpdlogLogger
make_spdlog_logger none = throws (tpmkit_error "spdlog_logger sink must not be null")
make_spdlog_logger (some sink) = returns (record { sink = some sink })

-- The new logger, and what is left of the old one.
unfoldable pub move_spdlog_logger : SpdlogLogger → SpdlogLogger × SpdlogLogger
move_spdlog_logger other = (record { sink = other.sink }, record { sink = none })

-- The target and the source of an assignment after it; `same` says that they are one object.
unfoldable pub assign_spdlog_logger :
    Bool → SpdlogLogger → SpdlogLogger → SpdlogLogger × SpdlogLogger
unfolding move_spdlog_logger
assign_spdlog_logger same target other = if same then (target, other) else move_spdlog_logger other

unfoldable pub rendered : LogRecord → List ℕ
unfolding append_fields
rendered r = codes r.message ++ append_fields r.fields

abbrev sink_log : LogRecord → Option Sink → List SinkCall
sink_log r none = []
sink_log r (some sink) =
    if not (sink.should_log (to_spdlog_level r.level))
    then []
    else logs (to_spdlog_level r.level) (rendered r) ∷ []

-- What `spdlog_logger::log` does to the sink.
unfoldable pub spdlog_log : SpdlogLogger → LogRecord → List SinkCall
unfolding to_spdlog_level rendered
spdlog_log logger r = sink_log r logger.sink

abbrev sink_flush : Option Sink → List SinkCall
sink_flush none = []
sink_flush (some sink) = flushes ∷ []

unfoldable pub flush : SpdlogLogger → List SinkCall
flush logger = sink_flush logger.sink
