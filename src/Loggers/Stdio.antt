-- ===== src/Loggers/Stdio.antt =====
-- include/tpmkit/logging/stdio_logger.h and src/adapters/logging/stdio/stdio_logger.cpp. The clock,
-- the environment and the terminals are an argument.
use tpmkit.Base.{
  ℕ, zero, suc, ◌+◌, ◌-◌, Bool, true, false, not, List, [], ◌∷◌, ◌++◌, Option, none, some, String,
  codes, length, ltb, ◌==◌, if◌then◌else◌,
}
use tpmkit.Base.Decimal.{to_decimal}
use tpmkit.Logging.{LogLevel, trace, debug, info, warn, error, unlisted, LogRecord}
use tpmkit.Loggers.Line.{append_fields}

-- `auto_`; `unlisted n` is the value n + 3 of the enum's underlying type.
pub data ColorMode : Type 0 where
  automatic always never : ColorMode
  unlisted_mode : ℕ → ColorMode

-- `std::cout`, `std::cerr`, and the streams of a caller.
pub data Stream : Type 0 where
  cout cerr : Stream
  own : ℕ → Stream

pub record Options : Type 0 where
  pub min_level : Option LogLevel
  pub color : ColorMode
  pub out : Option Stream
  pub err : Option Stream

-- `stdio_logger`; its buffer is empty between two records.
pub record StdioLogger : Type 0 where
  pub color : ColorMode
  pub err : Option Stream
  pub min_level : Option LogLevel
  pub out : Option Stream

-- The fields of `std::tm`, with the year and the month as they are written, and milliseconds.
pub record Utc : Type 0 where
  pub year : ℕ
  pub month : ℕ
  pub day : ℕ
  pub hour : ℕ
  pub minute : ℕ
  pub second : ℕ
  pub millis : ℕ

-- What a call of `log` finds: the time, if it can be converted, variables of the environment, and
-- whether `isatty` says yes.
pub record Surroundings : Type 0 where
  pub utc : Option Utc
  pub no_color : Option (List ℕ)
  pub force_color : Option (List ℕ)
  pub stdout_tty : Bool
  pub stderr_tty : Bool

-- 27 is the escape character.
abbrev pub ansi : List ℕ → List ℕ
ansi text = 27 ∷ text

abbrev pub reset_sequence : List ℕ
reset_sequence = ansi (codes "[0m")

unfoldable pub ansi_sequence : LogLevel → List ℕ
ansi_sequence trace = ansi (codes "[2m")
ansi_sequence debug = ansi (codes "[36m")
ansi_sequence info = ansi (codes "[32m")
ansi_sequence warn = ansi (codes "[33m")
ansi_sequence error = ansi (codes "[31m")
ansi_sequence (unlisted n) = []

abbrev pub zeros : ℕ → List ℕ
zeros zero = []
zeros (suc n) = 48 ∷ zeros n

-- `%0wd` of a number that is not negative.
unfoldable pub padded : ℕ → ℕ → List ℕ
padded w n = zeros (w - length (to_decimal n)) ++ to_decimal n

unfoldable pub timestamp : Option Utc → List ℕ
unfolding padded
timestamp none = codes "1970-01-01T00:00:00.000Z"
timestamp (some t) =
    padded 4 t.year
    ++ (45
        ∷ (padded 2 t.month
            ++ (45
                ∷ (padded 2 t.day
                    ++ (84
                        ∷ (padded 2 t.hour
                            ++ (58
                                ∷ (padded 2 t.minute
                                    ++ (58
                                        ∷ (padded 2 t.second
                                            ++ (46 ∷ (padded 3 t.millis ++ (90 ∷ [])))))))))))))

-- A variable that is set to a text that is not empty; a 0 ends the text.
unfoldable pub env_is_set : Option (List ℕ) → Bool
env_is_set none = false
env_is_set (some []) = false
env_is_set (some (c ∷ cs)) = not (c == 0)

abbrev pub level_value : LogLevel → ℕ
level_value trace = 0
level_value debug = 1
level_value info = 2
level_value warn = 3
level_value error = 4
level_value (unlisted n) = n + 5

unfoldable pub is_below_min_level : LogLevel → Option LogLevel → Bool
is_below_min_level level none = false
is_below_min_level level (some min_level) = ltb (level_value level) (level_value min_level)

unfoldable pub is_tty_stream : Surroundings → Stream → Bool
is_tty_stream s cout = s.stdout_tty
is_tty_stream s cerr = s.stderr_tty
is_tty_stream s (own n) = false

unfoldable pub level_label : LogLevel → String
level_label trace = "TRACE"
level_label debug = "DEBUG"
level_label info = "INFO "
level_label warn = "WARN "
level_label error = "ERROR"
level_label (unlisted n) = "INFO "

abbrev by_environment : Surroundings → Stream → Bool
by_environment s stream =
    if env_is_set s.no_color
    then false
    else if env_is_set s.force_color
    then true
    else is_tty_stream s stream

unfoldable pub should_colorize : Surroundings → ColorMode → Stream → Bool
unfolding env_is_set is_tty_stream
should_colorize s always stream = true
should_colorize s never stream = false
should_colorize s automatic stream = by_environment s stream
should_colorize s (unlisted_mode n) stream = by_environment s stream

unfoldable pub stream_for_level : LogLevel → Option Stream → Option Stream → Option Stream
stream_for_level trace out err = out
stream_for_level debug out err = out
stream_for_level info out err = out
stream_for_level warn out err = err
stream_for_level error out err = err
stream_for_level (unlisted n) out err = out

abbrev or_default : Option Stream → Stream → Option Stream
or_default none default = some default
or_default (some stream) default = some stream

-- `stdio_logger::stdio_logger`
unfoldable pub make_stdio_logger : Options → StdioLogger
make_stdio_logger opts = record {
  color = opts.color;
  err = or_default opts.err cerr;
  min_level = opts.min_level;
  out = or_default opts.out cout;
}

-- The new logger, and what is left of the old one.
unfoldable pub move_logger : StdioLogger → StdioLogger × StdioLogger
move_logger other = (
  record { color = other.color; err = other.err; min_level = other.min_level; out = other.out },
  record other { err = none; out = none },
)

-- The target and the source of an assignment after it; `same` says that they are one object.
unfoldable pub assign_logger : Bool → StdioLogger → StdioLogger → StdioLogger × StdioLogger
unfolding move_logger
assign_logger same target other = if same then (target, other) else move_logger other

unfoldable pub level_token : Bool → LogLevel → List ℕ
unfolding ansi_sequence level_label
level_token true level =
    ansi_sequence level ++ (91 ∷ (codes (level_label level) ++ (93 ∷ reset_sequence)))
level_token false level = 91 ∷ (codes (level_label level) ++ (93 ∷ []))

-- The text of a record, up to the newline.
unfoldable pub record_text : Surroundings → Bool → LogRecord → List ℕ
unfolding timestamp level_token append_fields
record_text s color r =
    timestamp s.utc
    ++ (32 ∷ (level_token color r.level ++ (32 ∷ (codes r.message ++ append_fields r.fields))))

abbrev pub written : Surroundings → ColorMode → LogRecord → Option Stream → List (Stream × List ℕ)
written s color r none = []
written s color r (some stream) =
    (stream, record_text s (should_colorize s color stream) r ++ (10 ∷ [])) ∷ []

-- What `stdio_logger::log` writes, and where.
unfoldable pub log : Surroundings → StdioLogger → LogRecord → List (Stream × List ℕ)
unfolding is_below_min_level stream_for_level should_colorize record_text
log s logger r =
    if is_below_min_level r.level logger.min_level
    then []
    else written s logger.color r (stream_for_level r.level logger.out logger.err)
