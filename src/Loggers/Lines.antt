-- ===== src/Loggers/Lines.antt =====
-- src/adapters/logging/stdio/stdio_logger.cpp: a record is one line of text.
use tpmkit.Base.{
  ℕ, zero, suc, ◌+◌, ◌-◌, ◌%◌, ◌/◌, ◌==◌, ◌≤◌, ◌≡◌, refl, ◌⊎◌, inl, inr, arith, Bool, true, false,
  List, [], ◌∷◌, ◌++◌, Option, none, some, codes, length, All, All-append, Bool-cases, Option-cases,
}
use tpmkit.Base.Decimal.{to_decimal, decimal_loop}
use tpmkit.Logging.{LogLevel, trace, debug, info, warn, error, unlisted, LogField, LogRecord}
use tpmkit.Escape.{escape_value}
use tpmkit.Escape.Lines.{escape_value_lem}
use tpmkit.Loggers.Line.{append_fields}
use tpmkit.Loggers.Stdio.{
  Stream, StdioLogger, Surroundings, Utc, zeros, padded, timestamp, ansi_sequence, level_label,
  level_token, record_text, log, written, is_below_min_level, stream_for_level, should_colorize,
}

-- No control character but the escape.
abbrev pub Fine : ℕ → Type 0
Fine b = (0x20 ≤ b) ⊎ (b ≡ 27)

abbrev pub Plain : List ℕ → Type 0
Plain = All (λ b. 0x20 ≤ b)

abbrev pub PlainKeys : List LogField → Type 0
PlainKeys [] = Unit
PlainKeys (f ∷ fs) = Plain (codes f.key) × PlainKeys fs

weaken : (l : List ℕ) → Plain l → All Fine l
weaken [] p = tt
weaken (b ∷ l) (p, q) = (inl p, weaken l q)

decimal_loop-Plain : (fuel n : ℕ) (acc : List ℕ) → Plain acc → Plain (decimal_loop fuel n acc)
unfolding decimal_loop
decimal_loop-Plain zero n acc p = p
decimal_loop-Plain (suc fuel) n acc p =
    let digits : Plain ((48 + n % 10) ∷ acc) = (omega arith, p) in
    elim (Bool-cases (n / 10 == 0)) [
      | inl last ↦ rw last digits
      | inr more ↦ rw more (decimal_loop-Plain fuel (n / 10) _ digits)
    ]

to_decimal-Plain : (n : ℕ) → Plain (to_decimal n)
unfolding to_decimal
to_decimal-Plain n = decimal_loop-Plain (suc n) n [] tt

zeros-Plain : (k : ℕ) → Plain (zeros k)
zeros-Plain zero = tt
zeros-Plain (suc k) = (omega arith, zeros-Plain k)

pub both : (xs ys : List ℕ) → Plain xs → Plain ys → Plain (xs ++ ys)
both xs ys p q = All-append (λ b. 0x20 ≤ b) xs ys p q

padded-Plain : (w n : ℕ) → Plain (padded w n)
unfolding padded
padded-Plain w n =
    both (zeros (w - length (to_decimal n))) (to_decimal n) (zeros-Plain _) (to_decimal-Plain n)

pub timestamp-Plain : (t : Option Utc) → Plain (timestamp t)
unfolding timestamp
timestamp-Plain none = omega arith
timestamp-Plain (some t) = both (padded 4 t.year) _ (padded-Plain 4 t.year) (
  omega arith,
  both (padded 2 t.month) _ (padded-Plain 2 t.month) (
    omega arith,
    both (padded 2 t.day) _ (padded-Plain 2 t.day) (
      omega arith,
      both (padded 2 t.hour) _ (padded-Plain 2 t.hour) (
        omega arith,
        both (padded 2 t.minute) _ (padded-Plain 2 t.minute) (
          omega arith,
          both (padded 2 t.second) _ (padded-Plain 2 t.second)
              (omega arith, both (padded 3 t.millis) _ (padded-Plain 3 t.millis) (omega arith, tt)),
        ),
      ),
    ),
  ),
)

pub append_fields-Plain : (fs : List LogField) → PlainKeys fs → Plain (append_fields fs)
unfolding append_fields
append_fields-Plain [] k = tt
append_fields-Plain (f ∷ fs) (key, keys) = (
  omega arith,
  both (codes f.key) _ key (
    omega arith,
    both (escape_value f.value) _ (escape_value_lem f.value) (append_fields-Plain fs keys),
  ),
)

pub level_label-Plain : (level : LogLevel) → Plain (codes (level_label level))
unfolding level_label
level_label-Plain trace = omega arith
level_label-Plain debug = omega arith
level_label-Plain info = omega arith
level_label-Plain warn = omega arith
level_label-Plain error = omega arith
level_label-Plain (unlisted n) = omega arith

ansi_sequence-Fine : (level : LogLevel) → All Fine (ansi_sequence level)
unfolding ansi_sequence
ansi_sequence-Fine trace = (inr refl, weaken (codes "[2m") (omega arith))
ansi_sequence-Fine debug = (inr refl, weaken (codes "[36m") (omega arith))
ansi_sequence-Fine info = (inr refl, weaken (codes "[32m") (omega arith))
ansi_sequence-Fine warn = (inr refl, weaken (codes "[33m") (omega arith))
ansi_sequence-Fine error = (inr refl, weaken (codes "[31m") (omega arith))
ansi_sequence-Fine (unlisted n) = tt

together : (xs ys : List ℕ) → All Fine xs → All Fine ys → All Fine (xs ++ ys)
together xs ys p q = All-append Fine xs ys p q

level_token-Fine : (color : Bool) (level : LogLevel) → All Fine (level_token color level)
unfolding level_token
level_token-Fine true level = together (ansi_sequence level) _ (ansi_sequence-Fine level) (
  inl (omega arith),
  together (codes (level_label level)) _ (weaken _ (level_label-Plain level))
      (inl (omega arith), (inr refl, weaken (codes "[0m") (omega arith))),
)
level_token-Fine false level = (
  inl (omega arith),
  together (codes (level_label level)) _ (weaken _ (level_label-Plain level))
      (inl (omega arith), tt),
)

record_text-Fine :
    (s : Surroundings) (color : Bool) (r : LogRecord)
    → Plain (codes r.message)
    → PlainKeys r.fields
    → All Fine (record_text s color r)
unfolding record_text
record_text-Fine s color r message keys =
    together (timestamp s.utc) _ (weaken _ (timestamp-Plain s.utc)) (
      inl (omega arith),
      together (level_token color r.level) _ (level_token-Fine color r.level) (
        inl (omega arith),
        together (codes r.message) _ (weaken _ message)
            (weaken _ (append_fields-Plain r.fields keys)),
      ),
    )

-- One line of text: a newline at the end, and no control character before it but the escape.
abbrev pub IsLine : List ℕ → Type 0
IsLine text = (line : List ℕ) × (text ≡ line ++ (10 ∷ [])) × All Fine line

log_below :
    (s : Surroundings) (logger : StdioLogger) (r : LogRecord)
    → is_below_min_level r.level logger.min_level ≡ true
    → log s logger r ≡ []
unfolding log
log_below s logger r below = rw below refl

log_above :
    (s : Surroundings) (logger : StdioLogger) (r : LogRecord) (stream : Option Stream)
    → is_below_min_level r.level logger.min_level ≡ false
    → stream_for_level r.level logger.out logger.err ≡ stream
    → log s logger r ≡ written s logger.color r stream
unfolding log
log_above s logger r stream above e = rw (above, e) refl

-- A logger writes nothing for a record whose level is below its least one, or whose stream is
-- null; for any other record it writes to the stream of the level one line and nothing more,
-- whatever bytes the values of the fields have, if the message and the keys have no control
-- characters.
pub log_lem :
    (s : Surroundings) (logger : StdioLogger) (r : LogRecord)
    → Plain (codes r.message)
    → PlainKeys r.fields
    → ((log s logger r ≡ [])
        × ((is_below_min_level r.level logger.min_level ≡ true)
            ⊎ (stream_for_level r.level logger.out logger.err ≡ none)))
      ⊎ ((stream : Stream) × (text : List ℕ) × (log s logger r ≡ (stream, text) ∷ [])
          × IsLine text
          × (is_below_min_level r.level logger.min_level ≡ false)
          × (stream_for_level r.level logger.out logger.err ≡ some stream))
log_lem s logger r message keys = elim (Bool-cases (is_below_min_level r.level logger.min_level)) [
  | inl below ↦ inl (log_below s logger r below, inl below)
  | inr above ↦ elim (Option-cases (stream_for_level r.level logger.out logger.err)) [
    | inl null ↦ inl (log_above s logger r none above null, inr null)
    | inr (stream, found) ↦ inr (
      stream,
      record_text s (should_colorize s logger.color stream) r ++ (10 ∷ []),
      log_above s logger r (some stream) above found,
      (_, refl, record_text-Fine s (should_colorize s logger.color stream) r message keys),
      above,
      found,
    )
  ]
]
