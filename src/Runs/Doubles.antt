-- ===== src/Runs/Doubles.antt =====
-- Secrets, loggers and test doubles at concrete inputs.
use tpmkit.Base.{
  ℕ, ◌≤◌, ◌≡◌, refl, arith, ◌⊎◌, Bool, true, false, List, [], ◌∷◌, ◌++◌, none, some, length,
}
use tpmkit.Logging.{LogRecord, warn, field}
use tpmkit.SecretBuffer.{Effect, Memory, construct, move_assign, destruct, use_buffer, begin, used}
use tpmkit.SecretBuffer.Account.{Accounts, Reach-Accounts}
use tpmkit.Loggers.Stdio.{
  Stream, StdioLogger, Surroundings, automatic, make_stdio_logger, log, is_below_min_level,
  stream_for_level, record_text,
}
use tpmkit.Loggers.Lines.{IsLine, log_lem}
use tpmkit.Loggers.Colour.{shown, shown-record_text}
use tpmkit.Testing.FakeTcti.{
  TctiCodes, FakeTcti, new_tcti, response_bytes, response_factory, failure_rc, transmit_failure_rc,
}
use tpmkit.Testing.FakeTcti.Exchange.{exchanges, expected, drop, live, exchanges_lem}

abbrev lockable : List ℕ → List Effect → Bool
lockable bytes h = true

abbrev start : Memory
start = record { slots = []; effects = []; given = [] }

abbrev ended : Memory
ended = use_buffer lockable (destruct 0) (
    use_buffer lockable (move_assign 0 1) (
      use_buffer lockable (construct (3 ∷ 4 ∷ []))
        (use_buffer lockable (construct (1 ∷ 2 ∷ [])) start)))

-- Two secrets, of which one is assigned over the other and then destroyed.
Reach-Accounts_example : Accounts length ended
Reach-Accounts_example = Reach-Accounts length lockable refl ended (
    used
      (used (used (used begin (construct (1 ∷ 2 ∷ []))) (construct (3 ∷ 4 ∷ []))) (move_assign 0 1))
      (destruct 0))

abbrev midnight : Surroundings
midnight = record {
  utc =
      some
        (record { year = 2024; month = 1; day = 2; hour = 0; minute = 0; second = 0; millis = 7 });
  no_color = none;
  force_color = some [];
  stdout_tty = false;
  stderr_tty = true;
}

abbrev logger : StdioLogger
logger =
    make_stdio_logger (record { min_level = some warn; color = automatic; out = none; err = none })

abbrev warning : LogRecord
warning = record {
  level = warn;
  message = "TSS error";
  fields = field "text" (10 ∷ 34 ∷ 65 ∷ []) ∷ [];
}

log_lem_example :
    ((log midnight logger warning ≡ [])
      × ((is_below_min_level warning.level logger.min_level ≡ true)
          ⊎ (stream_for_level warning.level logger.out logger.err ≡ none)))
    ⊎ ((stream : Stream) × (text : List ℕ) × (log midnight logger warning ≡ (stream, text) ∷ [])
        × IsLine text
        × (is_below_min_level warning.level logger.min_level ≡ false)
        × (stream_for_level warning.level logger.out logger.err ≡ some stream))
log_lem_example = log_lem midnight logger warning (omega arith) (omega arith, tt)

shown-record_text_example :
    (shown (record_text midnight true warning) ≡ record_text midnight false warning)
    × (shown (record_text midnight false warning) ≡ record_text midnight false warning)
shown-record_text_example = shown-record_text midnight warning (omega arith) (omega arith, tt)

abbrev tcti_codes : TctiCodes
tcti_codes = record {
  success = 0;
  bad_reference = 0x0a0005;
  insufficient_buffer = 0x0a0006;
  io_error = 0x0a000a;
  bad_sequence = 0x0a0007;
}

abbrev first_byte : List ℕ → List ℕ
first_byte [] = []
first_byte (b ∷ bytes) = b ∷ []

first_byte_short : (cmd : List ℕ) → length (first_byte cmd) ≤ 4
first_byte_short [] = omega arith
first_byte_short (b ∷ bytes) = omega arith

abbrev scripted : FakeTcti
scripted = record new_tcti {
  queue =
      response_bytes (1 ∷ 2 ∷ 3 ∷ [])
      ∷ transmit_failure_rc 5
      ∷ response_factory first_byte
      ∷ failure_rc 6
      ∷ [];
}

abbrev commands : List (List ℕ)
commands = (9 ∷ []) ∷ (8 ∷ []) ∷ (7 ∷ 7 ∷ []) ∷ [] ∷ (6 ∷ []) ∷ []

exchanges_lem_example :
    ((exchanges tcti_codes 4 commands (live scripted)).0
      ≡ expected tcti_codes scripted.queue commands)
    × ((exchanges tcti_codes 4 commands (live scripted)).1.queue
        ≡ drop (length commands) scripted.queue)
    × ((exchanges tcti_codes 4 commands (live scripted)).1.transmitted_commands
        ≡ scripted.transmitted_commands ++ commands)
exchanges_lem_example =
    exchanges_lem tcti_codes 4 scripted commands (omega arith)
      (omega arith, (omega arith, (first_byte_short, (omega arith, tt))))
