-- ===== src/Loggers/Threads.antt =====
-- src/adapters/logging/stdio/stdio_logger.cpp: threads that call `log` on one logger. A step is what
pub mod Alike
pub mod Sound
pub mod Order
pub mod Invariant
pub mod Safe
pub mod Steps
pub mod Finish
-- one thread does to what they share: the mutex, the record buffer and the streams. The other
-- members are only read.
use tpmkit.Base.{
  ℕ, zero, suc, Bool, true, false, List, [], ◌∷◌, ◌++◌, Option, none, some, codes, ◌==◌, map,
  if◌then◌else◌, set, get_elem?,
}
use tpmkit.Logging.{LogField, LogRecord}
use tpmkit.Escape.{escape_value}
use tpmkit.Effects.Tally.{tally}
use tpmkit.Loggers.Stdio.{
  Stream, cout, cerr, own, StdioLogger, Surroundings, reset_sequence, ansi_sequence, timestamp,
  level_label, is_below_min_level, stream_for_level, should_colorize, log,
}

-- A call of `log`: what it finds around it and its record.
pub record Entry : Type 0 where
  pub around : Surroundings
  pub entry : LogRecord

-- The texts that `log` appends to the buffer, one after the other.
abbrev field_pieces : List LogField → List (List ℕ)
field_pieces [] = []
field_pieces (f ∷ fs) = (32 ∷ []) ∷ codes f.key ∷ (61 ∷ []) ∷ escape_value f.value ∷ field_pieces fs

abbrev token_pieces : Bool → LogRecord → List (List ℕ) → List (List ℕ)
token_pieces true r rest =
    ansi_sequence r.level
    ∷ (91 ∷ [])
    ∷ codes (level_label r.level)
    ∷ (93 ∷ [])
    ∷ reset_sequence
    ∷ rest
token_pieces false r rest = (91 ∷ []) ∷ codes (level_label r.level) ∷ (93 ∷ []) ∷ rest

unfoldable pub pieces : Surroundings → Bool → LogRecord → List (List ℕ)
pieces s color r =
    timestamp s.utc
    ∷ (32 ∷ [])
    ∷ token_pieces color r ((32 ∷ []) ∷ codes r.message ∷ field_pieces r.fields)

-- Where a thread is: outside `log`, or inside with its call: at the filter, appending what is
-- left of the record, before the newline, or before the mutex is given back.
pub data Phase : Type 0 where
  outside : Phase
  filtering : Entry → Phase
  appending : Entry → Stream → List (List ℕ) → Phase
  ending : Entry → Stream → Phase
  leaving : Entry → Phase

-- A thread and the calls that it has still to make.
pub record Thread : Type 0 where
  pub phase : Phase
  pub pending : List Entry

-- What is shared. `mu` names the thread that holds the mutex; `output` is what the streams were
-- given, in order; `returned` is the calls that gave the mutex back, with their threads.
pub record Shared : Type 0 where
  pub mu : Option ℕ
  pub buffer : List ℕ
  pub output : List (Stream × List ℕ)
  pub returned : List (ℕ × Entry)

pub record System : Type 0 where
  pub shared : Shared
  pub threads : List Thread

module _ (logger : StdioLogger) where
  abbrev compose : Option Stream → Entry → List Entry → Shared → Thread × Shared
  compose none e rest s = (record { phase = leaving e; pending = rest }, s)
  compose (some stream) e rest s = (
    record {
      phase =
          appending e stream
            (pieces e.around (should_colorize e.around logger.color stream) e.entry);
      pending = rest;
    },
    record s { buffer = [] },
  )

  abbrev filter : Entry → List Entry → Shared → Thread × Shared
  filter e rest s =
      if is_below_min_level e.entry.level logger.min_level
      then (record { phase = leaving e; pending = rest }, s)
      else compose (stream_for_level e.entry.level logger.out logger.err) e rest s

  abbrev lock : ℕ → Option ℕ → Entry → List Entry → Shared → Option (Thread × Shared)
  lock i none e rest s =
      some (record { phase = filtering e; pending = rest }, record s { mu = some i })
  lock i (some owner) e rest s = none

  -- The next step of thread `i`; `none` when it has nothing to do or waits for the mutex.
  unfoldable pub turn : ℕ → Phase → List Entry → Shared → Option (Thread × Shared)
  turn i outside [] s = none
  turn i outside (e ∷ rest) s = lock i s.mu e rest s
  turn i (filtering e) rest s = some (filter e rest s)
  turn i (appending e stream (piece ∷ more)) rest s = some (
    record { phase = appending e stream more; pending = rest },
    record s { buffer = s.buffer ++ piece },
  )
  turn i (appending e stream []) rest s = some (
    record { phase = ending e stream; pending = rest },
    record s { output = s.output ++ ((stream, s.buffer) ∷ []) },
  )
  turn i (ending e stream) rest s = some (
    record { phase = leaving e; pending = rest },
    record s { output = s.output ++ ((stream, 10 ∷ []) ∷ []) },
  )
  turn i (leaving e) rest s = some (
    record { phase = outside; pending = rest },
    record s { mu = none; returned = s.returned ++ ((i, e) ∷ []) },
  )

  abbrev pub moved : ℕ → List Thread → Option (Thread × Shared) → Option System
  moved i threads none = none
  moved i threads (some (t, s)) = some (record { shared = s; threads = set threads i t })

  abbrev pub advance_thread : ℕ → Option Thread → System → Option System
  advance_thread i none x = none
  advance_thread i (some t) x = moved i x.threads (turn i t.phase t.pending x.shared)

  -- A step of thread `i`.
  abbrev pub advance : ℕ → System → Option System
  advance i x = advance_thread i (get_elem? x.threads i) x

  abbrev pub or_stay : Option System → System → System
  or_stay none x = x
  or_stay (some y) x = y

  -- Threads that try to make a step, one after the other; one that cannot leaves all as it is.
  abbrev pub interleave : List ℕ → System → System
  interleave [] x = x
  interleave (i ∷ is) x = interleave is (or_stay (advance i x) x)

  abbrev pub go_on : Option System → System → (System → System) → System
  go_on none x f = x
  go_on (some y) x f = f y

  -- At most `n` steps, of the threads that a scheduler picks.
  abbrev pub run : ℕ → (System → ℕ) → System → System
  run zero pick x = x
  run (suc n) pick x = go_on (advance (pick x) x) x (run n pick)

-- Threads that are about to make their calls, on a logger whose mutex is free.
abbrev pub start : List (List Entry) → System
start programs = record {
  shared = record { mu = none; buffer = []; output = []; returned = [] };
  threads = map (λ calls. record { phase = outside; pending = calls }) programs;
}

abbrev same_stream : Stream → Stream → Bool
same_stream cout cout = true
same_stream cout cerr = false
same_stream cout (own n) = false
same_stream cerr cout = false
same_stream cerr cerr = true
same_stream cerr (own n) = false
same_stream (own m) cout = false
same_stream (own m) cerr = false
same_stream (own m) (own n) = m == n

abbrev pub on : Stream → Stream × List ℕ → List ℕ
on stream chunk = if same_stream stream chunk.0 then chunk.1 else []

-- The bytes that a stream was given.
abbrev pub text_on : Stream → List (Stream × List ℕ) → List ℕ
text_on stream = tally (on stream)

-- What `log` writes in calls that are made one after the other.
abbrev pub sequential : StdioLogger → List (ℕ × Entry) → List (Stream × List ℕ)
sequential logger = tally (λ call. log call.1.around logger call.1.entry)

-- The calls of one thread.
abbrev pub calls_of : ℕ → List (ℕ × Entry) → List Entry
calls_of i = tally (λ call. if call.0 == i then call.1 ∷ [] else [])
