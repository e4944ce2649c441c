-- ===== src/Runs/Threads.antt =====
-- Threads that share a stdio logger, at concrete inputs.
use tpmkit.Base.{
  Bool-cases, ◌==◌, ==_iff, replicate, ℕ, zero, suc, ◌+◌, ◌≤◌, ◌<◌, ◌≡◌, refl, sym, ap, ◌∙◌, arith,
  List, [], ◌∷◌, ◌++◌, Option, none, some, none-ne-some, Option-cases, inl, inr, get_elem?, length,
  false,
}
use tpmkit.Logging.{warn, info, field}
use tpmkit.Loggers.Stdio.{
  cerr, StdioLogger, Surroundings, never, make_stdio_logger, is_below_min_level, stream_for_level,
  should_colorize,
}
use tpmkit.Loggers.Threads.{
  Entry, Thread, System, turn, pieces, advance, advance_thread, interleave, run, start, calls_of,
  text_on, sequential, filtering,
}
use tpmkit.Loggers.Threads.Order.{unfinished}
use tpmkit.Loggers.Threads.Safe.{is_inside_one, interleave-Sequential}
use tpmkit.Loggers.Threads.Steps.{all_steps}
use tpmkit.Loggers.Threads.Finish.{Schedules, Stuck, run_finishes, interleave-Stuck}

abbrev logger : StdioLogger
logger = make_stdio_logger (record { min_level = some warn; color = never; out = none; err = none })

abbrev around : Surroundings
around = record {
  utc = none;
  no_color = none;
  force_color = none;
  stdout_tty = false;
  stderr_tty = false;
}

abbrev warning : Entry
warning = record {
  around = around;
  entry = record { level = warn; message = "slow"; fields = field "pcr" (b'1' ∷ []) ∷ [] };
}

abbrev note : Entry
note = record { around = around; entry = record { level = info; message = "fast"; fields = [] } }

abbrev programs : List (List Entry)
programs = (warning ∷ note ∷ []) ∷ (warning ∷ []) ∷ []

-- The first thread from `k` on, among `n`, that can make a step.
abbrev choose : Option System → ℕ → ℕ → ℕ
choose none k later = later
choose (some y) k later = k

abbrev first_ready : ℕ → ℕ → System → ℕ
first_ready zero k x = k
first_ready (suc n) k x = choose (advance logger k x) k (first_ready n (suc k) x)

first_ready_lem :
    (n k : ℕ) (x : System) (i : ℕ) (y : System)
    → k ≤ i
    → i < k + n
    → advance logger i x ≡ some y
    → (z : System) × (advance logger (first_ready n k x) x ≡ some z)
first_ready_lem zero k x i y low high goes = absurd (omega (arith, low, high))
first_ready_lem (suc n) k x i y low high goes = elim (Option-cases (advance logger k x)) [
  | inr (z, e) ↦ (z, rw e (e))
  | inl stopped ↦ rw stopped (elim (Bool-cases (i == k)) [
    | inl same ↦ absurd (
        none-ne-some y
          (sym stopped ∙ ap (λ j. advance logger j x) (sym ((==_iff i k).0 same)) ∙ goes))
    | inr other ↦
        first_ready_lem n (suc k) x i y (ground (arith, other, low)) (omega (arith, high)) goes
  ])
]

place_bound : (xs : List Thread) (i : ℕ) (t : Thread) → get_elem? xs i ≡ some t → i < length xs
place_bound [] i t e = absurd (none-ne-some t e)
place_bound (x ∷ xs) zero t e = omega arith
place_bound (x ∷ xs) (suc i) t e = let rest = place_bound xs i t e in omega arith

abbrev pick : System → ℕ
pick x = first_ready (length x.threads) 0 x

advance_bound :
    (x : System) (i : ℕ) (y : System) → advance logger i x ≡ some y → i < length x.threads
advance_bound x i y goes = elim (Option-cases (get_elem? x.threads i)) [
  | inr (t, here) ↦ place_bound x.threads i t here
  | inl none_here ↦
      absurd (none-ne-some y (ap (λ o. advance_thread logger i o x) (sym none_here) ∙ goes))
]

pick-Schedules : Schedules logger pick
pick-Schedules x i y goes =
    first_ready_lem (length x.threads) 0 x i y (omega arith)
      (let bound = advance_bound x i y goes in omega (arith, bound)) goes

run_finishes_example :
    ((run logger (all_steps programs) pick (start programs)).shared.mu ≡ none)
    × (calls_of 0 (run logger (all_steps programs) pick (start programs)).shared.returned
        ≡ warning ∷ note ∷ [])
    × (text_on cerr (run logger (all_steps programs) pick (start programs)).shared.output
        ≡ text_on cerr (
            sequential logger
              (run logger (all_steps programs) pick (start programs)).shared.returned))
run_finishes_example = run_finishes logger programs pick cerr 0 pick-Schedules

-- Thread 1 takes the mutex, thread 0 waits for it, and thread 1 returns.
abbrev waited : List ℕ
waited = 1 ∷ 0 ∷ replicate 15 1

waited_free : (interleave logger waited (start programs)).shared.mu ≡ none
unfolding turn pieces is_below_min_level stream_for_level should_colorize make_stdio_logger
waited_free = refl

interleave-Sequential_example :
    (text_on cerr (interleave logger waited (start programs)).shared.output
      ≡ text_on cerr
          (sequential logger (interleave logger waited (start programs)).shared.returned))
    × (calls_of 1 (interleave logger waited (start programs)).shared.returned
          ++ unfinished (get_elem? (interleave logger waited (start programs)).threads 1)
        ≡ warning ∷ [])
interleave-Sequential_example = interleave-Sequential logger programs waited cerr 1 waited_free

abbrev holder : Thread
holder = record { phase = filtering warning; pending = [] }

holder_locked : get_elem? (interleave logger (1 ∷ 0 ∷ []) (start programs)).threads 1 ≡ some holder
unfolding turn
holder_locked = refl

is_inside_one_example : ◌≡◌ {A = ℕ} 1 1
is_inside_one_example =
    is_inside_one logger programs (1 ∷ 0 ∷ []) 1 1 holder holder holder_locked holder_locked refl
      refl

-- One thread, whose only call is under the minimum level.
abbrev quiet : List (List Entry)
quiet = (note ∷ []) ∷ []

quiet-Stuck : Stuck logger (interleave logger (0 ∷ 0 ∷ 0 ∷ []) (start quiet))
unfolding turn is_below_min_level make_stdio_logger
quiet-Stuck zero = refl
quiet-Stuck (suc i) = refl

interleave-Stuck_example :
    ((interleave logger (0 ∷ 0 ∷ 0 ∷ []) (start quiet)).shared.mu ≡ none)
    × (calls_of 0 (interleave logger (0 ∷ 0 ∷ 0 ∷ []) (start quiet)).shared.returned ≡ note ∷ [])
interleave-Stuck_example = interleave-Stuck logger quiet (0 ∷ 0 ∷ 0 ∷ []) 0 quiet-Stuck
