-- ===== src/Loggers/Threads/Steps.antt =====
-- stdio_logger.cpp: calls of `log` from several threads take a bounded number of steps.
use tpmkit.Base.{
  ℕ, zero, suc, ◌+◌, ◌*◌, ◌≤◌, ◌<◌, ◌≡◌, refl, arith, Bool, true, false, Bool-cases, inl, inr, List,
  [], ◌∷◌, Option, none, some, none-ne-some, some-injective, IfSome, get_elem?, set, length,
}
use tpmkit.Effects.Sum.{sum}
use tpmkit.Logging.{LogField}
use tpmkit.Loggers.Stdio.{
  Stream, StdioLogger, is_below_min_level, stream_for_level, should_colorize,
}
use tpmkit.Loggers.Threads.{
  Entry, Phase, outside, filtering, appending, ending, leaving, Thread, Shared, System,
  field_pieces, pieces, turn, lock, filter, compose, moved, advance, advance_thread,
}

-- No call appends more texts to the buffer.
abbrev most : Entry → ℕ
most e = 9 + 4 * length e.entry.fields

length-field_pieces : (fs : List LogField) → length (field_pieces fs) ≡ 4 * length fs
length-field_pieces [] = omega arith
length-field_pieces (f ∷ fs) = let rest = length-field_pieces fs in omega arith

length-pieces : (e : Entry) (color : Bool) → length (pieces e.around color e.entry) ≤ most e
unfolding pieces
length-pieces e true = let n = length-field_pieces e.entry.fields in omega arith
length-pieces e false = let n = length-field_pieces e.entry.fields in omega arith

-- The steps that are left, at most.
abbrev phase_left : Phase → ℕ
phase_left outside = 0
phase_left (filtering e) = 4 + most e
phase_left (appending e stream more) = 3 + length more
phase_left (ending e stream) = 2
phase_left (leaving e) = 1

-- All steps of a call.
abbrev pub call_steps : Entry → ℕ
call_steps e = 14 + 4 * length e.entry.fields

-- All steps of all calls of all threads.
abbrev pub all_steps : List (List Entry) → ℕ
all_steps = sum (sum call_steps)

abbrev pub thread_left : Thread → ℕ
thread_left t = phase_left t.phase + sum call_steps t.pending

abbrev pub left : System → ℕ
left x = sum thread_left x.threads

sum-set :
    (weigh : Thread → ℕ) (xs : List Thread) (i : ℕ) (x y : Thread)
    → get_elem? xs i ≡ some x
    → sum weigh (set xs i y) + weigh x ≡ sum weigh xs + weigh y
sum-set weigh [] i x y e = absurd (none-ne-some x e)
sum-set weigh (z ∷ xs) zero x y e = rw (some-injective z x e) (omega arith)
sum-set weigh (z ∷ xs) (suc i) x y e = let rest = sum-set weigh xs i x y e in omega arith

module _ (logger : StdioLogger) where
  abbrev Shrinks : Phase → List Entry → Thread × Shared → Type 0
  Shrinks phase rest r = thread_left r.0 < phase_left phase + sum call_steps rest

  lock-Shrinks :
      (i : ℕ) (o : Option ℕ) (e : Entry) (rest : List Entry) (s : Shared)
      → IfSome (Shrinks outside (e ∷ rest)) (lock logger i o e rest s)
  lock-Shrinks i none e rest s = omega arith
  lock-Shrinks i (some j) e rest s = tt

  compose-Shrinks :
      (o : Option Stream) (e : Entry) (rest : List Entry) (s : Shared)
      → Shrinks (filtering e) rest (compose logger o e rest s)
  compose-Shrinks none e rest s = omega arith
  compose-Shrinks (some stream) e rest s =
      let few = length-pieces e (should_colorize e.around logger.color stream) in omega (arith, few)

  filter-Shrinks :
      (e : Entry) (rest : List Entry) (s : Shared)
      → Shrinks (filtering e) rest (filter logger e rest s)
  filter-Shrinks e rest s = elim (Bool-cases (is_below_min_level e.entry.level logger.min_level)) [
    | inl below ↦ rw below (omega arith)
    | inr above ↦
        rw above (compose-Shrinks (stream_for_level e.entry.level logger.out logger.err) e rest s)
  ]

  turn-Shrinks :
      (i : ℕ) (phase : Phase) (rest : List Entry) (s : Shared)
      → IfSome (Shrinks phase rest) (turn logger i phase rest s)
  unfolding turn
  turn-Shrinks i outside [] s = tt
  turn-Shrinks i outside (e ∷ rest) s = lock-Shrinks i s.mu e rest s
  turn-Shrinks i (filtering e) rest s = filter-Shrinks e rest s
  turn-Shrinks i (appending e stream (piece ∷ more)) rest s = omega arith
  turn-Shrinks i (appending e stream []) rest s = omega arith
  turn-Shrinks i (ending e stream) rest s = omega arith
  turn-Shrinks i (leaving e) rest s = omega arith

  moved-Shrinks :
      (x : System) (i : ℕ) (t : Thread) (o : Option (Thread × Shared))
      → get_elem? x.threads i ≡ some t
      → IfSome (Shrinks t.phase t.pending) o
      → IfSome (λ y. left y < left x) (moved logger i x.threads o)
  moved-Shrinks x i t none here less = tt
  moved-Shrinks x i t (some r) here less =
      let total = sum-set thread_left x.threads i t r.0 here in omega (arith, total, less)

  thread-Shrinks :
      (x : System) (i : ℕ) (o : Option Thread)
      → get_elem? x.threads i ≡ o
      → IfSome (λ y. left y < left x) (advance_thread logger i o x)
  thread-Shrinks x i none here = tt
  thread-Shrinks x i (some t) here =
      moved-Shrinks x i t _ here (turn-Shrinks i t.phase t.pending x.shared)

  -- Every step of any thread leaves less to do.
  pub advance-Shrinks : (x : System) (i : ℕ) → IfSome (λ y. left y < left x) (advance logger i x)
  advance-Shrinks x i = thread-Shrinks x i (get_elem? x.threads i) refl
