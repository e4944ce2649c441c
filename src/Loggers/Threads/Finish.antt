-- ===== src/Loggers/Threads/Finish.antt =====
-- stdio_logger.cpp: calls of `log` from several threads all return.
use tpmkit.Base.{
  ◌≢◌, ℕ, zero, suc, ◌≤◌, ◌<◌, ◌≡◌, refl, sym, ap, ◌∙◌, append-nil, arith, false≢true, inl, inr,
  List, [], ◌∷◌, ◌++◌, Option, none, some, none-ne-some, Option-cases, IfSome-some, get_or,
  get_elem?,
}
use tpmkit.Loggers.Stdio.{Stream, StdioLogger}
use tpmkit.Loggers.Threads.{
  Entry, Phase, outside, filtering, appending, ending, leaving, Thread, Shared, System, turn, lock,
  moved, advance, advance_thread, run, interleave, start, calls_of, text_on, sequential,
}
use tpmkit.Loggers.Threads.Order.{unfinished, same_number}
use tpmkit.Loggers.Threads.Sound.{Standing, holds}
use tpmkit.Loggers.Threads.Safe.{interleave-Inv}
use tpmkit.Loggers.Threads.Invariant.{Inv, start-Inv, advance-Inv}
use tpmkit.Loggers.Threads.Steps.{left, all_steps, advance-Shrinks}

module _ (logger : StdioLogger) where
  -- A scheduler that picks a thread that can go on, as long as there is one.
  abbrev pub Schedules : (System → ℕ) → Type 0
  Schedules pick =
      (x : System) (i : ℕ) (y : System)
      → advance logger i x ≡ some y
      → (z : System) × (advance logger (pick x) x ≡ some z)

  -- No thread can go on.
  abbrev pub Stuck : System → Type 0
  Stuck x = (i : ℕ) → advance logger i x ≡ none

  turn_inside :
      (i : ℕ) (phase : Phase) (rest : List Entry) (s : Shared)
      → Standing logger i phase s
      → s.mu ≡ some i
      → turn logger i phase rest s ≢ none
  unfolding turn
  turn_inside i outside rest s out mine stopped =
      false≢true (sym out ∙ ap (λ o. holds o i) mine ∙ same_number i)
  turn_inside i (filtering e) rest s now mine stopped = none-ne-some _ (sym stopped)
  turn_inside i (appending e stream []) rest s now mine stopped = none-ne-some _ (sym stopped)
  turn_inside i (appending e stream (p ∷ ps)) rest s now mine stopped = none-ne-some _ (sym stopped)
  turn_inside i (ending e stream) rest s now mine stopped = none-ne-some _ (sym stopped)
  turn_inside i (leaving e) rest s now mine stopped = none-ne-some _ (sym stopped)

  turn_free :
      (i : ℕ) (phase : Phase) (rest : List Entry) (s : Shared)
      → s.mu ≡ none
      → turn logger i phase rest s ≡ none
      → unfinished (some (record { phase = phase; pending = rest })) ≡ []
  unfolding turn
  turn_free i outside [] s free stopped = refl
  turn_free i outside (e ∷ rest) s free stopped =
      absurd (none-ne-some _ (sym stopped ∙ ap (λ o. lock logger i o e rest s) free))
  turn_free i (filtering e) rest s free stopped = absurd (none-ne-some _ (sym stopped))
  turn_free i (appending e stream []) rest s free stopped = absurd (none-ne-some _ (sym stopped))
  turn_free i (appending e stream (p ∷ ps)) rest s free stopped =
      absurd (none-ne-some _ (sym stopped))
  turn_free i (ending e stream) rest s free stopped = absurd (none-ne-some _ (sym stopped))
  turn_free i (leaving e) rest s free stopped = absurd (none-ne-some _ (sym stopped))

  moved-none :
      (i : ℕ) (ts : List Thread) (o : Option (Thread × Shared))
      → moved logger i ts o ≡ none
      → o ≡ none
  moved-none i ts none e = refl
  moved-none i ts (some r) e = absurd (none-ne-some _ (sym e))

  turn-Stuck :
      (x : System) (i : ℕ) (t : Thread)
      → Stuck x
      → get_elem? x.threads i ≡ some t
      → turn logger i t.phase t.pending x.shared ≡ none
  turn-Stuck x i t stuck here =
      moved-none i x.threads _ (ap (λ o. advance_thread logger i o x) (sym here) ∙ stuck i)

  -- The mutex is not held when nobody can go on, and every call has returned.
  Stuck-mu :
      (programs : List (List Entry)) (x : System)
      → Inv logger programs x
      → Stuck x
      → x.shared.mu ≡ none
  Stuck-mu programs x inv stuck = elim (Option-cases x.shared.mu) [
    | inl free ↦ free
    | inr (i, held) ↦
        let (t, here) = inv.owned i held in
        absurd (
          turn_inside i t.phase t.pending x.shared (inv.standing i t here) held
            (turn-Stuck x i t stuck here))
  ]

  Stuck-unfinished :
      (x : System) (i : ℕ) (o : Option Thread)
      → Stuck x
      → x.shared.mu ≡ none
      → get_elem? x.threads i ≡ o
      → unfinished o ≡ []
  Stuck-unfinished x i none stuck free here = refl
  Stuck-unfinished x i (some t) stuck free here =
      turn_free i t.phase t.pending x.shared free (turn-Stuck x i t stuck here)

  all_returned :
      (programs : List (List Entry)) (x : System) (i : ℕ)
      → Inv logger programs x
      → Stuck x
      → x.shared.mu ≡ none
      → calls_of i x.shared.returned ≡ get_or programs i []
  all_returned programs x i inv stuck free =
      sym (append-nil _)
      ∙ ap (◌++◌ (calls_of i x.shared.returned)) (sym (Stuck-unfinished x i _ stuck free refl))
      ∙ inv.order i

  -- However the threads that share a logger are interleaved, they do not block each other: when no
  -- thread can make a step, the mutex is free and each thread has returned from all its calls.
  pub interleave-Stuck :
      (programs : List (List Entry)) (is : List ℕ) (i : ℕ)
      → Stuck (interleave logger is (start programs))
      → ((interleave logger is (start programs)).shared.mu ≡ none)
        × (calls_of i (interleave logger is (start programs)).shared.returned
            ≡ get_or programs i [])
  interleave-Stuck programs is i stuck =
      let inv = interleave-Inv logger programs is (start programs) (start-Inv logger programs) in
      let free = Stuck-mu programs _ inv stuck in (free, all_returned programs _ i inv stuck free)

  abbrev Finished : List (List Entry) → System → Type 0
  Finished programs x = Inv logger programs x × Stuck x

  picked-Stuck :
      (pick : System → ℕ) (x : System) → Schedules pick → advance logger (pick x) x ≡ none → Stuck x
  picked-Stuck pick x fair stopped i = elim (Option-cases (advance logger i x)) [
    | inl e ↦ e
    | inr (y, e) ↦ let (z, goes) = fair x i y e in absurd (none-ne-some z (sym stopped ∙ goes))
  ]

  run-Finished :
      (programs : List (List Entry)) (pick : System → ℕ) (n : ℕ) (x : System)
      → Schedules pick
      → Inv logger programs x
      → left x ≤ n
      → Finished programs (run logger n pick x)
  run-Finished programs pick zero x fair inv few = (
    inv,
    λ i. elim (Option-cases (advance logger i x)) [
      | inl e ↦ e
      | inr (y, e) ↦
          let less = IfSome-some (λ y. left y < left x) _ y (advance-Shrinks logger x i) e in
          absurd (omega (arith, less, few))
    ],
  )
  run-Finished programs pick (suc n) x fair inv few =
      elim (Option-cases (advance logger (pick x) x)) [
        | inl e ↦ rw e (inv, picked-Stuck pick x fair e)
        | inr (y, e) ↦
            let less =
              IfSome-some (λ y. left y < left x) _ y (advance-Shrinks logger x (pick x)) e in
            let next =
              IfSome-some (Inv logger programs) _ y (advance-Inv logger programs x (pick x) inv)
                e in
            rw e (run-Finished programs pick n y fair next (omega (arith, less, few)))
      ]

  left-start : (programs : List (List Entry)) → left (start programs) ≡ all_steps programs
  left-start [] = refl
  left-start (p ∷ ps) = let rest = left-start ps in omega arith

  -- Threads that share a logger, under every scheduler that does not pick a thread that waits while
  -- another could go on: after 14 steps for each call and 4 for each field of its record, the
  -- mutex is free, each thread has returned from exactly its calls, in its own order, and each
  -- stream has been given the same bytes as by all these calls made one after the other.
  pub run_finishes :
      (programs : List (List Entry)) (pick : System → ℕ) (stream : Stream) (i : ℕ)
      → Schedules pick
      → ((run logger (all_steps programs) pick (start programs)).shared.mu ≡ none)
        × (calls_of i (run logger (all_steps programs) pick (start programs)).shared.returned
            ≡ get_or programs i [])
        × (text_on stream (run logger (all_steps programs) pick (start programs)).shared.output
            ≡ text_on stream (
                sequential logger
                  (run logger (all_steps programs) pick (start programs)).shared.returned))
  run_finishes programs pick stream i fair =
      let few = left-start programs in
      let (inv, stuck) =
        run-Finished programs pick (all_steps programs) (start programs) fair
          (start-Inv logger programs) (omega (arith, few)) in
      let free = Stuck-mu programs _ inv stuck in
      (free, all_returned programs _ i inv stuck free, inv.free free stream)
