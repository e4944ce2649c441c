-- ===== src/Loggers/Threads/Safe.antt =====
-- stdio_logger.cpp: what calls of `log` from several threads write, in any interleaving.
use tpmkit.Base.{
  ℕ, ◌≡◌, sym, ◌∙◌, Bool, true, false, false≢true, List, [], ◌∷◌, ◌++◌, Option, none, some,
  some-injective, IfSome, get_or, get_elem?,
}
use tpmkit.Loggers.Stdio.{Stream, StdioLogger}
use tpmkit.Loggers.Threads.{
  Entry, Phase, outside, filtering, appending, ending, leaving, Thread, Shared, System, advance,
  interleave, or_stay, start, calls_of, text_on, sequential,
}
use tpmkit.Loggers.Threads.Order.{unfinished}
use tpmkit.Loggers.Threads.Sound.{Standing}
use tpmkit.Loggers.Threads.Invariant.{Inv, start-Inv, advance-Inv}

abbrev pub is_inside : Phase → Bool
is_inside outside = false
is_inside (filtering e) = true
is_inside (appending e stream more) = true
is_inside (ending e stream) = true
is_inside (leaving e) = true

module _ (logger : StdioLogger) where
  or_stay-Inv :
      (programs : List (List Entry)) (x : System) (o : Option System)
      → Inv logger programs x
      → IfSome (Inv logger programs) o
      → Inv logger programs (or_stay logger o x)
  or_stay-Inv programs x none inv next = inv
  or_stay-Inv programs x (some y) inv next = next

  pub interleave-Inv :
      (programs : List (List Entry)) (is : List ℕ) (x : System)
      → Inv logger programs x
      → Inv logger programs (interleave logger is x)
  interleave-Inv programs [] x inv = inv
  interleave-Inv programs (i ∷ is) x inv =
      interleave-Inv programs is _
        (or_stay-Inv programs x (advance logger i x) inv (advance-Inv logger programs x i inv))

  inside_holds :
      (i : ℕ) (phase : Phase) (s : Shared)
      → Standing logger i phase s
      → is_inside phase ≡ true
      → s.mu ≡ some i
  inside_holds i outside s standing e = absurd (false≢true e)
  inside_holds i (filtering c) s standing e = standing.0
  inside_holds i (appending c stream more) s standing e = standing.0
  inside_holds i (ending c stream) s standing e = standing.0
  inside_holds i (leaving c) s standing e = standing.0

  -- However the threads that share a logger are interleaved, two of them that are past the lock
  -- in `log` are the same thread.
  pub is_inside_one :
      (programs : List (List Entry)) (is : List ℕ) (i j : ℕ) (t u : Thread)
      → get_elem? (interleave logger is (start programs)).threads i ≡ some t
      → get_elem? (interleave logger is (start programs)).threads j ≡ some u
      → is_inside t.phase ≡ true
      → is_inside u.phase ≡ true
      → i ≡ j
  is_inside_one programs is i j t u at_i at_j in_i in_j =
      let inv = interleave-Inv programs is (start programs) (start-Inv logger programs) in
      let held = inside_holds i t.phase _ (inv.standing i t at_i) in_i in
      some-injective i j (sym held ∙ inside_holds j u.phase _ (inv.standing j u at_j) in_j)

  -- Threads that share a logger, in any interleaving of their steps: whenever the mutex is free,
  -- each stream has been given the same bytes as by the calls that have returned, made one after
  -- the other in the order of their return; and what a thread has returned from, followed by what
  -- it has not, is the list of its calls in its own order.
  pub interleave-Sequential :
      (programs : List (List Entry)) (is : List ℕ) (stream : Stream) (i : ℕ)
      → (interleave logger is (start programs)).shared.mu ≡ none
      → (text_on stream (interleave logger is (start programs)).shared.output
          ≡ text_on stream
              (sequential logger (interleave logger is (start programs)).shared.returned))
        × (calls_of i (interleave logger is (start programs)).shared.returned
              ++ unfinished (get_elem? (interleave logger is (start programs)).threads i)
            ≡ get_or programs i [])
  interleave-Sequential programs is stream i free =
      let inv = interleave-Inv programs is (start programs) (start-Inv logger programs) in
      (inv.free free stream, inv.order i)
