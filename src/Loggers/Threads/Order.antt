-- ===== src/Loggers/Threads/Order.antt =====
-- stdio_logger.cpp: every thread returns from its calls of `log` in its own order.
use tpmkit.Base.{
  ℕ, ◌≡◌, refl, ap, ◌∙◌, append-nil, append_assoc, arith, true, false, Bool-cases, inl, inr, List,
  [], ◌∷◌, ◌++◌, Option, none, some, ◌==◌, IfSome,
}
use tpmkit.Effects.Tally.{tally-append}
use tpmkit.Loggers.Stdio.{Stream, StdioLogger, is_below_min_level, stream_for_level}
use tpmkit.Loggers.Threads.{
  Entry, Phase, outside, filtering, appending, ending, leaving, Thread, Shared, turn, lock, filter,
  compose, calls_of,
}

-- The call that a thread is in.
abbrev pub in_hand : Phase → List Entry
in_hand outside = []
in_hand (filtering e) = e ∷ []
in_hand (appending e stream more) = e ∷ []
in_hand (ending e stream) = e ∷ []
in_hand (leaving e) = e ∷ []

-- The calls that a thread has not returned from.
abbrev pub unfinished : Option Thread → List Entry
unfinished none = []
unfinished (some t) = in_hand t.phase ++ t.pending

pub same_number : (i : ℕ) → (i == i) ≡ true
same_number i = ground arith

pub other_number : (i j : ℕ) → (j == i) ≡ false → (i == j) ≡ false
other_number i j e = ground (arith, e)

calls_of-last :
    (i : ℕ) (calls : List (ℕ × Entry)) (e : Entry)
    → calls_of i (calls ++ ((i, e) ∷ [])) ≡ calls_of i calls ++ (e ∷ [])
calls_of-last i calls e = tally-append _ calls ((i, e) ∷ []) ∙ rw (same_number i) refl

calls_of-last_other :
    (i j : ℕ) (calls : List (ℕ × Entry)) (e : Entry)
    → (j == i) ≡ false
    → calls_of j (calls ++ ((i, e) ∷ [])) ≡ calls_of j calls
calls_of-last_other i j calls e other =
    tally-append _ calls ((i, e) ∷ []) ∙ rw (other_number i j other) (append-nil (calls_of j calls))

module _ (logger : StdioLogger) where
  -- The step of a thread returns from its own calls, in their order.
  pub record Ordered (i : ℕ) (phase : Phase) (rest : List Entry) (s : Shared) (r : Thread × Shared)
      : Type 0 where
    pub own_calls :
        calls_of i r.1.returned ++ (in_hand r.0.phase ++ r.0.pending)
        ≡ calls_of i s.returned ++ (in_hand phase ++ rest)
    pub other_calls : (j : ℕ) → (j == i) ≡ false → calls_of j r.1.returned ≡ calls_of j s.returned

  lock-Ordered :
      (i : ℕ) (o : Option ℕ) (e : Entry) (rest : List Entry) (s : Shared)
      → IfSome (Ordered i outside (e ∷ rest) s) (lock logger i o e rest s)
  lock-Ordered i none e rest s = record { own_calls = refl; other_calls = λ j other. refl }
  lock-Ordered i (some j) e rest s = tt

  compose-Ordered :
      (i : ℕ) (o : Option Stream) (e : Entry) (rest : List Entry) (s : Shared)
      → Ordered i (filtering e) rest s (compose logger o e rest s)
  compose-Ordered i none e rest s = record { own_calls = refl; other_calls = λ j other. refl }
  compose-Ordered i (some stream) e rest s = record {
    own_calls = refl;
    other_calls = λ j other. refl;
  }

  filter-Ordered :
      (i : ℕ) (e : Entry) (rest : List Entry) (s : Shared)
      → Ordered i (filtering e) rest s (filter logger e rest s)
  filter-Ordered i e rest s =
      elim (Bool-cases (is_below_min_level e.entry.level logger.min_level)) [
        | inl below ↦ rw below (record { own_calls = refl; other_calls = λ j other. refl })
        | inr above ↦
            rw above
              (compose-Ordered i (stream_for_level e.entry.level logger.out logger.err) e rest s)
      ]

  pub turn-Ordered :
      (i : ℕ) (phase : Phase) (rest : List Entry) (s : Shared)
      → IfSome (Ordered i phase rest s) (turn logger i phase rest s)
  unfolding turn
  turn-Ordered i outside [] s = tt
  turn-Ordered i outside (e ∷ rest) s = lock-Ordered i s.mu e rest s
  turn-Ordered i (filtering e) rest s = filter-Ordered i e rest s
  turn-Ordered i (appending e stream (piece ∷ more)) rest s = record {
    own_calls = refl;
    other_calls = λ j other. refl;
  }
  turn-Ordered i (appending e stream []) rest s = record {
    own_calls = refl;
    other_calls = λ j other. refl;
  }
  turn-Ordered i (ending e stream) rest s = record {
    own_calls = refl;
    other_calls = λ j other. refl;
  }
  turn-Ordered i (leaving e) rest s = record {
    own_calls = ap (λ l. l ++ rest) (calls_of-last i s.returned e) ∙ append_assoc _ (e ∷ []) rest;
    other_calls = λ j other. calls_of-last_other i j s.returned e other;
  }
