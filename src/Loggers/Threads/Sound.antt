-- ===== src/Loggers/Threads/Sound.antt =====
-- stdio_logger.cpp: what each thread inside `log` knows, and that every step keeps it.
use tpmkit.Base.{
  none-ne-some, ℕ, ◌≡◌, refl, sym, ap, ◌∙◌, append-nil, append_assoc, ◌⊎◌, inl, inr, Bool, false,
  Bool-cases, List, [], ◌∷◌, ◌++◌, Option, none, some, ◌==◌, IfSome,
}
use tpmkit.Effects.Tally.{tally-append}
use tpmkit.Loggers.Stdio.{
  Stream, StdioLogger, record_text, is_below_min_level, stream_for_level, should_colorize, log,
}
use tpmkit.Loggers.Threads.{
  Entry, Phase, outside, filtering, appending, ending, leaving, Thread, Shared, turn, lock, filter,
  compose, text_on, sequential,
}
use tpmkit.Loggers.Threads.Alike.{joined, joined-pieces, Alike, Alike-last, Alike-joined}

abbrev pub Mine : ℕ → Option ℕ → Type 0
Mine i mu = (mu ≡ none) ⊎ (mu ≡ some i)

abbrev pub holds : Option ℕ → ℕ → Bool
holds none i = false
holds (some j) i = j == i

module _ (logger : StdioLogger) where
  -- `log` passes the filter and writes to a stream.
  abbrev pub line_of : Entry → Stream → List ℕ
  line_of e stream = record_text e.around (should_colorize e.around logger.color stream) e.entry

  abbrev pub Passes : Entry → Stream → Type 0
  Passes e stream = log e.around logger e.entry ≡ (stream, line_of e stream ++ (10 ∷ [])) ∷ []

  -- What the phase of thread `i` says of what is shared.
  abbrev pub Standing : ℕ → Phase → Shared → Type 0
  Standing i outside s = holds s.mu i ≡ false
  Standing i (filtering e) s = (s.mu ≡ some i) × Alike s.output (sequential logger s.returned)
  Standing i (appending e stream more) s =
      (s.mu ≡ some i)
      × Alike s.output (sequential logger s.returned)
      × Passes e stream
      × (s.buffer ++ joined more ≡ line_of e stream)
  Standing i (ending e stream) s =
      (s.mu ≡ some i)
      × Passes e stream
      × Alike s.output (sequential logger s.returned ++ ((stream, line_of e stream) ∷ []))
  Standing i (leaving e) s =
      (s.mu ≡ some i) × Alike s.output (sequential logger s.returned ++ log e.around logger e.entry)

  -- Between two calls the streams have what the calls that returned wrote.
  abbrev pub Free : Shared → Type 0
  Free s = s.mu ≡ none → Alike s.output (sequential logger s.returned)

  -- What a step of thread `i` leaves.
  abbrev pub Good : ℕ → Shared → Thread × Shared → Type 0
  Good i s r = Standing i r.0.phase r.1 × Free r.1 × Mine i s.mu × Mine i r.1.mu

  held_not_free : {A : Type 0} (mu : Option ℕ) (i : ℕ) → mu ≡ some i → mu ≡ none → A
  held_not_free mu i e n = absurd (none-ne-some i (sym n ∙ e))

  lock-Good :
      (i : ℕ) (o : Option ℕ) (e : Entry) (rest : List Entry) (s : Shared)
      → s.mu ≡ o
      → Free s
      → IfSome (Good i s) (lock logger i o e rest s)
  lock-Good i none e rest s now free =
      ((refl, free now), (λ n. held_not_free (some i) i refl n), inl now, inr refl)
  lock-Good i (some j) e rest s now free = tt

  compose-Good :
      (i : ℕ) (o : Option Stream) (e : Entry) (rest : List Entry) (s : Shared)
      → stream_for_level e.entry.level logger.out logger.err ≡ o
      → is_below_min_level e.entry.level logger.min_level ≡ false
      → s.mu ≡ some i
      → Alike s.output (sequential logger s.returned)
      → Good i s (compose logger o e rest s)
  unfolding log
  compose-Good i none e rest s to above mine alike = (
    (
      mine,
      λ stream.
          alike stream
          ∙ ap (text_on stream) (
              sym (append-nil _)
              ∙ ap (◌++◌ (sequential logger s.returned)) (sym (rw (above, to) refl))),
    ),
    held_not_free s.mu i mine,
    inr mine,
    inr mine,
  )
  compose-Good i (some stream) e rest s to above mine alike = (
    (mine, alike, rw (above, to) refl, joined-pieces _ _ _),
    held_not_free s.mu i mine,
    inr mine,
    inr mine,
  )

  filter-Good :
      (i : ℕ) (e : Entry) (rest : List Entry) (s : Shared)
      → s.mu ≡ some i
      → Alike s.output (sequential logger s.returned)
      → Good i s (filter logger e rest s)
  unfolding log
  filter-Good i e rest s mine alike =
      elim (Bool-cases (is_below_min_level e.entry.level logger.min_level)) [
        | inl below ↦ rw below (
          (
            mine,
            λ stream.
                alike stream
                ∙ ap (text_on stream) (
                    sym (append-nil _)
                    ∙ ap (◌++◌ (sequential logger s.returned)) (sym (rw below refl))),
          ),
          held_not_free s.mu i mine,
          inr mine,
          inr mine,
        )
        | inr above ↦ rw above (
            compose-Good i (stream_for_level e.entry.level logger.out logger.err) e rest s refl
              above mine alike)
      ]

  -- A step of a thread keeps what is known, and is made only with the mutex free or its own.
  pub turn-Good :
      (i : ℕ) (phase : Phase) (rest : List Entry) (s : Shared)
      → Standing i phase s
      → Free s
      → IfSome (Good i s) (turn logger i phase rest s)
  unfolding turn
  turn-Good i outside [] s now free = tt
  turn-Good i outside (e ∷ rest) s now free = lock-Good i s.mu e rest s refl free
  turn-Good i (filtering e) rest s (mine, alike) free = filter-Good i e rest s mine alike
  turn-Good i (appending e stream (piece ∷ more)) rest s (mine, alike, passes, text) free = (
    (mine, alike, passes, append_assoc s.buffer piece (joined more) ∙ text),
    held_not_free s.mu i mine,
    inr mine,
    inr mine,
  )
  turn-Good i (appending e stream []) rest s (mine, alike, passes, text) free = (
    (
      mine,
      passes,
      λ st.
          Alike-last s.output (sequential logger s.returned) (stream, s.buffer) alike st
          ∙ ap (λ l. text_on st (sequential logger s.returned ++ ((stream, l) ∷ [])))
              (sym (append-nil s.buffer) ∙ text),
    ),
    held_not_free s.mu i mine,
    inr mine,
    inr mine,
  )
  turn-Good i (ending e stream) rest s (mine, passes, alike) free = (
    (
      mine,
      λ st.
          Alike-last s.output _ (stream, 10 ∷ []) alike st
          ∙ Alike-joined (sequential logger s.returned) stream (line_of e stream) (10 ∷ []) st
          ∙ ap (λ l. text_on st (sequential logger s.returned ++ l)) (sym passes),
    ),
    held_not_free s.mu i mine,
    inr mine,
    inr mine,
  )
  turn-Good i (leaving e) rest s (mine, alike) free = (
    refl,
    (λ n st.
        alike st
        ∙ ap (text_on st) (
            sym (
              tally-append (λ call. log call.1.around logger call.1.entry) s.returned ((i, e) ∷ [])
              ∙ ap (◌++◌ (sequential logger s.returned)) (append-nil _)))),
    inr mine,
    inl refl,
  )
