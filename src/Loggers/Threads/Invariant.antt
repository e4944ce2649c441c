-- ===== src/Loggers/Threads/Invariant.antt =====
-- stdio_logger.cpp: what holds of all the threads inside `log` after any sequence of their steps.
use tpmkit.Base.{
  ℕ, ◌≡◌, refl, sym, ap, ◌∙◌, inl, inr, arith, false, Bool-cases, List, [], ◌∷◌, ◌++◌, Option, none,
  some, none-ne-some, some-injective, ==_iff, ◌==◌, IfSome, zero, suc, get_or, get_elem?,
  get_elem?-set, get_elem?-set_other, set,
}
use tpmkit.Loggers.Stdio.{StdioLogger}
use tpmkit.Loggers.Threads.{
  Entry, Phase, outside, filtering, appending, ending, leaving, Thread, Shared, System, turn, moved,
  advance, advance_thread, start, calls_of,
}
use tpmkit.Loggers.Threads.Order.{unfinished, turn-Ordered, Ordered, other_number}
use tpmkit.Loggers.Threads.Sound.{Standing, Free, Good, Mine, holds, turn-Good}

module _ (logger : StdioLogger) where
  -- What holds of a system whose threads had these calls to make.
  pub record Inv (programs : List (List Entry)) (x : System) : Type 0 where
    pub standing :
        (i : ℕ) (t : Thread) → get_elem? x.threads i ≡ some t → Standing logger i t.phase x.shared
    pub free : Free logger x.shared
    pub order :
        (i : ℕ)
        → calls_of i x.shared.returned ++ unfinished (get_elem? x.threads i) ≡ get_or programs i []
    pub owned : (i : ℕ) → x.shared.mu ≡ some i → (t : Thread) × (get_elem? x.threads i ≡ some t)

  start_phase :
      (programs : List (List Entry)) (i : ℕ) (t : Thread)
      → get_elem? (start programs).threads i ≡ some t
      → t.phase ≡ outside
  start_phase [] i t e = absurd (none-ne-some t e)
  start_phase (p ∷ ps) zero t e = ap (λ x. x.phase) (sym (some-injective _ t e))
  start_phase (p ∷ ps) (suc i) t e = start_phase ps i t e

  start_pending :
      (programs : List (List Entry)) (i : ℕ)
      → unfinished (get_elem? (start programs).threads i) ≡ get_or programs i []
  start_pending [] i = refl
  start_pending (p ∷ ps) zero = refl
  start_pending (p ∷ ps) (suc i) = start_pending ps i

  pub start-Inv : (programs : List (List Entry)) → Inv programs (start programs)
  start-Inv programs = record {
    standing = λ i t e. rw (start_phase programs i t e) refl;
    free = λ e stream. refl;
    order = start_pending programs;
    owned = λ i e. absurd (none-ne-some i e);
  }

  not_theirs :
      {A : Type 0} (i j : ℕ) (mu : Option ℕ) → (j == i) ≡ false → Mine i mu → mu ≡ some j → A
  not_theirs i j mu other (inl free) theirs = absurd (none-ne-some j (sym free ∙ theirs))
  not_theirs i j mu other (inr mine) theirs =
      let same = some-injective i j (sym mine ∙ theirs) in absurd (ground (arith, same, other))

  not_held : (i j : ℕ) (mu : Option ℕ) → (j == i) ≡ false → Mine i mu → holds mu j ≡ false
  not_held i j none other mine = refl
  not_held i j (some k) other (inl free) = absurd (none-ne-some k (sym free))
  not_held i j (some k) other (inr mine) = rw (some-injective k i mine) (other_number i j other)

  -- A thread other than the one that may move is outside, and stays so.
  other-Standing :
      (i j : ℕ) (phase : Phase) (s s' : Shared)
      → (j == i) ≡ false
      → Mine i s.mu
      → Mine i s'.mu
      → Standing logger j phase s
      → Standing logger j phase s'
  other-Standing i j outside s s' other before after standing = not_held i j s'.mu other after
  other-Standing i j (filtering e) s s' other before after standing =
      not_theirs i j s.mu other before standing.0
  other-Standing i j (appending e stream more) s s' other before after standing =
      not_theirs i j s.mu other before standing.0
  other-Standing i j (ending e stream) s s' other before after standing =
      not_theirs i j s.mu other before standing.0
  other-Standing i j (leaving e) s s' other before after standing =
      not_theirs i j s.mu other before standing.0

  module _ (programs : List (List Entry)) (x : System) (i : ℕ) (t : Thread) (r : Thread × Shared)
      (inv : Inv programs x) (here : get_elem? x.threads i ≡ some t)
      (good : Good logger i x.shared r)
      (ordered : Ordered logger i t.phase t.pending x.shared r) where
    placed : get_elem? (set x.threads i r.0) i ≡ some r.0
    placed = get_elem?-set x.threads i t r.0 here

    kept : (j : ℕ) → (j == i) ≡ false → get_elem? (set x.threads i r.0) j ≡ get_elem? x.threads j
    kept j other = get_elem?-set_other x.threads i j r.0 other

    still-Standing :
        (j : ℕ) (u : Thread)
        → get_elem? (set x.threads i r.0) j ≡ some u
        → Standing logger j u.phase r.1
    still-Standing j u e = elim (Bool-cases (j == i)) [
      | inl same ↦
          let eq = (==_iff j i).0 same in
          let moved_one =
            some-injective _ u (sym placed ∙ ap (get_elem? (set x.threads i r.0)) (sym eq) ∙ e) in
          rw (eq, sym moved_one) good.0
      | inr other ↦
          other-Standing i j u.phase x.shared r.1 other good.2 good.3
            (inv.standing j u (sym (kept j other) ∙ e))
    ]

    still_ordered :
        (j : ℕ)
        → calls_of j r.1.returned ++ unfinished (get_elem? (set x.threads i r.0) j)
          ≡ get_or programs j []
    still_ordered j = elim (Bool-cases (j == i)) [
      | inl same ↦
          rw ((==_iff j i).0 same, placed)
            (ordered.own_calls
              ∙ ap (λ o. calls_of i x.shared.returned ++ unfinished o) (sym here)
              ∙ inv.order i)
      | inr other ↦ rw (ordered.other_calls j other, kept j other) (inv.order j)
    ]

    still_owned :
        (j : ℕ) → r.1.mu ≡ some j → (u : Thread) × (get_elem? (set x.threads i r.0) j ≡ some u)
    still_owned j held = elim (Bool-cases (j == i)) [
      | inl same ↦ (r.0, rw ((==_iff j i).0 same) placed)
      | inr other ↦ not_theirs i j r.1.mu other good.3 held
    ]

    moved-Inv : Inv programs (record { shared = r.1; threads = set x.threads i r.0 })
    moved-Inv = record {
      standing = still-Standing;
      free = good.1;
      order = still_ordered;
      owned = still_owned;
    }

  turned-Inv :
      (programs : List (List Entry)) (x : System) (i : ℕ) (t : Thread)
      (o : Option (Thread × Shared))
      → Inv programs x
      → get_elem? x.threads i ≡ some t
      → IfSome (Good logger i x.shared) o
      → IfSome (Ordered logger i t.phase t.pending x.shared) o
      → IfSome (Inv programs) (moved logger i x.threads o)
  turned-Inv programs x i t none inv here good ordered = tt
  turned-Inv programs x i t (some r) inv here good ordered =
      moved-Inv programs x i t r inv here good ordered

  thread-Inv :
      (programs : List (List Entry)) (x : System) (i : ℕ) (o : Option Thread)
      → Inv programs x
      → get_elem? x.threads i ≡ o
      → IfSome (Inv programs) (advance_thread logger i o x)
  thread-Inv programs x i none inv here = tt
  thread-Inv programs x i (some t) inv here =
      turned-Inv programs x i t (turn logger i t.phase t.pending x.shared) inv here
        (turn-Good logger i t.phase t.pending x.shared (inv.standing i t here) inv.free)
        (turn-Ordered logger i t.phase t.pending x.shared)

  pub advance-Inv :
      (programs : List (List Entry)) (x : System) (i : ℕ)
      → Inv programs x
      → IfSome (Inv programs) (advance logger i x)
  advance-Inv programs x i inv = thread-Inv programs x i (get_elem? x.threads i) inv refl
