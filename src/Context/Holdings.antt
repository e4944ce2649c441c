-- ===== src/Context/Holdings.antt =====
-- What is held of the TSS between the effects of tcti_loader.cpp and tpm_context.cpp, and rules
-- for the steps that take it and give it back.
mod Counts
pub use Counts.*
use tpmkit.Base.{
  ℕ, ◌+◌, ◌≤◌, ◌≡◌, refl, ap, sym, ◌∙◌, arith, List, [], ◌∷◌, ◌++◌, append-nil, Option, none, some,
}
use tpmkit.Outcome.{Outcome, ok, unexpected, raised}
use tpmkit.Logging.{LogRecord}
use tpmkit.Context.Session.{
  Effect, Logger, given, noop, Run, ask, delivered, released, guarded, from, ◌>>=◌, resume,
}

held-append : (o : Option Held) (h es : List Effect) → held o (h ++ es) ≡ held (held o h) es
held-append none h es = refl
held-append (some k) [] es = refl
held-append (some k) (e ∷ h) es = held-append (held_after k e) h es

-- What is held at the end of a history.
abbrev pub holdings : List Effect → Option Held
holdings = held (some nothing)

pub holdings-append :
    (h es : List Effect) (k : Held) → holdings h ≡ some k → holdings (h ++ es) ≡ held (some k) es
holdings-append h es k e = held-append (some nothing) h es ∙ ap (λ o. held o es) e

-- Of a value, what goes with it; of an error, nothing.
abbrev pub kept : {A : Type 0} → (A → Held) → Outcome A → Held
kept taken (ok a) = taken a
kept taken (unexpected e) = nothing
kept taken (raised x) = nothing

-- A run that is handed `brought` on top of what others hold, where `room` TCTI contexts are free of
-- an ESYS context: it ends with `taken` on top when it returns a value, and with nothing on top
-- when it fails.
pub record Leaves {A : Type 0} (room : ℕ) (brought : Held) (taken : A → Held) (m : Run A)
    : Type 0 where
  pub leaves :
      (h : List Effect) (base : Held)
      → base.esyss + room ≤ base.tctis
      → holdings h ≡ some (base ⊕ brought)
      → holdings (m h).1 ≡ some (base ⊕ kept taken (m h).0)

-- A run that holds as much after as before.
abbrev pub Even : {A : Type 0} → ℕ → Run A → Type 0
Even room m = Leaves room nothing (λ _. nothing) m

resume-Leaves :
    {A B : Type 0} {room : ℕ} (mid : A → Held) (taken : B → Held) (r : Outcome A × List Effect)
    (f : A → Run B) (base : Held)
    → base.esyss + room ≤ base.tctis
    → holdings r.1 ≡ some (base ⊕ kept mid r.0)
    → ((a : A) → Leaves room (mid a) taken (f a))
    → holdings (resume r f).1 ≡ some (base ⊕ kept taken (resume r f).0)
resume-Leaves mid taken (ok a, h) f base o e all = (all a).leaves h base o e
resume-Leaves mid taken (unexpected x, h) f base o e all = e
resume-Leaves mid taken (raised x, h) f base o e all = e

pub bind-Leaves :
    {A B : Type 0} {room : ℕ} {brought : Held} {mid : A → Held} {taken : B → Held} {m : Run A}
    {f : A → Run B}
    → Leaves room brought mid m
    → ((a : A) → Leaves room (mid a) taken (f a))
    → Leaves room brought taken (m >>= f)
unfolding ◌>>=◌
bind-Leaves {mid} {taken} {m} {f} first all = record {
  leaves = λ h base o e. resume-Leaves mid taken (m h) f base o (first.leaves h base o e) all;
}

pub from-Even : {A : Type 0} {room : ℕ} (r : Outcome A) → Even room (from r)
unfolding from
from-Even (ok a) = record { leaves = λ h base o e. e }
from-Even (unexpected x) = record { leaves = λ h base o e. e }
from-Even (raised x) = record { leaves = λ h base o e. e }

-- A value that takes over what was brought.
pub ok-Leaves :
    {A : Type 0} {room : ℕ} (taken : A → Held) (a : A) → Leaves room (taken a) taken (from (ok a))
unfolding from
ok-Leaves taken a = record { leaves = λ h base o e. e }

-- An effect between two holdings.
pub Effect-Leaves :
    {A : Type 0} {room : ℕ} {brought : Held} {taken : A → Held} (e : Effect)
    (reply : List Effect → A)
    → ((a : A) (base : Held)
        → base.esyss + room ≤ base.tctis
        → held_after (base ⊕ brought) e ≡ some (base ⊕ taken a))
    → Leaves room brought taken (ask e reply)
unfolding ask
Effect-Leaves {brought} e reply moves = record {
  leaves = λ h base o now.
      holdings-append h (e ∷ []) (base ⊕ brought) now
      ∙ single (held_after (base ⊕ brought) e) _ (moves (reply h) base o);
}
  where
    single : (o : Option Held) (k : Held) → o ≡ some k → held o [] ≡ some k
    single none k eq = eq
    single (some j) k eq = eq

held-delivered :
    (log : Logger) (rs : List LogRecord) (k : Held) → held (some k) (delivered log rs) ≡ some k
held-delivered noop rs k = refl
held-delivered given [] k = refl
held-delivered given (r ∷ rs) k = held-delivered given rs k

-- Adding records to the log.
pub delivered_lem :
    (h : List Effect) (log : Logger) (rs : List LogRecord) (k : Held)
    → holdings h ≡ some k
    → holdings (h ++ delivered log rs) ≡ some k
delivered_lem h log rs k e = holdings-append h (delivered log rs) k e ∙ held-delivered log rs k

pub plus_nothing : (k : Held) → k ⊕ nothing ≡ k
plus_nothing k = ground arith

pub plus_assoc : (a b d : Held) → a ⊕ b ⊕ d ≡ a ⊕ (b ⊕ d)
plus_assoc a b d = ground arith

pub plus_comm : (a b : Held) → a ⊕ b ≡ b ⊕ a
plus_comm a b = ground arith

-- What gives back `brought`, whatever else is held; with it, `left` TCTI contexts are free.
pub record GivesBack (room left : ℕ) (brought : Held) (es : List Effect) : Type 0 where
  pub gives :
      (base : Held)
      → base.esyss + room ≤ base.tctis
      → ((base ⊕ brought).esyss + left ≤ (base ⊕ brought).tctis)
        × (held (some (base ⊕ brought)) es ≡ some base)

guarded-case :
    {A : Type 0} (taken : A → Held) (brought : Held) (r : Outcome A) (h es : List Effect)
    (base : Held)
    → holdings h ≡ some (base ⊕ brought ⊕ kept taken r)
    → held (some (base ⊕ brought)) es ≡ some base
    → holdings (h ++ released r es) ≡ some (base ⊕ kept (λ a. brought ⊕ taken a) r)
guarded-case taken brought (ok a) h es base e gives =
    ap holdings (append-nil h) ∙ e ∙ ap some (plus_assoc base brought (taken a))
guarded-case taken brought (unexpected x) h es base e gives =
    holdings-append h es (base ⊕ brought) (e ∙ ap some (plus_nothing (base ⊕ brought)))
    ∙ gives
    ∙ ap some (sym (plus_nothing base))
guarded-case taken brought (raised x) h es base e gives =
    holdings-append h es (base ⊕ brought) (e ∙ ap some (plus_nothing (base ⊕ brought)))
    ∙ gives
    ∙ ap some (sym (plus_nothing base))

-- A guarded run keeps what was brought until it fails.
pub guarded-Leaves :
    {A : Type 0} {room left : ℕ} {taken : A → Held} {m : Run A} (brought : Held)
    (effects : List Effect → List Effect)
    → ((h : List Effect) → GivesBack room left brought (effects h))
    → Leaves left nothing taken m
    → Leaves room brought (λ a. brought ⊕ taken a) (guarded m effects)
unfolding guarded
guarded-Leaves {taken} {m} brought effects back inner = record {
  leaves = λ h base o e.
      let (ordered, gives) = (back (m h).1).gives base o in
      guarded-case taken brought (m h).0 (m h).1 (effects (m h).1) base
        (inner.leaves h (base ⊕ brought) ordered
          (e ∙ ap some (sym (plus_nothing (base ⊕ brought)))))
        gives;
}
