-- ===== src/Context/Ownership/Steps.antt =====
-- src/adapters/tpm2_esys/context: runs that keep what they were handed, and what gives it back.
use tpmkit.Base.{
  ℕ, ◌+◌, ◌≤◌, ◌≡◌, refl, ap, sym, ◌∙◌, arith, Bool, true, false, List, [], ◌∷◌, ◌++◌, none, some,
  if◌then◌else◌, String,
}
use tpmkit.Outcome.{Error, Outcome, ok, unexpected, raised, done}
use tpmkit.Logging.{LogField, EventDescriptor, LogRecord}
use tpmkit.TctiConfig.{is_empty}
use tpmkit.Context.{ContextImpl, Context, close_esys, succeed, log_tcti_event, announce, completed}
use tpmkit.Context.Session.{
  StartupMode, Source, Logger, Effect, loader_finalized, storage_freed, tcti_closed, esys_opened,
  esys_finalized, Run, ask, delivered, from, emit,
}
use tpmkit.Context.Holdings.{
  Held, nothing, one_tcti, esys_if, ◌⊕◌, held_after, held, holdings, Leaves, Even, from-Even,
  Effect-Leaves, delivered_lem, plus_nothing, GivesBack, kept,
}

-- A success record leaves what was brought.
pub succeed-Leaves :
    {room : ℕ} {brought : Held} (log : Logger) (event : EventDescriptor) (fields : List LogField)
    → Leaves room brought (λ _. brought) (succeed log event fields)
unfolding succeed
succeed-Leaves {brought} log event fields = record {
  leaves = λ h base o e. delivered_lem h log _ (base ⊕ brought) e;
}

pub log_tcti_event-Leaves :
    {room : ℕ} {brought : Held} (log : Logger) (event : EventDescriptor) (kind name : List ℕ)
    → Leaves room brought (λ _. brought) (log_tcti_event log event kind name)
unfolding log_tcti_event
log_tcti_event-Leaves log event kind name = succeed-Leaves log event _

pub emit-Leaves :
    {room : ℕ} {brought left : Held} (e : Effect)
    → ((base : Held)
        → base.esyss + room ≤ base.tctis
        → held_after (base ⊕ brought) e ≡ some (base ⊕ left))
    → Leaves room brought (λ _. left) (emit e)
unfolding emit ask
emit-Leaves e moves = Effect-Leaves e (λ h. tt) (λ _ base o. moves base o)

pub close_one :
    (base : Held)
    → base.esyss + 0 ≤ base.tctis
    → (source : Source) → held_after (base ⊕ one_tcti) (tcti_closed source) ≡ some base
close_one base o source = ground arith

pub closed-GivesBack : (source : Source) → GivesBack 0 1 one_tcti (tcti_closed source ∷ [])
closed-GivesBack source = record {
  gives = λ base o. (omega arith, ap (λ k. held k []) (close_one base o source));
}

pub esys-GivesBack : (esys : Bool) → GivesBack 1 0 (esys_if esys) (close_esys esys)
unfolding close_esys
esys-GivesBack true = record {
  gives = λ base o. (omega arith, ap (λ k. held k []) (close_esys_one base));
}
  where
    close_esys_one : (base : Held) → held_after (base ⊕ esys_if true) esys_finalized ≡ some base
    close_esys_one base = ground arith
esys-GivesBack false = record { gives = λ base o. (omega arith, ap some (plus_nothing base)) }

pub kept-nothing : {A : Type 0} (r : Outcome A) → kept (λ a. nothing) r ≡ nothing
kept-nothing (ok a) = refl
kept-nothing (unexpected e) = refl
kept-nothing (raised x) = refl

-- Records alone change nothing.
pub logging-Even :
    {A : Type 0} {room : ℕ} (log : Logger) (rs : List LogRecord) (r : Outcome A)
    → Even room (λ h. (r, h ++ delivered log rs))
logging-Even log rs r = record {
  leaves = λ h base o e.
      delivered_lem h log rs (base ⊕ nothing) e ∙ ap (λ k. some (base ⊕ k)) (sym (kept-nothing r));
}

pub branch-Leaves :
    {A : Type 0} {room : ℕ} {brought : Held} {taken : A → Held} {m n : Run A}
    (b : List Effect → Bool)
    → Leaves room brought taken m
    → Leaves room brought taken n
    → Leaves room brought taken (λ h. if b h then m h else n h)
branch-Leaves {taken} {m} {n} b first second = record {
  leaves = λ h base o e.
      either (b h) base (m h) (n h) (first.leaves h base o e) (second.leaves h base o e);
}
  where
    either :
        (b : Bool) (base : Held) (r q : Outcome _ × List Effect)
        → holdings r.1 ≡ some (base ⊕ kept taken r.0)
        → holdings q.1 ≡ some (base ⊕ kept taken q.0)
        → holdings (if b then r else q).1 ≡ some (base ⊕ kept taken (if b then r else q).0)
    either true base r q first second = first
    either false base r q first second = second

pub fails-Leaves :
    {A : Type 0} {room : ℕ} {taken : A → Held} (e : Error)
    → Leaves {A = A} room nothing taken (from (unexpected e))
unfolding from
fails-Leaves e = record { leaves = λ h base o now. now }

pub finalize_one :
    (base : Held)
    → base.esyss + 0 ≤ base.tctis
    → held_after (base ⊕ one_tcti) (loader_finalized true) ≡ some base
finalize_one base o = ground arith

-- What is left after a loader that does not clear the pointer is gone with its free.
pub finalize-free_one :
    (base : Held)
    → base.esyss + 0 ≤ base.tctis
    → held (some (base ⊕ one_tcti)) (loader_finalized false ∷ storage_freed ∷ []) ≡ some base
finalize-free_one base o = ground arith

pub branched :
    {A : Type 0} {room : ℕ} {brought : Held} {taken : A → Held} {m n : Run A} (b : Bool)
    → Leaves room brought taken m
    → Leaves room brought taken n
    → Leaves room brought taken (if b then m else n)
branched true first second = first
branched false first second = second

-- The ESYS context of an implementation, and all that a context holds.
abbrev pub impl_esys : ContextImpl → Held
impl_esys impl = esys_if impl.esys

abbrev pub context_held : Context → Held
context_held none = nothing
context_held (some impl) = one_tcti ⊕ esys_if impl.esys

pub announce-Even : {room : ℕ} (log : Logger) (name : List ℕ) → Even room (announce log name)
unfolding announce from
announce-Even log name =
    branch-Leaves (λ h. is_empty name) (from-Even done) (log_tcti_event-Leaves log _ _ name)

pub completed-Even :
    {room : ℕ} (log : Logger) (mode : StartupMode) (result : String)
    → Even room (completed log mode result)
unfolding completed
completed-Even log mode result = succeed-Leaves log _ _

pub open_one :
    (base : Held)
    → base.esyss + 1 ≤ base.tctis
    → held_after (base ⊕ nothing) (esys_opened true) ≡ some (base ⊕ esys_if true)
open_one base o = ground arith
