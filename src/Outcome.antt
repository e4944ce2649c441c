-- ===== src/Outcome.antt =====
-- include/tpmkit/result.h, include/tpmkit/exception.h and src/domain/result.cpp: the error
-- vocabulary. `Outcome` is `outcome<T>`; `Throws` is the result of a call that may throw.
use tpmkit.Base.{ℕ, String, ◌≡◌, refl, ◌⊎◌, inl, inr}

-- `unlisted n` is the n-th value of the enum's underlying type past its enumerators.
pub data ErrorCategory : Type 0 where
  input_error security_failure resource_error backend_error : ErrorCategory
  unlisted : ℕ → ErrorCategory

unfoldable pub error_category_name : ErrorCategory → String
error_category_name input_error = "input_error"
error_category_name security_failure = "security_failure"
error_category_name resource_error = "resource_error"
error_category_name backend_error = "backend_error"
error_category_name (unlisted n) = "unknown"

pub record Error : Type 0 where
  pub category : ErrorCategory
  pub message : String

-- The exceptions that the library throws. The first two have a common base, `tpmkit_error`.
pub data Exception : Type 0 where
  tpmkit_error input_validation_error length_error : String → Exception

-- The third end is an exception that leaves the call.
pub data Outcome {ℓ} (A : Type ℓ) : Type ℓ where
  ok : A → Outcome A
  unexpected : Error → Outcome A
  raised : Exception → Outcome A

-- `outcome<void>`
abbrev pub Done : Type 0
Done = Outcome (Unit {0})

abbrev pub done : Done
done = ok tt

abbrev pub fails {ℓ} : {A : Type ℓ} → ErrorCategory → String → Outcome A
fails c m = unexpected (record { category = c; message = m })

-- `if (!r.has_value()) return tl::unexpected(r.error());`
infixl 5 ◌>>=◌ ◌>>◌
abbrev pub ◌>>=◌ {ℓ κ} : {A : Type ℓ} {B : Type κ} → Outcome A → (A → Outcome B) → Outcome B
ok a >>= f = f a
unexpected e >>= f = unexpected e
raised x >>= f = raised x

abbrev pub ◌>>◌ {ℓ} : {B : Type ℓ} → Done → Outcome B → Outcome B
m >> k = m >>= λ _. k

pub data Throws {ℓ} (A : Type ℓ) : Type ℓ where
  returns : A → Throws A
  throws : Exception → Throws A

abbrev pub bind_throws {ℓ κ} : {A : Type ℓ} {B : Type κ} → Throws A → (A → Throws B) → Throws B
bind_throws (returns a) f = f a
bind_throws (throws e) f = throws e

-- `try { return r; } catch (const tpmkit_error&) { throw e; }`
abbrev pub catch_tpmkit_error {ℓ} : {A : Type ℓ} → Throws A → Exception → Throws A
catch_tpmkit_error (returns a) e = returns a
catch_tpmkit_error (throws (tpmkit_error m)) e = throws e
catch_tpmkit_error (throws (input_validation_error m)) e = throws e
catch_tpmkit_error (throws (length_error m)) e = throws (length_error m)

-- A constructor or function that may throw, called where an outcome is computed.
abbrev pub lift {ℓ} : {A : Type ℓ} → Throws A → Outcome A
lift (returns a) = ok a
lift (throws x) = raised x

-- The call returns, and with a value.
abbrev pub IsOk {ℓ} : {A : Type ℓ} → Outcome A → Type 0
IsOk (ok a) = Unit
IsOk (unexpected e) = ⊥
IsOk (raised x) = ⊥

pub ok-injective {ℓ} : {A : Type ℓ} {a b : A} → ok a ≡ ok b → a ≡ b
ok-injective h = cc

pub >>=-eq-ok {ℓ κ} :
    {A : Type ℓ} {B : Type κ} (first : Outcome A) (next : A → Outcome B) {result : B}
    → (first >>= next) ≡ ok result
    → (value : A) × (first ≡ ok value) × (next value ≡ ok result)
>>=-eq-ok (raised x) next ended = cc
>>=-eq-ok (unexpected e) next ended = cc
>>=-eq-ok (ok value) next ended = (value, refl, ended)

pub Throws-cases {ℓ} :
    {A : Type ℓ} (r : Throws A) → ((a : A) × (r ≡ returns a)) ⊎ ((x : Exception) × (r ≡ throws x))
Throws-cases (returns a) = inl (a, refl)
Throws-cases (throws x) = inr (x, refl)

-- A caught exception is still no value.
pub catch_tpmkit_error_throws {ℓ} :
    {A : Type ℓ} (r : Throws A) (e : Exception) (a : A)
    → catch_tpmkit_error r e ≡ returns a
    → r ≡ returns a
catch_tpmkit_error_throws (returns b) e a h = h
catch_tpmkit_error_throws (throws (tpmkit_error m)) e a h = cc
catch_tpmkit_error_throws (throws (input_validation_error m)) e a h = cc
catch_tpmkit_error_throws (throws (length_error m)) e a h = cc

pub bind_throws_returns {ℓ κ} :
    {A : Type ℓ} {B : Type κ} (r : Throws A) (f : A → Throws B) (b : B)
    → bind_throws r f ≡ returns b
    → (a : A) × (r ≡ returns a) × (f a ≡ returns b)
bind_throws_returns (returns a) f b h = (a, refl, h)
bind_throws_returns (throws x) f b h = cc

pub lift-eq-ok {ℓ} : {A : Type ℓ} (r : Throws A) (a : A) → lift r ≡ ok a → r ≡ returns a
lift-eq-ok (returns b) a h = cc
lift-eq-ok (throws x) a h = cc
