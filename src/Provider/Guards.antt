-- ===== src/Provider/Guards.antt =====
-- What the checks at the start of each operation of esys_pcr_provider.cpp keep away from the TSS.
use tpmkit.Base.{ℕ, ◌≤◌, ◌≡◌, refl, ◌⊎◌, inl, inr, arith, Bool, true, false, List, [], ◌∷◌, length}
use tpmkit.Outcome.{Done, ok, unexpected, raised, IsOk, returns}
use tpmkit.Domain.Hash.{digest_size}
use tpmkit.Tss.{Tss, IsTss}
use tpmkit.Translation.{Codes}
use tpmkit.Validation.{
  bank_algorithms, digest_algorithms, ensure_bank_count, ensure_digest_count, ensure_esys_available,
  ensure_event_size, ensure_policy_digest_size, ensure_sized_buffer_fits,
  ensure_secure_auth_value_transport,
}
use tpmkit.Validation.Laws.{
  Distinct, ensure_bank_count-IsOk, ensure_digest_count-IsOk, ensure_policy_digest_size-IsOk,
}
use tpmkit.Provider.Port.{Request}
use tpmkit.Provider.Session.{Effect, EsysApi, Run, from, ◌>>=◌}
use tpmkit.Provider.{
  perform, Provider, allocate, event, extend, read, reset, set_auth_policy, set_auth_value,
}

-- A failing check ends a run with no effect.
guard_once :
    {B : Type 0} (check : Done) (rest : Unit {0} → Run B) (h : List Effect)
    → ((from check >>= rest) h).1 ≡ h ⊎ IsOk check
unfolding ◌>>=◌ from
guard_once (ok _) rest h = inr tt
guard_once (unexpected e) rest h = inl refl
guard_once (raised x) rest h = inl refl

guard_twice :
    {B : Type 0} (first second : Done) (rest : Unit {0} → Run B) (h : List Effect)
    → ((from first >>= λ _. from second >>= rest) h).1 ≡ h ⊎ (IsOk first × IsOk second)
unfolding ◌>>=◌ from
guard_twice (ok _) (ok _) rest h = inr (tt, tt)
guard_twice (ok _) (unexpected e) rest h = inl refl
guard_twice (ok _) (raised x) rest h = inl refl
guard_twice (unexpected e) second rest h = inl refl
guard_twice (raised x) second rest h = inl refl

guard_thrice :
    {B : Type 0} (first second third : Done) (rest : Unit {0} → Run B) (h : List Effect)
    → ((from first >>= λ _. from second >>= λ _. from third >>= rest) h).1 ≡ h
      ⊎ (IsOk first × IsOk third)
unfolding ◌>>=◌ from
guard_thrice (ok _) (ok _) (ok _) rest h = inr (tt, tt)
guard_thrice (ok _) (ok _) (unexpected e) rest h = inl refl
guard_thrice (ok _) (ok _) (raised x) rest h = inl refl
guard_thrice (ok _) (unexpected e) third rest h = inl refl
guard_thrice (ok _) (raised x) third rest h = inl refl
guard_thrice (unexpected e) second third rest h = inl refl
guard_thrice (raised x) second third rest h = inl refl

available_lem : (esys : Bool) → IsOk (ensure_esys_available esys) → esys ≡ true
unfolding ensure_esys_available
available_lem true e = refl
available_lem false e = absurd e

event_fits :
    (t : Tss) (bytes : List ℕ)
    → IsOk (ensure_event_size t bytes)
    → length bytes ≤ t.event_buffer_size
unfolding ensure_event_size
event_fits t bytes e = ground (arith, e)

empty_lem : (auth : List ℕ) → IsOk (ensure_secure_auth_value_transport auth) → auth ≡ []
unfolding ensure_secure_auth_value_transport
empty_lem [] e = refl
empty_lem (b ∷ auth) e = absurd e

module _ (legacy : Bool) (t : Tss) (v : IsTss t) (c : Codes) (api : EsysApi) (p : Provider) where
  -- The requests whose arguments the TSS structures hold.
  abbrev pub Fits : Request → Type 0
  Fits (Request.allocate banks) =
      (1 ≤ length banks) × (length banks ≤ t.num_pcr_banks) × Distinct (bank_algorithms banks)
  Fits (Request.event i bytes) = length bytes ≤ t.event_buffer_size
  Fits (Request.extend i ds) =
      (1 ≤ length ds) × (length ds ≤ t.num_pcr_banks) × Distinct (digest_algorithms ds)
  Fits (Request.set_auth_policy i a digest) = digest_size legacy a ≡ returns (length digest)
  Fits (Request.set_auth_value i auth) = auth ≡ []
  Fits (Request.read s) = Unit
  Fits (Request.reset i) = Unit

  -- Only an operation whose guards hold goes on.
  guarded :
      {h h' : List Effect} {First Second : Type 0} (r : Request)
      → h' ≡ h ⊎ (First × Second)
      → (First → p.esys ≡ true)
      → (Second → Fits r)
      → h' ≡ h ⊎ ((p.esys ≡ true) × Fits r)
  guarded r (inl nothing) there fits = inl nothing
  guarded r (inr (first, second)) there fits = inr (there first, fits second)

  -- An operation has no effect at all, no TSS call, no log record and no notification, unless the
  -- provider has a TPM context and the request fits the TSS structures: 1 to as many banks or
  -- digests as a list holds, with distinct algorithms; event data within its buffer; a policy
  -- digest of its algorithm's size; an empty authorization value. Condition: the constants are
  -- those of a TSS, as `IsTss` says.
  pub perform-Fits :
      (r : Request) (h : List Effect)
      → perform legacy t c api p r h ≡ h ⊎ ((p.esys ≡ true) × Fits r)
  unfolding perform allocate event extend read reset set_auth_policy set_auth_value
  perform-Fits (Request.allocate banks) h =
      guarded (Request.allocate banks)
        (guard_twice (ensure_esys_available p.esys) (ensure_bank_count t banks) _ h)
        (available_lem p.esys) (ensure_bank_count-IsOk t banks).0
  perform-Fits (Request.event i bytes) h =
      guarded (Request.event i bytes)
        (guard_twice (ensure_esys_available p.esys) (ensure_event_size t bytes) _ h)
        (available_lem p.esys) (event_fits t bytes)
  perform-Fits (Request.extend i ds) h =
      guarded (Request.extend i ds)
        (guard_twice (ensure_esys_available p.esys) (ensure_digest_count t ds) _ h)
        (available_lem p.esys) (ensure_digest_count-IsOk t ds).0
  perform-Fits (Request.read s) h = elim (guard_once (ensure_esys_available p.esys) _ h) [
    | inl nothing ↦ inl nothing
    | inr there ↦ inr (available_lem p.esys there, tt)
  ]
  perform-Fits (Request.reset i) h = elim (guard_once (ensure_esys_available p.esys) _ h) [
    | inl nothing ↦ inl nothing
    | inr there ↦ inr (available_lem p.esys there, tt)
  ]
  perform-Fits (Request.set_auth_policy i a digest) h =
      guarded (Request.set_auth_policy i a digest)
        (guard_twice (ensure_esys_available p.esys) (ensure_policy_digest_size legacy t a digest) _
          h)
        (available_lem p.esys) (ensure_policy_digest_size-IsOk legacy t v a digest).0
  perform-Fits (Request.set_auth_value i auth) h =
      guarded (Request.set_auth_value i auth)
        (guard_thrice (ensure_esys_available p.esys)
          (ensure_sized_buffer_fits t (length auth) "PCR auth value is too large")
          (ensure_secure_auth_value_transport auth) _ h)
        (available_lem p.esys) (empty_lem auth)
