-- ===== src/Context/Undefined.antt =====
-- src/adapters/tpm2_esys/context/tpm_context.cpp: an owned handle without a deleter.
use tpmkit.Base.{
  ◌≡◌, refl, sym, Bool, true, false, ◌↔◌, List, [], ◌∷◌, ◌++◌, inl, inr, Bool-cases, false≢true,
}
use tpmkit.Context.{create_context_from_owned_tcti, check_owned, is_valid_startup_mode, drop_owned}
use tpmkit.Context.Session.{StartupMode, Effect, null_call, ContextApi, ◌>>=◌}
use tpmkit.Translation.{Codes}

no_longer : (h : List Effect) (e : Effect) → h ≡ h ++ (e ∷ []) → ⊥
no_longer [] e same = cc
no_longer (x ∷ h) e same = no_longer h e cc

-- With a handle that comes without a deleter, the creation of a context calls the deleter that is
-- not there exactly when the startup mode is none of the three; otherwise it does nothing.
pub create_context_from_owned_tcti_null :
    (c : Codes) (api : ContextApi) (mode : StartupMode) (log : Bool) (h : List Effect)
    → ((create_context_from_owned_tcti c api true false mode log h).1 ≡ h
        ↔ (is_valid_startup_mode mode ≡ true))
      × ((create_context_from_owned_tcti c api true false mode log h).1 ≡ h ++ (null_call ∷ [])
          ↔ (is_valid_startup_mode mode ≡ false))
unfolding create_context_from_owned_tcti check_owned drop_owned ◌>>=◌
create_context_from_owned_tcti_null c api mode log h =
    elim (Bool-cases (is_valid_startup_mode mode)) [
      | inl good ↦ rw good (
        ((λ _. refl), (λ _. refl)),
        ((λ same. absurd (no_longer h null_call same)), (λ no. absurd (false≢true (sym no)))),
      )
      | inr bad ↦ rw bad (
        ((λ same. absurd (no_longer h null_call (sym same))), (λ no. absurd (false≢true no))),
        ((λ _. refl), (λ _. refl)),
      )
    ]
