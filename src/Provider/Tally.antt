-- ===== src/Provider/Tally.antt =====
-- The rule for the check of a return code in esys_pcr_provider.cpp.
use tpmkit.Base.{
  ℕ, ◌≡◌, refl, sym, ap, ◌∙◌, List, [], ◌∷◌, ◌++◌, map, append-nil, String, ◌==◌, Bool-cases, inl,
  inr, true,
}
use tpmkit.Logging.{LogRecord, pcr_tss_error}
use tpmkit.Translation.{Codes, Decoder, translate_tss_rc}
use tpmkit.Effects.Tally.{tally, worth_nothing, Silent, tally-append}
use tpmkit.Provider.Session.{Effect, logged, check_rc}

module _ {ℓ} {X : Type ℓ} (weigh : Effect → List X) where
  logged_silent :
      (rs : List LogRecord)
      → ((r : LogRecord) → weigh (logged r) ≡ [])
      → tally weigh (map logged rs) ≡ []
  logged_silent [] quiet = refl
  logged_silent (r ∷ rs) quiet =
      ap (λ l. l ++ tally weigh (map logged rs)) (quiet r) ∙ logged_silent rs quiet

  -- Checking a return code only logs.
  pub check_rc-Silent :
      (c : Codes) (d : Decoder) (rc : ℕ) (operation : String)
      → ((r : LogRecord) → weigh (logged r) ≡ [])
      → Silent weigh (check_rc c d rc operation)
  unfolding check_rc
  check_rc-Silent c d rc operation quiet = record {
    adds = λ h. elim (Bool-cases (rc == c.rc_success)) [
      | inl fine ↦ rw fine (sym (append-nil (tally weigh h)))
      | inr failed ↦
          let (r, records) = translate_tss_rc c rc operation true pcr_tss_error d in
          rw failed (
            tally-append weigh h (map logged records)
            ∙ ap (◌++◌ (tally weigh h)) (logged_silent records quiet ∙ sym (worth_nothing weigh r)))
    ];
  }
