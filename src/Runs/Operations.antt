-- ===== src/Runs/Operations.antt =====
-- Runs of the PCR operations.
use tpmkit.Base.{◌⊎◌, ◌≡◌, true, false, [], ◌∷◌, ◌++◌, none, some}
use tpmkit.Base.{List, leb, if◌then◌else◌, refl, take, arith, ◌≤◌, length, All, map}
use tpmkit.Domain.Hash.{digest_size}
use tpmkit.Domain.Index.{make_index, insert}
use tpmkit.Domain.Values.{make_selection, make_digest_value}
use tpmkit.Outcome.{ok, fails, resource_error}
use tpmkit.Marshalling.{
  algorithm_from_tpm, digest_from_bytes, digest_from_ha, digest_from_union, digests_loop,
  read_values_loop, scan_bits, scan_bytes, should_skip_disabled_pcr_algorithm, to_domain_digests,
  to_domain_read_values, to_domain_selection,
}
use tpmkit.Marshalling.Digests.{IsDigest}
use tpmkit.Provider.Guards.{perform-Fits, Fits}
use tpmkit.Provider.Records.{reports-perform, due}
use tpmkit.Provider.Reports.{reports}
use tpmkit.Provider.Buffers.{held, held-perform}
use tpmkit.Provider.Answers.{
  read_answer, event_answer, read_sound, event_sound, set_auth_value_secret,
}
use tpmkit.Validation.{ensure_esys_available, ensure_event_size}
use tpmkit.Provider.{call_event, call_read, event, finish_event, finish_read, read, set_auth_value}
use tpmkit.Provider.Session.{◌>>=◌, check_rc, emit, finally, from}
use tpmkit.Provider.{Provider, perform}
use tpmkit.Tss.{TpmlDigest}
use tpmkit.Provider.Port.{Request}
use tpmkit.Provider.Session.{EsysApi}
use tpmkit.Provider.Notifies.{notifications, notifications-perform, announced}
use tpmkit.Provider.Failures.{errors-perform_all, perform_all}
use tpmkit.Provider.Failures.Owed.{errors, failures}
use tpmkit.Runs.Fixtures.{tss, tss-IsTss, rcs}
use tpmkit.Runs.Wire.{answer, entry, two_digests, values, zero_and_nine, zeros}

-- A TPM that answers every call with success.
abbrev pub working : EsysApi
working = record {
  allocate_reply = λ h request. record {
    rc = 0;
    allocation_success = 1;
    max_pcr = 24;
    size_needed = 0;
    size_available = 0;
  };
  event_reply = λ h request. record { rc = 0; digests = some two_digests };
  read_reply = λ h request. record {
    rc = 0;
    update_counter = 7;
    selection = some answer;
    values = some (record { count = 2; digests = entry ∷ entry ∷ [] });
  };
  status = λ h request. 0;
  decode_error = none;
}

abbrev pub watched : Provider
watched = record { esys = true; observer = true }

abbrev pub measure : Request
measure = Request.event (record { value = 16 }) (1 ∷ 2 ∷ [])

notifications-perform_example :
    notifications (perform false tss rcs working watched measure [])
    ≡ [] ++ announced false tss rcs working watched measure []
notifications-perform_example = notifications-perform false tss rcs working watched measure []

held-perform_example :
    held 0 (perform false tss rcs working watched (Request.read zero_and_nine) []) ≡ some 0
held-perform_example =
    held-perform false tss rcs working watched (Request.read zero_and_nine) [] 0 refl

read_runs :
    (read false tss rcs working watched zero_and_nine []).0
    ≡ ok (record { actual_selection = zero_and_nine; update_counter = 7; values = values })
unfolding read finish_read call_read ◌>>=◌ from emit finally check_rc ensure_esys_available
    to_domain_selection algorithm_from_tpm scan_bytes scan_bits make_index insert make_selection
    to_domain_read_values read_values_loop digest_from_bytes make_digest_value digest_size
read_runs = refl

event_runs :
    (event false tss rcs working watched (record { value = 16 }) (1 ∷ 2 ∷ []) []).0
    ≡ ok (record { digests = zeros ∷ [] })
unfolding event finish_event call_event ◌>>=◌ from emit finally check_rc ensure_esys_available
    ensure_event_size to_domain_digests digests_loop digest_from_ha digest_from_union
    should_skip_disabled_pcr_algorithm algorithm_from_tpm make_digest_value digest_size
event_runs = refl

counted :
    (w : TpmlDigest)
    → (read_answer false tss rcs working watched zero_and_nine []).values ≡ some w
    → length (take w.count w.digests) ≡ w.count
counted w e = ground (arith, e)

read_sound_example :
    ((read_answer false tss rcs working watched zero_and_nine []).rc ≡ 0)
    × (7 ≡ (read_answer false tss rcs working watched zero_and_nine []).update_counter)
    × (map (λ x. x.index) values ≡ zero_and_nine.indices)
    × All (λ x. IsDigest false x.digest) values
read_sound_example =
    read_sound false tss rcs working watched zero_and_nine []
      (record { actual_selection = zero_and_nine; update_counter = 7; values = values }) counted
      read_runs

event_sound_example :
    (2 ≤ 1024)
    × ((event_answer false tss rcs working watched (record { value = 16 }) (1 ∷ 2 ∷ []) []).rc ≡ 0)
    × All (IsDigest false) (zeros ∷ [])
event_sound_example =
    event_sound false tss rcs working watched (record { value = 16 }) (1 ∷ 2 ∷ []) []
      (record { digests = zeros ∷ [] }) event_runs

set_auth_value_secret_example :
    set_auth_value false tss rcs working watched (record { value = 16 }) (5 ∷ 6 ∷ []) [] ≡ (
      fails resource_error
          "secure PCR auth value transport is unavailable for non-empty authorization values",
      [],
    )
set_auth_value_secret_example =
    set_auth_value_secret false tss rcs working watched (record { value = 16 }) 5 (6 ∷ []) [] refl

reports-perform_example :
    reports (perform false tss rcs working watched measure [])
    ≡ [] ++ due false tss rcs working watched measure []
reports-perform_example = reports-perform false tss rcs working watched measure []

perform-Fits_example :
    perform false tss rcs working watched measure [] ≡ []
    ⊎ ((true ≡ true) × Fits false tss tss-IsTss rcs working watched measure)
perform-Fits_example = perform-Fits false tss tss-IsTss rcs working watched measure []

-- A TPM whose calls without out parameters fail with TPM2_RC_LOCALITY after two effects.
abbrev failing : EsysApi
failing = record working { status = λ h request. if leb 2 (length h) then 0x907 else 0 }

abbrev session : List Request
session =
    Request.reset (record { value = 16 })
    ∷ measure
    ∷ Request.reset (record { value = 17 })
    ∷ Request.extend (record { value = 16 }) (zeros ∷ [])
    ∷ []

errors-perform_all_example :
    errors (perform_all false tss rcs failing watched session [])
    ≡ failures rcs failing (perform_all false tss rcs failing watched session [])
errors-perform_all_example = errors-perform_all false tss rcs failing watched session

abbrev refused : Request
refused = Request.set_auth_value (record { value = 16 }) []

-- The second of the three calls fails.
abbrev second_fails : EsysApi
second_fails = record working { status = λ h request. if leb 1 (length h) then 0x907 else 0 }
