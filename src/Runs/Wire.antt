-- ===== src/Runs/Wire.antt =====
-- Runs of the marshalling.
use tpmkit.Domain.Index.Range.{interval}
use tpmkit.Marshalling.Allocation.{read_selection-to_tpm_allocation}
use tpmkit.Base.{
  get_or, ◌≡◌, refl, false, List, [], ◌∷◌, All, arith, replicate, take, map, ltb, ◌&&◌,
}
use tpmkit.Outcome.{ok}
use tpmkit.Domain.Hash.{Handled, sha384, sha256, digest_size}
use tpmkit.Domain.Index.Sets.{member}
use tpmkit.Domain.Values.{Bank, Selection, DigestValue, PcrValue, make_selection, make_digest_value}
use tpmkit.Tss.{zero_selection, TpmlPcrSelection, TpmlDigestValues, Tpm2b}
use tpmkit.Marshalling.{
  read_selection, to_tpm_allocation, to_domain_selection, to_tpm_selection, algorithm_from_tpm,
  algorithm_to_tpm, scan_bytes, scan_bits, to_domain_digests, to_tpm_digest_values,
  to_domain_read_values, read_values_loop, digest_from_bytes, digests_loop, digest_from_ha,
  digest_from_union, should_skip_disabled_pcr_algorithm,
}
use tpmkit.Domain.Index.{make_index, insert}
use tpmkit.Marshalling.Scan.{selects}
use tpmkit.Marshalling.Selections.{
  IsSelection, to_domain_selection-to_tpm_selection, to_domain_selection_sound,
}
use tpmkit.Marshalling.Digests.{IsDigest, to_domain_digests-to_tpm_digest_values}
use tpmkit.Marshalling.Responses.{to_domain_read_values_sound}
use tpmkit.Runs.Fixtures.{tss, tss-IsTss}

abbrev debug_and_last : Selection
debug_and_last = record {
  algorithm = sha256;
  indices = record { value = 16 } ∷ record { value = 31 } ∷ [];
}

to_domain_selection-to_tpm_selection_example :
    to_domain_selection false tss (to_tpm_selection false tss debug_and_last) sha256
    ≡ ok debug_and_last
unfolding digest_size
to_domain_selection-to_tpm_selection_example =
    to_domain_selection-to_tpm_selection false tss tss-IsTss debug_and_last sha256
      (record { handled = (32, refl); ascends = omega arith; in_range = omega arith })

-- PCRs 0 and 9 of the SHA-256 bank.
abbrev pub answer : TpmlPcrSelection
answer = record {
  count = 1;
  pcr_selections = record { hash = 0x0b; sizeof_select = 2; pcr_select = 1 ∷ 2 ∷ 4 ∷ 0 ∷ [] } ∷ [];
}

abbrev pub zero_and_nine : Selection
zero_and_nine = record {
  algorithm = sha256;
  indices = record { value = 0 } ∷ record { value = 9 } ∷ [];
}

answer_read : to_domain_selection false tss answer sha256 ≡ ok zero_and_nine
unfolding to_domain_selection algorithm_from_tpm scan_bytes scan_bits make_index insert
    make_selection digest_size
answer_read = refl

to_domain_selection_sound_example :
    (1 ≡ answer.count)
    × (algorithm_to_tpm false tss sha256 ≡ 0x0b)
    × IsSelection false zero_and_nine
    × (member 9 zero_and_nine.indices ≡ (ltb 9 16 && selects (1 ∷ 2 ∷ 4 ∷ 0 ∷ []) 9))
to_domain_selection_sound_example =
    to_domain_selection_sound false tss tss-IsTss answer sha256 zero_and_nine 9 answer_read
      (λ e. absurd (omega arith)) (omega arith)

abbrev pub zeros : DigestValue
zeros = record { algorithm = sha256; digest = replicate 32 0 }

to_domain_digests-to_tpm_digest_values_example :
    to_domain_digests false tss (to_tpm_digest_values false tss (zeros ∷ [])) ≡ ok (zeros ∷ [])
unfolding digest_size
to_domain_digests-to_tpm_digest_values_example =
    to_domain_digests-to_tpm_digest_values false tss tss-IsTss (zeros ∷ []) (refl, tt) (omega arith)
      (omega arith)

-- A SHA-1 digest, which the build skips, and a SHA-256 digest.
abbrev pub two_digests : TpmlDigestValues
two_digests = record {
  count = 2;
  digests =
      record { hash_alg = 4; digest = replicate 64 0 }
      ∷ record { hash_alg = 0x0b; digest = replicate 64 0 }
      ∷ [];
}

two_digests_read : to_domain_digests false tss two_digests ≡ ok (zeros ∷ [])
unfolding to_domain_digests digests_loop digest_from_ha digest_from_union
    should_skip_disabled_pcr_algorithm algorithm_from_tpm make_digest_value digest_size
two_digests_read = refl

abbrev pub entry : Tpm2b
entry = record { size = 32; buffer = replicate 64 0 }

abbrev pub values : List PcrValue
values =
    record { index = record { value = 0 }; digest = zeros }
    ∷ record { index = record { value = 9 }; digest = zeros }
    ∷ []

values_read :
    to_domain_read_values false tss
      (record { count = 2; digests = entry ∷ entry ∷ [] })
      zero_and_nine
    ≡ ok values
unfolding to_domain_read_values read_values_loop digest_from_bytes make_digest_value digest_size
values_read = refl

to_domain_read_values_sound_example :
    (map (λ x. x.index) values ≡ zero_and_nine.indices)
    × (map (λ x. x.digest) values
        ≡ map
            (λ d. record { algorithm = sha256; digest = take d.size d.buffer })
            (entry ∷ entry ∷ []))
    × All (λ x. IsDigest false x.digest) values
to_domain_read_values_sound_example =
    to_domain_read_values_sound false tss (record { count = 2; digests = entry ∷ entry ∷ [] })
      zero_and_nine values refl values_read

abbrev two_banks : List Bank
two_banks =
    record { algorithm = sha256; digest_size = 32 }
    ∷ record { algorithm = sha384; digest_size = 48 }
    ∷ []

sha384-Handled : Handled false sha384
unfolding digest_size
sha384-Handled = (48, refl)

read_selection-to_tpm_allocation_example :
    ((to_tpm_allocation false tss two_banks).count ≡ 2)
    × (read_selection false tss
          (get_or (to_tpm_allocation false tss two_banks).pcr_selections 1 (zero_selection tss))
        ≡ ok (record { algorithm = sha384; indices = interval 0 24 }))
read_selection-to_tpm_allocation_example =
    read_selection-to_tpm_allocation false tss tss-IsTss two_banks 1
      (record { algorithm = sha384; digest_size = 48 }) (omega arith) refl sha384-Handled
