-- ===== src/Marshalling.antt =====
-- src/adapters/tpm2_esys/pcr/pcr_marshalling.cpp: domain values to TSS structures and back. The
-- arguments `legacy` and `t` are the build option TPMKIT_ENABLE_LEGACY_SHA1_PCR and the
-- constants of the TSS headers. A C array is a list; a write past its end would be lost.
pub mod Algorithms
pub mod Scan
pub mod Marks
pub mod Selections
pub mod Allocation
pub mod Digests
pub mod Responses
use tpmkit.Base.{
  ℕ, zero, suc, ◌+◌, ◌*◌, ◌/◌, ◌%◌, ◌^◌, max, bit_or, Bool, true, false, not, ◌&&◌, List, [], ◌∷◌,
  ◌++◌, Option, none, some, ltb, ◌==◌, if◌then◌else◌, length, get_or, set, take, drop, replicate,
}
use tpmkit.Base.Bits.{has_bit}
use tpmkit.Outcome.{Outcome, ok, unexpected, raised, fails, backend_error, lift, ◌>>=◌}
use tpmkit.Domain.Hash.{HashAlgorithm, sha1, sha256, sha384, sha512, unlisted, digest_size}
use tpmkit.Domain.Index.{Index, max_value, make_index, insert}
use tpmkit.Domain.Values.{
  Bank, DigestValue, Selection, PcrValue, make_digest_value, make_selection, make_selection_empty,
}
use tpmkit.Tss.{
  Tss, TpmsPcrSelection, TpmlPcrSelection, TpmtHa, TpmlDigestValues, Tpm2b, TpmlDigest,
  zero_selection, zero_ha, zero_tpm2b,
}

abbrev pub pcr_select_min_size : ℕ
pcr_select_min_size = 3

unfoldable pub selection_size_for_pcr : ℕ → ℕ
selection_size_for_pcr pcr = max pcr_select_min_size ((pcr / 8 + 1) % 256)

-- `std::copy` or `std::memcpy` of `bytes` to the front of an array.
abbrev pub overwrite : List ℕ → List ℕ → List ℕ
overwrite bytes array = bytes ++ drop (length bytes) array

module _ (legacy : Bool) (t : Tss) where
  unfoldable pub algorithm_from_tpm : ℕ → Outcome HashAlgorithm
  algorithm_from_tpm a =
      if a == t.alg_sha1
      then (if legacy
          then ok sha1
          else fails backend_error "TPM returned disabled legacy SHA-1 PCR bank")
      else if a == t.alg_sha256
      then ok sha256
      else if a == t.alg_sha384
      then ok sha384
      else if a == t.alg_sha512
      then ok sha512
      else fails backend_error "TPM returned unsupported PCR hash algorithm"

  unfoldable pub algorithm_to_tpm : HashAlgorithm → ℕ
  algorithm_to_tpm sha1 = if legacy then t.alg_sha1 else t.alg_error
  algorithm_to_tpm sha256 = t.alg_sha256
  algorithm_to_tpm sha384 = t.alg_sha384
  algorithm_to_tpm sha512 = t.alg_sha512
  algorithm_to_tpm (unlisted n) = t.alg_error

  unfoldable pub is_supported_algorithm : HashAlgorithm → Bool
  unfolding algorithm_to_tpm
  is_supported_algorithm a = not (algorithm_to_tpm a == t.alg_error)

  unfoldable pub pcr_handle : Index → ℕ
  pcr_handle i = (t.esys_tr_pcr0 + i.value) % 2 ^ 32

  -- `make_digest_value(algorithm, data, size)`; `none` is a null pointer.
  unfoldable pub digest_from_bytes : HashAlgorithm → Option (List ℕ) → ℕ → Outcome DigestValue
  digest_from_bytes a none size =
      if ltb 0 size
      then fails backend_error "TPM returned malformed PCR digest"
      else lift (digest_size legacy a) >>= λ n.
          if not (size == n)
          then fails backend_error "TPM returned PCR digest with unexpected size"
          else lift (make_digest_value legacy a [])
  digest_from_bytes a (some bytes) size = lift (digest_size legacy a) >>= λ n.
      if not (size == n)
      then fails backend_error "TPM returned PCR digest with unexpected size"
      else lift (make_digest_value legacy a (take size bytes))

  -- The `switch` of `make_digest_value(const TPMT_HA&)`.
  unfoldable pub digest_from_union : HashAlgorithm → List ℕ → Outcome DigestValue
  unfolding digest_from_bytes
  digest_from_union sha1 u = digest_from_bytes sha1 (some u) t.sha1_digest_size
  digest_from_union sha256 u = digest_from_bytes sha256 (some u) t.sha256_digest_size
  digest_from_union sha384 u = digest_from_bytes sha384 (some u) t.sha384_digest_size
  digest_from_union sha512 u = digest_from_bytes sha512 (some u) t.sha512_digest_size
  digest_from_union (unlisted n) u =
      fails backend_error "TPM returned unsupported PCR hash algorithm"

  unfoldable pub digest_from_ha : TpmtHa → Outcome DigestValue
  digest_from_ha d = do a ← algorithm_from_tpm d.hash_alg; digest_from_union a d.digest

  unfoldable pub should_skip_disabled_pcr_algorithm : ℕ → Bool
  should_skip_disabled_pcr_algorithm a = not legacy && a == t.alg_sha1

  -- The loop of `to_domain_digests` over the first `count` entries.
  unfoldable pub digests_loop : List TpmtHa → List DigestValue → Outcome (List DigestValue)
  digests_loop [] result = ok result
  digests_loop (d ∷ ds) result =
      let skipped = digests_loop ds result in
      if should_skip_disabled_pcr_algorithm d.hash_alg
      then skipped
      else digest_from_ha d >>= λ v. digests_loop ds (result ++ (v ∷ []))

  unfoldable pub to_domain_digests : TpmlDigestValues → Outcome (List DigestValue)
  to_domain_digests d =
      if ltb t.digest_values_size d.count
      then fails backend_error "TPM returned too many PCR event digests"
      else digests_loop (take d.count d.digests) []

  -- The loop of `to_domain_read_values`, with the iterator over the selected indices. The two
  -- have the same number of steps.
  unfoldable pub read_values_loop :
      HashAlgorithm → List Tpm2b → List Index → List PcrValue → Outcome (List PcrValue)
  read_values_loop a [] is result = ok result
  read_values_loop a (d ∷ ds) [] result = ok result
  read_values_loop a (d ∷ ds) (i ∷ is) result = do
    v ← digest_from_bytes a (some d.buffer) d.size
    read_values_loop a ds is (result ++ (record { index = i; digest = v } ∷ []))

  unfoldable pub to_domain_read_values : TpmlDigest → Selection → Outcome (List PcrValue)
  to_domain_read_values values selection =
      if ltb t.digest_list_size values.count
      then fails backend_error "TPM returned too many PCR read digests"
      else if not (values.count == length selection.indices)
      then fails backend_error "TPM returned PCR digest count mismatch"
      else read_values_loop selection.algorithm (take values.count values.digests) selection.indices
          []

-- The loops of `to_domain_selection` over the bits of a byte and over the bytes; `rounds` is
-- what is left.
unfoldable pub scan_bits : ℕ → ℕ → ℕ → ℕ → List Index → Outcome (List Index)
scan_bits zero byte_index bit byte indices = ok indices
scan_bits (suc rounds) byte_index bit byte indices =
    let unselected = scan_bits rounds byte_index (bit + 1) byte indices in
    let selected = lift (make_index ((byte_index * 8 + bit) % 2 ^ 32)) >>= λ i.
    scan_bits rounds byte_index (bit + 1) byte (insert i indices) in
    if not (has_bit byte bit)
    then unselected
    else if ltb max_value (byte_index * 8 + bit)
    then fails backend_error "TPM returned invalid PCR index"
    else selected

unfoldable pub scan_bytes : ℕ → ℕ → List ℕ → List Index → Outcome (List Index)
scan_bytes zero byte_index select indices = ok indices
scan_bytes (suc rounds) byte_index select indices =
    scan_bits 8 byte_index 0 (get_or select byte_index 0) indices >>= λ found.
    scan_bytes rounds (byte_index + 1) select found

-- One round of the loop of `to_tpm_selection`.
unfoldable pub mark : TpmsPcrSelection → Index → TpmsPcrSelection
unfolding selection_size_for_pcr
mark s i = record s {
  sizeof_select = max s.sizeof_select (selection_size_for_pcr i.value);
  pcr_select =
      set s.pcr_select (i.value / 8)
        (bit_or (get_or s.pcr_select (i.value / 8) 0) (2 ^ (i.value % 8)) % 256);
}

unfoldable pub mark_all : TpmsPcrSelection → List Index → TpmsPcrSelection
mark_all s [] = s
mark_all s (i ∷ is) = mark_all (mark s i) is

-- `for (index ...) f(array[index], values[index])`, where `f` changes the entry. The default
-- `z` stands for an entry past the array's end.
abbrev pub fill {ℓ κ} : {A : Type ℓ} {B : Type κ} → (A → B → B) → B → ℕ → List A → List B → List B
fill f z index [] array = array
fill f z index (x ∷ xs) array =
    fill f z (index + 1) xs (set array index (f x (get_or array index z)))

abbrev pub select_all_pcrs : TpmsPcrSelection → TpmsPcrSelection
select_all_pcrs s = record s {
  sizeof_select = pcr_select_min_size;
  pcr_select = set (set (set s.pcr_select 0 0xff) 1 0xff) 2 0xff;
}

module _ (legacy : Bool) (t : Tss) where
  -- `to_domain_selection` from `tpm_selection` on: its size check and loops, then all of it.
  unfoldable pub selected_indices : TpmsPcrSelection → Outcome (List Index)
  selected_indices s =
      if ltb t.pcr_select_max s.sizeof_select
      then fails backend_error "TPM returned malformed PCR selection size"
      else scan_bytes s.sizeof_select 0 s.pcr_select []

  unfoldable pub read_selection : TpmsPcrSelection → Outcome Selection
  unfolding selected_indices
  read_selection s = do
    a ← algorithm_from_tpm legacy t s.hash
    indices ← selected_indices s
    lift (make_selection legacy a indices)

  unfoldable pub to_domain_selection : TpmlPcrSelection → HashAlgorithm → Outcome Selection
  unfolding read_selection
  to_domain_selection s fallback_algorithm =
      if s.count == 0
      then lift (make_selection_empty legacy fallback_algorithm)
      else if not (s.count == 1)
      then fails backend_error "TPM returned multiple PCR selections"
      else read_selection (get_or s.pcr_selections 0 (zero_selection t))

  unfoldable pub to_tpm_selection : Selection → TpmlPcrSelection
  unfolding mark_all mark
  to_tpm_selection s = record {
    count = 1;
    pcr_selections = set (replicate t.pcr_selections_size (zero_selection t)) 0 (
        mark_all
          (record (zero_selection t) {
            hash = algorithm_to_tpm legacy t s.algorithm;
            sizeof_select = pcr_select_min_size;
          })
          s.indices);
  }

  -- The loop body of `to_tpm_allocation`.
  unfoldable pub allocate_bank : Bank → TpmsPcrSelection → TpmsPcrSelection
  allocate_bank b s = select_all_pcrs (record s { hash = algorithm_to_tpm legacy t b.algorithm })

  unfoldable pub to_tpm_allocation : List Bank → TpmlPcrSelection
  unfolding allocate_bank
  to_tpm_allocation banks = record {
    count = length banks % 2 ^ 32;
    pcr_selections =
        fill allocate_bank (zero_selection t) 0 banks
          (replicate t.pcr_selections_size (zero_selection t));
  }

  -- A digest of an algorithm that the enum does not list is not copied.
  unfoldable pub set_digest_bytes : HashAlgorithm → List ℕ → TpmtHa → TpmtHa
  set_digest_bytes sha1 bytes d = record {
    hash_alg = algorithm_to_tpm legacy t sha1;
    digest = overwrite bytes d.digest;
  }
  set_digest_bytes sha256 bytes d = record {
    hash_alg = algorithm_to_tpm legacy t sha256;
    digest = overwrite bytes d.digest;
  }
  set_digest_bytes sha384 bytes d = record {
    hash_alg = algorithm_to_tpm legacy t sha384;
    digest = overwrite bytes d.digest;
  }
  set_digest_bytes sha512 bytes d = record {
    hash_alg = algorithm_to_tpm legacy t sha512;
    digest = overwrite bytes d.digest;
  }
  set_digest_bytes (unlisted n) bytes d = record {
    hash_alg = algorithm_to_tpm legacy t (unlisted n);
    digest = d.digest;
  }

  unfoldable pub to_tpm_digest_values : List DigestValue → TpmlDigestValues
  unfolding set_digest_bytes
  to_tpm_digest_values ds = record {
    count = length ds % 2 ^ 32;
    digests =
        fill (λ d. set_digest_bytes d.algorithm d.digest) (zero_ha t) 0 ds
          (replicate t.digest_values_size (zero_ha t));
  }

module _ (t : Tss) where
  -- `memcpy` copies nothing from an empty span.
  unfoldable pub to_tpm_event : List ℕ → Tpm2b
  to_tpm_event bytes = record {
    size = length bytes % 2 ^ 16;
    buffer = overwrite bytes (replicate t.event_buffer_size 0);
  }

  unfoldable pub to_tpm_sized_digest : List ℕ → Tpm2b
  to_tpm_sized_digest bytes = record {
    size = length bytes % 2 ^ 16;
    buffer = overwrite bytes (replicate t.digest_buffer_size 0);
  }
