-- ===== src/Tss.antt =====
-- What the code takes from the TPM2 TSS headers (tss2_common.h, tss2_tpm2_types.h and
-- tss2_esys.h, which are not part of the repository): constants, array sizes and structures.
-- The constants are the fields of a parameter, `Tss`; `IsTss` states what the headers document
-- of them and the code relies on.
use tpmkit.Base.{ℕ, ◌≤◌, ◌<◌, ◌≡◌, ◌≢◌, List, replicate, ◌^◌}

pub record Tss : Type 0 where
  pub alg_error : ℕ
  pub alg_sha1 : ℕ
  pub alg_sha256 : ℕ
  pub alg_sha384 : ℕ
  pub alg_sha512 : ℕ
  pub sha1_digest_size : ℕ
  pub sha256_digest_size : ℕ
  pub sha384_digest_size : ℕ
  pub sha512_digest_size : ℕ
  -- TPM2_PCR_SELECT_MAX, the size of `TPMS_PCR_SELECTION::pcrSelect`.
  pub pcr_select_max : ℕ
  pub num_pcr_banks : ℕ
  -- The sizes of the arrays in TPML_PCR_SELECTION, TPML_DIGEST_VALUES and TPML_DIGEST.
  pub pcr_selections_size : ℕ
  pub digest_values_size : ℕ
  pub digest_list_size : ℕ
  -- The sizes in bytes of TPMU_HA, TPM2B_DIGEST::buffer and TPM2B_EVENT::buffer.
  pub ha_size : ℕ
  pub digest_buffer_size : ℕ
  pub event_buffer_size : ℕ
  -- The first PCR as an ESYS handle and as a TPM handle.
  pub esys_tr_pcr0 : ℕ
  pub hr_pcr : ℕ
  pub esys_tr_none : ℕ
  pub esys_tr_password : ℕ
  pub esys_tr_rh_platform : ℕ
  -- TPM2_NO
  pub no : ℕ

pub record IsTss (t : Tss) : Type 0 where
  pub sha1_ne_error : t.alg_sha1 ≢ t.alg_error
  pub sha256_ne_error : t.alg_sha256 ≢ t.alg_error
  pub sha384_ne_error : t.alg_sha384 ≢ t.alg_error
  pub sha512_ne_error : t.alg_sha512 ≢ t.alg_error
  pub sha1_ne_sha256 : t.alg_sha1 ≢ t.alg_sha256
  pub sha1_ne_sha384 : t.alg_sha1 ≢ t.alg_sha384
  pub sha1_ne_sha512 : t.alg_sha1 ≢ t.alg_sha512
  pub sha256_ne_sha384 : t.alg_sha256 ≢ t.alg_sha384
  pub sha256_ne_sha512 : t.alg_sha256 ≢ t.alg_sha512
  pub sha384_ne_sha512 : t.alg_sha384 ≢ t.alg_sha512
  pub sha1_size : t.sha1_digest_size ≡ 20
  pub sha256_size : t.sha256_digest_size ≡ 32
  pub sha384_size : t.sha384_digest_size ≡ 48
  pub sha512_size : t.sha512_digest_size ≡ 64
  -- A selection has a bit for each of the 32 PCRs.
  pub select_size : t.pcr_select_max ≡ 4
  pub banks_in_selections : t.num_pcr_banks ≤ t.pcr_selections_size
  pub banks_in_digests : t.num_pcr_banks ≤ t.digest_values_size
  pub some_bank : 1 ≤ t.num_pcr_banks
  pub digest_in_ha : 64 ≤ t.ha_size
  pub digest_in_buffer : 64 ≤ t.digest_buffer_size
  -- Sizes are sent as 16-bit numbers, counts as 32-bit numbers.
  pub digest_buffer_fits : t.digest_buffer_size < 2 ^ 16
  pub event_buffer_fits : t.event_buffer_size < 2 ^ 16
  pub banks_fit : t.num_pcr_banks < 2 ^ 32

pub record TpmsPcrSelection : Type 0 where
  pub hash : ℕ
  pub sizeof_select : ℕ
  pub pcr_select : List ℕ

pub record TpmlPcrSelection : Type 0 where
  pub count : ℕ
  pub pcr_selections : List TpmsPcrSelection

-- `digest` is the memory of the union TPMU_HA, all members of which start at its first byte.
pub record TpmtHa : Type 0 where
  pub hash_alg : ℕ
  pub digest : List ℕ

pub record TpmlDigestValues : Type 0 where
  pub count : ℕ
  pub digests : List TpmtHa

-- TPM2B_DIGEST, TPM2B_AUTH and TPM2B_EVENT.
pub record Tpm2b : Type 0 where
  pub size : ℕ
  pub buffer : List ℕ

pub record TpmlDigest : Type 0 where
  pub count : ℕ
  pub digests : List Tpm2b

-- The structures as value initialisation leaves them.
abbrev pub zero_selection : Tss → TpmsPcrSelection
zero_selection t = record { hash = 0; sizeof_select = 0; pcr_select = replicate t.pcr_select_max 0 }

abbrev pub zero_ha : Tss → TpmtHa
zero_ha t = record { hash_alg = 0; digest = replicate t.ha_size 0 }

abbrev pub zero_tpm2b : ℕ → Tpm2b
zero_tpm2b n = record { size = 0; buffer = replicate n 0 }
