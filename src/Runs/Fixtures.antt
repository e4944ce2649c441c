-- ===== src/Runs/Fixtures.antt =====
-- Values for the parameters: constants as the TPM 2.0 and TSS specifications give them.
use tpmkit.Base.{arith}
use tpmkit.Tss.{Tss, IsTss}
use tpmkit.Translation.{Codes}

abbrev pub tss : Tss
tss = record {
  alg_error = 0;
  alg_sha1 = 4;
  alg_sha256 = 0x0b;
  alg_sha384 = 0x0c;
  alg_sha512 = 0x0d;
  sha1_digest_size = 20;
  sha256_digest_size = 32;
  sha384_digest_size = 48;
  sha512_digest_size = 64;
  pcr_select_max = 4;
  num_pcr_banks = 16;
  pcr_selections_size = 16;
  digest_values_size = 16;
  digest_list_size = 8;
  ha_size = 64;
  digest_buffer_size = 64;
  event_buffer_size = 1024;
  esys_tr_pcr0 = 0;
  hr_pcr = 0;
  esys_tr_none = 0xfff;
  esys_tr_password = 0xff;
  esys_tr_rh_platform = 0x10c;
  no = 0;
}

pub tss-IsTss : IsTss tss
tss-IsTss = omega arith

abbrev pub rcs : Codes
rcs = record {
  rc_success = 0;
  layer_mask = 0xff0000;
  tpm_layer = 0;
  tcti_layer = 0x0a0000;
  esapi_layer = 0x070000;
  sys_layer = 0x080000;
  mu_layer = 0x090000;
  rc_fmt1 = 0x80;
  rc_auth_fail = 0x8e;
  rc_bad_auth = 0xa2;
  rc_hash = 0x83;
  rc_handle = 0x8b;
  rc_locality = 0x907;
  rc_lockout = 0x921;
  rc_memory = 0x904;
  rc_policy_fail = 0x9d;
  rc_range = 0x8d;
  rc_size = 0x95;
  rc_value = 0x84;
  rc_initialize = 0x100;
  general_failure = 1;
  not_implemented = 2;
  bad_context = 3;
  abi_mismatch = 4;
  bad_reference = 5;
  insufficient_buffer = 6;
  bad_sequence = 7;
  no_connection = 8;
  try_again = 9;
  io_error = 10;
  bad_value = 11;
  not_permitted = 12;
  invalid_sessions = 13;
  no_decrypt_param = 14;
  no_encrypt_param = 15;
  bad_size = 16;
  malformed_response = 17;
  insufficient_context = 18;
  insufficient_response = 19;
  incompatible_tcti = 20;
  not_supported = 21;
  bad_tcti_structure = 22;
  memory = 23;
  bad_tr = 24;
  multiple_decrypt_sessions = 25;
  multiple_encrypt_sessions = 26;
  rsp_auth_failed = 27;
  callback_null = 28;
}
