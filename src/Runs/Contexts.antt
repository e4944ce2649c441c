-- ===== src/Runs/Contexts.antt =====
-- Contexts on a TSS that grants every call.
use tpmkit.Base.{
  ◌≡◌, refl, ◌↔◌, true, false, List, [], ◌∷◌, ◌++◌, none, some, codes, ℕ, if◌then◌else◌,
}
use tpmkit.Outcome.{fails, input_error, done, IsOk}
use tpmkit.TctiConfig.{validate_string}
use tpmkit.TctiConfig.Shape.{IsConfig, validate_string-IsOk}
use tpmkit.Context.{
  ContextConfig, is_valid_startup_mode, load_tcti, startup_type, is_skip, start_tpm,
  create_context_from_config, create_context_from_owned_tcti, abi_version_string,
}
use tpmkit.Context.Session.{clear, state, skip, unlisted, given, null_call, ContextApi, AbiVersion}
use tpmkit.Context.Holdings.{nothing, one_tcti, Leaves}
use tpmkit.Context.Ownership.Loading.{load_tcti-Leaves}
use tpmkit.Context.Lifetime.{World, create, create_owned, move_assign, destruct, act, begin, acted}
use tpmkit.Context.Lifetime.Balance.{Balanced, Reach-Balanced}
use tpmkit.Context.Startup.{startups, invoked, verdict, start_tpm_lem}
use tpmkit.Context.Undefined.{create_context_from_owned_tcti_null}
use tpmkit.Context.Failures.{configured, from_owned, Creation, create_each, errors-create_each}
use tpmkit.Context.Version.{read_version, read_version-abi_version_string}
use tpmkit.Context.Failures.Rules.{errors, failures}
use tpmkit.Testing.FakeContext.{fake_create, refuses-fake_create}
use tpmkit.Runs.Fixtures.{rcs}

abbrev granting : ContextApi
granting = record {
  info_rc = λ name h. 0;
  size_reply = λ h. (0, 64);
  storage = λ h size. true;
  init_rc = λ config h. 0;
  cleared = λ h. true;
  loader_decoder = none;
  open_rc = λ h. 0;
  open_handle = λ h. true;
  open_abi = λ h. record { creator = 1; family = 2; level = 1; version = 108 };
  startup_rc = λ mode h. 0x100;
  decode_error = none;
  su_clear = 0;
  su_state = 1;
}

-- The same, but the loader refuses the configuration, and leaves the storage to be freed.
abbrev refusing : ContextApi
refusing = record granting { init_rc = λ config h. 0x0a0001; cleared = λ h. false }

abbrev swtpm : List ℕ
swtpm = codes "swtpm:port=2321"

abbrev config : ContextConfig
config = record { tcti = swtpm; startup = clear; log = true }

abbrev no_mode : ContextConfig
no_mode = record config { startup = unlisted 0 }

abbrev start : World
start = record { slots = []; effects = [] }

abbrev one : World
one = act rcs granting (create config) start

abbrev two : World
two = act rcs granting (create_owned true skip false) one

abbrev assigned : World
assigned = act rcs granting (move_assign 0 1) two

abbrev ended : World
ended = act rcs granting (destruct 0) assigned

-- Two contexts, of which one is assigned to the other and then destroyed.
Reach-Balanced_example : Balanced ended
Reach-Balanced_example = Reach-Balanced rcs granting ended (
    acted
      (acted (acted (acted begin (create config)) (create_owned true skip false)) (move_assign 0 1))
      (destruct 0))

load_tcti-Leaves_example : Leaves 0 nothing (λ _. one_tcti) (load_tcti rcs refusing swtpm given)
load_tcti-Leaves_example = load_tcti-Leaves rcs refusing swtpm given

refuses-fake_create_example :
    create_context_from_config rcs granting no_mode []
    ≡ (fails input_error "TPM startup mode is invalid", [])
unfolding fake_create
refuses-fake_create_example =
    refuses-fake_create rcs granting no_mode
      (record { category = input_error; message = "TPM startup mode is invalid" }) refl []

validate_string-IsOk_example : IsOk (validate_string swtpm) ↔ IsConfig swtpm
validate_string-IsOk_example = validate_string-IsOk swtpm

start_tpm_lem_example :
    ((start_tpm rcs granting state given []).0 ≡ (
      if is_skip state
      then done
      else verdict rcs granting
          (granting.startup_rc (startup_type rcs granting state) (invoked given state []))))
    × (startups (start_tpm rcs granting state given []).1
        ≡ [] ++ (if is_skip state then [] else startup_type rcs granting state ∷ []))
start_tpm_lem_example = start_tpm_lem rcs granting state given []

create_context_from_owned_tcti_null_example :
    ((create_context_from_owned_tcti rcs granting true false (unlisted 0) true []).1 ≡ []
      ↔ (is_valid_startup_mode (unlisted 0) ≡ true))
    × ((create_context_from_owned_tcti rcs granting true false (unlisted 0) true []).1
          ≡ [] ++ (null_call ∷ [])
        ↔ (is_valid_startup_mode (unlisted 0) ≡ false))
create_context_from_owned_tcti_null_example =
    create_context_from_owned_tcti_null rcs granting (unlisted 0) true []

-- The loader refuses the configuration, and no ESYS context is opened.
abbrev closed : ContextApi
closed = record refusing { open_rc = λ h. 0x070001 }

abbrev creations : List Creation
creations = configured swtpm clear ∷ from_owned true clear ∷ from_owned false skip ∷ []

errors-create_each_example :
    errors (create_each rcs closed true creations [])
    ≡ (if true then failures rcs closed (create_each rcs closed true creations []) else [])
errors-create_each_example = errors-create_each rcs closed true creations

abbrev current : AbiVersion
current = record { creator = 1; family = 2; level = 10; version = 108 }

read_version-abi_version_string_example : read_version (abi_version_string current) ≡ some current
read_version-abi_version_string_example = read_version-abi_version_string current
