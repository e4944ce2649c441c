-- ===== src/EsysTable.antt =====
-- src/adapters/tpm2_esys/support/esys_api.h and esys_api.cpp: the table of functions through which
-- the TSS is called, and the deleter of an ESYS context. The functions of the TSS are a parameter;
-- a context is a number, and `W` is the state of the TSS and of all that it is connected to.
use tpmkit.Base.{ℕ, ◌≡◌, refl, Option, none, some, List}
use tpmkit.Tss.{TpmlPcrSelection, TpmlDigestValues, Tpm2b}
use tpmkit.Provider.Session.{
  Call, pcr_allocate, pcr_event, pcr_extend, pcr_read, pcr_reset, pcr_set_auth_policy,
  pcr_set_auth_value, tr_set_auth, AllocateReply, EventReply, ReadReply,
}
use tpmkit.Context.Session.{AbiVersion}

-- The out parameters of `Esys_Initialize`; `none` is a null pointer.
pub record InitializeReply : Type 0 where
  pub rc : ℕ
  pub context : Option ℕ
  pub abi_version : AbiVersion

-- The answer to a call of the provider.
pub data Reply : Type 0 where
  allocated : AllocateReply → Reply
  measured : EventReply → Reply
  answered : ReadReply → Reply
  returned : ℕ → Reply

module _ (W : Type 0) where
  abbrev Initialize : Type 0
  Initialize = ℕ → AbiVersion → W → InitializeReply × W

  abbrev Allocate : Type 0
  Allocate = ℕ → ℕ → ℕ → ℕ → ℕ → TpmlPcrSelection → W → AllocateReply × W

  abbrev Event : Type 0
  Event = ℕ → ℕ → ℕ → ℕ → ℕ → Tpm2b → W → EventReply × W

  abbrev Extend : Type 0
  Extend = ℕ → ℕ → ℕ → ℕ → ℕ → TpmlDigestValues → W → ℕ × W

  abbrev Read : Type 0
  Read = ℕ → ℕ → ℕ → ℕ → TpmlPcrSelection → W → ReadReply × W

  abbrev Reset : Type 0
  Reset = ℕ → ℕ → ℕ → ℕ → ℕ → W → ℕ × W

  abbrev SetAuthPolicy : Type 0
  SetAuthPolicy = ℕ → ℕ → ℕ → ℕ → ℕ → Tpm2b → ℕ → ℕ → W → ℕ × W

  abbrev SetAuthValue : Type 0
  SetAuthValue = ℕ → ℕ → ℕ → ℕ → ℕ → Tpm2b → W → ℕ × W

  abbrev Startup : Type 0
  Startup = ℕ → ℕ → W → ℕ × W

  abbrev SetAuth : Type 0
  SetAuth = ℕ → ℕ → Tpm2b → W → ℕ × W

  -- The functions of the TSS libraries.
  pub record Library : Type 0 where
    pub esys_initialize : Initialize
    pub esys_finalize : ℕ → W → W
    pub esys_free : ℕ → W → W
    pub esys_pcr_allocate : Allocate
    pub esys_pcr_event : Event
    pub esys_pcr_extend : Extend
    pub esys_pcr_read : Read
    pub esys_pcr_reset : Reset
    pub esys_pcr_set_auth_policy : SetAuthPolicy
    pub esys_pcr_set_auth_value : SetAuthValue
    pub esys_startup : Startup
    pub esys_tr_set_auth : SetAuth
    pub tss2_rc_decode : ℕ → Option (List ℕ)

  -- `esys_api`; the deleter looks whether `finalize` is null.
  pub record EsysTable : Type 0 where
    pub initialize : Initialize
    pub finalize_context : Option (ℕ → W → W)
    pub free : ℕ → W → W
    pub allocate : Allocate
    pub event : Event
    pub extend : Extend
    pub read : Read
    pub reset : Reset
    pub set_auth_policy : SetAuthPolicy
    pub set_auth_value : SetAuthValue
    pub startup : Startup
    pub set_auth : SetAuth
    pub decode_error : ℕ → Option (List ℕ)

module _ {W : Type 0} where
  -- The initialization of the table, by the order of its members.
  abbrev esys_table :
      Initialize W
      → Option (ℕ → W → W)
      → (ℕ → W → W)
      → Allocate W
      → Event W
      → Extend W
      → Read W
      → Reset W
      → SetAuthPolicy W
      → SetAuthValue W
      → Startup W
      → SetAuth W
      → (ℕ → Option (List ℕ))
      → EsysTable W
  esys_table m0 m1 m2 m3 m4 m5 m6 m7 m8 m9 m10 m11 m12 = record {
    initialize = m0;
    finalize_context = m1;
    free = m2;
    allocate = m3;
    event = m4;
    extend = m5;
    read = m6;
    reset = m7;
    set_auth_policy = m8;
    set_auth_value = m9;
    startup = m10;
    set_auth = m11;
    decode_error = m12;
  }

  module _ (tss : Library W) where
    abbrev initialize_esys_context : Initialize W
    initialize_esys_context tcti abi_version = tss.esys_initialize tcti abi_version

    abbrev finalize_esys_context : ℕ → W → W
    finalize_esys_context esys_context = tss.esys_finalize esys_context

    abbrev free_esys : ℕ → W → W
    free_esys ptr = tss.esys_free ptr

    abbrev forward_allocate : Allocate W
    forward_allocate esys_context auth_handle shandle1 shandle2 shandle3 allocation =
        tss.esys_pcr_allocate esys_context auth_handle shandle1 shandle2 shandle3 allocation

    abbrev forward_event : Event W
    forward_event esys_context pcr_handle shandle1 shandle2 shandle3 event_data =
        tss.esys_pcr_event esys_context pcr_handle shandle1 shandle2 shandle3 event_data

    abbrev forward_extend : Extend W
    forward_extend esys_context pcr_handle shandle1 shandle2 shandle3 digests =
        tss.esys_pcr_extend esys_context pcr_handle shandle1 shandle2 shandle3 digests

    abbrev forward_read : Read W
    forward_read esys_context shandle1 shandle2 shandle3 pcr_selection_in =
        tss.esys_pcr_read esys_context shandle1 shandle2 shandle3 pcr_selection_in

    abbrev forward_reset : Reset W
    forward_reset esys_context pcr_handle shandle1 shandle2 shandle3 =
        tss.esys_pcr_reset esys_context pcr_handle shandle1 shandle2 shandle3

    abbrev forward_set_auth_policy : SetAuthPolicy W
    forward_set_auth_policy esys_context auth_handle shandle1 shandle2 shandle3 auth_policy hash_alg
          pcr_num =
        tss.esys_pcr_set_auth_policy esys_context auth_handle shandle1 shandle2 shandle3 auth_policy
          hash_alg pcr_num

    abbrev forward_set_auth_value : SetAuthValue W
    forward_set_auth_value esys_context pcr_handle shandle1 shandle2 shandle3 auth =
        tss.esys_pcr_set_auth_value esys_context pcr_handle shandle1 shandle2 shandle3 auth

    abbrev forward_startup : Startup W
    forward_startup esys_context startup_type = tss.esys_startup esys_context startup_type

    abbrev forward_set_auth : SetAuth W
    forward_set_auth esys_context handle auth_value =
        tss.esys_tr_set_auth esys_context handle auth_value

    unfoldable pub default_esys_api : EsysTable W
    default_esys_api =
        esys_table initialize_esys_context (some finalize_esys_context) free_esys forward_allocate
          forward_event forward_extend forward_read forward_reset forward_set_auth_policy
          forward_set_auth_value forward_startup forward_set_auth tss.tss2_rc_decode

  -- `esys_context_deleter`, whose table may be a null pointer.
  unfoldable pub delete_context : Option (EsysTable W) → Option ℕ → W → W
  delete_context api none w = w
  delete_context none (some context) w = w
  delete_context (some api) (some context) w = finalize_with api.finalize_context context w
    where
      finalize_with : Option (ℕ → W → W) → ℕ → W → W
      finalize_with none context w = w
      finalize_with (some finalize) context w = finalize context w

  -- A call of the provider through a table.
  abbrev through : EsysTable W → ℕ → Call → W → Reply × W
  through api x (pcr_allocate a b d e s) w =
      let (r, w') = api.allocate x a b d e s w in (allocated r, w')
  through api x (pcr_event a b d e s) w = let (r, w') = api.event x a b d e s w in (measured r, w')
  through api x (pcr_extend a b d e s) w =
      let (r, w') = api.extend x a b d e s w in (returned r, w')
  through api x (pcr_read a b d s) w = let (r, w') = api.read x a b d s w in (answered r, w')
  through api x (pcr_reset a b d e) w = let (r, w') = api.reset x a b d e w in (returned r, w')
  through api x (pcr_set_auth_policy a b d e s i j) w =
      let (r, w') = api.set_auth_policy x a b d e s i j w in (returned r, w')
  through api x (pcr_set_auth_value a b d e s) w =
      let (r, w') = api.set_auth_value x a b d e s w in (returned r, w')
  through api x (tr_set_auth a s) w = let (r, w') = api.set_auth x a s w in (returned r, w')

  -- The same call made of the TSS.
  abbrev directly : Library W → ℕ → Call → W → Reply × W
  directly tss x (pcr_allocate a b d e s) w =
      let (r, w') = tss.esys_pcr_allocate x a b d e s w in (allocated r, w')
  directly tss x (pcr_event a b d e s) w =
      let (r, w') = tss.esys_pcr_event x a b d e s w in (measured r, w')
  directly tss x (pcr_extend a b d e s) w =
      let (r, w') = tss.esys_pcr_extend x a b d e s w in (returned r, w')
  directly tss x (pcr_read a b d s) w =
      let (r, w') = tss.esys_pcr_read x a b d s w in (answered r, w')
  directly tss x (pcr_reset a b d e) w =
      let (r, w') = tss.esys_pcr_reset x a b d e w in (returned r, w')
  directly tss x (pcr_set_auth_policy a b d e s i j) w =
      let (r, w') = tss.esys_pcr_set_auth_policy x a b d e s i j w in (returned r, w')
  directly tss x (pcr_set_auth_value a b d e s) w =
      let (r, w') = tss.esys_pcr_set_auth_value x a b d e s w in (returned r, w')
  directly tss x (tr_set_auth a s) w =
      let (r, w') = tss.esys_tr_set_auth x a s w in (returned r, w')

  -- Through the default table each call of the provider reaches the function of the TSS of its own
  -- name, with its arguments in order.
  through-default_esys_api :
      (tss : Library W) (x : ℕ) (request : Call) (w : W)
      → through (default_esys_api tss) x request w ≡ directly tss x request w
  unfolding default_esys_api
  through-default_esys_api tss x (pcr_allocate a b d e s) w = refl
  through-default_esys_api tss x (pcr_event a b d e s) w = refl
  through-default_esys_api tss x (pcr_extend a b d e s) w = refl
  through-default_esys_api tss x (pcr_read a b d s) w = refl
  through-default_esys_api tss x (pcr_reset a b d e) w = refl
  through-default_esys_api tss x (pcr_set_auth_policy a b d e s i j) w = refl
  through-default_esys_api tss x (pcr_set_auth_value a b d e s) w = refl
  through-default_esys_api tss x (tr_set_auth a s) w = refl

  -- Where the default table is at hand, a context that is not null is finalized.
  delete_context_lem :
      (tss : Library W) (x : Option ℕ) (w : W)
      → delete_context (some (default_esys_api tss)) x w
        ≡ elim x [ none ↦ w | some context ↦ tss.esys_finalize context w ]
  unfolding default_esys_api delete_context
  delete_context_lem tss none w = refl
  delete_context_lem tss (some context) w = refl
