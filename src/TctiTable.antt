-- ===== src/TctiTable.antt =====
-- src/adapters/tpm2_esys/context/tcti_loader.h and tcti_loader.cpp: the table of functions through
-- which the TCTI loader of the TSS is called, and the two ends of a TCTI context. The functions of
-- the TSS are a parameter; a pointer is a number or null, and `W` is the state of the TSS.
use tpmkit.Base.{ℕ, ◌≡◌, ap, Option, none, some, List}

module _ (W : Type 0) where
  -- The return code and the out parameter.
  abbrev GetInfo : Type 0
  GetInfo = List ℕ → W → (ℕ × Option ℕ) × W

  -- A context or null, the size, and a configuration or null; the return code and the size.
  abbrev Init : Type 0
  Init = Option ℕ → ℕ → Option (List ℕ) → W → (ℕ × ℕ) × W

  -- The functions of the TSS libraries, and `std::free`. A pointer that is handed over by its
  -- address comes back.
  pub record LoaderLibrary : Type 0 where
    pub get_info : GetInfo
    pub free_info : Option ℕ → W → Option ℕ × W
    pub init : Init
    pub loader_finalize : Option ℕ → W → Option ℕ × W
    pub rc_decode : ℕ → Option (List ℕ)
    pub c_free : ℕ → W → W

  -- `tcti_loader_api`
  pub record TctiTable : Type 0 where
    pub get_info : GetInfo
    pub free_info : Option ℕ → W → Option ℕ × W
    pub init : Init
    pub decode_error : ℕ → Option (List ℕ)

module _ {W : Type 0} where
  -- The initialization of the table, by the order of its members.
  abbrev tcti_table :
      GetInfo W → (Option ℕ → W → Option ℕ × W) → Init W → (ℕ → Option (List ℕ)) → TctiTable W
  tcti_table m0 m1 m2 m3 = record { get_info = m0; free_info = m1; init = m2; decode_error = m3 }

  module _ (tss : LoaderLibrary W) where
    abbrev get_tcti_info : GetInfo W
    get_tcti_info name = tss.get_info name

    abbrev free_tcti_loader_info : Option ℕ → W → Option ℕ × W
    free_tcti_loader_info info = tss.free_info info

    abbrev initialize_tcti_loader : Init W
    initialize_tcti_loader context size conf = tss.init context size conf

    unfoldable pub default_tcti_loader_api : TctiTable W
    default_tcti_loader_api =
        tcti_table get_tcti_info free_tcti_loader_info initialize_tcti_loader tss.rc_decode

    -- The deleter of a context that was loaded.
    abbrev finalize_loaded_tcti : Option ℕ → W → W
    finalize_loaded_tcti context w = (tss.loader_finalize context w).1

    abbrev free_left : Option ℕ → W → W
    free_left none w = w
    free_left (some cleanup_context) w = tss.c_free cleanup_context w

    -- The deleter of a context whose start failed: what the loader leaves of it is freed.
    unfoldable pub release_failed_tcti_init : Option ℕ → W → W
    release_failed_tcti_init none w = w
    release_failed_tcti_init (some context) w =
        let (cleanup_context, w') = tss.loader_finalize (some context) w in
        free_left cleanup_context w'

    -- If the loader clears the pointer, the end after a failure is that of a loaded context.
    release_failed_tcti_init-cleared :
        (context : ℕ) (w : W)
        → (tss.loader_finalize (some context) w).0 ≡ none
        → release_failed_tcti_init (some context) w ≡ finalize_loaded_tcti (some context) w
    unfolding release_failed_tcti_init
    release_failed_tcti_init-cleared context w cleared =
        ap (λ o. free_left o (tss.loader_finalize (some context) w).1) cleared
