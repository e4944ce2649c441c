-- ===== src/Context/Holdings/Counts.antt =====
-- What the effects of tcti_loader.cpp and tpm_context.cpp take of the TSS and give back.
use tpmkit.Base.{
  ℕ, ◌+◌, ◌-◌, Bool, true, false, List, [], ◌∷◌, Option, none, some, leb, ◌==◌, if◌then◌else◌,
}
use tpmkit.Context.Session.{
  Effect, tcti_given, info_asked, info_freed, size_asked, storage_taken, tcti_started,
  loader_finalized, storage_freed, tcti_closed, esys_opened, startup_called, esys_finalized,
  null_call, logged,
}

-- Descriptions of a TCTI, TCTI contexts, ESYS contexts, and the storage of TCTI contexts that the
-- loader has finalized and left to the caller.
pub record Held : Type 0 where
  pub infos : ℕ
  pub tctis : ℕ
  pub esyss : ℕ
  pub storages : ℕ

abbrev pub nothing : Held
nothing = record { infos = 0; tctis = 0; esyss = 0; storages = 0 }

abbrev pub one_info : Held
one_info = record { infos = 1; tctis = 0; esyss = 0; storages = 0 }

abbrev pub one_tcti : Held
one_tcti = record { infos = 0; tctis = 1; esyss = 0; storages = 0 }

abbrev pub esys_if : Bool → Held
esys_if true = record { infos = 0; tctis = 0; esyss = 1; storages = 0 }
esys_if false = nothing

infixl 65 ◌⊕◌
abbrev pub ◌⊕◌ : Held → Held → Held
a ⊕ b = record {
  infos = a.infos + b.infos;
  tctis = a.tctis + b.tctis;
  esyss = a.esyss + b.esyss;
  storages = a.storages + b.storages;
}

abbrev pub take_esys : Bool → Held → Option Held
take_esys false k = some k
take_esys true k = if leb k.tctis k.esyss then none else some (record k { esyss = k.esyss + 1 })

abbrev close_tcti : Held → Option Held
close_tcti k = if leb k.tctis k.esyss then none else some (record k { tctis = k.tctis - 1 })

-- A TCTI context ends, and its storage is left.
abbrev leave_storage : Held → Option Held
leave_storage k =
    if leb k.tctis k.esyss
    then none
    else some (record k { tctis = k.tctis - 1; storages = k.storages + 1 })

-- The effect of one step; `none` when it gives back what is not held, closes a TCTI under an ESYS
-- context that is still open, opens an ESYS context over none, or is undefined.
abbrev pub held_after : Held → Effect → Option Held
held_after k (info_asked name) = some (record k { infos = k.infos + 1 })
held_after k info_freed = if k.infos == 0 then none else some (record k { infos = k.infos - 1 })
held_after k size_asked = some k
held_after k (storage_taken size) = some (record k { tctis = k.tctis + 1 })
held_after k tcti_given = some (record k { tctis = k.tctis + 1 })
held_after k (tcti_started config) = some k
held_after k (loader_finalized true) = close_tcti k
held_after k (loader_finalized false) = leave_storage k
held_after k storage_freed =
    if k.storages == 0 then none else some (record k { storages = k.storages - 1 })
held_after k (tcti_closed source) = close_tcti k
held_after k (esys_opened handle) = take_esys handle k
held_after k (startup_called mode) = some k
held_after k esys_finalized = if k.esyss == 0 then none else some (record k { esyss = k.esyss - 1 })
held_after k null_call = none
held_after k (logged r) = some k

abbrev pub held : Option Held → List Effect → Option Held
held none es = none
held (some k) [] = some k
held (some k) (e ∷ es) = held (held_after k e) es
