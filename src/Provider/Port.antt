-- ===== src/Provider/Port.antt =====
-- The port of include/tpmkit/pcr/provider.h: its operations with their arguments. The secret
-- buffer of `set_auth_value` counts by its view.
use tpmkit.Base.{ℕ, List}
use tpmkit.Domain.Hash.{HashAlgorithm}
use tpmkit.Domain.Index.{Index}
use tpmkit.Domain.Values.{Bank, DigestValue, Selection}

pub data Request : Type 0 where
  allocate : List Bank → Request
  event : Index → List ℕ → Request
  extend : Index → List DigestValue → Request
  read : Selection → Request
  reset : Index → Request
  set_auth_policy : Index → HashAlgorithm → List ℕ → Request
  set_auth_value : Index → List ℕ → Request
