-- ===== src/Domain/Values.antt =====
-- include/tpmkit/pcr/{bank,digest_value,selection,result_types}.h and the files of the same
-- names under src/domain/pcr/: the value objects of the PCR interface.
pub mod Equality
use tpmkit.Base.{
  ℕ, String, Bool, true, false, not, ◌&&◌, List, [], ◌∷◌, ◌==◌, if◌then◌else◌, length,
}
use tpmkit.Outcome.{
  Throws, returns, throws, input_validation_error, bind_throws, catch_tpmkit_error,
}
use tpmkit.Domain.Hash.{HashAlgorithm, underlying, digest_size}
use tpmkit.Domain.Index.{Index, insert}

pub record Bank : Type 0 where
  pub algorithm : HashAlgorithm
  pub digest_size : ℕ

pub record DigestValue : Type 0 where
  pub algorithm : HashAlgorithm
  pub digest : List ℕ

pub record Selection : Type 0 where
  pub algorithm : HashAlgorithm
  pub indices : List Index

-- `value`, one PCR of a read.
pub record PcrValue : Type 0 where
  pub index : Index
  pub digest : DigestValue

pub record ReadResult : Type 0 where
  pub actual_selection : Selection
  pub update_counter : ℕ
  pub values : List PcrValue

pub record EventResult : Type 0 where
  pub digests : List DigestValue

pub record AllocateResult : Type 0 where
  pub allocation_success : Bool
  pub max_pcr : ℕ
  pub size_needed : ℕ
  pub size_available : ℕ

-- `validate_digest_size` of bank.cpp and of digest_value.cpp, and `validate_algorithm` of
-- selection.cpp; they differ in the message.
unfoldable pub validate_digest_size : String → Bool → HashAlgorithm → Throws ℕ
validate_digest_size message legacy a =
    catch_tpmkit_error (digest_size legacy a) (input_validation_error message)

unfoldable pub make_bank : Bool → HashAlgorithm → Throws Bank
unfolding validate_digest_size
make_bank legacy a =
    bind_throws (validate_digest_size "unsupported PCR bank hash algorithm" legacy a)
      λ n. returns (record { algorithm = a; digest_size = n })

unfoldable pub make_digest_value : Bool → HashAlgorithm → List ℕ → Throws DigestValue
unfolding validate_digest_size
make_digest_value legacy a digest =
    bind_throws (validate_digest_size "unsupported PCR digest hash algorithm" legacy a) λ n.
      if not (length digest == n)
      then throws (input_validation_error "PCR digest size does not match hash algorithm")
      else returns (record { algorithm = a; digest = digest })

unfoldable pub make_selection : Bool → HashAlgorithm → List Index → Throws Selection
unfolding validate_digest_size
make_selection legacy a indices =
    bind_throws (validate_digest_size "unsupported PCR selection hash algorithm" legacy a)
      λ _. returns (record { algorithm = a; indices = indices })

-- `std::set<index>{initializer_list}`
unfoldable pub set_of : List Index → List Index → List Index
set_of acc [] = acc
set_of acc (i ∷ is) = set_of (insert i acc) is

-- The constructors from an initializer list, and with no indices.
unfoldable pub make_selection_list : Bool → HashAlgorithm → List Index → Throws Selection
unfolding make_selection set_of
make_selection_list legacy a indices = make_selection legacy a (set_of [] indices)

unfoldable pub make_selection_empty : Bool → HashAlgorithm → Throws Selection
unfolding make_selection
make_selection_empty legacy a = make_selection legacy a []

-- The comparison operators. `std::vector` and `std::set` compare length and elements.
abbrev pub list_eq {ℓ} : {A : Type ℓ} → (A → A → Bool) → List A → List A → Bool
list_eq eq [] [] = true
list_eq eq [] (y ∷ ys) = false
list_eq eq (x ∷ xs) [] = false
list_eq eq (x ∷ xs) (y ∷ ys) = eq x y && list_eq eq xs ys

pub algorithm_eq : HashAlgorithm → HashAlgorithm → Bool
algorithm_eq a b = underlying a == underlying b

pub index_eq : Index → Index → Bool
index_eq i j = i.value == j.value

pub bank_eq : Bank → Bank → Bool
unfolding algorithm_eq
bank_eq x y = algorithm_eq x.algorithm y.algorithm && x.digest_size == y.digest_size

pub digest_value_eq : DigestValue → DigestValue → Bool
unfolding algorithm_eq
digest_value_eq x y = algorithm_eq x.algorithm y.algorithm && list_eq ◌==◌ x.digest y.digest

pub selection_eq : Selection → Selection → Bool
unfolding algorithm_eq index_eq
selection_eq x y = algorithm_eq x.algorithm y.algorithm && list_eq index_eq x.indices y.indices

pub value_eq : PcrValue → PcrValue → Bool
unfolding index_eq digest_value_eq
value_eq x y = index_eq x.index y.index && digest_value_eq x.digest y.digest

pub read_result_eq : ReadResult → ReadResult → Bool
unfolding selection_eq value_eq
read_result_eq x y =
    selection_eq x.actual_selection y.actual_selection
    && (x.update_counter == y.update_counter)
    && list_eq value_eq x.values y.values

pub event_result_eq : EventResult → EventResult → Bool
unfolding digest_value_eq
event_result_eq x y = list_eq digest_value_eq x.digests y.digests

bool_eq : Bool → Bool → Bool
bool_eq true b = b
bool_eq false b = not b

pub allocate_result_eq : AllocateResult → AllocateResult → Bool
unfolding bool_eq
allocate_result_eq x y =
    bool_eq x.allocation_success y.allocation_success
    && (x.max_pcr == y.max_pcr)
    && (x.size_needed == y.size_needed)
    && (x.size_available == y.size_available)
