-- ===== src/Domain/Index.antt =====
-- include/tpmkit/pcr/index.h and src/domain/pcr/index.cpp. A `std::set<index>` is the list of
-- its elements in ascending order; `insert` is the set's.
pub mod Sets
pub mod Range
pub mod Named
use tpmkit.Base.{
  ℕ, zero, suc, ◌+◌, ◌-◌, ◌%◌, ◌^◌, ◌≤◌, ◌||◌, List, [], ◌∷◌, ltb, ◌==◌, if◌then◌else◌,
}
use tpmkit.Outcome.{Throws, returns, throws, input_validation_error, bind_throws}

pub record Index : Type 0 where
  pub value : ℕ

abbrev pub max_value : ℕ
max_value = 31

-- What the constructor guarantees of every index.
abbrev pub InRange : Index → Type 0
InRange i = i.value ≤ max_value

-- `index::index(std::uint32_t)`; the field is a `std::uint8_t`.
unfoldable pub make_index : ℕ → Throws Index
make_index v =
    if ltb max_value v
    then throws (input_validation_error "PCR index must be in the range 0-31")
    else returns (record { value = v % 256 })

-- `std::set::insert`
unfoldable pub insert : Index → List Index → List Index
insert i [] = i ∷ []
insert i (j ∷ js) =
    if ltb i.value j.value
    then i ∷ j ∷ js
    else if i.value == j.value
    then j ∷ js
    else j ∷ insert i js

unfoldable pub validate_index_range : ℕ → ℕ → Throws (Unit {0})
validate_index_range first count =
    if count == 0
    then returns tt
    else if ltb max_value first || ltb (max_value + 1 - first) count
    then throws (input_validation_error "PCR index range must be in the range 0-31")
    else returns tt

-- The loop of `make_index_range`: `rounds` is what is left of `count`. The sum is a
-- `std::uint32_t`.
unfoldable pub insert_range : ℕ → ℕ → ℕ → List Index → Throws (List Index)
insert_range zero first offset indices = returns indices
insert_range (suc rounds) first offset indices =
    bind_throws (make_index ((first + offset) % 2 ^ 32))
      λ i. insert_range rounds first (offset + 1) (insert i indices)

unfoldable pub make_index_range : ℕ → ℕ → Throws (List Index)
make_index_range first count =
    bind_throws (validate_index_range first count) λ _. insert_range count first 0 []
