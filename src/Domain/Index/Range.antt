-- ===== src/Domain/Index/Range.antt =====
-- `make_index_range` and the constructor of src/domain/pcr/index.cpp.
use tpmkit.Base.{
  ℕ, zero, suc, ◌+◌, ◌^◌, ◌≤◌, ◌<◌, ◌≡◌, refl, ap, ◌||◌, List, [], ◌∷◌, ◌++◌, arith, leb, ◌==◌,
  if◌then◌else◌, append_assoc, append-nil,
}
use tpmkit.Outcome.{returns, throws, input_validation_error}
use tpmkit.Domain.Index.{
  Index, max_value, make_index, validate_index_range, insert_range, make_index_range,
}
use tpmkit.Domain.Index.Sets.{Below, Below-mono, append-Below, insert_last}

pub make_index_in_range : (v : ℕ) → v ≤ max_value → make_index v ≡ returns (record { value = v })
unfolding make_index
make_index_in_range v h = ground arith

-- The indices from `lo` to `lo + n - 1`, in order.
unfoldable pub interval : ℕ → ℕ → List Index
interval lo zero = []
interval lo (suc n) = record { value = lo } ∷ interval (suc lo) n

first_zero : (first : ℕ) → first + 0 ≡ first
first_zero first = omega arith

empty_range : (first : ℕ) → insert_range 0 first 0 [] ≡ returns (interval first 0)
unfolding insert_range interval
empty_range first = refl

-- With `offset` indices placed, the loop appends the rest.
insert_range-interval :
    (rounds first offset : ℕ) (js : List Index)
    → Below (first + offset) js
    → first + offset + rounds ≤ 32
    → insert_range rounds first offset js ≡ returns (js ++ interval (first + offset) rounds)
unfolding insert_range interval
insert_range-interval zero first offset js b h = ground (arith, append-nil js)
insert_range-interval (suc rounds) first offset js b h =
    let i : Index = record { value = first + offset } in
    let next : first + (offset + 1) ≡ suc (first + offset) = omega arith in
    let further : Below (first + (offset + 1)) (js ++ (i ∷ [])) =
      append-Below _ js (i ∷ []) (Below-mono (first + offset) _ js (omega arith) b)
        (omega arith, tt) in
    ground (
      arith,
      make_index_in_range (first + offset),
      insert_last i js b,
      insert_range-interval rounds first (offset + 1) (js ++ (i ∷ [])) further (omega arith),
      next,
      ap (λ k. interval k rounds) next,
      append_assoc js (i ∷ []) (interval (suc (first + offset)) rounds),
    )

-- For 32-bit arguments, `make_index_range` returns the indices from `first` up to but not
-- including `first + count` in ascending order when that range is empty or ends at 32 or
-- before, and otherwise throws `input_validation_error`.
pub make_index_range_lem :
    (first count : ℕ)
    → first < 2 ^ 32
    → count < 2 ^ 32
    → make_index_range first count ≡ (
        if count == 0 || leb (first + count) 32
        then returns (interval first count)
        else throws (input_validation_error "PCR index range must be in the range 0-31"))
unfolding make_index_range validate_index_range
make_index_range_lem first count f c =
    ground (arith, insert_range-interval count first 0 [] tt, first_zero first, empty_range first)
