-- ===== src/Marshalling/Allocation.antt =====
-- `to_tpm_allocation` of pcr_marshalling.cpp, read back.
use tpmkit.Base.{
  ℕ, zero, suc, ◌≤◌, ◌≡◌, refl, ap, ◌∙◌, arith, Bool, List, [], ◌∷◌, ◌++◌, map, some, none-ne-some,
  some-injective, get_elem?, get_or, length,
}
use tpmkit.Outcome.{ok}
use tpmkit.Domain.Hash.{Handled}
use tpmkit.Domain.Index.{make_index, insert}
use tpmkit.Domain.Index.Range.{interval}
use tpmkit.Domain.Values.{Bank}
use tpmkit.Tss.{Tss, IsTss, zero_selection}
use tpmkit.Marshalling.{allocate_bank, to_tpm_allocation, read_selection, scan_bytes, scan_bits}
use tpmkit.Marshalling.Algorithms.{algorithm_from_tpm-algorithm_to_tpm}
use tpmkit.Marshalling.Digests.{fill-replicate}
use tpmkit.Marshalling.Selections.{make_selection-Handled}

get_or-map_append {ℓ κ} :
    {A : Type ℓ} {B : Type κ} (f : A → B) (z : B) (xs : List A) (ys : List B) (i : ℕ) (x : A)
    → get_elem? xs i ≡ some x
    → get_or (map f xs ++ ys) i z ≡ f x
get_or-map_append f z [] ys i x e = absurd (none-ne-some x e)
get_or-map_append f z (w ∷ xs) ys zero x e = ap f (some-injective w x e)
get_or-map_append f z (w ∷ xs) ys (suc i) x e = get_or-map_append f z xs ys i x e

-- The bits of three full bytes.
full_bytes : scan_bytes 3 0 (0xff ∷ 0xff ∷ 0xff ∷ 0 ∷ []) [] ≡ ok (interval 0 24)
unfolding scan_bytes scan_bits make_index insert interval
full_bytes = refl

module _ (legacy : Bool) (t : Tss) (v : IsTss t) where
  read_selection-allocate_bank :
      (b : Bank)
      → Handled legacy b.algorithm
      → read_selection legacy t (allocate_bank legacy t b (zero_selection t))
        ≡ ok (record { algorithm = b.algorithm; indices = interval 0 24 })
  unfolding read_selection allocate_bank
  read_selection-allocate_bank b (n, size) =
      rw
        (
          algorithm_from_tpm-algorithm_to_tpm legacy t v b.algorithm n size,
          v.select_size,
          full_bytes,
          make_selection-Handled legacy b.algorithm (interval 0 24) (n, size),
        )
        refl

  -- For every list of banks that fits the structure, the wire form of an allocation counts one
  -- selection for each bank; the selection in a bank's place, read back, has the bank's hash
  -- algorithm, if the build handles it, and the PCRs 0 to 23.
  pub read_selection-to_tpm_allocation :
      (banks : List Bank) (i : ℕ) (b : Bank)
      → length banks ≤ t.num_pcr_banks
      → get_elem? banks i ≡ some b
      → Handled legacy b.algorithm
      → ((to_tpm_allocation legacy t banks).count ≡ length banks)
        × (read_selection legacy t
              (get_or (to_tpm_allocation legacy t banks).pcr_selections i (zero_selection t))
            ≡ ok (record { algorithm = b.algorithm; indices = interval 0 24 }))
  unfolding to_tpm_allocation
  read_selection-to_tpm_allocation banks i b few at_i handled =
      let fits : length banks ≤ t.pcr_selections_size = omega (arith, few, v.banks_in_selections) in
      let filled =
        fill-replicate (allocate_bank legacy t) (zero_selection t) 0 t.pcr_selections_size banks []
          refl fits in
      (
        ground (arith, few, v.banks_fit),
        ap (λ l. read_selection legacy t (get_or l i (zero_selection t))) filled
            ∙ ap (read_selection legacy t) (get_or-map_append _ (zero_selection t) banks _ i b at_i)
            ∙ read_selection-allocate_bank b handled,
      )
