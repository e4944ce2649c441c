-- ===== src/Marshalling/Marks.antt =====
-- The loop of `to_tpm_selection`, which sets a bit for each selected PCR.
use tpmkit.Base.{
  ℕ, zero, suc, ◌*◌, ◌/◌, ◌%◌, ◌^◌, ◌≤◌, ◌<◌, ◌≡◌, ◌≢◌, refl, ap, ◌∙◌, Bool, false, ◌||◌, List, [],
  ◌∷◌, arith, get_or, set, length, length-set, bit_or, ◌==◌, Bool-cases, inl, inr, replicate, All,
}
use tpmkit.Base.Bits.{has_bit-bit_or, bit_or-lt, has_bit_zero}
use tpmkit.Domain.Index.{Index}
use tpmkit.Domain.Index.Sets.{Below, member}
use tpmkit.Tss.{TpmsPcrSelection}
use tpmkit.Marshalling.{mark, mark_all, selection_size_for_pcr}
use tpmkit.Marshalling.Scan.{selects}

get_or-set_self : (xs : List ℕ) (i v : ℕ) → i < length xs → get_or (set xs i v) i 0 ≡ v
get_or-set_self [] i v h = absurd (omega arith)
get_or-set_self (x ∷ xs) zero v h = refl
get_or-set_self (x ∷ xs) (suc i) v h = get_or-set_self xs i v (omega arith)

get_or-set_ne : (xs : List ℕ) (i j v : ℕ) → i ≢ j → get_or (set xs i v) j 0 ≡ get_or xs j 0
get_or-set_ne [] i j v h = refl
get_or-set_ne (x ∷ xs) zero zero v h = absurd (h refl)
get_or-set_ne (x ∷ xs) zero (suc j) v h = refl
get_or-set_ne (x ∷ xs) (suc i) zero v h = refl
get_or-set_ne (x ∷ xs) (suc i) (suc j) v h = get_or-set_ne xs i j v (λ e. h (ap suc e))

abbrev pub IsByte : ℕ → Type 0
IsByte b = b < 256

get_or-IsByte : (xs : List ℕ) (i : ℕ) → All IsByte xs → get_or xs i 0 < 256
get_or-IsByte [] i h = omega arith
get_or-IsByte (x ∷ xs) zero (h, hs) = h
get_or-IsByte (x ∷ xs) (suc i) (h, hs) = get_or-IsByte xs i hs

set-IsByte : (xs : List ℕ) (i v : ℕ) → v < 256 → All IsByte xs → All IsByte (set xs i v)
set-IsByte [] i v b h = tt
set-IsByte (x ∷ xs) zero v b (h, hs) = (b, hs)
set-IsByte (x ∷ xs) (suc i) v b (h, hs) = (h, set-IsByte xs i v b hs)

same_bit : (n k : ℕ) → n / 8 ≡ k / 8 → (n % 8 == k % 8) ≡ (n == k)
same_bit n k h = ground arith

-- Setting the bit of PCR `n` selects that PCR and leaves the others as they were.
selects-set :
    (xs : List ℕ) (n k : ℕ)
    → All IsByte xs
    → n / 8 < length xs
    → selects (set xs (n / 8) (bit_or (get_or xs (n / 8) 0) (2 ^ (n % 8)) % 256)) k
      ≡ (selects xs k || n == k)
selects-set xs n k bytes room =
    let old : ℕ = get_or xs (n / 8) 0 in
    let byte : old < 256 = get_or-IsByte xs (n / 8) bytes in
    let new : bit_or old (2 ^ (n % 8)) % 256 ≡ bit_or old (2 ^ (n % 8)) =
      omega (arith, bit_or-lt old (n % 8) byte (omega arith)) in
    elim (Bool-cases (n / 8 == k / 8)) [
      | inl e ↦
          let same : n / 8 ≡ k / 8 = ground arith in
          rw
            (
              new,
              ← same,
              get_or-set_self xs (n / 8) (bit_or old (2 ^ (n % 8))) room,
              has_bit-bit_or old (n % 8) (k % 8) byte (omega arith) (omega arith),
            )
            (ground (arith, same_bit n k same))
      | inr e ↦
          let other : n / 8 ≢ k / 8 = λ p. ground arith in
          rw (get_or-set_ne xs (n / 8) (k / 8) (bit_or old (2 ^ (n % 8)) % 256) other)
            (ground arith)
    ]

or_assoc : (a b c : Bool) → ((a || b) || c) ≡ (a || (b || c))
or_assoc a b c = ground arith

get_or_zero : (n i : ℕ) → get_or {A = ℕ} (replicate n 0) i 0 ≡ 0
get_or_zero zero i = refl
get_or_zero (suc n) zero = refl
get_or_zero (suc n) (suc i) = get_or_zero n i

-- A bit map that the loop can work on: four bytes, and a size of at most four.
pub record IsMap (s : TpmsPcrSelection) : Type 0 where
  pub four : length s.pcr_select ≡ 4
  pub bytes : All IsByte s.pcr_select
  pub size_le : s.sizeof_select ≤ 4

mark-IsMap : (s : TpmsPcrSelection) (i : Index) → i.value < 32 → IsMap s → IsMap (mark s i)
unfolding mark selection_size_for_pcr
mark-IsMap s i h m = record {
  four = length-set s.pcr_select _ _ ∙ m.four;
  bytes = set-IsByte s.pcr_select (i.value / 8) _ (omega arith) m.bytes;
  size_le = omega (arith, m.size_le);
}

pub mark_all-IsMap :
    (s : TpmsPcrSelection) (is : List Index) → Below 32 is → IsMap s → IsMap (mark_all s is)
unfolding mark_all
mark_all-IsMap s [] b m = m
mark_all-IsMap s (i ∷ is) b m = mark_all-IsMap (mark s i) is b.1 (mark-IsMap s i b.0 m)

pub mark_all-hash : (s : TpmsPcrSelection) (is : List Index) → (mark_all s is).hash ≡ s.hash
unfolding mark_all
mark_all-hash s [] = refl
mark_all-hash s (i ∷ is) = mark_all-hash (mark s i) is ∙ unfold mark in refl

-- The size never shrinks, and in the end covers each marked PCR.
mark_all_grows :
    (s : TpmsPcrSelection) (is : List Index) → s.sizeof_select ≤ (mark_all s is).sizeof_select
unfolding mark_all
mark_all_grows s [] = omega arith
mark_all_grows s (i ∷ is) =
    let step : s.sizeof_select ≤ (mark s i).sizeof_select =
      unfold mark selection_size_for_pcr in omega arith in
    omega (arith, step, mark_all_grows (mark s i) is)

pub mark_all_covers :
    (s : TpmsPcrSelection) (is : List Index)
    → Below 32 is
    → Below ((mark_all s is).sizeof_select * 8) is
unfolding mark_all
mark_all_covers s [] b = tt
mark_all_covers s (i ∷ is) b =
    let step : i.value < (mark s i).sizeof_select * 8 =
      unfold mark selection_size_for_pcr in omega (arith, b.0) in
    (omega (arith, step, mark_all_grows (mark s i) is), mark_all_covers (mark s i) is b.1)

-- In the end exactly the PCRs that were selected before and those of the list are selected.
pub selects-mark_all :
    (s : TpmsPcrSelection) (is : List Index) (k : ℕ)
    → Below 32 is
    → IsMap s
    → selects (mark_all s is).pcr_select k ≡ (selects s.pcr_select k || member k is)
unfolding mark_all
selects-mark_all s [] k b m = ground arith
selects-mark_all s (i ∷ is) k b m =
    selects-mark_all (mark s i) is k b.1 (mark-IsMap s i b.0 m)
    ∙ unfold mark in
      rw (selects-set s.pcr_select i.value k m.bytes (omega (arith, m.four, b.0)))
        (or_assoc (selects s.pcr_select k) (i.value == k) (member k is))

pub selects_zero : (n k : ℕ) → selects (replicate n 0) k ≡ false
selects_zero n k = rw (get_or_zero n (k / 8)) (has_bit_zero (k % 8) (omega arith))
