-- ===== src/Marshalling/Scan.antt =====
-- The loops of `to_domain_selection`, which read the selected PCRs out of a bit map.
use tpmkit.Base.{
  ℕ, zero, suc, ◌+◌, ◌*◌, ◌/◌, ◌%◌, ◌^◌, ◌≤◌, ◌<◌, ◌≡◌, refl, sym, ap, ◌∙◌, Bool, true, false, List,
  [], ◌∷◌, ◌++◌, append_assoc, append-nil, arith, get_or, Bool-cases, inl, inr,
}
use tpmkit.Base.Bits.{has_bit}
use tpmkit.Outcome.{ok}
use tpmkit.Domain.Index.{Index, insert}
use tpmkit.Domain.Index.Sets.{Below, Below-mono, append-Below, insert_last, picked, picked-Below}
use tpmkit.Domain.Index.Range.{make_index_in_range}
use tpmkit.Marshalling.{scan_bits, scan_bytes}

-- PCR `k` is selected in a bit map.
abbrev pub selects : List ℕ → ℕ → Bool
selects bytes k = has_bit (get_or bytes (k / 8) 0) (k % 8)

-- A range in two parts.
picked-append :
    (p : ℕ → Bool) (lo m n : ℕ) → picked p lo (m + n) ≡ picked p lo m ++ picked p (lo + m) n
unfolding picked
picked-append p lo zero n =
    let start : lo + 0 ≡ lo = omega arith in
    let none_left : 0 + n ≡ n = omega arith in rw (start, none_left) refl
picked-append p lo (suc m) n =
    let start : lo + suc m ≡ suc lo + m = omega arith in
    let count : suc m + n ≡ suc (m + n) = omega arith in
    rw (start, count) (ground (arith, picked-append p (suc lo) m n))

selects_bit :
    (bytes : List ℕ) (byte_index bit : ℕ)
    → bit < 8
    → selects bytes (byte_index * 8 + bit) ≡ has_bit (get_or bytes byte_index 0) bit
selects_bit bytes byte_index bit h =
    let byte : (byte_index * 8 + bit) / 8 ≡ byte_index = omega arith in
    let offset : (byte_index * 8 + bit) % 8 ≡ bit = omega arith in rw (byte, offset) refl

scan_bits_hit :
    (rounds byte_index bit byte : ℕ) (indices : List Index)
    → has_bit byte bit ≡ true
    → byte_index < 4
    → bit < 8
    → scan_bits (suc rounds) byte_index bit byte indices
      ≡ scan_bits rounds byte_index
          (bit + 1)
          byte
          (insert (record { value = byte_index * 8 + bit }) indices)
unfolding scan_bits
scan_bits_hit rounds byte_index bit byte indices h l b =
    let narrow : (byte_index * 8 + bit) % 2 ^ 32 ≡ byte_index * 8 + bit = omega arith in
    rw (h, narrow, make_index_in_range (byte_index * 8 + bit) (omega arith)) (ground arith)

scan_bits_miss :
    (rounds byte_index bit byte : ℕ) (indices : List Index)
    → has_bit byte bit ≡ false
    → scan_bits (suc rounds) byte_index bit byte indices
      ≡ scan_bits rounds byte_index (bit + 1) byte indices
unfolding scan_bits
scan_bits_miss rounds byte_index bit byte indices h = rw h

scan_bits-picked :
    (bytes : List ℕ) (rounds byte_index bit : ℕ) (indices : List Index)
    → bit + rounds ≡ 8
    → byte_index < 4
    → Below (byte_index * 8 + bit) indices
    → scan_bits rounds byte_index bit (get_or bytes byte_index 0) indices
      ≡ ok (indices ++ picked (selects bytes) (byte_index * 8 + bit) rounds)
unfolding picked
scan_bits-picked bytes zero byte_index bit indices e l b =
    unfold scan_bits in ap ok (sym (append-nil indices))
scan_bits-picked bytes (suc rounds) byte_index bit indices e l b =
    let k : ℕ = byte_index * 8 + bit in
    let i : Index = record { value = k } in
    let after : byte_index * 8 + (bit + 1) ≡ suc k = omega arith in
    let byte : ℕ = get_or bytes byte_index 0 in
    elim (Bool-cases (has_bit byte bit)) [
      | inl hit ↦
          scan_bits_hit rounds byte_index bit byte indices hit l (omega arith)
          ∙ ap (scan_bits rounds byte_index (bit + 1) byte) (insert_last i indices b)
          ∙ scan_bits-picked bytes rounds byte_index (bit + 1) (indices ++ (i ∷ [])) (omega arith) l
              (append-Below _ indices (i ∷ []) (Below-mono k _ indices (omega arith) b)
                (omega arith, tt))
          ∙ rw (after, selects_bit bytes byte_index bit (omega arith), hit)
              (ap ok (append_assoc indices (i ∷ []) _))
      | inr miss ↦
          scan_bits_miss rounds byte_index bit byte indices miss
          ∙ scan_bits-picked bytes rounds byte_index (bit + 1) indices (omega arith) l
              (Below-mono k _ indices (omega arith) b)
          ∙ rw (after, selects_bit bytes byte_index bit (omega arith), miss) refl
    ]

-- On a map of at most four bytes the loops find exactly the selected PCRs, in ascending order.
scan_bytes-picked :
    (bytes : List ℕ) (rounds byte_index : ℕ) (indices : List Index)
    → byte_index + rounds ≤ 4
    → Below (byte_index * 8) indices
    → scan_bytes rounds byte_index bytes indices
      ≡ ok (indices ++ picked (selects bytes) (byte_index * 8) (rounds * 8))
unfolding scan_bytes
scan_bytes-picked bytes zero byte_index indices l b =
    unfold picked in ap ok (sym (append-nil indices))
scan_bytes-picked bytes (suc rounds) byte_index indices l b =
    let start : byte_index * 8 + 0 ≡ byte_index * 8 = omega arith in
    let next : (byte_index + 1) * 8 ≡ byte_index * 8 + 8 = omega arith in
    let both : suc rounds * 8 ≡ 8 + rounds * 8 = omega arith in
    let here : List Index = picked (selects bytes) (byte_index * 8) 8 in
    let first : scan_bits 8 byte_index 0 (get_or bytes byte_index 0) indices
        ≡ ok (indices ++ here) =
      scan_bits-picked bytes 8 byte_index 0 indices (omega arith) (omega arith)
        (Below-mono (byte_index * 8) _ indices (omega arith) b)
      ∙ ap (λ n. ok (indices ++ picked (selects bytes) n 8)) start in
    rw first (
      scan_bytes-picked bytes rounds (byte_index + 1) (indices ++ here) (omega arith) (
        append-Below _ indices here (Below-mono (byte_index * 8) _ indices (omega arith) b)
          (picked-Below (selects bytes) (byte_index * 8) 8 _ (omega arith)))
      ∙ ap ok (
          append_assoc indices here _
          ∙ rw (next, both, picked-append (selects bytes) (byte_index * 8) 8 (rounds * 8)) refl))

pub scan_bytes_lem :
    (bytes : List ℕ) (n : ℕ)
    → n ≤ 4
    → scan_bytes n 0 bytes [] ≡ ok (picked (selects bytes) 0 (n * 8))
scan_bytes_lem bytes n h = scan_bytes-picked bytes n 0 [] (omega arith) tt
