-- ===== src/Escape/Lines.antt =====
-- An escaped value stays within its line.
use tpmkit.Base.{
  ℕ, ◌≤◌, ◌≡◌, refl, arith, Bool, true, false, ◌&&◌, Bool-cases, inl, inr, List, [], ◌∷◌, All,
  All-append, leb, ltb, ◌==◌, if◌then◌else◌,
}
use tpmkit.Base.Bits.{passes, passes_lem}
use tpmkit.Escape.{needs_quoting, escape_control, escape_byte, escape_loop, escape_value}

printable : List ℕ → Bool
printable [] = true
printable (c ∷ cs) = leb 0x20 c && printable cs

printable_lem : (cs : List ℕ) → printable cs ≡ true → All (λ c. 0x20 ≤ c) cs
unfolding printable
printable_lem [] e = tt
printable_lem (c ∷ cs) e = (ground (arith, e), printable_lem cs (ground (arith, e)))

control_table : passes (λ c. printable (escape_byte c)) 0x20 ≡ true
unfolding passes printable escape_byte escape_control
control_table = refl

All-if :
    (b : Bool) (xs ys : List ℕ)
    → All (λ c. 0x20 ≤ c) xs
    → All (λ c. 0x20 ≤ c) ys
    → All (λ c. 0x20 ≤ c) (if b then xs else ys)
All-if true xs ys h k = h
All-if false xs ys h k = k

escape_byte_lem : (c : ℕ) → All (λ x. 0x20 ≤ x) (escape_byte c)
unfolding escape_byte
escape_byte_lem c = elim (Bool-cases (ltb c 0x20)) [
  | inl low ↦ printable_lem _ (passes_lem _ 0x20 c control_table (ground (arith, low)))
  | inr high ↦
      let large : 0x20 ≤ c = ground (arith, high) in
      rw high (
        All-if (c == 34) _ _ (omega arith) (
          All-if (c == 92) _ _ (omega arith) (
            All-if (c == 10) _ _ (omega arith) (
              All-if (c == 13) _ _ (omega arith) (All-if (c == 9) _ _ (omega arith) (large, tt))))))
]

escape_loop_lem : (cs : List ℕ) → All (λ x. 0x20 ≤ x) (escape_loop cs)
unfolding escape_loop
escape_loop_lem [] = tt
escape_loop_lem (c ∷ cs) =
    All-append (λ x. 0x20 ≤ x) (escape_byte c) (escape_loop cs) (escape_byte_lem c)
      (escape_loop_lem cs)

plain_lem : (cs : List ℕ) → needs_quoting cs ≡ false → All (λ x. 0x20 ≤ x) cs
plain_lem [] e = tt
plain_lem (c ∷ cs) e = (ground (arith, e), plain_lem cs (ground (arith, e)))

-- Whatever bytes a field's value has, no byte of what is written for it is under 0x20: a value
-- cannot end its line or start another.
pub escape_value_lem : (value : List ℕ) → All (λ x. 0x20 ≤ x) (escape_value value)
unfolding escape_value
escape_value_lem value = elim (Bool-cases (needs_quoting value)) [
  | inl quoted ↦ rw quoted (
    omega arith,
    All-append (λ x. 0x20 ≤ x) (escape_loop value) (34 ∷ []) (escape_loop_lem value) (omega arith),
  )
  | inr plain ↦ rw plain (plain_lem value plain)
]
