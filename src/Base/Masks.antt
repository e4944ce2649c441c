-- ===== src/Base/Masks.antt =====
-- `&` with the masks of a TSS return code, as arithmetic.
use Prim.Native.Nat.{
  ℕ, zero, suc, ◌+◌, ◌-◌, ◌*◌, ◌/◌, ◌%◌, ◌≤◌, min, bit_and, bit_and-bitwise, digits,
}
use mathlib.Core.Path.{◌≡◌, refl, ◌∙◌}
use native.Mathlib.Omega.{arith}
use native.Mathlib.Nat.{le_refl}

-- What `bit_and` stands for: a recursion on binary digits, on fuel.
abbrev rounds : (fuel a b : ℕ) → ℕ
rounds fuel a b = digits (λ rest. 0) min fuel a b

one_more : (fuel a b : ℕ) → a ≤ fuel → rounds (suc fuel) a b ≡ rounds fuel a b
one_more fuel zero b enough = no_rounds fuel
  where
    no_rounds : (n : ℕ) → 0 ≡ rounds n 0 b
    no_rounds zero = refl
    no_rounds (suc n) = refl
one_more zero (suc a) b enough = absurd (omega arith)
one_more (suc fuel) (suc a) b enough = rw (one_more fuel (suc a / 2) (b / 2) (omega arith)) refl

more : (k fuel total a b : ℕ) → a ≤ fuel → total ≡ k + fuel → rounds total a b ≡ rounds fuel a b
more zero fuel total a b enough e = let same : total ≡ fuel = omega arith in rw same refl
more (suc k) fuel total a b enough e =
    let next : total ≡ suc (k + fuel) = omega arith in
    rw next (one_more (k + fuel) a b (omega arith) ∙ more k fuel (k + fuel) a b enough refl)

-- One binary digit of the result.
bit_and-digit : (a b : ℕ) → bit_and a b ≡ bit_and (a / 2) (b / 2) * 2 + min (a % 2) (b % 2)
bit_and-digit zero b = omega (arith, bit_and-bitwise 0 b, bit_and-bitwise 0 (b / 2))
bit_and-digit (suc a) b =
    let half = suc a / 2 in
    let shorter : rounds a half (b / 2) ≡ rounds half half (b / 2) =
      more (a - half) half a half (b / 2) (le_refl half) (omega arith) in
    omega (arith, bit_and-bitwise (suc a) b, bit_and-bitwise half (b / 2), shorter)

bit_and-zero : (a : ℕ) → bit_and a 0 ≡ 0
bit_and-zero a = below a a (le_refl a)
  where
    below : (bound n : ℕ) → n ≤ bound → bit_and n 0 ≡ 0
    below zero zero h = refl
    below zero (suc n) h = absurd (omega arith)
    below (suc bound) zero h = refl
    below (suc bound) (suc n) h =
        omega (arith, bit_and-digit (suc n) 0, below bound (suc n / 2) (omega arith))

-- Four binary digits below a mask: none of them, or all.
bit_and-mul : (a m : ℕ) → bit_and a (m * 2) ≡ bit_and (a / 2) m * 2
bit_and-mul a m = ground (arith, bit_and-digit a (m * 2))

bit_and-mul_add : (a m : ℕ) → bit_and a (m * 2 + 1) ≡ bit_and (a / 2) m * 2 + a % 2
bit_and-mul_add a m = ground (arith, bit_and-digit a (m * 2 + 1))

nibble_out : (a m : ℕ) → bit_and a (m * 2 * 2 * 2 * 2) ≡ bit_and (a / 16) m * 16
nibble_out a m =
    let e : a / 2 / 2 / 2 / 2 ≡ a / 16 = omega arith in
    ground (
      arith,
      bit_and-mul a (m * 2 * 2 * 2),
      bit_and-mul (a / 2) (m * 2 * 2),
      bit_and-mul (a / 2 / 2) (m * 2),
      bit_and-mul (a / 2 / 2 / 2) m,
      e,
    )

nibble_in : (a m : ℕ) → bit_and a (m * 2 * 2 * 2 * 2 + 15) ≡ bit_and (a / 16) m * 16 + a % 16
nibble_in a m =
    let e : a / 2 / 2 / 2 / 2 ≡ a / 16 = omega arith in
    ground (
      arith,
      bit_and-mul_add a ((m * 2 * 2 + 3) * 2 + 1),
      bit_and-mul_add (a / 2) (m * 2 * 2 + 3),
      bit_and-mul_add (a / 2 / 2) (m * 2 + 1),
      bit_and-mul_add (a / 2 / 2 / 2) m,
      e,
    )

pub low_bytes : (a : ℕ) → bit_and a 0xffff ≡ a % 0x10000
low_bytes a = omega (
  arith,
  nibble_in a 0xfff,
  nibble_in (a / 16) 0xff,
  nibble_in (a / 16 / 16) 0xf,
  nibble_in (a / 16 / 16 / 16) 0,
  bit_and-zero (a / 16 / 16 / 16 / 16),
)

byte_mask : (a : ℕ) → bit_and a 0xff ≡ a % 0x100
byte_mask a = omega (arith, nibble_in a 0xf, nibble_in (a / 16) 0, bit_and-zero (a / 16 / 16))

pub third_byte : (a : ℕ) → bit_and a 0xff0000 ≡ a / 0x10000 % 0x100 * 0x10000
third_byte a = omega (
  arith,
  nibble_out a 0xff000,
  nibble_out (a / 16) 0xff00,
  nibble_out (a / 16 / 16) 0xff0,
  nibble_out (a / 16 / 16 / 16) 0xff,
  byte_mask (a / 16 / 16 / 16 / 16),
)

pub bit_seven : (a : ℕ) → bit_and a 0x80 ≡ a / 0x80 % 2 * 0x80
bit_seven a = omega (
  arith,
  nibble_out a 8,
  bit_and-mul (a / 16) 4,
  bit_and-mul (a / 16 / 2) 2,
  bit_and-mul (a / 16 / 2 / 2) 1,
  bit_and-mul_add (a / 16 / 2 / 2 / 2) 0,
  bit_and-zero (a / 16 / 2 / 2 / 2 / 2),
)

-- Bits 0 to 5 and bit 7.
pub all_but_six : (a : ℕ) → bit_and a 0xbf ≡ a / 0x80 % 2 * 0x80 + a % 0x40
all_but_six a = omega (
  arith,
  nibble_in a 0xb,
  bit_and-mul_add (a / 16) 5,
  bit_and-mul_add (a / 16 / 2) 2,
  bit_and-mul (a / 16 / 2 / 2) 1,
  bit_and-mul_add (a / 16 / 2 / 2 / 2) 0,
  bit_and-zero (a / 16 / 2 / 2 / 2 / 2),
)
