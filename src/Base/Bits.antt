-- ===== src/Base/Bits.antt =====
-- Single bits of a byte, checked by evaluation over all bytes.
use Prim.Native.Nat.{ℕ, zero, suc, ◌+◌, ◌*◌, ◌/◌, ◌%◌, ◌^◌, ◌<◌, bit_and, bit_or}
use mathlib.Core.Path.{◌≡◌, refl}
use mathlib.Core.Bool.{Bool, true, false, not, ◌&&◌, ◌||◌}
use native.Mathlib.Omega.{arith}
use tpmkit.Base.Tests.{◌==◌, ==_iff, ltb, ltb→lt}

-- A test of all numbers under a bound.
unfoldable pub passes : (ℕ → Bool) → ℕ → Bool
passes test zero = true
passes test (suc bound) = passes test bound && test bound

pub passes_lem :
    (test : ℕ → Bool) (bound v : ℕ) → passes test bound ≡ true → v < bound → test v ≡ true
unfolding passes
passes_lem test zero v e h = absurd (omega arith)
passes_lem test (suc bound) v e h = ground (arith, passes_lem test bound v)

-- `(b & (1U << k)) != 0U`
abbrev pub has_bit : ℕ → ℕ → Bool
has_bit b k = not (bit_and b (2 ^ k) == 0)

same : Bool → Bool → Bool
same true b = b
same false b = not b

same_sound : (a b : Bool) → same a b ≡ true → a ≡ b
unfolding same
same_sound a b h = ground arith

or_test : ℕ → ℕ → Bool
or_test b k =
    ltb (bit_or b (2 ^ k)) 256
    && passes (λ j. same (has_bit (bit_or b (2 ^ k)) j) (has_bit b j || k == j)) 8

or_table : passes (λ b. passes (or_test b) 8) 256 ≡ true
unfolding passes same or_test
or_table = refl

or_tested : (b k : ℕ) → b < 256 → k < 8 → or_test b k ≡ true
or_tested b k hb hk = passes_lem _ 8 _ (passes_lem _ 256 _ or_table hb) hk

and_left : (a b : Bool) → (a && b) ≡ true → a ≡ true
and_left a b h = ground arith

and_right : (a b : Bool) → (a && b) ≡ true → b ≡ true
and_right a b h = ground arith

zero_table : passes (λ j. same (has_bit 0 j) false) 8 ≡ true
unfolding passes same
zero_table = refl

high_table : passes (λ v. bit_and (v / 16) 0x0f == v / 16) 256 ≡ true
unfolding passes
high_table = refl

low_table : passes (λ v. bit_and v 0x0f == v % 16) 256 ≡ true
unfolding passes
low_table = refl

join_table : passes (λ hi. passes (λ lo. bit_or (hi * 16) lo == hi * 16 + lo) 16) 16 ≡ true
unfolding passes
join_table = refl

pub bit_or-lt : (b k : ℕ) → b < 256 → k < 8 → bit_or b (2 ^ k) < 256
unfolding or_test
bit_or-lt b k hb hk = ltb→lt _ _ (and_left _ _ (or_tested b k hb hk))

-- Setting bit `k` of a byte sets that bit and no other.
pub has_bit-bit_or :
    (b k j : ℕ) → b < 256 → k < 8 → j < 8 → has_bit (bit_or b (2 ^ k)) j ≡ (has_bit b j || k == j)
unfolding or_test
has_bit-bit_or b k j hb hk hj =
    same_sound _ _ (passes_lem _ 8 _ (and_right _ _ (or_tested b k hb hk)) hj)

pub has_bit_zero : (j : ℕ) → j < 8 → has_bit 0 j ≡ false
has_bit_zero j h = same_sound _ _ (passes_lem _ 8 _ zero_table h)

-- The two digits of a byte, by masks and by arithmetic.
pub high_nibble : (v : ℕ) → v < 256 → bit_and (v / 16) 0x0f ≡ v / 16
high_nibble v h = (==_iff _ _).0 (passes_lem _ 256 _ high_table h)

pub low_nibble : (v : ℕ) → v < 256 → bit_and v 0x0f ≡ v % 16
low_nibble v h = (==_iff _ _).0 (passes_lem _ 256 _ low_table h)

pub join_nibbles : (hi lo : ℕ) → hi < 16 → lo < 16 → bit_or (hi * 16) lo ≡ hi * 16 + lo
join_nibbles hi lo h l = (==_iff _ _).0 (passes_lem _ 16 _ (passes_lem _ 16 _ join_table h) l)
