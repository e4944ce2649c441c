-- ===== src/Base/Decimal.antt =====
-- Numbers as text.
use Prim.Native.Nat.{ℕ, zero, suc, ◌+◌, ◌-◌, ◌/◌, ◌%◌}
use mathlib.Core.List.{List, [], ◌∷◌}
use tpmkit.Base.Tests.{◌==◌, ltb, if◌then◌else◌}

unfoldable pub decimal_loop : ℕ → ℕ → List ℕ → List ℕ
decimal_loop zero n acc = acc
decimal_loop (suc fuel) n acc =
    let digits = (b'0' + n % 10) ∷ acc in
    let more = decimal_loop fuel (n / 10) digits in if n / 10 == 0 then digits else more

-- `std::to_string`. A number has at most as many digits as its value plus one.
unfoldable pub to_decimal : ℕ → List ℕ
unfolding decimal_loop
to_decimal n = decimal_loop (suc n) n []

hex_loop : ℕ → ℕ → List ℕ → List ℕ
hex_loop zero n acc = acc
hex_loop (suc rounds) n acc =
    hex_loop rounds (n / 16)
      ((if ltb (n % 16) 10 then b'0' + n % 16 else b'a' + (n % 16 - 10)) ∷ acc)

-- `snprintf("0x%08x", n)` for a 32-bit number: the eight digits after the prefix.
unfoldable pub to_hex8 : ℕ → List ℕ
unfolding hex_loop
to_hex8 n = b'0' ∷ b'x' ∷ hex_loop 8 n []
