-- ===== src/Base/Text/Format.antt =====
-- Numbers as text: `%d` of fmt.Sprintf, and encoding/hex.
use Prim.Native.Nat.{ℕ, zero, suc, ◌+◌, ◌/◌, ◌%◌}
use Prim.Native.String.{String, slice, ◌++◌}
use ddash.Base.Tests.{ltb, if◌then◌else◌}
use mathlib.Core.Path.{◌≡◌, refl}
use ddash.Base.Int.{ℤ, pos, negsuc}

abbrev digit : ℕ → String
digit d = slice "0123456789" d (d + 1)

-- The recursion ends where the number has one digit left, for which fuel above the number is
-- enough: each round divides it by ten.
show_digits : ℕ → ℕ → String → String
show_digits zero n acc = acc
show_digits (suc fuel) n acc =
    let rest = show_digits fuel (n / 10) (digit (n % 10) ++ acc) in
    if ltb n 10 then digit n ++ acc else rest

unfoldable pub show_nat : ℕ → String
unfolding show_digits
show_nat n = show_digits (suc n) n ""

unfoldable pub show_int : ℤ → String
unfolding show_nat
show_int (pos n) = show_nat n
show_int (negsuc n) = "-" ++ show_nat (suc n)

abbrev pub hex_digit : ℕ → String
hex_digit d = slice "0123456789abcdef" d (d + 1)

-- `hex.EncodeToString` of the bytes at the places from `i` on.
unfoldable pub hex_bytes : ℕ → ℕ → (ℕ → ℕ) → String
hex_bytes zero i bytes = ""
hex_bytes (suc n) i bytes =
    hex_digit (bytes i % 256 / 16) ++ (hex_digit (bytes i % 16) ++ hex_bytes n (suc i) bytes)

show_test : show_int (negsuc 119) ++ (show_nat 20 ++ show_nat 0) ≡ "-120200"
unfolding show_int
show_test = refl

hex_test : hex_bytes 2 0 (λ i. 171 + i) ≡ "abac"
unfolding hex_bytes
hex_test = refl
