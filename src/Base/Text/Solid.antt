-- ===== src/Base/Text/Solid.antt =====
-- Texts without blanks: trimming leaves them alone. What encoding/hex writes is one.
use Prim.Native.Nat.{ℕ, zero, suc, ◌<◌, ◌/◌, ◌%◌}
use Prim.Native.String.{String, ◌++◌}
use mathlib.Core.Path.{◌≡◌, refl}
use mathlib.Core.Bool.{Bool, true, not, ◌&&◌}
use text.Mathlib.TextLemmas.{nil-append, cons-append}
use native.Mathlib.Omega.{arith}
use ddash.Base.Text.{is_space, trim_left, trim_right, trim_space}
use ddash.Base.Text.Laws.{first_places, first_places_lem}
use ddash.Base.Text.Format.{hex_digit, hex_bytes}

unfoldable pub is_solid : String → Bool
is_solid String.[] = true
is_solid (String.◌∷◌ c s) = not (is_space c) && is_solid s

trim_left-solid : (s : String) → is_solid s ≡ true → trim_left s ≡ s
unfolding is_solid trim_left
trim_left-solid String.[] h = refl
trim_left-solid (String.◌∷◌ c s) h = ground (arith, trim_left-solid s)

trim_right-solid : (s : String) → is_solid s ≡ true → trim_right s ≡ s
unfolding is_solid trim_right
trim_right-solid String.[] h = refl
trim_right-solid (String.◌∷◌ c s) h = ground (arith, trim_right-solid s)

pub trim_space-solid : (s : String) → is_solid s ≡ true → trim_space s ≡ s
unfolding trim_space
trim_space-solid s h = rw (trim_left-solid s h) (trim_right-solid s h)

is_solid-append : (s t : String) → is_solid s ≡ true → is_solid t ≡ true → is_solid (s ++ t) ≡ true
unfolding is_solid
is_solid-append String.[] t h k = rw (nil-append t) k
is_solid-append (String.◌∷◌ c s) t h k =
    rw (cons-append c s t) (ground (arith, is_solid-append s t))

digit_table : first_places (λ d. is_solid (hex_digit d)) 16 ≡ true
unfolding first_places is_solid is_space
digit_table = refl

is_solid-hex_digit : (d : ℕ) → d < 16 → is_solid (hex_digit d) ≡ true
is_solid-hex_digit d h = first_places_lem (λ d. is_solid (hex_digit d)) 16 d digit_table h

pub is_solid-hex_bytes : (n i : ℕ) (bytes : ℕ → ℕ) → is_solid (hex_bytes n i bytes) ≡ true
unfolding hex_bytes is_solid
is_solid-hex_bytes zero i bytes = refl
is_solid-hex_bytes (suc n) i bytes =
    is_solid-append (hex_digit (bytes i % 256 / 16)) _
      (is_solid-hex_digit (bytes i % 256 / 16) (omega arith))
      (is_solid-append (hex_digit (bytes i % 16)) _
        (is_solid-hex_digit (bytes i % 16) (omega arith)) (is_solid-hex_bytes n (suc i) bytes))
