-- ===== src/Base/Text/Parse.antt =====
-- Go's `strconv.ParseInt` in base ten.
use Prim.Native.Nat.{ℕ, zero, suc, ◌+◌, ◌-◌, ◌*◌, ◌^◌}
use Prim.Native.Char.{Char, code}
use Prim.Native.String.{String}
use mathlib.Core.Bool.{Bool, ◌&&◌}
use mathlib.Core.Option.{Option, none, some}
use ddash.Base.Int.{ℤ, pos, negsuc}
use ddash.Base.Tests.{ltb, leb, eqb, if◌then◌else◌}
use ddash.Base.Text.{is_empty}

abbrev is_digit : Char → Bool
is_digit c = leb 48 (code c) && leb (code c) 57

unfoldable pub parse_digits : ℕ → String → Option ℕ
parse_digits acc String.[] = some acc
parse_digits acc (String.◌∷◌ c s) =
    let rest = parse_digits (acc * 10 + (code c - 48)) s in if is_digit c then rest else none

abbrev positive : Option ℕ → Option ℤ
positive none = none
positive (some n) = if ltb n (2 ^ 63) then some (pos n) else none

abbrev negative : Option ℕ → Option ℤ
negative none = none
negative (some zero) = some (pos zero)
negative (some (suc n)) = if ltb n (2 ^ 63) then some (negsuc n) else none

abbrev unsigned : String → Option ℕ
unsigned s = if is_empty s then none else parse_digits 0 s

-- `strconv.ParseInt(s, 10, 64)`, without the kind of its error.
unfoldable pub parse_int : String → Option ℤ
unfolding parse_digits
parse_int String.[] = none
parse_int (String.◌∷◌ c s) =
    if eqb (code c) 45
    then negative (unsigned s)
    else if eqb (code c) 43
    then positive (unsigned s)
    else positive (unsigned (String.◌∷◌ c s))
