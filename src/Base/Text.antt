-- ===== src/Base/Text.antt =====
-- The functions of Go's `strings` package that the program calls, on texts without broken UTF-8.
-- `to_lower` maps the letters A to Z; letters beyond ASCII keep their case.
pub mod Laws
pub mod Format
pub mod Solid
pub mod Parse
pub mod Prefix
use Prim.Native.Nat.{ℕ, zero, suc, ◌-◌, ◌+◌}
use Prim.Native.Char.{Char, code}
use Prim.Native.String
use Prim.Native.String.{String, char_at}
use mathlib.Core.Bool.{Bool, true, false, ◌&&◌, ◌||◌}
use mathlib.Core.List.{List, [], ◌∷◌}
use text.Mathlib.Text.{◌==◌ as text_eq}
use ddash.Base.Tests.{eqb, leb, if◌then◌else◌}

-- `unicode.IsSpace`.
unfoldable pub is_space : Char → Bool
is_space c =
    let n = code c in
    leb 9 n && leb n 13
    || eqb n 32
    || eqb n 0x85
    || eqb n 0xA0
    || eqb n 0x1680
    || leb 0x2000 n && leb n 0x200A
    || eqb n 0x2028
    || eqb n 0x2029
    || eqb n 0x202F
    || eqb n 0x205F
    || eqb n 0x3000

abbrev pub is_empty : String → Bool
is_empty String.[] = true
is_empty (String.◌∷◌ c s) = false

unfoldable pub trim_left : String → String
trim_left String.[] = ""
trim_left (String.◌∷◌ c s) = let rest = trim_left s in if is_space c then rest else String.◌∷◌ c s

unfoldable pub trim_right : String → String
trim_right String.[] = ""
trim_right (String.◌∷◌ c s) =
    let rest = trim_right s in if is_space c && is_empty rest then "" else String.◌∷◌ c rest

-- `strings.TrimSpace`.
unfoldable pub trim_space : String → String
unfolding trim_left trim_right is_space
trim_space s = trim_right (trim_left s)

unfoldable pub lower_char : Char → Char
lower_char c =
    if leb 65 (code c) && leb (code c) 90
    then char_at "abcdefghijklmnopqrstuvwxyz" (code c - 65)
    else c

-- `strings.ToLower`.
unfoldable pub to_lower : String → String
unfolding lower_char
to_lower String.[] = ""
to_lower (String.◌∷◌ c s) = String.◌∷◌ (lower_char c) (to_lower s)

unfoldable pub has_prefix : String → String → Bool
has_prefix s String.[] = true
has_prefix String.[] (String.◌∷◌ p ps) = false
has_prefix (String.◌∷◌ c s) (String.◌∷◌ p ps) = eqb (code c) (code p) && has_prefix s ps

-- What is left of a text behind a prefix of the given number of characters.
unfoldable pub drop_chars : ℕ → String → String
drop_chars zero s = s
drop_chars (suc n) String.[] = ""
drop_chars (suc n) (String.◌∷◌ c s) = drop_chars n s

-- `strings.TrimPrefix`.
unfoldable pub trim_prefix : String → String → String
unfolding has_prefix drop_chars
trim_prefix s p = if has_prefix s p then drop_chars (String.count p) s else s

-- `strings.Contains`.
unfoldable pub contains : String → String → Bool
unfolding has_prefix
contains String.[] sub = is_empty sub
contains (String.◌∷◌ c s) sub = has_prefix (String.◌∷◌ c s) sub || contains s sub

abbrev prepend : Char → List String → List String
prepend c [] = String.◌∷◌ c "" ∷ []
prepend c (part ∷ parts) = String.◌∷◌ c part ∷ parts

-- `strings.Split` at a separator of one character.
unfoldable pub split_char : ℕ → String → List String
split_char sep String.[] = "" ∷ []
split_char sep (String.◌∷◌ c s) =
    let rest = split_char sep s in if eqb (code c) sep then "" ∷ rest else prepend c rest

-- `strings.EqualFold`.
unfoldable pub equal_fold : String → String → Bool
unfolding to_lower
equal_fold s t = text_eq (to_lower s) (to_lower t)
