-- ===== src/Base/Text/Laws.antt =====
-- Trimming and lower case: both are idempotent, and the two commute.
use Prim.Native.Nat.{ℕ, zero, suc, ◌-◌, ◌+◌, ◌<◌}
use Prim.Native.Char.{Char, code}
use Prim.Native.String.{String, char_at}
use mathlib.Core.Path.{◌≡◌, refl, ap, ap₂, ◌∙◌}
use mathlib.Core.Bool.{Bool, true, false, ◌&&◌}
use mathlib.Core.Logic.{inl, inr, ◌↔◌}
use native.Mathlib.Omega.{arith}
use text.Mathlib.TextEquality.{eq_iff, Char-path}
use ddash.Base.Tests.{eqb, eqb_iff, leb, if◌then◌else◌, Bool-cases}
use ddash.Base.Text.{
  is_space, is_empty, trim_left, trim_right, trim_space, lower_char, to_lower, equal_fold,
}

trim_right_idem : (s : String) → trim_right (trim_right s) ≡ trim_right s
unfolding trim_right
trim_right_idem String.[] = refl
trim_right_idem (String.◌∷◌ c s) = ground (arith, trim_right_idem s)

trim_right-solid :
    (c : Char) (s : String)
    → is_space c ≡ false
    → trim_right (String.◌∷◌ c s) ≡ String.◌∷◌ c (trim_right s)
unfolding trim_right
trim_right-solid c s h = rw h

trim_left-trim_right-trim_left :
    (s : String) → trim_left (trim_right (trim_left s)) ≡ trim_right (trim_left s)
unfolding trim_left trim_right
trim_left-trim_right-trim_left String.[] = refl
trim_left-trim_right-trim_left (String.◌∷◌ c s) = ground (arith, trim_left-trim_right-trim_left s)

-- Trimming a trimmed text changes nothing.
pub trim_space_idem : (s : String) → trim_space (trim_space s) ≡ trim_space s
unfolding trim_space
trim_space_idem s = ap trim_right (trim_left-trim_right-trim_left s) ∙ trim_right_idem (trim_left s)

-- Whether a test holds at each number under a bound.
unfoldable pub first_places : (ℕ → Bool) → ℕ → Bool
first_places test zero = true
first_places test (suc k) = first_places test k && test k

pub first_places_lem :
    (test : ℕ → Bool) (bound k : ℕ) → first_places test bound ≡ true → k < bound → test k ≡ true
unfolding first_places
first_places_lem test zero k all small = absurd (omega arith)
first_places_lem test (suc bound) k all small = ground (arith, first_places_lem test bound k)

abbrev alphabet : String
alphabet = "abcdefghijklmnopqrstuvwxyz"

alphabet_table : first_places (λ k. eqb (code (char_at alphabet k)) (k + 97)) 26 ≡ true
unfolding first_places
alphabet_table = refl

code-alphabet : (k : ℕ) → k < 26 → code (char_at alphabet k) ≡ k + 97
code-alphabet k h =
    (eqb_iff _ _).0
      (first_places_lem (λ k. eqb (code (char_at alphabet k)) (k + 97)) 26 k alphabet_table h)

abbrev upper : Char → Bool
upper c = leb 65 (code c) && leb (code c) 90

code-lower_char : (c : Char) → code (lower_char c) ≡ (if upper c then code c + 32 else code c)
unfolding lower_char
code-lower_char c = elim (Bool-cases (upper c)) [
  | inl h ↦ rw h (code-alphabet (code c - 65) (ground arith) ∙ ground arith)
  | inr h ↦ rw h
]

lower_char_idem : (c : Char) → lower_char (lower_char c) ≡ lower_char c
lower_char_idem c =
    Char-path _ _ (code-lower_char (lower_char c) ∙ ground (arith, code-lower_char c))

is_space-lower_char : (c : Char) → is_space (lower_char c) ≡ is_space c
unfolding is_space
is_space-lower_char c = rw (code-lower_char c) (ground arith)

pub to_lower_idem : (s : String) → to_lower (to_lower s) ≡ to_lower s
unfolding to_lower
to_lower_idem String.[] = refl
to_lower_idem (String.◌∷◌ c s) = ap₂ String.◌∷◌ (lower_char_idem c) (to_lower_idem s)

pub is_empty-to_lower : (s : String) → is_empty (to_lower s) ≡ is_empty s
unfolding to_lower
is_empty-to_lower String.[] = refl
is_empty-to_lower (String.◌∷◌ c s) = refl

trim_left-to_lower : (s : String) → trim_left (to_lower s) ≡ to_lower (trim_left s)
unfolding trim_left to_lower
trim_left-to_lower String.[] = refl
trim_left-to_lower (String.◌∷◌ c s) = ground (arith, is_space-lower_char c, trim_left-to_lower s)

trim_right-to_lower : (s : String) → trim_right (to_lower s) ≡ to_lower (trim_right s)
unfolding trim_right to_lower
trim_right-to_lower String.[] = refl
trim_right-to_lower (String.◌∷◌ c s) =
    ground (arith, is_space-lower_char c, trim_right-to_lower s, is_empty-to_lower (trim_right s))

-- Trimming and lower case commute.
pub trim_space-to_lower : (s : String) → trim_space (to_lower s) ≡ to_lower (trim_space s)
unfolding trim_space
trim_space-to_lower s = ap trim_right (trim_left-to_lower s) ∙ trim_right-to_lower (trim_left s)

pub equal_fold_iff : (s t : String) → (equal_fold s t ≡ true) ↔ (to_lower s ≡ to_lower t)
unfolding equal_fold
equal_fold_iff s t = eq_iff (to_lower s) (to_lower t)
