-- ===== src/Base/Text/Prefix.antt =====
-- What `strings.HasPrefix` tells.
use Prim.Native.Char.{code}
use Prim.Native.String.{String, ◌++◌}
use text.Mathlib.TextLemmas.{nil-append, cons-append}
use mathlib.Core.Path.{◌≡◌, refl, sym, ap, ◌∙◌}
use mathlib.Core.Bool.{Bool, true, false, ◌&&◌}
use native.Mathlib.Omega.{arith}
use text.Mathlib.TextEquality.{Char-path}
use ddash.Base.Tests.{eqb, eqb_iff}
use ddash.Base.Text.{has_prefix}

pub has_prefix-append : (p t : String) → has_prefix (p ++ t) p ≡ true
unfolding has_prefix
has_prefix-append String.[] t = refl
has_prefix-append (String.◌∷◌ c p) t =
    rw (cons-append c p t) (ground (arith, has_prefix-append p t))

both : (a b : Bool) → (a && b) ≡ true → (a ≡ true) × (b ≡ true)
both true b h = (refl, h)
both false b h = ground arith

-- A text with a prefix is the prefix and a rest.
pub has_prefix_rest : (s p : String) → has_prefix s p ≡ true → (rest : String) × (s ≡ p ++ rest)
unfolding has_prefix
has_prefix_rest s String.[] h = (s, sym (nil-append s))
has_prefix_rest String.[] (String.◌∷◌ d p) h = absurd (ground arith)
has_prefix_rest (String.◌∷◌ c s) (String.◌∷◌ d p) h =
    let (same, later) = both (eqb (code c) (code d)) (has_prefix s p) h in
    let (rest, e) = has_prefix_rest s p later in
    (
      rest,
      ap (λ t. String.◌∷◌ c t) e
          ∙ ap (λ x. String.◌∷◌ x (p ++ rest)) (Char-path c d ((eqb_iff _ _).0 same))
          ∙ sym (cons-append d p rest),
    )
