-- ===== src/Base/Lists.antt =====
-- Lists measured by native numbers, tests over lists, and predicates of all or some members.
use Prim.Native.Nat.{ℕ, zero, suc, ◌+◌}
use mathlib.Core.Path.{◌≡◌, subst}
use mathlib.Core.Bool.{Bool, true, false, ◌&&◌, ◌||◌}
use mathlib.Core.List.{List, [], ◌∷◌, ◌++◌, map}
use mathlib.Core.Option.{Option, none, some, some-injective}
use native.Mathlib.Omega.{arith}
use ddash.Base.Tests.{if◌then◌else◌, Bool-cases}
use mathlib.Core.Logic.{inl, inr}

module _ {ℓ} {A : Type ℓ} where
  abbrev pub length : List A → ℕ
  length [] = 0
  length (x ∷ xs) = suc (length xs)

  abbrev pub get_elem? : List A → ℕ → Option A
  get_elem? [] i = none
  get_elem? (x ∷ xs) zero = some x
  get_elem? (x ∷ xs) (suc i) = get_elem? xs i

  abbrev pub take : ℕ → List A → List A
  take zero xs = []
  take (suc n) [] = []
  take (suc n) (x ∷ xs) = x ∷ take n xs

  abbrev pub drop : ℕ → List A → List A
  drop zero xs = xs
  drop (suc n) [] = []
  drop (suc n) (x ∷ xs) = drop n xs

  abbrev pub filter : (A → Bool) → List A → List A
  filter p [] = []
  filter p (x ∷ xs) = let rest = filter p xs in if p x then x ∷ rest else rest

  abbrev pub find? : (A → Bool) → List A → Option A
  find? p [] = none
  find? p (x ∷ xs) = let rest = find? p xs in if p x then some x else rest

  abbrev pub any : (A → Bool) → List A → Bool
  any p [] = false
  any p (x ∷ xs) = p x || any p xs

  abbrev pub all : (A → Bool) → List A → Bool
  all p [] = true
  all p (x ∷ xs) = p x && all p xs

  -- How many members pass the test.
  abbrev pub count : (A → Bool) → List A → ℕ
  count p [] = 0
  count p (x ∷ xs) = let rest = count p xs in if p x then suc rest else rest

  pub length-append : (xs ys : List A) → length (xs ++ ys) ≡ length xs + length ys
  length-append [] ys = omega arith
  length-append (x ∷ xs) ys = omega (arith, length-append xs ys)

  pub count-append : (p : A → Bool) (xs ys : List A) → count p (xs ++ ys) ≡ count p xs + count p ys
  count-append p [] ys = omega arith
  count-append p (x ∷ xs) ys = ground (arith, count-append p xs ys)

module _ {ℓ κ} {A : Type ℓ} (P : A → Type κ) where
  abbrev pub All : List A → Type κ
  All [] = Unit
  All (x ∷ xs) = P x × All xs

  pub All-append : (xs ys : List A) → All xs → All ys → All (xs ++ ys)
  All-append [] ys hx hy = hy
  All-append (x ∷ xs) ys (h, hx) hy = (h, All-append xs ys hx hy)

  pub All-filter : (p : A → Bool) (xs : List A) → All xs → All (filter p xs)
  All-filter p [] h = tt
  All-filter p (x ∷ xs) (h, hs) = ground (arith, All-filter p xs hs)

module _ {ℓ} {A : Type ℓ} (p : A → Bool) where
  -- What `find?` gives passes the test.
  pub find?-passes : (xs : List A) (a : A) → find? p xs ≡ some a → p a ≡ true
  find?-passes [] a found = ground arith
  find?-passes (x ∷ xs) a found = ground (arith, find?-passes xs a)

  pub any-find? : (xs : List A) (a : A) → find? p xs ≡ some a → any p xs ≡ true
  any-find? [] a found = ground arith
  any-find? (x ∷ xs) a found = ground (arith, any-find? xs a)

  pub find?-All : (P : A → Type 0) (xs : List A) (a : A) → All P xs → find? p xs ≡ some a → P a
  find?-All P [] a h found = absurd (ground arith)
  find?-All P (x ∷ xs) a (h, hs) found = elim (Bool-cases (p x)) [
    | inl here ↦ subst P (some-injective x a (rw here at found)) h
    | inr later ↦ find?-All P xs a hs (rw later at found)
  ]

module _ {ℓ κ} {A : Type ℓ} {B : Type κ} where
  pub All-map :
      (f : A → B) (P : B → Type 0) (xs : List A) → All (λ a. P (f a)) xs → All P (map f xs)
  All-map f P [] h = tt
  All-map f P (x ∷ xs) (h, hs) = (h, All-map f P xs hs)
