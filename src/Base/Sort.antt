-- ===== src/Base/Sort.antt =====
-- `ORDER BY` and Go's `sort`: stable insertion by a Boolean test `before a b`, "a may stand in
-- front of b". Sorting keeps every member, as often.
use ddash.Base.Tests.{if◌then◌else◌, Bool-cases}
use ddash.Base.Lists.{count, All, length}
use Prim.Native.Nat.{suc}
use mathlib.Core.Path.{◌≡◌, refl, ◌∙◌}
use mathlib.Core.Bool.{Bool, true, false}
use mathlib.Core.Logic.{inl, inr}
use mathlib.Core.List.{List, [], ◌∷◌}
use native.Mathlib.Omega.{arith}

module _ {ℓ} {A : Type ℓ} (before : A → A → Bool) where
  unfoldable pub insert_by : A → List A → List A
  insert_by x [] = x ∷ []
  insert_by x (y ∷ ys) = let rest = insert_by x ys in if before x y then x ∷ y ∷ ys else y ∷ rest

  unfoldable pub sort_by : List A → List A
  unfolding insert_by
  sort_by [] = []
  sort_by (x ∷ xs) = insert_by x (sort_by xs)

  count-insert_by :
      (p : A → Bool) (x : A) (ys : List A) → count p (insert_by x ys) ≡ count p (x ∷ ys)
  unfolding insert_by
  count-insert_by p x [] = refl
  count-insert_by p x (y ∷ ys) = ground (arith, count-insert_by p x ys)

  -- Whatever is counted, sorting keeps the count.
  pub count-sort_by : (p : A → Bool) (xs : List A) → count p (sort_by xs) ≡ count p xs
  unfolding sort_by
  count-sort_by p [] = refl
  count-sort_by p (x ∷ xs) = count-insert_by p x (sort_by xs) ∙ ground (arith, count-sort_by p xs)

  length-insert_by : (x : A) (ys : List A) → length (insert_by x ys) ≡ suc (length ys)
  unfolding insert_by
  length-insert_by x [] = refl
  length-insert_by x (y ∷ ys) = ground (arith, length-insert_by x ys)

  pub length-sort_by : (xs : List A) → length (sort_by xs) ≡ length xs
  unfolding sort_by
  length-sort_by [] = refl
  length-sort_by (x ∷ xs) = length-insert_by x (sort_by xs) ∙ ground (arith, length-sort_by xs)

  All-insert_by : (P : A → Type 0) (x : A) (ys : List A) → P x → All P ys → All P (insert_by x ys)
  unfolding insert_by
  All-insert_by P x [] h hs = (h, tt)
  All-insert_by P x (y ∷ ys) h (k, ks) = ground (arith, All-insert_by P x ys h ks)

  pub All-sort_by : (P : A → Type 0) (xs : List A) → All P xs → All P (sort_by xs)
  unfolding sort_by
  All-sort_by P [] h = tt
  All-sort_by P (x ∷ xs) (h, hs) = All-insert_by P x (sort_by xs) h (All-sort_by P xs hs)

  -- Each member stands in front of all that follow it.
  abbrev pub IsSorted : List A → Type 0
  IsSorted [] = Unit
  IsSorted (x ∷ xs) = All (λ y. before x y ≡ true) xs × IsSorted xs

  module _ (total : (a b : A) → before a b ≡ false → before b a ≡ true)
      (transitive : (a b c : A) → before a b ≡ true → before b c ≡ true → before a c ≡ true) where
    All-before :
        (a b : A) (ys : List A)
        → before a b ≡ true
        → All (λ y. before b y ≡ true) ys
        → All (λ y. before a y ≡ true) ys
    All-before a b [] h hs = tt
    All-before a b (y ∷ ys) h (k, ks) = (transitive a b y h k, All-before a b ys h ks)

    insert_by-IsSorted : (x : A) (ys : List A) → IsSorted ys → IsSorted (insert_by x ys)
    unfolding insert_by
    insert_by-IsSorted x [] s = (tt, tt)
    insert_by-IsSorted x (y ∷ ys) (h, s) = elim (Bool-cases (before x y)) [
      | inl xy ↦ rw xy ((xy, All-before x y ys xy h), (h, s))
      | inr yx ↦
          rw yx (
            All-insert_by (λ z. before y z ≡ true) x ys (total x y yx) h,
            insert_by-IsSorted x ys s,
          )
    ]

    pub sort_by-IsSorted : (xs : List A) → IsSorted (sort_by xs)
    unfolding sort_by
    sort_by-IsSorted [] = tt
    sort_by-IsSorted (x ∷ xs) = insert_by-IsSorted x (sort_by xs) (sort_by-IsSorted xs)
