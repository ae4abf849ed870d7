-- ===== src/Catalog/LeadTimes/Ranks.antt =====
-- A percentile's index is in range, and a higher percentile is no lower a value.
use mathlib.Core.Option.{some-injective}
use ddash.Base.{
  ℕ, zero, suc, ◌≤◌, ◌<◌, Bool, true, some, List, [], ◌∷◌, length, get_elem?, All, IsSorted, ◌≡◌,
  refl, subst, arith,
}
use ddash.Catalog.LeadTimes.{nearest_rank}

pub nearest_rank-lt : (pct n : ℕ) → 0 < n → nearest_rank pct n < n
unfolding nearest_rank
nearest_rank-lt pct n h = ground arith

pub nearest_rank_mono : (n : ℕ) → 0 < n → nearest_rank 50 n ≤ nearest_rank 95 n
unfolding nearest_rank
nearest_rank_mono n h = ground arith

module _ {A : Type 0} where
  pub get_elem?-total : (xs : List A) (i : ℕ) → i < length xs → (a : A) × (get_elem? xs i ≡ some a)
  get_elem?-total [] i h = absurd (omega arith)
  get_elem?-total (x ∷ xs) zero h = (x, refl)
  get_elem?-total (x ∷ xs) (suc i) h = get_elem?-total xs i (omega arith)

  pub get_elem?-All :
      (P : A → Type 0) (xs : List A) (i : ℕ) (a : A) → All P xs → get_elem? xs i ≡ some a → P a
  get_elem?-All P [] i a h got = absurd (ground arith)
  get_elem?-All P (x ∷ xs) zero a (h, hs) got = subst P (some-injective x a got) h
  get_elem?-All P (x ∷ xs) (suc i) a (h, hs) got = get_elem?-All P xs i a hs got

  -- In a sorted list a later member may stand behind an earlier one.
  pub get_elem?-IsSorted :
      (before : A → A → Bool) (xs : List A) (i j : ℕ) (a b : A)
      → ((c : A) → before c c ≡ true)
      → IsSorted before xs
      → i ≤ j
      → get_elem? xs i ≡ some a
      → get_elem? xs j ≡ some b
      → before a b ≡ true
  get_elem?-IsSorted before [] i j a b self s h ga gb = absurd (ground arith)
  get_elem?-IsSorted before (x ∷ xs) zero zero a b self s h ga gb =
      subst (λ c. before c b ≡ true) (some-injective x a ga)
        (subst (λ c. before x c ≡ true) (some-injective x b gb) (self x))
  get_elem?-IsSorted before (x ∷ xs) zero (suc j) a b self (h, s) le ga gb =
      subst (λ c. before c b ≡ true) (some-injective x a ga)
        (get_elem?-All (λ y. before x y ≡ true) xs j b h gb)
  get_elem?-IsSorted before (x ∷ xs) (suc i) zero a b self s h ga gb = absurd (omega arith)
  get_elem?-IsSorted before (x ∷ xs) (suc i) (suc j) a b self (_, s) h ga gb =
      get_elem?-IsSorted before xs i j a b self s (omega arith) ga gb
