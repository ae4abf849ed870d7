-- ===== src/Environments/Once.antt =====
-- Each environment stands once in an order, whatever the case of its letters, and none is lost.
use ddash.Base.{
  ℕ, suc, ◌+◌, String, ◌==◌, eq_iff, Bool, true, false, not, ◌&&◌, ◌||◌, List, [], ◌∷◌, map, any,
  count, count-append, count-sort_by, ◌≡◌, refl, ap, sym, ◌∙◌, arith, inl, inr, Bool-cases,
  if◌then◌else◌,
}
use ddash.Base.Text.{trim_space, to_lower, is_empty}
use ddash.Base.Text.Laws.{trim_space_idem}
use ddash.Environments.{
  has, normalize, normalize_environment_order_input, unseen, text_le, merge_environment_order,
}

-- An entry of an order stands for the environment of the key.
abbrev pub stands_for : String → String → Bool
stands_for key entry = to_lower entry == key

-- A raw value names the environment of the key.
abbrev pub names : String → String → Bool
names key value = not (is_empty (trim_space value)) && to_lower (trim_space value) == key

abbrev pub once : Bool → ℕ
once b = if b then 1 else 0

has_same : (a b : String) (seen : List String) → (a == b) ≡ true → has a seen ≡ has b seen
has_same a b seen h = ap (λ k. has k seen) ((eq_iff a b).0 h)

pub count-normalize :
    (k : String) (seen vs : List String)
    → count (stands_for k) (normalize seen vs) ≡ (if has k seen then 0 else once (any (names k) vs))
unfolding normalize
count-normalize k seen [] = ground arith
count-normalize k seen (v ∷ vs) = elim (Bool-cases (is_empty (trim_space v))) [
  | inl blank ↦ rw blank (count-normalize k seen vs)
  | inr given ↦ elim (Bool-cases (has (to_lower (trim_space v)) seen)) [
    | inl known ↦ elim (Bool-cases (to_lower (trim_space v) == k)) [
      | inl same ↦
          let known' : has k seen ≡ true = sym (has_same _ k seen same) ∙ known in
          rw (given, known, same, known') (rw known' at (count-normalize k seen vs))
      | inr other ↦ rw (given, known, other) (count-normalize k seen vs)
    ]
    | inr fresh ↦ elim (Bool-cases (to_lower (trim_space v) == k)) [
      | inl same ↦
          let fresh' : has k seen ≡ false = sym (has_same _ k seen same) ∙ fresh in
          rw (given, fresh, same, fresh')
            (ap suc (rw same at (count-normalize k (to_lower (trim_space v) ∷ seen) vs)))
      | inr other ↦
          rw (given, fresh, other)
            (rw other at (count-normalize k (to_lower (trim_space v) ∷ seen) vs))
    ]
  ]
]

-- A cleaned order holds each environment that a value names once, and no other.
pub normalize_environment_order_input-once :
    (key : String) (values : List String)
    → count (stands_for key) (normalize_environment_order_input values)
      ≡ once (any (names key) values)
unfolding normalize_environment_order_input
normalize_environment_order_input-once key values = count-normalize key [] values

normalize_again : (seen vs : List String) → normalize seen (normalize seen vs) ≡ normalize seen vs
unfolding normalize
normalize_again seen [] = refl
normalize_again seen (v ∷ vs) = elim (Bool-cases (is_empty (trim_space v))) [
  | inl blank ↦ rw blank (normalize_again seen vs)
  | inr given ↦ elim (Bool-cases (has (to_lower (trim_space v)) seen)) [
    | inl known ↦ rw (given, known) (normalize_again seen vs)
    | inr fresh ↦
        rw (given, fresh, trim_space_idem v, given, fresh)
          (ap (λ l. trim_space v ∷ l) (normalize_again (to_lower (trim_space v) ∷ seen) vs))
  ]
]

-- Cleaning an order again changes nothing.
pub normalize_environment_order_input_idem :
    (values : List String)
    → normalize_environment_order_input (normalize_environment_order_input values)
      ≡ normalize_environment_order_input values
unfolding normalize_environment_order_input
normalize_environment_order_input_idem values = normalize_again [] values

count-unseen :
    (k : String) (seen vs : List String)
    → count (stands_for k) (unseen seen vs)
      ≡ (if has k seen then 0 else once (any (stands_for k) vs))
unfolding unseen
count-unseen k seen [] = ground arith
count-unseen k seen (v ∷ vs) = elim (Bool-cases (has (to_lower v) seen)) [
  | inl known ↦ elim (Bool-cases (to_lower v == k)) [
    | inl same ↦
        let known' : has k seen ≡ true = sym (has_same _ k seen same) ∙ known in
        rw (known, same, known') (rw known' at (count-unseen k seen vs))
    | inr other ↦ rw (known, other) (count-unseen k seen vs)
  ]
  | inr fresh ↦ elim (Bool-cases (to_lower v == k)) [
    | inl same ↦
        let fresh' : has k seen ≡ false = sym (has_same _ k seen same) ∙ fresh in
        rw (fresh, same, fresh') (ap suc (rw same at (count-unseen k (to_lower v ∷ seen) vs)))
    | inr other ↦ rw (fresh, other) (rw other at (count-unseen k (to_lower v ∷ seen) vs))
  ]
]

any-count :
    (test : String → Bool) (b : Bool) (xs : List String) → count test xs ≡ once b → any test xs ≡ b
any-count test b [] h = ground arith
any-count test b (x ∷ xs) h = elim (Bool-cases (test x)) [
  | inl hit ↦ rw hit (let h' : suc (count test xs) ≡ once b = rw hit at h in ground arith)
  | inr miss ↦ rw miss (any-count test b xs (rw miss at h))
]

has-map : (k : String) (xs : List String) → has k (map to_lower xs) ≡ any (stands_for k) xs
has-map k [] = refl
has-map k (x ∷ xs) = ap (λ b. (to_lower x == k) || b) (has-map k xs)

once_or : (p d : Bool) → once p + (if p then 0 else once d) ≡ once (p || d)
once_or true d = refl
once_or false d = omega arith

-- The merged order holds each environment that is prioritized or discovered once, and no other.
pub merge_environment_order-once :
    (key : String) (prioritized discovered : List String)
    → count (stands_for key) (merge_environment_order prioritized discovered)
      ≡ once (any (names key) prioritized || any (names key) discovered)
unfolding merge_environment_order
merge_environment_order-once key p d =
    let cleaned : any (stands_for key) (normalize_environment_order_input p) ≡ any (names key) p =
      any-count (stands_for key) _ (normalize_environment_order_input p)
        (normalize_environment_order_input-once key p) in
    let found : any (stands_for key) (normalize_environment_order_input d) ≡ any (names key) d =
      any-count (stands_for key) _ (normalize_environment_order_input d)
        (normalize_environment_order_input-once key d) in
    rw
      (
        count-append (stands_for key) (normalize_environment_order_input p) _,
        count-sort_by text_le (stands_for key) (
            unseen (map to_lower (normalize_environment_order_input p))
              (normalize_environment_order_input d)),
        normalize_environment_order_input-once key p,
        count-unseen key (map to_lower (normalize_environment_order_input p))
            (normalize_environment_order_input d),
        has-map key (normalize_environment_order_input p),
        cleaned,
        found,
      )
      (once_or (any (names key) p) (any (names key) d))
