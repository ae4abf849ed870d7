-- ===== src/Metadata/Clean.antt =====
-- The cleaned updates: each stands under the label of a required field, and each field once.
use ddash.Base.{
  ◌≤◌, String, ◌==◌, eq_iff, Bool, true, false, not, ◌&&◌, ◌||◌, none, some, List, [], ◌∷◌, any,
  count, All, ◌≡◌, refl, ap, sym, ◌∙◌, arith, ◌⊎◌, inl, inr, Bool-cases, if◌then◌else◌,
}
use ddash.Base.Text.{trim_space, to_lower, is_empty}
use ddash.Base.Text.Laws.{trim_space_idem}
use ddash.Metadata.{
  RequiredField, MetadataFieldUpdate, MetadataValue, key_of, allowed, clean_fields, given_values,
}

both : (a b : Bool) → (a && b) ≡ true → (a ≡ true) × (b ≡ true)
both true b h = (refl, h)
both false b h = ground arith

neither : (a b : Bool) → (a || b) ≡ false → b ≡ false
neither false b h = h
neither true b h = ground arith

-- A label that a key leads to has this key.
pub allowed_cases :
    (key : String) (fs : List RequiredField)
    → (allowed key fs ≡ none)
      ⊎ ((label : String) × (allowed key fs ≡ some label) × (key_of label ≡ key))
unfolding allowed
allowed_cases key [] = inl refl
allowed_cases key (f ∷ fs) = elim (allowed_cases key fs) [
  | inr (label, found, same) ↦ rw found (inr (label, refl, same))
  | inl absent ↦ elim (Bool-cases (not (is_empty (trim_space f.label)) && key_of f.label == key)) [
    | inr other ↦ rw (absent, other) (inl refl)
    | inl here ↦
        let (_, key') = both (not (is_empty (trim_space f.label))) _ here in
        rw (absent, here)
          (inr
            (trim_space f.label, refl, ap to_lower (trim_space_idem f.label) ∙ (eq_iff _ _).0 key'))
  ]
]

-- The label is the one under which the required fields know its key.
abbrev pub IsCanonical : List RequiredField → String → Type 0
IsCanonical required label = allowed (key_of label) required ≡ some label

pub clean_fields-IsCanonical :
    (required : List RequiredField) (seen : List String) (fs : List MetadataFieldUpdate)
    → All (λ f. IsCanonical required f.label) (clean_fields required seen fs)
unfolding clean_fields
clean_fields-IsCanonical required seen [] = tt
clean_fields-IsCanonical required seen (f ∷ fs) =
    elim (Bool-cases (is_empty (trim_space f.label) || any (λ k. k == key_of f.label) seen)) [
      | inl skipped ↦ rw skipped (clean_fields-IsCanonical required seen fs)
      | inr first ↦ elim (allowed_cases (key_of f.label) required) [
        | inl foreign ↦ rw (first, foreign) (clean_fields-IsCanonical required seen fs)
        | inr (label, found, same) ↦
            rw (first, found)
              (
                ap (λ k. allowed k required) same ∙ found,
                clean_fields-IsCanonical required (key_of f.label ∷ seen) fs,
              )
      ]
    ]

abbrev pub has_field_key : String → MetadataFieldUpdate → Bool
has_field_key k f = key_of f.label == k

abbrev pub has_value_key : String → MetadataValue → Bool
has_value_key k v = key_of v.label == k

-- A key stands at most once, and not at all if it was seen before.
pub count-clean_fields :
    (k : String) (required : List RequiredField) (seen : List String)
    → (fs : List MetadataFieldUpdate)
    → count (has_field_key k) (clean_fields required seen fs)
      ≤ (if any (λ s. s == k) seen then 0 else 1)
unfolding clean_fields
count-clean_fields k required seen [] = ground arith
count-clean_fields k required seen (f ∷ fs) =
    elim (Bool-cases (is_empty (trim_space f.label) || any (λ s. s == key_of f.label) seen)) [
      | inl skipped ↦ rw skipped (count-clean_fields k required seen fs)
      | inr first ↦ elim (allowed_cases (key_of f.label) required) [
        | inl foreign ↦ rw (first, foreign) (count-clean_fields k required seen fs)
        | inr (label, found, same) ↦ elim (Bool-cases (key_of f.label == k)) [
          | inl equal ↦
              let e : key_of f.label ≡ k = (eq_iff _ _).0 equal in
              let label' : (key_of label == k) ≡ true = ap (λ l. l == k) same ∙ equal in
              let rest : count (has_field_key k) (clean_fields required (key_of f.label ∷ seen) fs)
                  ≤ 0 =
                rw equal at (count-clean_fields k required (key_of f.label ∷ seen) fs) in
              let fresh : any (λ s. s == k) seen ≡ false =
                ap (λ l. any (λ s. s == l) seen) (sym e)
                ∙ neither (is_empty (trim_space f.label)) _ first in
              rw (first, found, label', fresh) (omega (arith, rest))
          | inr other ↦
              let label' : (key_of label == k) ≡ false = ap (λ l. l == k) same ∙ other in
              rw (first, found, label')
                (rw other at (count-clean_fields k required (key_of f.label ∷ seen) fs))
        ]
      ]
    ]

given_values-IsCanonical :
    (required : List RequiredField) (fs : List MetadataFieldUpdate)
    → All (λ f. IsCanonical required f.label) fs
    → All (λ v. IsCanonical required v.label × (is_empty v.value ≡ false)) (given_values fs)
unfolding given_values
given_values-IsCanonical required [] h = tt
given_values-IsCanonical required (f ∷ fs) (h, hs) = elim (Bool-cases (is_empty f.value)) [
  | inl blank ↦ rw blank (given_values-IsCanonical required fs hs)
  | inr full ↦ rw full ((h, full), given_values-IsCanonical required fs hs)
]

count-given_values :
    (k : String) (fs : List MetadataFieldUpdate)
    → count (has_value_key k) (given_values fs) ≤ count (has_field_key k) fs
unfolding given_values
count-given_values k [] = omega arith
count-given_values k (f ∷ fs) = elim (Bool-cases (is_empty f.value)) [
  | inl blank ↦ rw blank (ground (arith, count-given_values k fs))
  | inr full ↦ rw full (ground (arith, count-given_values k fs))
]

-- The stored values: canonical labels, no empty value, no key twice.
pub values-IsCanonical :
    (required : List RequiredField) (fs : List MetadataFieldUpdate)
    → All
        (λ v. IsCanonical required v.label × (is_empty v.value ≡ false))
        (given_values (clean_fields required [] fs))
values-IsCanonical required fs =
    given_values-IsCanonical required (clean_fields required [] fs)
      (clean_fields-IsCanonical required [] fs)

pub values_once :
    (k : String) (required : List RequiredField) (fs : List MetadataFieldUpdate)
    → count (has_value_key k) (given_values (clean_fields required [] fs)) ≤ 1
values_once k required fs =
    omega (
      arith,
      count-given_values k (clean_fields required [] fs),
      count-clean_fields k required [] fs,
    )
