-- ===== src/Metadata/Given.antt =====
-- Which value an update stores under a key.
use ddash.Base.{
  ◌≤◌, String, ◌==◌, eq_iff, eq_refl, subst, Bool, true, false, not, ◌&&◌, ◌||◌, Option, none, some,
  List, [], ◌∷◌, any, find?, count, All, ◌≡◌, refl, ap, sym, ◌∙◌, arith, inl, inr, Bool-cases,
  Option-cases, if◌then◌else◌,
}
use ddash.Base.Text.{trim_space, is_empty}
use ddash.Base.Text.Laws.{is_empty-to_lower}
use ddash.Metadata.{
  RequiredField, MetadataFieldUpdate, MetadataValue, key_of, allowed, clean_fields, given_values,
}
use ddash.Metadata.Clean.{
  IsCanonical, has_field_key, has_value_key, allowed_cases, count-clean_fields,
  clean_fields-IsCanonical,
}

-- The field of a label with the value that was given first for its key.
abbrev field_for : String → Option MetadataFieldUpdate → Option MetadataFieldUpdate
field_for label none = none
field_for label (some f) = some (record { label = label; value = trim_space f.value })

abbrev field_under : Option String → Option MetadataFieldUpdate → Option MetadataFieldUpdate
field_under none given = none
field_under (some label) given = field_for label given

abbrev unless_blank : Option MetadataFieldUpdate → Option MetadataValue
unless_blank none = none
unless_blank (some f) =
    if is_empty f.value then none else some (record { label = f.label; value = f.value })

-- The value that an update should store under a key: none, if no required field has the key or the
-- first update for it is blank; else that update's trimmed value, under the required field's label.
abbrev pub wanted : List RequiredField → List MetadataFieldUpdate → String → Option MetadataValue
wanted required fields key =
    unless_blank (field_under (allowed key required) (find? (has_field_key key) fields))

-- No required field has a blank key.
allowed_named :
    (key label : String) (fs : List RequiredField)
    → allowed key fs ≡ some label
    → is_empty key ≡ false
unfolding allowed
allowed_named key label [] h = absurd (ground arith)
allowed_named key label (f ∷ fs) h = elim (Option-cases (allowed key fs)) [
  | inr (later, found) ↦ allowed_named key later fs found
  | inl absent ↦ elim (Bool-cases (not (is_empty (trim_space f.label)) && key_of f.label == key)) [
    | inr other ↦ let broken = rw (absent, other) at h in absurd (ground arith)
    | inl here ↦
        let same : key_of f.label ≡ key = (eq_iff _ _).0 (ground (arith, here)) in
        let named : is_empty (trim_space f.label) ≡ false = ground (arith, here) in
        rw⁻¹ same (is_empty-to_lower (trim_space f.label) ∙ named)
  ]
]

-- A key that no required field has is in no cleaned update.
find?-foreign :
    (required : List RequiredField) (key : String) (fs : List MetadataFieldUpdate)
    → allowed key required ≡ none
    → All (λ f. IsCanonical required f.label) fs
    → find? (has_field_key key) fs ≡ none
find?-foreign required key [] h c = refl
find?-foreign required key (f ∷ fs) h (c, cs) = elim (Bool-cases (key_of f.label == key)) [
  | inr miss ↦ rw miss (find?-foreign required key fs h cs)
  | inl hit ↦
      let same : key_of f.label ≡ key = (eq_iff _ _).0 hit in
      let found : allowed key required ≡ some f.label = rw same at c in absurd (ground arith)
]

abbrev label_or : String → Option String → String
label_or d none = d
label_or d (some label) = label

-- The label of a required field has the key that leads to it.
allowed_key :
    (key label : String) (fs : List RequiredField)
    → allowed key fs ≡ some label
    → key_of label ≡ key
allowed_key key label fs h = elim (allowed_cases key fs) [
  | inl absent ↦ absurd (ground arith)
  | inr (l, found, same) ↦ let e : l ≡ label = ap (label_or label) (sym found ∙ h) in rw e at same
]

-- The cleaned updates have, under a known key that was not seen, the first update for it.
find?-clean_fields :
    (required : List RequiredField) (key label : String) (seen : List String)
    → (fs : List MetadataFieldUpdate) → allowed key required ≡ some label
    → find? (has_field_key key) (clean_fields required seen fs)
      ≡ (if any (λ s. s == key) seen then none else field_for label (find? (has_field_key key) fs))
unfolding clean_fields
find?-clean_fields required key label seen [] h = ground arith
find?-clean_fields required key label seen (f ∷ fs) h = elim (Bool-cases (key_of f.label == key)) [
  | inl hit ↦
      let same : key_of f.label ≡ key = (eq_iff _ _).0 hit in
      subst
        (λ k. find? (has_field_key k) (clean_fields required seen (f ∷ fs)) ≡ (
          if any (λ s. s == k) seen
          then none
          else field_for label (find? (has_field_key k) (f ∷ fs))))
        same
        (here (rw same h) (find?-clean_fields required (key_of f.label) label seen fs (rw same h)))
  | inr miss ↦
      elim (Bool-cases (is_empty (trim_space f.label) || any (λ k. k == key_of f.label) seen)) [
        | inl skip ↦ rw (skip, miss) (find?-clean_fields required key label seen fs h)
        | inr first ↦ elim (allowed_cases (key_of f.label) required) [
          | inl foreign ↦
              rw (first, foreign, miss) (find?-clean_fields required key label seen fs h)
          | inr (l, found, same) ↦
              let miss' : (key_of l == key) ≡ false = ap (λ x. x == key) same ∙ miss in
              let later = find?-clean_fields required key label (key_of f.label ∷ seen) fs h in
              rw (first, found, miss', miss) (rw miss at later)
        ]
      ]
]
  where
    here :
        allowed (key_of f.label) required ≡ some label
        → find? (has_field_key (key_of f.label)) (clean_fields required seen fs) ≡ (
            if any (λ s. s == key_of f.label) seen
            then none
            else field_for label (find? (has_field_key (key_of f.label)) fs))
        → find? (has_field_key (key_of f.label)) (clean_fields required seen (f ∷ fs)) ≡ (
            if any (λ s. s == key_of f.label) seen
            then none
            else field_for label (find? (has_field_key (key_of f.label)) (f ∷ fs)))
    here h' later =
        let full : is_empty (trim_space f.label) ≡ false =
          sym (is_empty-to_lower (trim_space f.label))
          ∙ allowed_named (key_of f.label) label required h' in
        let label' : (key_of label == key_of f.label) ≡ true =
          (eq_iff _ _).1 (allowed_key (key_of f.label) label required h') in
        elim (Bool-cases (any (λ s. s == key_of f.label) seen)) [
          | inl before ↦ rw (full, before) (rw before at later)
          | inr first ↦ rw (full, first, h', label', eq_refl (key_of f.label)) refl
        ]

find?-count {ℓ} : {A : Type ℓ} (p : A → Bool) (xs : List A) → count p xs ≤ 0 → find? p xs ≡ none
find?-count p [] h = refl
find?-count p (x ∷ xs) h = elim (Bool-cases (p x)) [
  | inl hit ↦ let more = rw hit at h in absurd (omega (arith, more))
  | inr miss ↦ rw miss (find?-count p xs (rw miss at h))
]

-- Leaving out blank values leaves out nothing else.
find?-given_values :
    (key : String) (fs : List MetadataFieldUpdate)
    → count (has_field_key key) fs ≤ 1
    → find? (has_value_key key) (given_values fs) ≡ unless_blank (find? (has_field_key key) fs)
unfolding given_values
find?-given_values key [] h = refl
find?-given_values key (f ∷ fs) h = elim (Bool-cases (key_of f.label == key)) [
  | inl hit ↦
      let h' = rw hit at h in
      let last : count (has_field_key key) fs ≤ 0 = omega (arith, h') in
      let later = find?-given_values key fs (omega (arith, last)) in
      elim (Bool-cases (is_empty f.value)) [
        | inl blank ↦
            rw (hit, blank) (later ∙ ap unless_blank (find?-count (has_field_key key) fs last))
        | inr full ↦ rw (hit, full, hit) refl
      ]
  | inr miss ↦
      let later = find?-given_values key fs (rw miss at h) in
      elim (Bool-cases (is_empty f.value)) [
        | inl blank ↦ rw (blank, miss) later
        | inr full ↦ rw (full, miss) later
      ]
]

find?-cleaned :
    (required : List RequiredField) (fields : List MetadataFieldUpdate) (key : String)
    → find? (has_field_key key) (clean_fields required [] fields)
      ≡ field_under (allowed key required) (find? (has_field_key key) fields)
find?-cleaned required fields key = elim (Option-cases (allowed key required)) [
  | inl foreign ↦ rw foreign (
      find?-foreign required key (clean_fields required [] fields) foreign
        (clean_fields-IsCanonical required [] fields))
  | inr (label, found) ↦ rw found (find?-clean_fields required key label [] fields found)
]

-- What is stored under each key.
pub values-wanted :
    (required : List RequiredField) (fields : List MetadataFieldUpdate) (key : String)
    → find? (has_value_key key) (given_values (clean_fields required [] fields))
      ≡ wanted required fields key
values-wanted required fields key =
    let once = count-clean_fields key required [] fields in
    find?-given_values key (clean_fields required [] fields) (omega (arith, once))
    ∙ ap unless_blank (find?-cleaned required fields key)
