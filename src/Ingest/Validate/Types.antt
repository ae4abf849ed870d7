-- ===== src/Ingest/Validate/Types.antt =====
-- Which event types are accepted, and which of them must pass their schema.
use Prim.Native.String.{◌++◌}
use ddash.Base.{
  ◌↔◌, String, ◌==◌, eq_iff, true, false, List, [], ◌∷◌, any, ◌≡◌, refl, arith, ◌⊎◌, inl, inr,
  Bool-cases,
}
use ddash.Base.Text.{trim_space, is_empty, has_prefix}
use ddash.Base.Text.Prefix.{has_prefix-append, has_prefix_rest}
use ddash.Ingest.Sdk.{Sdk}
use ddash.Ingest.Validate.{
  allowed_type_prefixes, requires_strict_schema_validation, is_supported_event_type,
}

-- A type that equals a name of a list without empty names is not empty.
listed_non_empty :
    (names : List String) (t : String)
    → any is_empty names ≡ false
    → any (λ d. d == t) names ≡ true
    → is_empty t ≡ false
listed_non_empty [] t full h = ground arith
listed_non_empty (d ∷ ds) t full h = elim (Bool-cases (d == t)) [
  | inl same ↦
      let e : d ≡ t = (eq_iff _ _).0 same in
      let d_full : is_empty d ≡ false = ground (arith, full) in rw⁻¹ e d_full
  | inr other ↦ listed_non_empty ds t (ground (arith, full)) (rw other at h)
]

-- The text begins with one of the four names of event families.
abbrev pub IsCustom : String → Type 0
IsCustom t =
    (rest : String) × ((t ≡ "dev.cdevents.pipeline." ++ rest)
      ⊎ ((t ≡ "dev.cdevents.change." ++ rest)
          ⊎ ((t ≡ "dev.cdevents.artifact." ++ rest) ⊎ (t ≡ "dev.cdevents.incident." ++ rest))))

prefixed-IsCustom :
    (t : String) → any (λ prefix. has_prefix t prefix) allowed_type_prefixes ≡ true → IsCustom t
prefixed-IsCustom t h = elim (Bool-cases (has_prefix t "dev.cdevents.pipeline.")) [
  | inl p ↦ let (rest, e) = has_prefix_rest t "dev.cdevents.pipeline." p in (rest, inl e)
  | inr p ↦ elim (Bool-cases (has_prefix t "dev.cdevents.change.")) [
    | inl c ↦ let (rest, e) = has_prefix_rest t "dev.cdevents.change." c in (rest, inr (inl e))
    | inr c ↦ elim (Bool-cases (has_prefix t "dev.cdevents.artifact.")) [
      | inl a ↦
          let (rest, e) = has_prefix_rest t "dev.cdevents.artifact." a in (rest, inr (inr (inl e)))
      | inr a ↦
          let i : has_prefix t "dev.cdevents.incident." ≡ true = ground (arith, h) in
          let (rest, e) = has_prefix_rest t "dev.cdevents.incident." i in (rest, inr (inr (inr e)))
    ]
  ]
]

pub custom-prefixed :
    (t : String) → IsCustom t → any (λ prefix. has_prefix t prefix) allowed_type_prefixes ≡ true
custom-prefixed t (rest, inl e) = rw (e, has_prefix-append "dev.cdevents.pipeline." rest) refl
custom-prefixed t (rest, inr (inl e)) =
    rw (e, has_prefix-append "dev.cdevents.change." rest) (ground arith)
custom-prefixed t (rest, inr (inr (inl e))) =
    rw (e, has_prefix-append "dev.cdevents.artifact." rest) (ground arith)
custom-prefixed t (rest, inr (inr (inr e))) =
    rw (e, has_prefix-append "dev.cdevents.incident." rest) (ground arith)

pub prefixed_non_empty :
    (t : String)
    → any (λ prefix. has_prefix t prefix) allowed_type_prefixes ≡ true
    → is_empty t ≡ false
unfolding has_prefix
prefixed_non_empty String.[] h = ground (arith, h)
prefixed_non_empty (String.◌∷◌ c s) h = refl

supported-cases :
    (sdk : Sdk) (t : String)
    → is_supported_event_type sdk t ≡ true
    → (any (λ d. d == trim_space t) sdk.delivery_types ≡ true) ⊎ IsCustom (trim_space t)
unfolding is_supported_event_type
supported-cases sdk t h = elim (Bool-cases (any (λ d. d == trim_space t) sdk.delivery_types)) [
  | inl listed ↦ inl listed
  | inr unlisted ↦ inr (prefixed-IsCustom (trim_space t) (ground (arith, h, unlisted)))
]

accepted-supported :
    (sdk : Sdk) (t : String)
    → any is_empty sdk.delivery_types ≡ false
    → (any (λ d. d == trim_space t) sdk.delivery_types ≡ true) ⊎ IsCustom (trim_space t)
    → is_supported_event_type sdk t ≡ true
unfolding is_supported_event_type
accepted-supported sdk t full (inl listed) =
    rw (listed, listed_non_empty sdk.delivery_types (trim_space t) full listed) refl
accepted-supported sdk t full (inr custom) =
    let prefixed = custom-prefixed (trim_space t) custom in
    rw (prefixed_non_empty (trim_space t) prefixed, prefixed) (ground arith)

-- Where no name of the delivery types is empty: a type is supported just where it is, up to blanks
-- around it, one of the delivery types or a text that begins with dev.cdevents. and the name of one
-- of the families pipeline, change, artifact and incident, and a dot; and it must pass its schema
-- just where it is one of the delivery types.
pub is_supported_event_type_iff :
    (sdk : Sdk) (t : String)
    → any is_empty sdk.delivery_types ≡ false
    → ((is_supported_event_type sdk t ≡ true)
        ↔ ((any (λ d. d == trim_space t) sdk.delivery_types ≡ true) ⊎ IsCustom (trim_space t)))
      × ((requires_strict_schema_validation sdk t ≡ true)
          ↔ (any (λ d. d == trim_space t) sdk.delivery_types ≡ true))
unfolding requires_strict_schema_validation
is_supported_event_type_iff sdk t full =
    ((supported-cases sdk t, accepted-supported sdk t full), (λ h. h, λ h. h))
