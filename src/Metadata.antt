-- ===== src/Metadata.antt =====
-- The update of a service's metadata (apps/ddash/internal/app/services/metadata.go). The maps
-- `allowed`, `seen` and `present` are association lists and lists of keys.
pub mod Strict
pub mod Clean
pub mod Given
mod Tests
use ddash.Base.{
  String, ◌==◌, ℤ, nonpos, Bool, true, false, not, ◌&&◌, ◌||◌, Option, none, some, List, [], ◌∷◌,
  map, any, filter, if◌then◌else◌,
}
use ddash.Base.Text.{trim_space, to_lower, is_empty}
use ddash.Effect.{
  Err, Result, ok, err, required_metadata_missing, Exec, pure, raise, lift, ◌>>=◌, ◌>>◌,
}

-- ports.RequiredField
pub record RequiredField : Type 0 where
  pub label : String
  pub field_type : String
  pub filterable : Bool

pub record MetadataFieldUpdate : Type 0 where
  pub label : String
  pub value : String

-- ports.MetadataValue
pub record MetadataValue : Type 0 where
  pub label : String
  pub value : String

abbrev pub key_of : String → String
key_of label = to_lower (trim_space label)

-- `allowed[key]`: a later field with the same key overwrites an earlier one.
unfoldable pub allowed : String → List RequiredField → Option String
allowed key [] = none
allowed key (f ∷ fs) =
    let later = allowed key fs in
    let here = some (trim_space f.label) in
    elim later [
      | some label ↦ some label
      | none ↦ if not (is_empty (trim_space f.label)) && key_of f.label == key then here else none
    ]

abbrev add_allowed :
    Option String
    → MetadataFieldUpdate
    → List MetadataFieldUpdate
    → List MetadataFieldUpdate
    → List MetadataFieldUpdate
add_allowed none f skipped kept = skipped
add_allowed (some label) f skipped kept =
    (record { label = label; value = trim_space f.value }) ∷ kept

-- The loop that builds `clean`: the first update of each required field, under its own label.
unfoldable pub clean_fields :
    List RequiredField → List String → List MetadataFieldUpdate → List MetadataFieldUpdate
unfolding allowed
clean_fields required seen [] = []
clean_fields required seen (f ∷ fs) =
    let key = key_of f.label in
    let skipped = clean_fields required seen fs in
    let kept = clean_fields required (key ∷ seen) fs in
    if is_empty (trim_space f.label) || any (λ k. k == key) seen
    then skipped
    else add_allowed (allowed key required) f skipped kept

-- The values that are not empty.
unfoldable pub given_values : List MetadataFieldUpdate → List MetadataValue
given_values [] = []
given_values (f ∷ fs) =
    let rest = given_values fs in
    if is_empty f.value then rest else (record { label = f.label; value = f.value }) ∷ rest

abbrev pub is_present : List MetadataValue → String → Bool
is_present values key = any (λ v. key_of v.label == key) values

-- The strict test: every required field that has a label is present.
unfoldable pub all_present : List MetadataValue → List RequiredField → Bool
all_present values [] = true
all_present values (f ∷ fs) =
    let rest = all_present values fs in
    if is_empty (key_of f.label)
    then rest
    else if is_present values (key_of f.label)
    then rest
    else false

-- The values to store, or the error of the strict test.
unfoldable pub metadata_values :
    List RequiredField → List MetadataFieldUpdate → Bool → Result (List MetadataValue)
unfolding clean_fields given_values all_present
metadata_values required fields strict =
    let values = given_values (clean_fields required [] fields) in
    if strict && not (all_present values required) then err required_metadata_missing else ok values

-- The service, over the store's `ListOrganizationRequiredFields` and `ReplaceServiceMetadata`.
unfoldable pub update_service_metadata :
    {S : Type 0}
    → (ℤ → Exec S (List RequiredField))
    → (ℤ → String → List MetadataValue → Exec S Unit)
    → ℤ
    → String
    → List MetadataFieldUpdate
    → Bool
    → Exec S Unit
unfolding metadata_values
update_service_metadata list_required replace org service fields strict =
    if is_empty (trim_space service) || nonpos org then pure tt else do
      required ← list_required org
      values ← lift (metadata_values required fields strict)
      replace org (trim_space service) values
