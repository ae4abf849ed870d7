-- ===== src/Metadata/Strict.antt =====
-- What an update of metadata stores, and what the strict test promises.
use ddash.Base.{not, ◌&&◌, any, find?, ◌≤◌, String, Bool, false, List, count, All, ◌≡◌}
use ddash.Base.Text.{is_empty}
use ddash.Metadata.{RequiredField, MetadataFieldUpdate, MetadataValue, key_of}
use ddash.Metadata.Given.{wanted}
use ddash.Metadata.Clean.{IsCanonical, has_value_key}

-- A required field that has a label and no value.
abbrev pub is_missing : List MetadataValue → RequiredField → Bool
is_missing values f =
    not (is_empty (key_of f.label)) && not (any (has_value_key (key_of f.label)) values)

-- The values that stand for an update: under each key the one that was wanted, once, and each under
-- the label of its required field.
abbrev pub IsUpdate : List RequiredField → List MetadataFieldUpdate → List MetadataValue → Type 0
IsUpdate required fields values =
    ((key : String) → find? (has_value_key key) values ≡ wanted required fields key)
    × ((key : String) → count (has_value_key key) values ≤ 1)
    × All (λ v. IsCanonical required v.label × (is_empty v.value ≡ false)) values
