-- ===== src/Metadata/Tests.antt =====
-- An update with a field that is given twice, one that is not required, and one that is missing.
use ddash.Base.{ℕ, ◌≤◌, String, ◌==◌, Bool, true, false, List, [], ◌∷◌, count, All, ◌≡◌, refl}
use ddash.Base.Text.{is_empty}
use ddash.Effect.{ok, err, required_metadata_missing}
use ddash.Metadata.{RequiredField, MetadataFieldUpdate, metadata_values}

abbrev required : List RequiredField
required =
    (record { label = "Owner "; field_type = "text"; filterable = true })
    ∷ (record { label = "Tier"; field_type = "text"; filterable = false })
    ∷ []

abbrev fields : List MetadataFieldUpdate
fields =
    (record { label = "OWNER"; value = " ann " })
    ∷ (record { label = "owner"; value = "bob" })
    ∷ (record { label = "Team"; value = "core" })
    ∷ []

lenient :
    metadata_values required fields false ≡ ok ((record { label = "Owner"; value = "ann" }) ∷ [])
unfolding metadata_values ddash.Base.Text.trim_space ddash.Base.Text.to_lower
lenient = refl

refused : metadata_values required fields true ≡ err required_metadata_missing
unfolding metadata_values ddash.Base.Text.to_lower ddash.Base.Text.trim_space
refused = refl
