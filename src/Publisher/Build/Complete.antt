-- ===== src/Publisher/Build/Complete.antt =====
-- Which events are built, and under which name.
use ddash.Base.{any, String, Bool, none, some, ◌≡◌}
use ddash.Base.Text.{has_prefix}
use ddash.Effect.{Result, ok}
use ddash.Ingest.Sdk.{Bytes}
use ddash.Ingest.Validate.{allowed_type_prefixes}
use ddash.Ingest.Validate.Types.{IsCustom}
use ddash.Publisher.{
  Kind, service_deployed, service_upgraded, service_rolledback, service_removed, service_published,
  environment_created, environment_modified, environment_deleted, Json, Cdevents, switch,
  normal_types,
}

-- The CDEvents package and json.Marshal give no error.
abbrev pub IsWorking : Cdevents → Type 0
IsWorking c =
    ((k : Kind) → ((draft : c.Draft) × (c.new_event k ≡ ok draft)))
    × ((draft : c.Draft) → ((body : Bytes) × (c.as_json_bytes draft ≡ ok body)))
    × ((json : Json) → ((body : Bytes) × (c.marshal json ≡ ok body)))

-- The answer is a body with the type.
abbrev pub IsBuilt : String → Result (Bytes × String) → Type 0
IsBuilt t r = (body : Bytes) × (r ≡ ok (body, t))

-- The name of a kind in the events' own catalog, short and with its version.
abbrev pub short : Kind → String
short service_deployed = "service.deployed"
short service_upgraded = "service.upgraded"
short service_rolledback = "service.rolledback"
short service_removed = "service.removed"
short service_published = "service.published"
short environment_created = "environment.created"
short environment_modified = "environment.modified"
short environment_deleted = "environment.deleted"

abbrev pub versioned : Kind → String
versioned service_deployed = "dev.cdevents.service.deployed.0.3.0"
versioned service_upgraded = "dev.cdevents.service.upgraded.0.3.0"
versioned service_rolledback = "dev.cdevents.service.rolledback.0.3.0"
versioned service_removed = "dev.cdevents.service.removed.0.3.0"
versioned service_published = "dev.cdevents.service.published.0.3.0"
versioned environment_created = "dev.cdevents.environment.created.0.3.0"
versioned environment_modified = "dev.cdevents.environment.modified.0.3.0"
versioned environment_deleted = "dev.cdevents.environment.deleted.0.3.0"

-- The name under which a type, in small letters and without blanks around it, is built.
pub data Names (c : Cdevents) (t : String) : String → Type 0 where
  spelled_short : (k : Kind) → t ≡ short k → Names c t (c.type_name k)
  spelled_versioned : (k : Kind) → t ≡ versioned k → Names c t (c.type_name k)
  unspelled : t ≡ "" → Names c t (c.type_name service_deployed)
  custom : IsCustom t → Names c t t

-- What `normalize_type` makes of such a text.
abbrev normal : String → String
normal v = elim (switch v normal_types) [ some resolved ↦ resolved | none ↦ v ]

-- The text begins as a custom type does.
abbrev begins_custom : String → Bool
begins_custom t = any (λ prefix. has_prefix t prefix) allowed_type_prefixes
