-- ===== src/Publisher/Tests.antt =====
-- A package that writes the subject of an event, on which the theorems about the publisher are tried.
use ddash.Base.{String, true, false, [], ◌∷◌, map, ◌≡◌, refl}
use ddash.Base.Text.{is_space, trim_space, to_lower, is_empty, contains}
use ddash.Base.Text.Solid.{is_solid, trim_space-solid}
use ddash.Effect.{ok}
use ddash.Ingest.Sdk.{Sdk}
use ddash.Ingest.Tests.{codec}
use ddash.Publisher.{
  Event, Kind, service_deployed, service_upgraded, service_rolledback, service_removed,
  service_published, environment_created, environment_modified, environment_deleted, Now, Cdevents,
  normalize_type, switch, infer_subject_type, infer_subject_id,
}
use ddash.Publisher.Build.{build_event_body}
use ddash.Publisher.Build.Supported.{
  all_kinds, SameTypes, IsSupported, build_event_body-IsSupported,
}
use ddash.Publisher.Build.Qualified.{Subjects, IsQualified, build_event_body-IsQualified}

abbrev type_name : Kind → String
type_name service_deployed = "dev.cdevents.service.deployed.0.3.0"
type_name service_upgraded = "dev.cdevents.service.upgraded.0.3.0"
type_name service_rolledback = "dev.cdevents.service.rolledback.0.3.0"
type_name service_removed = "dev.cdevents.service.removed.0.3.0"
type_name service_published = "dev.cdevents.service.published.0.3.0"
type_name environment_created = "dev.cdevents.environment.created.0.3.0"
type_name environment_modified = "dev.cdevents.environment.modified.0.3.0"
type_name environment_deleted = "dev.cdevents.environment.deleted.0.3.0"

abbrev writer : Cdevents
writer = record {
  Draft = String;
  new_event = λ _. ok "";
  set_source = λ _ draft. draft;
  set_subject_id = λ id draft. id;
  set_subject_environment = λ _ draft. draft;
  set_subject_artifact_id = λ _ draft. draft;
  as_json_bytes = λ _. ok (1 ∷ []);
  type_name = type_name;
  quote = λ s. s;
  marshal = λ _. ok (2 ∷ []);
}

abbrev receiver : Sdk
receiver = record codec { delivery_types = map type_name all_kinds }

abbrev noon : Now
noon = record {
  unix = "1771581600";
  unix_nano = "1771581600000000000";
  rfc3339_nano = "2026-02-20T10:00:00Z";
}

abbrev finished : Event
finished = record {
  event_type = " dev.cdevents.Pipeline.finished ";
  source = "";
  service = " billing";
  environment = "production";
  artifact = "";
  subject_id = "";
  subject_type = "";
  chain_id = "";
  actor_name = "ann";
  pipeline_run = "7";
  pipeline_url = "";
}

abbrev shipped : Event
shipped = record finished { event_type = "" }

type_name-is_solid : (k : Kind) → is_solid (type_name k) ≡ true
unfolding is_solid is_space
type_name-is_solid service_deployed = refl
type_name-is_solid service_upgraded = refl
type_name-is_solid service_rolledback = refl
type_name-is_solid service_removed = refl
type_name-is_solid service_published = refl
type_name-is_solid environment_created = refl
type_name-is_solid environment_modified = refl
type_name-is_solid environment_deleted = refl

type_name-full : (k : Kind) → is_empty (type_name k) ≡ false
type_name-full service_deployed = refl
type_name-full service_upgraded = refl
type_name-full service_rolledback = refl
type_name-full service_removed = refl
type_name-full service_published = refl
type_name-full environment_created = refl
type_name-full environment_modified = refl
type_name-full environment_deleted = refl

writer-SameTypes : SameTypes writer receiver
writer-SameTypes =
    (refl, λ k. (trim_space-solid (type_name k) (type_name-is_solid k), type_name-full k))

writer-Subjects : Subjects writer
writer-Subjects = record {
  subject_of = λ draft. draft;
  set = λ s draft. refl;
  environment_keeps = λ s draft. refl;
  artifact_keeps = λ s draft. refl;
}

custom_type : normalize_type " dev.cdevents.Pipeline.finished " ≡ "dev.cdevents.pipeline.finished"
unfolding normalize_type switch to_lower trim_space
custom_type = refl

built : build_event_body writer noon shipped ≡ ok (1 ∷ [], "dev.cdevents.service.deployed.0.3.0")
unfolding build_event_body trim_space infer_subject_id contains infer_subject_type normalize_type
    switch to_lower
built = refl

build_event_body-IsSupported_example : IsSupported receiver (build_event_body writer noon finished)
build_event_body-IsSupported_example =
    build_event_body-IsSupported writer receiver noon finished writer-SameTypes

build_event_body-IsQualified_example :
    IsQualified writer writer-Subjects (build_event_body writer noon finished)
build_event_body-IsQualified_example =
    build_event_body-IsQualified writer writer-Subjects noon finished
