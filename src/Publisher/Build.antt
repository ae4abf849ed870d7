-- ===== src/Publisher/Build.antt =====
-- `BuildEventBody`.
pub mod Supported
pub mod Complete
pub mod Qualified
use Prim.Native.String.{◌++◌}
use ddash.Base.{
  String, ◌==◌, Bool, true, false, ◌||◌, ◌&&◌, not, Option, none, some, List, [], ◌∷◌,
  if◌then◌else◌,
}
use ddash.Base.Text.{trim_space, is_empty, has_prefix, contains}
use ddash.Effect.{Err, Result, ok, err, other}
use ddash.Ingest.Sdk.{Bytes}
use ddash.Ingest.Validate.{and_then}
use ddash.Publisher.{
  Event, Kind, service_deployed, service_upgraded, service_rolledback, service_removed,
  service_published, environment_created, environment_modified, environment_deleted, Now, Cdevents,
  switch, normalize_type, infer_subject_type, infer_subject_id, is_accepted_custom_type,
  generic_payload,
}

abbrev pub kinds : List (String × Kind)
kinds =
    ("service.deployed", service_deployed)
    ∷ ("service.upgraded", service_upgraded)
    ∷ ("service.rolledback", service_rolledback)
    ∷ ("service.removed", service_removed)
    ∷ ("service.published", service_published)
    ∷ ("environment.created", environment_created)
    ∷ ("environment.modified", environment_modified)
    ∷ ("environment.deleted", environment_deleted)
    ∷ []

-- The event with its fields trimmed and inferred, before a subject id is asked for.
abbrev pub resolved_event : Now → Event → Event
resolved_event now event =
    let service = trim_space event.service in
    let environment = trim_space event.environment in
    let source = trim_space event.source in
    let resolved = normalize_type event.event_type in
    let artifact = trim_space event.artifact in
    let given_type = trim_space event.subject_type in
    let given_id = trim_space event.subject_id in
    let subject_type = if is_empty given_type then infer_subject_type resolved else given_type in
    let inferred = infer_subject_id subject_type service environment in
    record {
      event_type = resolved;
      source = if is_empty source then "ci/pipeline" else source;
      service = service;
      environment = environment;
      artifact =
          if is_empty artifact && has_prefix resolved "service."
          then "pkg:generic/" ++ service ++ "@" ++ now.unix
          else artifact;
      subject_id = if is_empty given_id then inferred else given_id;
      subject_type = subject_type;
      chain_id = trim_space event.chain_id;
      actor_name = trim_space event.actor_name;
      pipeline_run = trim_space event.pipeline_run;
      pipeline_url = trim_space event.pipeline_url;
    }

abbrev pub qualified_subject : String → String → String
qualified_subject subject_type id =
    if not (contains id "/") && not (is_empty subject_type) then subject_type ++ "/" ++ id else id

-- The setters that an arm of the switch calls, in their order.
abbrev with_artifact : (c : Cdevents) → Event → String → c.Draft → c.Draft
with_artifact c e subject draft = c.set_subject_artifact_id e.artifact (
    c.set_subject_environment e.environment
      (c.set_subject_id subject (c.set_source e.source draft)))

abbrev with_environment : (c : Cdevents) → Event → String → c.Draft → c.Draft
with_environment c e subject draft =
    c.set_subject_environment e.environment (c.set_subject_id subject (c.set_source e.source draft))

abbrev with_subject : (c : Cdevents) → Event → String → c.Draft → c.Draft
with_subject c e subject draft = c.set_subject_id subject (c.set_source e.source draft)

abbrev needs_service : {A : Type 0} → Event → Result A → Result A
needs_service e rest =
    if is_empty e.service || is_empty e.environment
    then err (other "service and environment are required for service events")
    else rest

abbrev needs_environment : {A : Type 0} → Event → Result A → Result A
needs_environment e rest =
    if is_empty e.environment
    then err (other "environment is required for environment events")
    else rest

abbrev pub published : (c : Cdevents) → Kind → (c.Draft → c.Draft) → Result (Bytes × String)
published c k fill =
    and_then (c.new_event k)
      (λ draft. and_then (c.as_json_bytes (fill draft)) (λ body. ok (body, c.type_name k)))

abbrev pub build_kind : Cdevents → Event → String → Kind → Result (Bytes × String)
build_kind c e subject service_deployed =
    needs_service e (published c service_deployed (with_artifact c e subject))
build_kind c e subject service_upgraded =
    needs_service e (published c service_upgraded (with_artifact c e subject))
build_kind c e subject service_rolledback =
    needs_service e (published c service_rolledback (with_artifact c e subject))
build_kind c e subject service_removed =
    needs_service e (published c service_removed (with_environment c e subject))
build_kind c e subject service_published =
    needs_service e (published c service_published (with_environment c e subject))
build_kind c e subject environment_created =
    needs_environment e (published c environment_created (with_subject c e subject))
build_kind c e subject environment_modified =
    needs_environment e (published c environment_modified (with_subject c e subject))
build_kind c e subject environment_deleted =
    needs_environment e (published c environment_deleted (with_subject c e subject))

-- `buildGenericEventBody`.
abbrev pub build_generic_event_body : Cdevents → Now → Event → Result Bytes
build_generic_event_body c now event = c.marshal (generic_payload now event)

-- `raw` is the type as the caller spelled it.
abbrev pub build_custom : Cdevents → Now → String → Event → String → Result (Bytes × String)
build_custom c now raw e subject =
    if is_accepted_custom_type e.event_type
    then and_then
        (build_generic_event_body c now (record {
          event_type = e.event_type;
          source = e.source;
          service = "";
          environment = e.environment;
          artifact = e.artifact;
          subject_id = subject;
          subject_type = e.subject_type;
          chain_id = e.chain_id;
          actor_name = e.actor_name;
          pipeline_run = e.pipeline_run;
          pipeline_url = e.pipeline_url;
        }))
        (λ body. ok (body, e.event_type))
    else err (other ("unsupported event type " ++ c.quote raw))

abbrev pub build_resolved : Cdevents → Now → String → Event → Result (Bytes × String)
build_resolved c now raw e =
    let subject = qualified_subject e.subject_type e.subject_id in
    if is_empty e.subject_id
    then err
        (other "subject is required (set subject-id, service, or environment based on event type)")
    else elim (switch e.event_type kinds) [
      | some k ↦ build_kind c e subject k
      | none ↦ build_custom c now raw e subject
    ]

unfoldable pub build_event_body : Cdevents → Now → Event → Result (Bytes × String)
build_event_body c now event = build_resolved c now event.event_type (resolved_event now event)
