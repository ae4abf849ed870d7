-- ===== src/Publisher.antt =====
-- The publisher of events, pkg/eventpublisher: the types of events, their subjects and the bodies
-- that are sent.
--
-- The texts of the clock are arguments: the source reads the time where it needs them. The CDEvents
-- package and json.Marshal are the fields of `Cdevents`.
pub mod Build
pub mod Tests
use ddash.Base.{
  String, ◌==◌, Bool, true, false, ◌||◌, ◌&&◌, not, Option, none, some, List, [], ◌∷◌,
  if◌then◌else◌,
}
use Prim.Native.String.{◌++◌}
use ddash.Base.Text.{trim_space, to_lower, is_empty, has_prefix, contains}
use ddash.Effect.{Err, Result, ok, err, other}
use ddash.Ingest.Sdk.{Bytes}
use ddash.Ingest.Validate.{and_then}

pub record Event : Type 0 where
  pub event_type : String
  pub source : String
  pub service : String
  pub environment : String
  pub artifact : String
  pub subject_id : String
  pub subject_type : String
  pub chain_id : String
  pub actor_name : String
  pub pipeline_run : String
  pub pipeline_url : String

-- The events that the CDEvents package constructs.
pub data Kind : Type 0 where
  service_deployed service_upgraded service_rolledback service_removed service_published : Kind
  environment_created environment_modified environment_deleted : Kind

-- What json.Marshal gets: texts and maps.
mutual
  pub data Json : Type 0 where
    text : String → Json
    object : Members → Json

  pub data Members : Type 0 where
    done : Members
    member : String → Json → Members → Members

-- The time, in seconds and in nanoseconds, and as time.RFC3339Nano, in UTC.
pub record Now : Type 0 where
  pub unix : String
  pub unix_nano : String
  pub rfc3339_nano : String

pub record Cdevents : Type 1 where
  pub Draft : Type 0
  -- NewServiceDeployedEvent and the like
  pub new_event : Kind → Result Draft
  pub set_source : String → Draft → Draft
  pub set_subject_id : String → Draft → Draft
  -- SetSubjectEnvironment with a reference that has this id
  pub set_subject_environment : String → Draft → Draft
  pub set_subject_artifact_id : String → Draft → Draft
  -- cdeventsapi.AsJsonBytes
  pub as_json_bytes : Draft → Result Bytes
  -- ServiceDeployedEventType.String() and the like
  pub type_name : Kind → String
  -- the verb %q of package fmt
  pub quote : String → String
  -- json.Marshal
  pub marshal : Json → Result Bytes

-- The value of the first row with a name: a `switch` over texts.
unfoldable pub switch : {A : Type 0} → String → List (String × A) → Option A
switch name [] = none
switch name (row ∷ rows) = let rest = switch name rows in if row.0 == name then some row.1 else rest

abbrev pub normal_types : List (String × String)
normal_types =
    ("", "service.deployed")
    ∷ ("dev.cdevents.service.deployed.0.3.0", "service.deployed")
    ∷ ("dev.cdevents.service.upgraded.0.3.0", "service.upgraded")
    ∷ ("dev.cdevents.service.rolledback.0.3.0", "service.rolledback")
    ∷ ("dev.cdevents.service.removed.0.3.0", "service.removed")
    ∷ ("dev.cdevents.service.published.0.3.0", "service.published")
    ∷ ("environment.created", "environment.created")
    ∷ ("dev.cdevents.environment.created.0.3.0", "environment.created")
    ∷ ("environment.modified", "environment.modified")
    ∷ ("dev.cdevents.environment.modified.0.3.0", "environment.modified")
    ∷ ("environment.deleted", "environment.deleted")
    ∷ ("dev.cdevents.environment.deleted.0.3.0", "environment.deleted")
    ∷ []

unfoldable pub normalize_type : String → String
normalize_type value =
    let v = to_lower (trim_space value) in
    elim (switch v normal_types) [ some resolved ↦ resolved | none ↦ v ]

unfoldable pub infer_subject_type : String → String
infer_subject_type resolved =
    if has_prefix resolved "service."
    then "service"
    else (if has_prefix resolved "environment."
        then "environment"
        else (if contains resolved ".pipeline."
            then "pipeline"
            else (if contains resolved ".change."
                then "change"
                else (if contains resolved ".artifact."
                    then "artifact"
                    else (if contains resolved ".incident." then "incident" else "service")))))

unfoldable pub infer_subject_id : String → String → String → String
infer_subject_id subject_type service environment =
    let s = trim_space service in
    let e = trim_space environment in
    let t = trim_space subject_type in
    if not (is_empty s)
    then (if contains s "/" then s else t ++ "/" ++ s)
    else (if (t == "environment") && not (is_empty e) then "environment/" ++ e else "")

unfoldable pub is_accepted_custom_type : String → Bool
is_accepted_custom_type event_type =
    let t = trim_space (to_lower event_type) in
    has_prefix t "dev.cdevents.pipeline."
    || has_prefix t "dev.cdevents.change."
    || has_prefix t "dev.cdevents.artifact."
    || has_prefix t "dev.cdevents.incident."

abbrev chain_member : String → Members
chain_member chain = if is_empty chain then done else member "chainId" (text chain) done

unfoldable pub generic_payload : Now → Event → Json
generic_payload now event = object (
    member "context"
      (object (
        member "id" (text now.unix_nano) (
          member "source" (text event.source) (
            member "type" (text event.event_type) (
              member "timestamp" (text now.rfc3339_nano) (
                member "specversion" (text "0.5.0") (chain_member (trim_space event.chain_id))))))))
      (member "subject"
        (object (
          member "id" (text event.subject_id) (
            member "source" (text event.source) (
              member "type" (text event.subject_type) (
                member "content"
                  (object (
                    member "environment"
                      (object (member "id" (text (trim_space event.environment)) done))
                      (member "artifactId" (text (trim_space event.artifact)) (
                        member "pipeline"
                          (object (
                            member "runId" (text (trim_space event.pipeline_run))
                              (member "url" (text (trim_space event.pipeline_url)) done)))
                          (member "actor"
                            (object (member "name" (text (trim_space event.actor_name)) done))
                            done)))))
                  done)))))
        done))
