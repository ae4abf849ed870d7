-- ===== src/Ingest/Validate.antt =====
-- From the body of a request to the record of its event.
pub mod Types
pub mod Record
use ddash.Base.{
  String, ◌==◌, ℤ, Bool, true, false, ◌||◌, Option, none, some, List, [], ◌∷◌, any, if◌then◌else◌,
}
use ddash.Base.Text.{trim_space, is_empty, has_prefix}
use ddash.Effect.{Err, Result, ok, err, other, invalid_payload, invalid_schema, unsupported_type}
use ddash.Ingest.Sdk.{Bytes, Headers, Sdk, EventRecord}

abbrev pub allowed_type_prefixes : List String
allowed_type_prefixes =
    "dev.cdevents.pipeline." ∷ "dev.cdevents.change." ∷ "dev.cdevents.artifact."
    ∷ "dev.cdevents.incident." ∷ []

unfoldable pub requires_strict_schema_validation : Sdk → String → Bool
requires_strict_schema_validation sdk t = any (λ d. d == trim_space t) sdk.delivery_types

unfoldable pub is_supported_event_type : Sdk → String → Bool
is_supported_event_type sdk t =
    if is_empty (trim_space t)
    then false
    else any (λ d. d == trim_space t) sdk.delivery_types
      || any (λ prefix. has_prefix (trim_space t) prefix) allowed_type_prefixes

-- The rest of a function behind a result.
abbrev pub and_then {ℓ κ} : {A : Type ℓ} {B : Type κ} → Result A → (A → Result B) → Result B
and_then (ok a) f = f a
and_then (err e) f = err e

abbrev non_empty : Bytes → Result Bytes
non_empty [] = err (other "cloud event data is empty")
non_empty (b ∷ bs) = ok (b ∷ bs)

abbrev pub cloud_event_data : (sdk : Sdk) → Option sdk.CloudEvent → Result Bytes
cloud_event_data sdk none = err (other "cloud event is nil")
cloud_event_data sdk (some event) = and_then (sdk.data_as event) non_empty

-- A structured event in the body, or else a CloudEvent of the request whose data is one.
unfoldable pub parse_incoming_event : (sdk : Sdk) → Headers → Bytes → Result sdk.Event
parse_incoming_event sdk headers body = elim (sdk.new_from_json_bytes body) [
  | ok event ↦ ok event
  | err _ ↦
      and_then (sdk.to_event headers body)
        (λ event. and_then (cloud_event_data sdk event) sdk.new_from_json_bytes)
]

abbrev pub subject_or_empty : Result String → String
subject_or_empty (ok s) = trim_space s
subject_or_empty (err _) = ""

unfoldable pub subject_type_of : (sdk : Sdk) → sdk.Event → String
subject_type_of sdk event =
    let given = trim_space (sdk.type_subject event) in
    let parsed = subject_or_empty (sdk.parse_type_subject (sdk.type_name event)) in
    if is_empty given then (if is_empty parsed then "unknown" else parsed) else given

unfoldable pub non_blank : String → Option String
non_blank s = if is_empty (trim_space s) then none else some (trim_space s)

abbrev chain_id_of : Option String → Option String
chain_id_of none = none
chain_id_of (some c) = non_blank c

abbrev pub new_record : (sdk : Sdk) → ℤ → sdk.Event → String → EventRecord
new_record sdk org event raw = record {
  organization_id = org;
  event_id = sdk.id event;
  event_type = sdk.type_name event;
  event_source = sdk.source event;
  event_timestamp = sdk.timestamp_text event;
  event_ts_ms = sdk.timestamp_ms event;
  subject_id = sdk.subject_id event;
  subject_source = non_blank (sdk.subject_source event);
  subject_type = subject_type_of sdk event;
  chain_id = chain_id_of (sdk.chain_id event);
  raw_event_json = raw;
}

-- `cdeventsapi.Validate`, which only the delivery types must pass.
abbrev pub passes_schema : (sdk : Sdk) → sdk.Event → Bool
passes_schema sdk event =
    if requires_strict_schema_validation sdk (sdk.type_name event)
    then elim (sdk.validate event) [ none ↦ true | some _ ↦ false ]
    else true

abbrev pub checked_record : (sdk : Sdk) → ℤ → sdk.Event → Result EventRecord
checked_record sdk org event =
    if is_supported_event_type sdk (sdk.type_name event)
    then (if passes_schema sdk event
        then and_then (sdk.as_json_string event) (λ raw. ok (new_record sdk org event raw))
        else err invalid_schema)
    else err unsupported_type

abbrev parsed_record : (sdk : Sdk) → ℤ → Result sdk.Event → Result EventRecord
parsed_record sdk org (ok event) = checked_record sdk org event
parsed_record sdk org (err _) = err invalid_payload

unfoldable pub event_record : Sdk → ℤ → Headers → Bytes → Result EventRecord
event_record sdk org headers body = parsed_record sdk org (parse_incoming_event sdk headers body)
