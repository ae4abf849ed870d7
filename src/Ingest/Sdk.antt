-- ===== src/Ingest/Sdk.antt =====
-- What the ingestion takes from the CDEvents and CloudEvents packages and from crypto/hmac, and the
-- data that it passes on.
use ddash.Base.{ℕ, String, ℤ, Option, List}
use ddash.Effect.{Err, Result}

abbrev pub Bytes : Type 0
Bytes = List ℕ

-- http.Header
abbrev pub Headers : Type 0
Headers = List (String × String)

pub record Sdk : Type 1 where
  -- cdeventsapi.CDEventV04
  pub Event : Type 0
  -- cloudevents' event.Event
  pub CloudEvent : Type 0
  -- cdeventsv05.NewFromJsonBytes
  pub new_from_json_bytes : Bytes → Result Event
  -- NewMessageFromHttpRequest and ToEvent; none for a nil event
  pub to_event : Headers → Bytes → Result (Option CloudEvent)
  -- DataAs into a json.RawMessage
  pub data_as : CloudEvent → Result Bytes
  -- the constants of the types in `allowedDeliveryTypes`
  pub delivery_types : List String
  -- cdeventsapi.Validate: the error, if any
  pub validate : Event → Option Err
  -- GetType().String() and GetType().Subject
  pub type_name : Event → String
  pub type_subject : Event → String
  -- the subject of cdeventsapi.ParseType
  pub parse_type_subject : String → Result String
  -- cdeventsapi.AsJsonString
  pub as_json_string : Event → Result String
  -- GetChainId, where the event is a CDEventReaderV04
  pub chain_id : Event → Option String
  pub subject_source : Event → String
  pub id : Event → String
  pub source : Event → String
  pub subject_id : Event → String
  -- GetTimestamp, as RFC 3339 text in UTC and in milliseconds
  pub timestamp_text : Event → String
  pub timestamp_ms : Event → ℤ
  -- the hexadecimal HMAC-SHA256 of a body under a secret
  pub hmac_sha256_hex : String → Bytes → String

-- ports.EventRecord
pub record EventRecord : Type 0 where
  pub organization_id : ℤ
  pub event_id : String
  pub event_type : String
  pub event_source : String
  pub event_timestamp : String
  pub event_ts_ms : ℤ
  pub subject_id : String
  pub subject_source : Option String
  pub subject_type : String
  pub chain_id : Option String
  pub raw_event_json : String

pub record IngestCommand : Type 0 where
  pub authorization_header : String
  pub signature_header : String
  pub headers : Headers
  pub body : Bytes
