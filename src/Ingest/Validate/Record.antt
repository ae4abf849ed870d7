-- ===== src/Ingest/Validate/Record.antt =====
-- The record of an event: on which path each answer comes, and what the record holds.
use ddash.Base.{some, none, String, ℤ, true, false, ◌≡◌, ◌⊎◌}
use ddash.Base.Text.{trim_space, is_empty}
use ddash.Effect.{Err, Result, ok, err, invalid_schema, unsupported_type}
use ddash.Ingest.Sdk.{Sdk, EventRecord}
use ddash.Ingest.Validate.{is_supported_event_type, requires_strict_schema_validation}

-- The record of an event of an organization, field by field: the event's own values, with a subject
-- source only where it is not blank, and a subject type that is not empty and is the event's, where
-- the event has one.
abbrev pub IsRecordOf : (sdk : Sdk) → ℤ → sdk.Event → String → EventRecord → Type 0
IsRecordOf sdk org event raw r =
    ((r.organization_id ≡ org)
      × (r.event_id ≡ sdk.id event)
      × (r.event_type ≡ sdk.type_name event)
      × (r.event_source ≡ sdk.source event)
      × (r.event_timestamp ≡ sdk.timestamp_text event)
      × (r.event_ts_ms ≡ sdk.timestamp_ms event)
      × (r.subject_id ≡ sdk.subject_id event)
      × (r.raw_event_json ≡ raw))
    × (is_empty r.subject_type ≡ false)
    × ((is_empty (trim_space (sdk.type_subject event)) ≡ true)
        ⊎ (r.subject_type ≡ trim_space (sdk.type_subject event)))
    × (((is_empty (trim_space (sdk.subject_source event)) ≡ true) × (r.subject_source ≡ none))
        ⊎ (r.subject_source ≡ some (trim_space (sdk.subject_source event))))
    × (((sdk.chain_id event ≡ none) × (r.chain_id ≡ none))
        ⊎ ((c : String) × (sdk.chain_id event ≡ some c)
            × (((is_empty (trim_space c) ≡ true) × (r.chain_id ≡ none))
                ⊎ (r.chain_id ≡ some (trim_space c)))))

-- What becomes of an event that was parsed.
abbrev pub IsJudged : (sdk : Sdk) → ℤ → sdk.Event → Result EventRecord → Type 0
IsJudged sdk org event answer =
    ((is_supported_event_type sdk (sdk.type_name event) ≡ false) × (answer ≡ err unsupported_type))
    ⊎ ((is_supported_event_type sdk (sdk.type_name event) ≡ true)
        × (((requires_strict_schema_validation sdk (sdk.type_name event) ≡ true)
              × ((e : Err) × (sdk.validate event ≡ some e))
              × (answer ≡ err invalid_schema))
            ⊎ (((requires_strict_schema_validation sdk (sdk.type_name event) ≡ false)
                  ⊎ (sdk.validate event ≡ none))
                × (((e : Err) × (sdk.as_json_string event ≡ err e) × (answer ≡ err e))
                    ⊎ ((raw : String) × (r : EventRecord) × (sdk.as_json_string event ≡ ok raw)
                        × (answer ≡ ok r)
                        × IsRecordOf sdk org event raw r)))))
