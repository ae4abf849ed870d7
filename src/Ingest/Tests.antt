-- ===== src/Ingest/Tests.antt =====
-- An office that ingests events from a sender with a small codec, on which the theorems about
-- ingestion are tried.
use ddash.Base.{
  ℕ, String, ◌==◌, ℤ, pos, Bool, true, false, List, [], ◌∷◌, Option, none, some, All, any, ◌≡◌, ◌⊎◌,
  ◌↔◌, inl, inr, refl, length,
}
use ddash.Base.Text.{trim_space, to_lower, is_empty, has_prefix, trim_prefix, drop_chars}
use ddash.Effect.{Err, other, ok, err, Result, Exec, ◌>>=◌, unsupported_type, invalid_schema}
use ddash.Store.{no_settings, no_links, World, call}
use ddash.Ingest.Sdk.{Bytes, Sdk, EventRecord, IngestCommand}
use ddash.Ingest.Credentials.{bearer_token, valid_signature}
use ddash.Ingest.Credentials.Laws.{valid_signature_iff}
use ddash.Ingest.Validate.{
  allowed_type_prefixes, parse_incoming_event, is_supported_event_type, passes_schema, new_record,
  event_record, requires_strict_schema_validation,
}
use ddash.Ingest.Validate.Types.{IsCustom, is_supported_event_type_iff}
use ddash.Ingest.Service.{append_record, ingest}
use ddash.Ingest.Service.Accepted.{IsAuthentic, ingest-IsAuthentic}
use ddash.Ingest.Http.{handle, new_command}
use ddash.Ingest.Http.Answers.{answers_accepted, handle-accepted}
use ddash.Ingest.Batcher.{Request, Batcher, new_ingest_batcher, append, receive, tick}
use ddash.Ingest.Batcher.Steps.{
  answered, Run, begin, call_accepted, loop_receives, loop_ticks, IsConsistent, Run-IsConsistent,
}
use ddash.Ingest.Batcher.Drain.{drain, drain-answers}
use ddash.Ingest.Batcher.Acknowledged.{IsHonest, Run-IsDurable}

-- A body with any byte is an event of a service that was deployed.
abbrev pub parse : Bytes → Result Bytes
parse [] = err (other "unexpected end of JSON input")
parse (b ∷ bs) = ok (b ∷ bs)

abbrev pub codec : Sdk
codec = record {
  Event = Bytes;
  CloudEvent = Bytes;
  new_from_json_bytes = parse;
  to_event = λ _ body. ok (some body);
  data_as = λ body. ok body;
  delivery_types = "dev.cdevents.service.deployed.0.2.0" ∷ [];
  validate = λ _. none;
  type_name = λ _. "dev.cdevents.service.deployed.0.2.0";
  type_subject = λ _. "service";
  parse_type_subject = λ _. ok "service";
  as_json_string = λ _. ok "{}";
  chain_id = λ _. none;
  subject_source = λ _. "";
  id = λ _. "a";
  source = λ _. "ci";
  subject_id = λ _. "app/billing";
  timestamp_text = λ _. "2026-02-20T10:00:00Z";
  timestamp_ms = λ _. pos 1771581600000;
  hmac_sha256_hex = λ _ _. "abc0";
}

abbrev pub office : World
office = record {
  db = record {
    organizations =
        (record {
          id = pos 1;
          name = "acme";
          auth_token = "token";
          webhook_secret = "secret";
          enabled = true;
          join_code = none;
        })
        ∷ [];
    next_organization = 2;
    users = [];
    next_user = 1;
    members = [];
    join_requests = [];
    log = record { rows = []; next_seq = 1 };
    projected = [];
    links = no_links;
    dependencies = [];
    settings = no_settings;
  };
  faults = [];
  entropy = [];
}

abbrev command : IngestCommand
command = new_command " Bearer token" "ABC0" [] (1 ∷ [])

abbrev event : EventRecord
event = new_record codec (pos 1) (1 ∷ []) "{}"

-- The run stores the event.
ingested : length (ingest codec append_record command office).1.db.log.rows ≡ 1
unfolding ingest bearer_token has_prefix trim_space trim_prefix drop_chars ◌>>=◌
    ddash.Events.Tx.touch call ddash.Ingest.Service.get_organization_by_auth_token valid_signature
    to_lower event_record parse_incoming_event is_supported_event_type
    requires_strict_schema_validation append_record ddash.Ingest.Service.append_event
    ddash.Events.Append.append_event_store_single ddash.Base.int_eq ddash.Base.Text.split_char
    ddash.Effect.is_no_rows ddash.Events.Append.append_event_with_projections
    ddash.Events.Append.project_event ddash.Events.Append.service_name_from_subject_id
    ddash.Events.Log.append_event_store ddash.Events.Log.project ddash.Events.Tx.with_tx
    ddash.Ingest.Validate.non_blank ddash.Ingest.Validate.subject_type_of
ingested = refl

ingest-IsAuthentic_example :
    ((e : Err) × ((ingest codec append_record command office).0 ≡ err e)
      × ((ingest codec append_record command office).1.db ≡ office.db))
    ⊎ ((e : EventRecord) × IsAuthentic codec command office.db e
        × ((w' : World) × (w'.db ≡ office.db)
            × (ingest codec append_record command office ≡ append_record e w')))
ingest-IsAuthentic_example = ingest-IsAuthentic codec append_record command office

handle-accepted_example :
    (answers_accepted (handle codec append_record " Bearer token" "ABC0" [] (ok (1 ∷ [])) office).0
      ≡ false)
    ⊎ ((e : EventRecord) × IsAuthentic codec
          (new_command " Bearer token" "ABC0" [] (1 ∷ []))
          office.db
          e
        × ((w' : World) × (w'.db ≡ office.db)
            × ((append_record e w').0 ≡ ok tt)
            × ((handle codec append_record " Bearer token" "ABC0" [] (ok (1 ∷ [])) office).1
                ≡ (append_record e w').1)))
handle-accepted_example =
    handle-accepted codec append_record " Bearer token" "ABC0" [] (1 ∷ []) office

valid_signature_iff_example :
    (valid_signature codec (1 ∷ []) "secret" "ABC0 " ≡ true)
    ↔ (to_lower (trim_space "ABC0 ") ≡ "abc0")
valid_signature_iff_example = valid_signature_iff codec (1 ∷ []) "secret" "ABC0 " refl

is_supported_event_type_iff_example :
    ((is_supported_event_type codec " dev.cdevents.change.merged.0.2.0" ≡ true) ↔ (
      (any (λ d. d == trim_space " dev.cdevents.change.merged.0.2.0") codec.delivery_types ≡ true)
      ⊎ IsCustom (trim_space " dev.cdevents.change.merged.0.2.0")))
    × ((requires_strict_schema_validation codec " dev.cdevents.change.merged.0.2.0" ≡ true) ↔ (
        any (λ d. d == trim_space " dev.cdevents.change.merged.0.2.0") codec.delivery_types ≡ true))
is_supported_event_type_iff_example =
    is_supported_event_type_iff codec " dev.cdevents.change.merged.0.2.0" refl

abbrev request : Request
request = record { ticket = 1; event = event }

abbrev started : Batcher
started = new_ingest_batcher (pos 2) office

taken : (append request started).0 ≡ ok tt
unfolding append new_ingest_batcher
taken = refl

-- One request is accepted, received and flushed at a tick.
served : Run started (request ∷ []) (tick (receive (append request started).1))
served = loop_ticks (loop_receives (call_accepted request begin taken))

answered_once : length (tick (receive (append request started).1)).replies ≡ 1
unfolding append new_ingest_batcher receive tick ◌>>=◌ ddash.Ingest.Service.open_store
    ddash.Events.Tx.touch call ddash.Ingest.Service.append_events
    ddash.Events.Append.append_event_store_batch ddash.Events.Tx.with_tx
    ddash.Events.Append.append_event_with_projections ddash.Events.Log.append_event_store
    ddash.Events.Append.project_event trim_space to_lower ddash.Ingest.Validate.subject_type_of
    ddash.Events.Log.project ddash.Events.Append.service_name_from_subject_id
    ddash.Base.Text.split_char ddash.Base.int_eq
answered_once = refl

Run-IsConsistent_example : IsConsistent (request ∷ []) (tick (receive (append request started).1))
Run-IsConsistent_example =
    Run-IsConsistent (pos 2) office (request ∷ []) (tick (receive (append request started).1))
      served

Run-IsDurable_example :
    All
      (IsHonest (tick (receive (append request started).1)).world.db.log)
      (tick (receive (append request started).1)).replies
Run-IsDurable_example =
    Run-IsDurable (pos 2) office (request ∷ []) (tick (receive (append request started).1)) refl
      served

-- The request still waits in the queue.
waiting : Run started (request ∷ []) (append request started).1
waiting = call_accepted request begin taken

drain-answers_example : answered (drain (append request started).1) ≡ request ∷ []
drain-answers_example =
    drain-answers (pos 2) office (request ∷ []) (append request started).1 waiting
