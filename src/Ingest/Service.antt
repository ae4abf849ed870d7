-- ===== src/Ingest/Service.antt =====
-- The ingestion service over the event store.
pub mod Accepted
use ddash.Base.{
  String, ◌==◌, ℤ, nonpos, Bool, true, false, Option, none, some, List, [], ◌∷◌, map, find?,
  if◌then◌else◌,
}
use ddash.Effect.{
  Err, Result, ok, err, no_rows, is_no_rows, missing_auth_token, invalid_auth_token,
  invalid_signature, Exec, pure, raise, lift, attempt, ◌>>=◌, ◌>>◌,
}
use ddash.Store.{OrganizationRow, EventParams, Db, World, call}
use ddash.Store.Queries.{row_or_none}
use ddash.Events.Tx.{touch}
use ddash.Events.Append.{append_event_store_single, append_event_store_batch}
use ddash.Ingest.Sdk.{Bytes, Headers, Sdk, EventRecord, IngestCommand}
use ddash.Ingest.Credentials.{bearer_token, valid_signature}
use ddash.Ingest.Validate.{event_record}

abbrev pub has_token : String → OrganizationRow → Bool
has_token token o = o.auth_token == token

unfoldable pub get_organization_by_auth_token : String → Exec Db OrganizationRow
get_organization_by_auth_token token db =
    (row_or_none (find? (has_token token) db.organizations), db)

abbrev pub to_append_event_params : EventRecord → EventParams
to_append_event_params e = record {
  organization_id = e.organization_id;
  event_id = e.event_id;
  event_type = e.event_type;
  event_source = e.event_source;
  event_timestamp = e.event_timestamp;
  event_ts_ms = e.event_ts_ms;
  subject_id = e.subject_id;
  subject_source = e.subject_source;
  subject_type = e.subject_type;
  chain_id = e.chain_id;
  raw_event_json = e.raw_event_json;
}

-- `storeFactory.Open`, which can fail where the factory opens the database itself.
unfoldable pub open_store : Exec World Unit
open_store = touch

unfoldable pub append_event : EventRecord → Exec World Unit
append_event e = append_event_store_single (to_append_event_params e)

unfoldable pub append_events : List EventRecord → Exec World Unit
append_events [] = pure tt
append_events (e ∷ es) = append_event_store_batch (map to_append_event_params (e ∷ es))

unfoldable pub lookup_organization : String → Exec World OrganizationRow
unfolding open_store
lookup_organization token = do
  open_store
  org ← call (get_organization_by_auth_token token)
  if org.enabled then pure org else raise no_rows

-- `appendRecord` without a batcher.
unfoldable pub append_record : EventRecord → Exec World Unit
append_record e = do open_store; append_event e

-- The service, with the action that appends a record: `append_record` or the batcher's.
module _ (sdk : Sdk) (append : EventRecord → Exec World Unit) where
  abbrev pub ingest_signed : OrganizationRow → IngestCommand → Exec World Unit
  ingest_signed org cmd =
      if valid_signature sdk cmd.body org.webhook_secret cmd.signature_header
      then (do event ← lift (event_record sdk org.id cmd.headers cmd.body); append event)
      else raise invalid_signature

  abbrev pub ingest_found : IngestCommand → Result OrganizationRow → Exec World Unit
  ingest_found cmd (ok org) = ingest_signed org cmd
  ingest_found cmd (err e) = if is_no_rows e then raise invalid_auth_token else raise e

  abbrev pub ingest_with_token : IngestCommand → Result String → Exec World Unit
  ingest_with_token cmd (ok token) = do
    found ← attempt (lookup_organization token)
    ingest_found cmd found
  ingest_with_token cmd (err _) = raise missing_auth_token

  unfoldable pub ingest : IngestCommand → Exec World Unit
  unfolding lookup_organization
  ingest cmd = ingest_with_token cmd (bearer_token cmd.authorization_header)

  unfoldable pub ingest_for_organization : ℤ → Headers → Bytes → Exec World Unit
  ingest_for_organization org headers body =
      if nonpos org
      then raise invalid_auth_token
      else do event ← lift (event_record sdk org headers body); append event
