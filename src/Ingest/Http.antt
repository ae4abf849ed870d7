-- ===== src/Ingest/Http.antt =====
-- The webhook handler, and the classes of its errors.
pub mod Answers
use ddash.Base.{
  ℕ, String, Option, none, some, List, [], ◌∷◌, take, Bool, true, false, if◌then◌else◌,
}
use ddash.Effect.{
  Err, Outcome, Result, ok, err, Exec, pure, attempt, ◌>>=◌, missing_auth_token, invalid_auth_token,
  invalid_signature, invalid_payload, invalid_schema, unsupported_type, ingest_busy,
}
use ddash.Store.{World}
use ddash.Ingest.Sdk.{Bytes, Headers, Sdk, EventRecord, IngestCommand}
use ddash.Ingest.Service.{ingest}

pub data IngestErrorKind : Type 0 where
  unknown missing_auth invalid_auth bad_signature bad_payload : IngestErrorKind
  bad_schema unsupported busy : IngestErrorKind

unfoldable pub classify_ingest_error : Outcome → IngestErrorKind
classify_ingest_error (ok _) = unknown
classify_ingest_error (err missing_auth_token) = missing_auth
classify_ingest_error (err invalid_auth_token) = invalid_auth
classify_ingest_error (err invalid_signature) = bad_signature
classify_ingest_error (err invalid_payload) = bad_payload
classify_ingest_error (err invalid_schema) = bad_schema
classify_ingest_error (err unsupported_type) = unsupported
classify_ingest_error (err ingest_busy) = busy
classify_ingest_error (err _) = unknown

-- What the handler wrote, if anything, and the error that it returned, if any.
pub record Response : Type 0 where
  pub status : Option ℕ
  pub text : String
  pub error : Option Err

abbrev pub refusal : ℕ → String → Response
refusal status text = record { status = some status; text = text; error = none }

-- `writeIngestHTTPError`: none where it handles nothing.
unfoldable pub write_ingest_http_error : IngestErrorKind → Option Response
write_ingest_http_error unknown = none
write_ingest_http_error missing_auth = some (refusal 401 "missing auth token")
write_ingest_http_error invalid_auth = some (refusal 401 "invalid auth token")
write_ingest_http_error bad_signature = some (refusal 401 "invalid signature")
write_ingest_http_error bad_payload = some (refusal 400 "invalid cdevent payload")
write_ingest_http_error bad_schema = some (refusal 400 "invalid cdevent schema")
write_ingest_http_error unsupported = some (refusal 422 "unsupported cdevent type")
write_ingest_http_error busy = some (refusal 503 "ingestion busy")

abbrev unhandled : Outcome → Response
unhandled (ok _) = record { status = some 202; text = ""; error = none }
unhandled (err e) = record { status = none; text = ""; error = some e }

abbrev handled_or : Option Response → Outcome → Response
handled_or (some response) result = response
handled_or none result = unhandled result

unfoldable pub respond : Outcome → Response
unfolding classify_ingest_error write_ingest_http_error
respond result = handled_or (write_ingest_http_error (classify_ingest_error result)) result

abbrev pub max_payload_bytes : ℕ
max_payload_bytes = 1048576

abbrev pub new_command : String → String → Headers → Bytes → IngestCommand
new_command authorization signature headers body = record {
  authorization_header = authorization;
  signature_header = signature;
  headers = headers;
  body = take max_payload_bytes body;
}

-- The body as it was read, or the error of the read.
unfoldable pub handle :
    Sdk
    → (EventRecord → Exec World Unit)
    → String
    → String
    → Headers
    → Result Bytes
    → Exec World Response
unfolding respond
handle sdk append authorization signature headers (err e) =
    pure (record { status = some 400; text = "invalid payload"; error = some e })
handle sdk append authorization signature headers (ok body) = do
  result ← attempt (ingest sdk append (new_command authorization signature headers body))
  pure (respond result)
