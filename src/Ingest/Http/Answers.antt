-- ===== src/Ingest/Http/Answers.antt =====
-- What a sender may conclude from the status of the answer.
use ddash.Base.{ℕ, eqb, String, Bool, false, Option, none, some, ◌≡◌, refl, ◌⊎◌, inl, inr}
use ddash.Effect.{
  Err, Result, Result-cases, ok, err, Exec, ◌>>=◌, other, missing_auth_token, invalid_auth_token,
  invalid_signature, invalid_payload, invalid_schema, unsupported_type, ingest_busy, no_rows,
  cannot_delete_last_organization, organization_access_denied, organization_admin_required,
  organization_membership_required, cannot_remove_last_owner, required_metadata_missing,
  setup_intent_not_found, setup_intent_expired, context_done,
}
use ddash.Store.{World}
use ddash.Ingest.Sdk.{Bytes, Headers, Sdk, EventRecord}
use ddash.Ingest.Service.Accepted.{IsAuthentic, ingest-IsAuthentic}
use ddash.Ingest.Http.{
  Response, respond, handle, new_command, classify_ingest_error, write_ingest_http_error,
}

abbrev pub has_status : ℕ → Option ℕ → Bool
has_status code none = false
has_status code (some status) = eqb code status

abbrev pub answers_accepted : Result Response → Bool
answers_accepted (ok response) = has_status 202 response.status
answers_accepted (err _) = false

pub respond_refused : (e : Err) → answers_accepted (ok (respond (err e))) ≡ false
unfolding respond classify_ingest_error write_ingest_http_error
respond_refused missing_auth_token = refl
respond_refused invalid_auth_token = refl
respond_refused invalid_signature = refl
respond_refused invalid_payload = refl
respond_refused invalid_schema = refl
respond_refused unsupported_type = refl
respond_refused ingest_busy = refl
respond_refused no_rows = refl
respond_refused cannot_delete_last_organization = refl
respond_refused organization_access_denied = refl
respond_refused organization_admin_required = refl
respond_refused organization_membership_required = refl
respond_refused cannot_remove_last_owner = refl
respond_refused required_metadata_missing = refl
respond_refused setup_intent_not_found = refl
respond_refused setup_intent_expired = refl
respond_refused context_done = refl
respond_refused (other _) = refl

-- Either the answer is not 202, or the request is authentic, the append action succeeded on the
-- record of its event, on unchanged tables, and the handler changed nothing else.
pub handle-accepted :
    (sdk : Sdk) (append : EventRecord → Exec World Unit) (authorization signature : String)
    → (headers : Headers) (body : Bytes) (w : World)
    → (answers_accepted (handle sdk append authorization signature headers (ok body) w).0 ≡ false)
      ⊎ ((event : EventRecord) × IsAuthentic sdk
            (new_command authorization signature headers body)
            w.db
            event
          × ((w' : World) × (w'.db ≡ w.db)
              × ((append event w').0 ≡ ok tt)
              × ((handle sdk append authorization signature headers (ok body) w).1
                  ≡ (append event w').1)))
unfolding handle ◌>>=◌
handle-accepted sdk append authorization signature headers body w =
    elim (ingest-IsAuthentic sdk append (new_command authorization signature headers body) w) [
      | inl (e, refused, _) ↦ rw refused (inl (respond_refused e))
      | inr (event, authentic, (w', same, handed)) ↦ elim (Result-cases (append event w').0) [
        | inl (e, failed) ↦ rw (handed, failed) (inl (respond_refused e))
        | inr (tt, passed) ↦ rw handed (inr (event, authentic, (w', same, passed, refl)))
      ]
    ]
