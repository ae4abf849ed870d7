-- ===== src/Ingest/Service/Accepted.antt =====
-- A record reaches the store only for a request with the token of an enabled organization and a
-- signature under its secret.
use ddash.Base.{String, true, some, ◌≡◌, refl, ◌⊎◌, inl, inr, find?, Bool-cases, Option-cases}
use ddash.Effect.{Err, Result-cases, ok, err, no_rows, is_no_rows, Exec, ◌>>=◌}
use ddash.Store.{OrganizationRow, Db, World, after_call}
use ddash.Store.Calls.{call_cases}
use ddash.Events.Tx.{no_change, touch}
use ddash.Ingest.Sdk.{Sdk, EventRecord, IngestCommand}
use ddash.Ingest.Credentials.{bearer_token, valid_signature}
use ddash.Ingest.Validate.{event_record}
use ddash.Ingest.Service.{
  has_token, get_organization_by_auth_token, open_store, lookup_organization, ingest,
}

-- What the request proved of itself, and the record of its event.
pub record IsAuthentic (sdk : Sdk) (cmd : IngestCommand) (db : Db) (event : EventRecord)
    : Type 0 where
  pub token : String
  pub org : OrganizationRow
  pub bearer : bearer_token cmd.authorization_header ≡ ok token
  pub found : find? (has_token token) db.organizations ≡ some org
  pub enabled : org.enabled ≡ true
  pub signed : valid_signature sdk cmd.body org.webhook_secret cmd.signature_header ≡ true
  pub parsed : event_record sdk org.id cmd.headers cmd.body ≡ ok event

-- The token is of no enabled organization, or the store fails; or the organization is found.
lookup_cases :
    (token : String) (w : World)
    → ((lookup_organization token w).1.db ≡ w.db)
      × (((e : Err) × ((lookup_organization token w).0 ≡ err e))
          ⊎ ((org : OrganizationRow) × ((lookup_organization token w).0 ≡ ok org)
              × (find? (has_token token) w.db.organizations ≡ some org)
              × (org.enabled ≡ true)))
unfolding lookup_organization open_store touch get_organization_by_auth_token ◌>>=◌
lookup_cases token w = elim (call_cases no_change w) [
  | inl (e, _, failed) ↦ rw failed (refl, inl (e, refl))
  | inr opened ↦ elim (call_cases (get_organization_by_auth_token token) (after_call w w.db)) [
    | inl (e, _, failed) ↦ rw (opened, failed) (refl, inl (e, refl))
    | inr answer ↦ elim (Option-cases (find? (has_token token) w.db.organizations)) [
      | inl absent ↦ rw (opened, answer, absent) (refl, inl (no_rows, refl))
      | inr (org, found) ↦ elim (Bool-cases org.enabled) [
        | inl on ↦
            rw (opened, answer, found, on)
              (refl, inr (record org { enabled = true }, refl, refl, refl))
        | inr off ↦ rw (opened, answer, found, off) (refl, inl (no_rows, refl))
      ]
    ]
  ]
]

-- The service refuses a request with an error and changes no table, or the request is authentic
-- and the service hands the record of its event to the append action, on unchanged tables.
pub ingest-IsAuthentic :
    (sdk : Sdk) (append : EventRecord → Exec World Unit) (cmd : IngestCommand) (w : World)
    → ((e : Err) × ((ingest sdk append cmd w).0 ≡ err e) × ((ingest sdk append cmd w).1.db ≡ w.db))
      ⊎ ((event : EventRecord) × IsAuthentic sdk cmd w.db event
          × ((w' : World) × (w'.db ≡ w.db) × (ingest sdk append cmd w ≡ append event w')))
unfolding ingest ◌>>=◌
ingest-IsAuthentic sdk append cmd w = elim (Result-cases (bearer_token cmd.authorization_header)) [
  | inl (e, absent) ↦ rw absent (inl (_, refl, refl))
  | inr (token, bearer) ↦
      let (same, answer) = lookup_cases token w in
      elim answer [
        | inl (e, failed) ↦
            rw (bearer, failed)
              (elim (Bool-cases (is_no_rows e)) [
                | inl unknown ↦ rw unknown (inl (_, refl, same))
                | inr other ↦ rw other (inl (_, refl, same))
              ])
        | inr (org, passed, found, enabled) ↦
            elim (Bool-cases
              (valid_signature sdk cmd.body org.webhook_secret cmd.signature_header)) [
                | inr forged ↦ rw (bearer, passed, forged) (inl (_, refl, same))
                | inl signed ↦ elim (Result-cases (event_record sdk org.id cmd.headers cmd.body)) [
                  | inl (e, invalid) ↦ rw (bearer, passed, signed, invalid) (inl (e, refl, same))
                  | inr (event, parsed) ↦
                      rw (bearer, passed, signed, parsed)
                        (inr (
                          event,
                          (record {
                            token = token;
                            org = org;
                            bearer = bearer;
                            found = found;
                            enabled = enabled;
                            signed = signed;
                            parsed = parsed;
                          }),
                          ((lookup_organization token w).1, same, refl),
                        ))
                ]
              ]
      ]
]
