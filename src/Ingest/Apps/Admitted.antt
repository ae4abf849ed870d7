-- ===== src/Ingest/Apps/Admitted.antt =====
-- What a request shows that an app's handler accepts, whatever resolves its id.
use ddash.Base.{
  ℤ, nonpos, true, false, Option, none, some, take, ◌≡◌, refl, ◌⊎◌, inl, inr, Bool-cases,
}
use ddash.Base.Text.{trim_space, is_empty}
use ddash.Base.Text.Parse.{parse_int}
use ddash.Effect.{Result, Result-cases, ok, err, Exec, ◌>>=◌, is_no_rows, invalid_auth_token, pure}
use ddash.Store.{World}
use ddash.Store.Adapter.{Organization}
use ddash.Ingest.Sdk.{Bytes, Headers, Sdk, EventRecord}
use ddash.Ingest.Validate.{event_record}
use ddash.Ingest.Service.{ingest_for_organization}
use ddash.Ingest.Http.{Response, max_payload_bytes}
use ddash.Ingest.Http.Answers.{answers_accepted, respond_refused}
use ddash.Ingest.Apps.{
  AppHandler, AppRequest, Words, Resolver, valid_bearer_token, handle_resolved, handle_body,
  handle_id, handle_resolver, handle_app,
}

-- The event of a body was appended for an organization, between two worlds.
pub record IsStored (sdk : Sdk) (append : EventRecord → Exec World Unit) (headers : Headers)
    (body : Bytes) (org : ℤ) (before after : World) : Type 0 where
  pub event : EventRecord
  pub parsed : event_record sdk org headers body ≡ ok event
  pub stored : (append event before).0 ≡ ok tt
  pub left : after ≡ (append event before).1

-- What an accepted request showed, with the organization that the resolver gave, and what is left.
pub record IsAdmitted (sdk : Sdk) (append : EventRecord → Exec World Unit) (h : AppHandler)
    (r : AppRequest) (w after : World) : Type 0 where
  pub resolve : Resolver
  pub id : ℤ
  pub body : Bytes
  pub org : Organization
  pub keyed : valid_bearer_token r.authorization h.ingestor_key ≡ true
  pub resolver : h.resolver ≡ some resolve
  pub read : parse_int (trim_space r.mapped_id) ≡ some id
  pub positive : nonpos id ≡ false
  pub received : r.body ≡ ok body
  pub resolved : (resolve id w).0 ≡ ok org
  pub kept :
      IsStored sdk append r.headers (take max_payload_bytes body) org.id (resolve id w).1 after

module _ (sdk : Sdk) (append : EventRecord → Exec World Unit) (words : Words) where
  handle_resolved-cases :
      (headers : Headers) (body : Bytes) (org : Organization) (w : World)
      → (answers_accepted (handle_resolved sdk append words headers body (ok org) w).0 ≡ false)
        ⊎ IsStored sdk append headers body org.id w
            (handle_resolved sdk append words headers body (ok org) w).1
  unfolding ingest_for_organization ◌>>=◌
  handle_resolved-cases headers body org w = elim (Bool-cases (nonpos org.id)) [
    | inl bad ↦ rw bad (inl (respond_refused invalid_auth_token))
    | inr good ↦ rw good (elim (Result-cases (event_record sdk org.id headers body)) [
      | inl (e, failed) ↦ rw failed (inl (respond_refused e))
      | inr (event, parsed) ↦ rw parsed (elim (Result-cases (append event w).0) [
        | inl (e, failed) ↦ rw failed (inl (respond_refused e))
        | inr (tt, passed) ↦
            rw passed
              (inr (record { event = event; parsed = parsed; stored = passed; left = refl }))
      ])
    ])
  ]

  module _ (h : AppHandler) (r : AppRequest) (w : World)
      (keyed : valid_bearer_token r.authorization h.ingestor_key ≡ true) where
    abbrev Admits : Exec World Response → Type 0
    Admits m = (answers_accepted (m w).0 ≡ false) ⊎ IsAdmitted sdk append h r w (m w).1

    module _ (resolve : Resolver) (resolver : h.resolver ≡ some resolve) where
      handle_body-Admits :
          (id : ℤ) (body : Result Bytes)
          → parse_int (trim_space r.mapped_id) ≡ some id
          → nonpos id ≡ false
          → r.body ≡ body
          → Admits (handle_body sdk append words r.headers resolve id body)
      unfolding ◌>>=◌
      handle_body-Admits id (err e) read positive received = inl refl
      handle_body-Admits id (ok body) read positive received =
          elim (Result-cases (resolve id w).0) [
            | inl (e, failed) ↦ rw failed (elim (Bool-cases (is_no_rows e)) [
              | inl missing ↦ rw missing (inl refl)
              | inr broken ↦ rw broken (inl refl)
            ])
            | inr (org, resolved) ↦
                rw resolved
                  (elim (handle_resolved-cases r.headers (take max_payload_bytes body) org
                    (resolve id w).1) [
                      | inl refused ↦ inl refused
                      | inr kept ↦ inr (record {
                        resolve = resolve;
                        id = id;
                        body = body;
                        org = org;
                        keyed = keyed;
                        resolver = resolver;
                        read = read;
                        positive = positive;
                        received = received;
                        resolved = resolved;
                        kept = kept;
                      })
                    ])
          ]

      handle_id-Admits :
          (id : Option ℤ)
          → parse_int (trim_space r.mapped_id) ≡ id
          → Admits (handle_id sdk append words r resolve id)
      unfolding pure
      handle_id-Admits none read = inl refl
      handle_id-Admits (some id) read = elim (Bool-cases (nonpos id)) [
        | inl bad ↦ rw bad (inl refl)
        | inr good ↦ rw good (handle_body-Admits id r.body read good refl)
      ]

    handle_resolver-Admits :
        (resolver : Option Resolver)
        → h.resolver ≡ resolver
        → Admits (handle_resolver sdk append words r resolver)
    unfolding pure
    handle_resolver-Admits none known = inl refl
    handle_resolver-Admits (some resolve) known =
        handle_id-Admits resolve known (parse_int (trim_space r.mapped_id)) refl

  pub handle_app-IsAdmitted :
      (h : AppHandler) (r : AppRequest) (w : World)
      → (answers_accepted (handle_app sdk append words h r w).0 ≡ false)
        ⊎ IsAdmitted sdk append h r w (handle_app sdk append words h r w).1
  unfolding handle_app pure
  handle_app-IsAdmitted h r w = elim (Bool-cases (is_empty (trim_space h.ingestor_key))) [
    | inl blank ↦ rw blank (inl refl)
    | inr set ↦ rw set (elim (Bool-cases (valid_bearer_token r.authorization h.ingestor_key)) [
      | inr wrong ↦ rw wrong (inl refl)
      | inl keyed ↦ rw keyed (handle_resolver-Admits h r w keyed h.resolver refl)
    ])
  ]
