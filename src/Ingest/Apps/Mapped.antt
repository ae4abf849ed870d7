-- ===== src/Ingest/Apps/Mapped.antt =====
-- An app's handler accepts a request only with the key, for the organization that its mapping names.
use ddash.Base.{
  String, ℤ, nonpos, Bool, true, false, some, take, find?, ◌≡◌, refl, sym, ap, ◌⊎◌, inl, inr, arith,
  Option-cases,
}
use ddash.Base.Text.{trim_space}
use ddash.Base.Text.Parse.{parse_int}
use ddash.Effect.{Err, no_rows, Result, ok, err, Exec, ◌>>=◌, pure}
use mathlib.Core.Option.{some-injective}
use ddash.Store.Queries.{row_or_none}
use ddash.Store.{Db, World, OrganizationRow, after_call, call}
use ddash.Store.Adapter.{Organization, map_organization}
use ddash.Store.Calls.{call_cases}
use ddash.Integrations.Adapter
use ddash.Integrations.Queries
use ddash.Integrations.Queries.{has_installation, has_project}
use ddash.Ingest.Sdk.{Bytes, Sdk, EventRecord}
use ddash.Ingest.Http.{max_payload_bytes}
use ddash.Ingest.Http.Answers.{answers_accepted}
use ddash.Ingest.Apps.{
  AppHandler, AppRequest, Resolver, valid_bearer_token, handle_github_app, handle_gitlab_app,
  github_words, gitlab_words, new_app_handler,
}
use ddash.Ingest.Apps.Admitted.{IsStored, IsAdmitted, handle_app-IsAdmitted}

-- The organization of an enabled mapping, both as stored; `names` is the test of the mapping.
pub record IsMapped (sdk : Sdk) (append : EventRecord → Exec World Unit)
    (names : ℤ → OrganizationRow → Bool) (h : AppHandler) (r : AppRequest) (w after : World)
    : Type 0 where
  pub id : ℤ
  pub body : Bytes
  pub row : OrganizationRow
  pub stored_at : World
  pub keyed : valid_bearer_token r.authorization h.ingestor_key ≡ true
  pub read : parse_int (trim_space r.mapped_id) ≡ some id
  pub positive : nonpos id ≡ false
  pub received : r.body ≡ ok body
  pub found : find? (names id) w.db.organizations ≡ some row
  pub same : stored_at.db ≡ w.db
  pub kept : IsStored sdk append r.headers (take max_payload_bytes body) row.id stored_at after

-- The organization that a resolver's query finds, if it answers.
resolve_cases :
    (query : Exec Db OrganizationRow) (p : OrganizationRow → Bool) (w : World)
    → query w.db ≡ (row_or_none (find? p w.db.organizations), w.db)
    → ((e : Err) × (((call query >>= λ row. pure (map_organization row)) w).0 ≡ err e))
      ⊎ ((row : OrganizationRow) × (find? p w.db.organizations ≡ some row)
          × ((call query >>= λ row. pure (map_organization row)) w
              ≡ (ok (map_organization row), after_call w w.db)))
unfolding ◌>>=◌
resolve_cases query p w reads = elim (call_cases query w) [
  | inl (e, _, failed) ↦ inl (e, rw failed)
  | inr answer ↦ elim (Option-cases (find? p w.db.organizations)) [
    | inl absent ↦ inl (no_rows, rw (answer, reads, absent))
    | inr (row, found) ↦ inr (row, found, rw (answer, reads, found))
  ]
]

abbrev result_id : Result Organization → ℤ → ℤ
result_id (ok o) fallback = o.id
result_id (err _) fallback = fallback

module _ (sdk : Sdk) (append : EventRecord → Exec World Unit) (key : String) (r : AppRequest)
    (w : World) where
  from_admitted :
      (resolve : Resolver) (names : ℤ → OrganizationRow → Bool) (after : World)
      → ((id : ℤ)
          → ((e : Err) × ((resolve id w).0 ≡ err e))
            ⊎ ((row : OrganizationRow) × (find? (names id) w.db.organizations ≡ some row)
                × (resolve id w ≡ (ok (map_organization row), after_call w w.db))))
      → IsAdmitted sdk append (new_app_handler (some resolve) key) r w after
      → IsMapped sdk append names (new_app_handler (some resolve) key) r w after
  unfolding new_app_handler map_organization
  from_admitted resolve names after cases a =
      let same : a.resolve ≡ resolve = sym (some-injective _ _ a.resolver) in
      let given : (resolve a.id w).0 ≡ ok a.org = rw same at a.resolved in
      let kept : IsStored sdk append r.headers (take max_payload_bytes a.body) a.org.id
          (resolve a.id w).1 after =
        rw same at a.kept in
      elim (cases a.id) [
        | inl (e, failed) ↦ absurd (ground arith)
        | inr (row, found, got) ↦
            let answer : ok (map_organization row) ≡ ok a.org = rw got at given in
            let same_id : a.org.id ≡ row.id = sym (ap (λ o. result_id o row.id) answer) in
            record {
              id = a.id;
              body = a.body;
              row = row;
              stored_at = after_call w w.db;
              keyed = a.keyed;
              read = a.read;
              positive = a.positive;
              received = a.received;
              found = found;
              same = refl;
              kept = rw (got, same_id) at kept;
            }
      ]

  -- Either the answer is not 202, or the request shows the handler's key and a positive
  -- installation id that an enabled mapping gives an enabled organization, the event of the body is
  -- one of that organization, the append action succeeded on its record, on unchanged tables, and
  -- the handler changed nothing else.
  pub handle_github_app-IsMapped :
      (answers_accepted
          (handle_github_app sdk append
            (new_app_handler (some Adapter.get_organization_by_github_installation_id) key)
            r
            w).0
        ≡ false)
      ⊎ IsMapped sdk append
          (λ id. has_installation id w.db)
          (new_app_handler (some Adapter.get_organization_by_github_installation_id) key)
          r
          w
          (handle_github_app sdk append
            (new_app_handler (some Adapter.get_organization_by_github_installation_id) key)
            r
            w).1
  unfolding handle_github_app Adapter.get_organization_by_github_installation_id
      Queries.get_organization_by_github_installation_id
  handle_github_app-IsMapped =
      elim (handle_app-IsAdmitted sdk append github_words
        (new_app_handler (some Adapter.get_organization_by_github_installation_id) key) r w) [
          | inl refused ↦ inl refused
          | inr a ↦ inr (
              from_admitted Adapter.get_organization_by_github_installation_id
                (λ id. has_installation id w.db) _
                (λ id.
                  resolve_cases (Queries.get_organization_by_github_installation_id id)
                    (has_installation id w.db) w refl)
                a)
        ]

  -- Either the answer is not 202, or the request shows the handler's key and a positive project id
  -- that an enabled mapping gives an enabled organization, the event of the body is one of that
  -- organization, the append action succeeded on its record, on unchanged tables, and the handler
  -- changed nothing else.
  pub handle_gitlab_app-IsMapped :
      (answers_accepted
          (handle_gitlab_app sdk append
            (new_app_handler (some Adapter.get_organization_by_gitlab_project_id) key)
            r
            w).0
        ≡ false)
      ⊎ IsMapped sdk append
          (λ id. has_project id w.db)
          (new_app_handler (some Adapter.get_organization_by_gitlab_project_id) key)
          r
          w
          (handle_gitlab_app sdk append
            (new_app_handler (some Adapter.get_organization_by_gitlab_project_id) key)
            r
            w).1
  unfolding handle_gitlab_app Adapter.get_organization_by_gitlab_project_id
      Queries.get_organization_by_gitlab_project_id
  handle_gitlab_app-IsMapped =
      elim (handle_app-IsAdmitted sdk append gitlab_words
        (new_app_handler (some Adapter.get_organization_by_gitlab_project_id) key) r w) [
          | inl refused ↦ inl refused
          | inr a ↦ inr (
              from_admitted Adapter.get_organization_by_gitlab_project_id
                (λ id. has_project id w.db) _
                (λ id.
                  resolve_cases (Queries.get_organization_by_gitlab_project_id id)
                    (has_project id w.db) w refl)
                a)
        ]
