-- ===== src/Lib.antt =====
-- A library that verifies the core of DDash: the management of organizations, their members, settings
-- and integrations, the publishing of CDEvents and their ingestion into the event store, and the
-- catalog of services and their dependencies.
--
-- The program is an HTTP server (apps/ddash/internal/server) over a SQLite database
-- (internal/db). Its services read and write the database through adapters; webhooks hand signed
-- events to the ingestion service, which validates them and, one by one or in batches, appends them
-- to the event log, from which the dashboards are projected.
--
-- Which module models which part:
--   Effect      Go's `error` results and functions with a state (`Exec`): an action gives the new
--               state beside an error too, so what was written before the error stays written.
--   Store       the tables (internal/db/migrations), the queries of
--               internal/db/queries/queries.sql.go (Store.Queries) and the methods of
--               apps/ddash/internal/adapters/sqlite/store.go (Store.Adapter). A `World` holds the
--               tables, the faults that the coming store calls meet and the random bytes to come, so
--               a theorem about every world is one about every schedule of failing calls.
--   Events      `AppendEventStore`, `AppendEventStoreBatch` and `WithTx` of internal/db/store.go.
--   Ingest      apps/ddash/internal/app/services/ingestion.go, the store of
--               apps/ddash/internal/infrastructure/sqlite/ingestion/store.go and the handler of
--               apps/ddash/internal/webhooks/custom/handler.go. Ingest.Batcher is the batcher: each
--               state that callers and the loop reach is the end of a `Run`.
--   Identity    OrganizationManagementService in
--               apps/ddash/internal/app/services/organization_management.go, and the default
--               organization of services/helpers.go.
--   Routes      the rename handler of apps/ddash/internal/server/routes/organizations.go with its
--               guard, behind the middlewares of its route (view_routes.go, auth_middleware.go).
--   Environments, Metadata   the order of environments (services/service_read.go and
--               services/org_config.go) and the update of service metadata (services/metadata.go).
--   Integrations   the installation of the GitHub app: application/githubintegration/service.go under
--               apps/ddash/internal, with the adapter's mappings and setup intents. Ingest.Apps has
--               webhooks/custom/handler_github_app.go and handler_gitlab_app.go, which read them.
--   Catalog     application/servicecatalog/service.go and domains/servicecatalog/dependencies.go
--               under apps/ddash/internal: the dependencies of services, their graph, and the
--               summary of lead times.
--   Settings    GetSettings and UpdateSettings of services/org_config.go, and the adapter's methods
--               for features, preferences, required fields, priorities and metadata.
--   Publisher   pkg/eventpublisher: types and subjects of events, and `BuildEventBody`.
--   Base        lists, numbers, sorting and the functions of Go's `strings` package.
--
-- Functions keep their Go names, in snake case: `RemoveMember` is `remove_member`.
--
-- Parameters: the CDEvents and CloudEvents packages and HMAC-SHA256 are the fields of `Sdk`
-- (Ingest.Sdk), the constructors and json.Marshal those of `Cdevents` (Publisher). The installer of
-- GitHub apps, the clock, and the results of the analytics queries (titles of services, samples of
-- lead times, environments that events name) are arguments, and so is the order in which the
-- database meets the rows of users where a query has no order. Fuel: the loop of CreateOrganization
-- runs 20 rounds in the source and in the model; nothing else is bounded but by the length of its
-- lists. Numbers: sums wrap at 64 bits; the index of a percentile is exact, as Go's float64
-- computes it for fewer than 2^48 samples. A time is its number of nanoseconds.
--
-- Not modelled: the contents of the projection tables, for which the statements are recorded in
-- their order; times of creation and update, which no modelled code reads; letters beyond ASCII in
-- `ToLower`; the cancellation of a caller that waits for the batcher; what a session stores. SQLite
-- is taken at its documented behaviour: a failed statement or transaction changes nothing, and the
-- constraints of the schema hold. The pages of services and their analytics queries, the other
-- routes, sessions and templates, the converters of the GitHub and GitLab ingestors and the other
-- commands under apps/ have no model here.
pub mod Base
pub mod Effect
pub mod Store
pub mod Events
pub mod Ingest
pub mod Identity
pub mod Routes
pub mod Environments
pub mod Metadata
pub mod Integrations
pub mod Catalog
pub mod Settings
pub mod Publisher
