-- ===== src/Ingest/Apps.antt =====
-- The handlers for the ingestors of the GitHub and GitLab apps
-- (apps/ddash/internal/webhooks/custom/handler_github_app.go and handler_gitlab_app.go), less their
-- counters. An ingestor shows a key that both share; the event's organization is the one that the
-- installation or the project is mapped to.
pub mod Admitted
pub mod Mapped
pub mod Tests
use ddash.Base.{
  ℕ, String, ◌==◌, ℤ, nonpos, Bool, true, false, not, ◌&&◌, Option, none, some, take, if◌then◌else◌,
}
use ddash.Base.Text.{trim_space, is_empty, to_lower, has_prefix, drop_chars}
use ddash.Base.Text.Parse.{parse_int}
use ddash.Effect.{Err, Result, ok, err, Exec, pure, attempt, is_no_rows, ◌>>=◌}
use ddash.Store.{World}
use ddash.Store.Adapter.{Organization}
use ddash.Ingest.Sdk.{Bytes, Headers, Sdk, EventRecord}
use ddash.Ingest.Service.{ingest_for_organization}
use ddash.Ingest.Http.{Response, refusal, respond, max_payload_bytes}

unfoldable pub valid_bearer_token : String → String → Bool
valid_bearer_token raw expected =
    if is_empty (trim_space raw)
    then false
    else if is_empty (trim_space expected)
    then false
    else if not (has_prefix (to_lower (trim_space raw)) "bearer ")
    then false
    else if is_empty (trim_space (drop_chars 7 (trim_space raw)))
    then false
    else trim_space (drop_chars 7 (trim_space raw)) == trim_space expected

abbrev pub Resolver : Type 0
Resolver = ℤ → Exec World Organization

pub record AppHandler : Type 0 where
  -- none for nil
  pub resolver : Option Resolver
  pub ingestor_key : String

-- NewGitHubAppHandler and NewGitLabAppHandler
unfoldable pub new_app_handler : Option Resolver → String → AppHandler
new_app_handler resolver key = record { resolver = resolver; ingestor_key = trim_space key }

-- The headers that a handler reads, all headers, and the body as it was read or the read's error.
pub record AppRequest : Type 0 where
  pub authorization : String
  pub mapped_id : String
  pub headers : Headers
  pub body : Result Bytes

-- The words in which the two handlers differ.
pub record Words : Type 0 where
  pub not_configured : String
  pub no_resolver : String
  pub invalid_id : String
  pub unknown_id : String

abbrev pub github_words : Words
github_words = record {
  not_configured = "github app ingestion is not configured";
  no_resolver = "github installation resolver unavailable";
  invalid_id = "invalid github installation id";
  unknown_id = "unknown github installation";
}

abbrev pub gitlab_words : Words
gitlab_words = record {
  not_configured = "gitlab ingestion is not configured";
  no_resolver = "gitlab project resolver unavailable";
  invalid_id = "invalid gitlab project id";
  unknown_id = "unknown gitlab project";
}

module _ (sdk : Sdk) (append : EventRecord → Exec World Unit) (words : Words) where
  abbrev pub handle_resolved : Headers → Bytes → Result Organization → Exec World Response
  handle_resolved headers body (err e) = pure (
      if is_no_rows e
      then refusal 404 words.unknown_id
      else record { status = none; text = ""; error = some e })
  handle_resolved headers body (ok org) = do
    result ← attempt (ingest_for_organization sdk append org.id headers body)
    pure (respond result)

  abbrev pub handle_body : Headers → Resolver → ℤ → Result Bytes → Exec World Response
  handle_body headers resolve id (err e) =
      pure (record { status = some 400; text = "invalid payload"; error = some e })
  handle_body headers resolve id (ok body) = do
    found ← attempt (resolve id)
    handle_resolved headers (take max_payload_bytes body) found

  abbrev pub handle_id : AppRequest → Resolver → Option ℤ → Exec World Response
  handle_id r resolve none = pure (refusal 400 words.invalid_id)
  handle_id r resolve (some id) =
      if nonpos id
      then pure (refusal 400 words.invalid_id)
      else handle_body r.headers resolve id r.body

  abbrev pub handle_resolver : AppRequest → Option Resolver → Exec World Response
  handle_resolver r none = pure (refusal 503 words.no_resolver)
  handle_resolver r (some resolve) = handle_id r resolve (parse_int (trim_space r.mapped_id))

  unfoldable pub handle_app : AppHandler → AppRequest → Exec World Response
  handle_app h r =
      if is_empty (trim_space h.ingestor_key)
      then pure (refusal 503 words.not_configured)
      else if not (valid_bearer_token r.authorization h.ingestor_key)
      then pure (refusal 401 "unauthorized")
      else handle_resolver r h.resolver

unfoldable pub handle_github_app :
    Sdk → (EventRecord → Exec World Unit) → AppHandler → AppRequest → Exec World Response
unfolding handle_app
handle_github_app sdk append = handle_app sdk append github_words

unfoldable pub handle_gitlab_app :
    Sdk → (EventRecord → Exec World Unit) → AppHandler → AppRequest → Exec World Response
unfolding handle_app
handle_gitlab_app sdk append = handle_app sdk append gitlab_words
