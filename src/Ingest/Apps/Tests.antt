-- ===== src/Ingest/Apps/Tests.antt =====
-- Events for an installation of the GitHub app and for a GitLab project.
use ddash.Base.{String, pos, true, false, [], ◌∷◌, some, none, length, ◌≡◌, ◌⊎◌, refl}
use ddash.Effect.{ok}
use ddash.Store.{World}
use ddash.Integrations.Adapter
use ddash.Integrations.Queries.{has_installation, has_project}
use ddash.Integrations.Tests.{linked}
use ddash.Ingest.Tests.{codec}
use ddash.Ingest.Service.{append_record}
use ddash.Ingest.Http.Answers.{answers_accepted}
use ddash.Ingest.Apps.{
  AppHandler, AppRequest, new_app_handler, handle_github_app, handle_gitlab_app,
}
use ddash.Ingest.Apps.Mapped.{IsMapped, handle_github_app-IsMapped, handle_gitlab_app-IsMapped}

abbrev github : AppHandler
github = new_app_handler (some Adapter.get_organization_by_github_installation_id) "key "

abbrev gitlab : AppHandler
gitlab = new_app_handler (some Adapter.get_organization_by_gitlab_project_id) "key "

abbrev request : AppRequest
request = record {
  authorization = "bearer key";
  mapped_id = " 42";
  headers = [];
  body = ok (1 ∷ []);
}

stored : length (handle_github_app codec append_record github request linked).1.db.log.rows ≡ 1
unfolding handle_github_app new_app_handler ddash.Ingest.Apps.valid_bearer_token
    ddash.Base.Text.Parse.parse_int Adapter.get_organization_by_github_installation_id
    ddash.Integrations.Install.complete_install Adapter.get_github_setup_intent_by_state
    ddash.Integrations.Install.start_install Adapter.create_github_setup_intent
    ddash.Integrations.Queries.create_github_setup_intent ddash.Base.Text.Format.hex_bytes
    ddash.Ingest.Service.ingest_for_organization Adapter.delete_github_setup_intent
    Adapter.upsert_github_installation_mapping ddash.Integrations.Queries.delete_github_setup_intent
    ddash.Integrations.Queries.get_github_setup_intent_by_state
    ddash.Integrations.Queries.get_organization_by_github_installation_id
    ddash.Integrations.Queries.upsert_github_installation_mapping
    ddash.Store.Adapter.map_organization ddash.Base.Text.has_prefix ddash.Base.Text.trim_space
    ddash.Base.Text.drop_chars ddash.Effect.◌>>=◌ ddash.Events.Tx.touch ddash.Store.call
    ddash.Base.Text.to_lower ddash.Ingest.Validate.event_record
    ddash.Ingest.Validate.parse_incoming_event ddash.Ingest.Validate.is_supported_event_type
    ddash.Ingest.Validate.requires_strict_schema_validation append_record
    ddash.Ingest.Service.append_event ddash.Events.Append.append_event_store_single
    ddash.Base.int_eq ddash.Base.Text.split_char ddash.Effect.is_no_rows
    ddash.Events.Append.append_event_with_projections ddash.Events.Append.project_event
    ddash.Events.Append.service_name_from_subject_id ddash.Events.Log.append_event_store
    ddash.Events.Log.project ddash.Events.Tx.with_tx ddash.Ingest.Validate.non_blank
    ddash.Ingest.Validate.subject_type_of ddash.Ingest.Http.respond ddash.Ingest.Service.open_store
stored = refl

accepted : answers_accepted (handle_github_app codec append_record github request linked).0 ≡ true
unfolding handle_github_app new_app_handler ddash.Ingest.Apps.valid_bearer_token
    ddash.Base.Text.Parse.parse_int Adapter.get_organization_by_github_installation_id
    ddash.Integrations.Install.complete_install Adapter.get_github_setup_intent_by_state
    ddash.Integrations.Install.start_install Adapter.create_github_setup_intent
    ddash.Integrations.Queries.create_github_setup_intent ddash.Base.Text.Format.hex_bytes
    ddash.Ingest.Service.ingest_for_organization Adapter.delete_github_setup_intent
    Adapter.upsert_github_installation_mapping ddash.Integrations.Queries.delete_github_setup_intent
    ddash.Integrations.Queries.get_github_setup_intent_by_state
    ddash.Integrations.Queries.get_organization_by_github_installation_id
    ddash.Integrations.Queries.upsert_github_installation_mapping
    ddash.Store.Adapter.map_organization ddash.Base.Text.has_prefix ddash.Base.Text.trim_space
    ddash.Base.Text.drop_chars ddash.Effect.◌>>=◌ ddash.Events.Tx.touch ddash.Store.call
    ddash.Base.Text.to_lower ddash.Ingest.Validate.event_record
    ddash.Ingest.Validate.parse_incoming_event ddash.Ingest.Validate.is_supported_event_type
    ddash.Ingest.Validate.requires_strict_schema_validation append_record
    ddash.Ingest.Service.append_event ddash.Events.Append.append_event_store_single
    ddash.Base.int_eq ddash.Base.Text.split_char ddash.Effect.is_no_rows
    ddash.Events.Append.append_event_with_projections ddash.Events.Append.project_event
    ddash.Events.Append.service_name_from_subject_id ddash.Events.Log.append_event_store
    ddash.Events.Log.project ddash.Events.Tx.with_tx ddash.Ingest.Validate.non_blank
    ddash.Ingest.Validate.subject_type_of ddash.Ingest.Http.respond ddash.Ingest.Service.open_store
accepted = refl

handle_github_app-IsMapped_example :
    (answers_accepted (handle_github_app codec append_record github request linked).0 ≡ false)
    ⊎ IsMapped codec append_record
        (λ id. has_installation id linked.db)
        github
        request
        linked
        (handle_github_app codec append_record github request linked).1
handle_github_app-IsMapped_example =
    handle_github_app-IsMapped codec append_record "key " request linked

handle_gitlab_app-IsMapped_example :
    (answers_accepted (handle_gitlab_app codec append_record gitlab request linked).0 ≡ false)
    ⊎ IsMapped codec append_record
        (λ id. has_project id linked.db)
        gitlab
        request
        linked
        (handle_gitlab_app codec append_record gitlab request linked).1
handle_gitlab_app-IsMapped_example =
    handle_gitlab_app-IsMapped codec append_record "key " request linked
