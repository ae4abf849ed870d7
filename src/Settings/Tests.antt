-- ===== src/Settings/Tests.antt =====
-- Settings of an organization that stores nothing yet.
use ddash.Base.{
  String, ◌==◌, ℤ, pos, true, false, List, [], ◌∷◌, any, ◌≡◌, ◌⊎◌, refl, if◌then◌else◌,
}
use ddash.Effect.{Err, Result, ok, err, Exec}
use ddash.Store.{World}
use ddash.Environments.{has}
use ddash.Integrations.Tests.{office}
use ddash.Settings.Queries.{is_feature}
use ddash.Settings.Adapter.{SettingsUpdate, stored_features}
use ddash.Settings.Config.{
  OrganizationSettings, SettingsInput, delivery_metrics, get_settings, update_settings,
}
use ddash.Settings.Flags.Untouched.{features}
use ddash.Settings.Flags.Trip.{SameFlags, get_settings-update_settings}

abbrev calm : World
calm = record { db = office; faults = []; entropy = [] }

-- All flags off but one.
abbrev off : SettingsInput
off = record {
  auth_token = " fresh ";
  webhook_secret = "secret";
  enabled = true;
  show_sync_status = false;
  show_metadata_badges = false;
  show_environment_column = false;
  enable_sse_live_updates = false;
  show_deployment_history = true;
  show_metadata_filters = false;
  strict_metadata_enforcement = false;
  mask_sensitive_metadata_values = false;
  allow_service_metadata_editing = false;
  show_onboarding_hints = false;
  show_integration_type_badges = false;
  show_service_detail_insights = false;
  show_service_dependencies = false;
  show_service_delivery_metrics = false;
  deployment_retention_days = pos 90;
  default_dashboard_view = "table";
  status_semantics_mode = "";
  required_fields = [];
  environment_order = "prod" ∷ " PROD" ∷ "dev" ∷ [];
}

no_events : ℤ → Exec World (List String)
no_events org w = (ok [], w)

abbrev updated : World
updated = (update_settings (pos 7) off calm).1

accepted : (update_settings (pos 7) off calm).0 ≡ ok tt
unfolding update_settings ddash.Settings.Adapter.update_organization_settings
    ddash.Events.Tx.with_tx ddash.Effect.◌>>=◌ ddash.Store.call
    ddash.Settings.Queries.update_organization_secrets ddash.Base.int_eq ddash.Base.Text.trim_space
    ddash.Settings.Queries.upsert_organization_feature ddash.Base.Text.Format.show_int
    ddash.Settings.Queries.upsert_organization_preference
    ddash.Settings.Queries.delete_organization_required_fields
    ddash.Settings.Queries.delete_organization_environment_priorities
    ddash.Environments.normalize_environment_order_input
    ddash.Settings.Queries.create_organization_environment_priority ddash.Base.Text.to_lower
accepted = refl

spared : (id : ℤ) (w : World) → features (no_events id w).1 ≡ features w
unfolding no_events
spared id w = refl

get_settings-update_settings_example :
    ((e : Err) × ((update_settings (pos 7) off calm).0 ≡ err e))
    ⊎ (((e : Err) × ((get_settings no_events (pos 7) updated).0 ≡ err e))
        ⊎ ((s : OrganizationSettings) × ((get_settings no_events (pos 7) updated).0 ≡ ok s)
            × SameFlags s off
            × (any (is_feature (pos 7) delivery_metrics) (features calm) ≡ false
                → s.show_service_delivery_metrics ≡ true)))
get_settings-update_settings_example =
    get_settings-update_settings no_events (pos 7) off calm updated spared tt refl
