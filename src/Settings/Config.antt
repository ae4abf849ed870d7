-- ===== src/Settings/Config.antt =====
-- OrganizationConfigService (apps/ddash/internal/app/services/org_config.go). The environments that
-- events name come from a query over their JSON text, which is a parameter.
use ddash.Base.{
  String, ◌==◌, ℤ, pos, nonpos, Bool, not, ◌&&◌, ◌||◌, Option, none, some, List, [], ◌∷◌,
  if◌then◌else◌,
}
use ddash.Base.Text.{trim_space, to_lower, is_empty}
use ddash.Base.Text.Parse.{parse_int}
use ddash.Effect.{Result, ok, err, Exec, pure, raise, attempt, ◌>>=◌}
use ddash.Store.{World, FeatureRow, PreferenceRow}
use ddash.Store.Adapter as Rows
use ddash.Environments.{has, normalize_environment_order_input, merge_environment_order}
use ddash.Metadata.{RequiredField}
use ddash.Settings.Adapter
use ddash.Settings.Adapter.{SettingsUpdate, is_missing_env_priority_table_err, stored_features}

pub record OrganizationSettings : Type 0 where
  pub auth_token : String
  pub webhook_secret : String
  pub enabled : Bool
  pub show_sync_status : Bool
  pub show_metadata_badges : Bool
  pub show_environment_column : Bool
  pub enable_sse_live_updates : Bool
  pub show_deployment_history : Bool
  pub show_metadata_filters : Bool
  pub strict_metadata_enforcement : Bool
  pub mask_sensitive_metadata_values : Bool
  pub allow_service_metadata_editing : Bool
  pub show_onboarding_hints : Bool
  pub show_integration_type_badges : Bool
  pub show_service_detail_insights : Bool
  pub show_service_dependencies : Bool
  pub show_service_delivery_metrics : Bool
  pub deployment_retention_days : ℤ
  pub default_dashboard_view : String
  pub status_semantics_mode : String
  pub required_fields : List RequiredField
  pub environment_order : List String

-- services.OrganizationSettingsUpdate
pub record SettingsInput : Type 0 where
  pub auth_token : String
  pub webhook_secret : String
  pub enabled : Bool
  pub show_sync_status : Bool
  pub show_metadata_badges : Bool
  pub show_environment_column : Bool
  pub enable_sse_live_updates : Bool
  pub show_deployment_history : Bool
  pub show_metadata_filters : Bool
  pub strict_metadata_enforcement : Bool
  pub mask_sensitive_metadata_values : Bool
  pub allow_service_metadata_editing : Bool
  pub show_onboarding_hints : Bool
  pub show_integration_type_badges : Bool
  pub show_service_detail_insights : Bool
  pub show_service_dependencies : Bool
  pub show_service_delivery_metrics : Bool
  pub deployment_retention_days : ℤ
  pub default_dashboard_view : String
  pub status_semantics_mode : String
  pub required_fields : List RequiredField
  pub environment_order : List String

abbrev pub delivery_metrics : String
delivery_metrics = "show_service_delivery_metrics"

-- The keys and the values that `featureFlags` starts with.
abbrev pub is_known_feature : String → Bool
is_known_feature key = key == delivery_metrics || has key stored_features

abbrev pub default_flag : String → Bool
default_flag key =
    not (key == "strict_metadata_enforcement" || key == "mask_sensitive_metadata_values")

-- `featureFlags[key]` after the loop over the rows, for a known key.
unfoldable pub flag : String → Bool → List FeatureRow → Bool
flag key value [] = value
flag key value (f ∷ fs) =
    flag key (if to_lower (trim_space f.feature_key) == key then f.is_enabled else value) fs

unfoldable pub feature_flags : List FeatureRow → String → Bool
unfolding flag
feature_flags rows key = is_known_feature key && flag key (default_flag key) rows

pub record Preferences : Type 0 where
  pub deployment_retention_days : ℤ
  pub default_dashboard_view : String
  pub status_semantics_mode : String

abbrev positive_or : ℤ → Option ℤ → ℤ
positive_or days none = days
positive_or days (some parsed) = if nonpos parsed then days else parsed

abbrev apply_preference : String → String → Preferences → Preferences
apply_preference key value p =
    if key == "deployment_retention_days"
    then record p {
      deployment_retention_days = positive_or p.deployment_retention_days (parse_int value);
    }
    else if key == "default_dashboard_view"
    then (if value == "table" || value == "grid"
        then record p { default_dashboard_view = value }
        else p)
    else if key == "status_semantics_mode"
    then (if value == "plain" || value == "technical"
        then record p { status_semantics_mode = value }
        else p)
    else p

unfoldable pub apply_preferences : List PreferenceRow → Preferences → Preferences
apply_preferences [] p = p
apply_preferences (r ∷ rs) p =
    apply_preferences rs
      (apply_preference (to_lower (trim_space r.preference_key)) (trim_space r.preference_value) p)

abbrev pub default_preferences : Preferences
default_preferences = record {
  deployment_retention_days = pos 30;
  default_dashboard_view = "grid";
  status_semantics_mode = "technical";
}

abbrev pub priorities_or_none : Result (List String) → Exec World (List String)
priorities_or_none (ok values) = pure values
priorities_or_none (err e) = if is_missing_env_priority_table_err e then pure [] else raise e

unfoldable pub get_settings : (ℤ → Exec World (List String)) → ℤ → Exec World OrganizationSettings
unfolding is_missing_env_priority_table_err feature_flags apply_preferences
get_settings list_discovered id = do
  org ← Rows.get_organization_by_id id
  fields ← Adapter.list_organization_required_fields org.id
  listed ← attempt (Adapter.list_organization_environment_priorities org.id)
  priorities ← priorities_or_none listed
  discovered ← list_discovered org.id
  features ← Adapter.list_organization_features org.id
  preferences ← Adapter.list_organization_preferences org.id
  let chosen = apply_preferences preferences default_preferences
  pure (record {
    auth_token = org.auth_token;
    webhook_secret = org.webhook_secret;
    enabled = org.enabled;
    show_sync_status = feature_flags features "show_sync_status";
    show_metadata_badges = feature_flags features "show_metadata_badges";
    show_environment_column = feature_flags features "show_environment_column";
    enable_sse_live_updates = feature_flags features "enable_sse_live_updates";
    show_deployment_history = feature_flags features "show_deployment_history";
    show_metadata_filters = feature_flags features "show_metadata_filters";
    strict_metadata_enforcement = feature_flags features "strict_metadata_enforcement";
    mask_sensitive_metadata_values = feature_flags features "mask_sensitive_metadata_values";
    allow_service_metadata_editing = feature_flags features "allow_service_metadata_editing";
    show_onboarding_hints = feature_flags features "show_onboarding_hints";
    show_integration_type_badges = feature_flags features "show_integration_type_badges";
    show_service_detail_insights = feature_flags features "show_service_detail_insights";
    show_service_dependencies = feature_flags features "show_service_dependencies";
    show_service_delivery_metrics = feature_flags features delivery_metrics;
    deployment_retention_days = chosen.deployment_retention_days;
    default_dashboard_view = chosen.default_dashboard_view;
    status_semantics_mode = chosen.status_semantics_mode;
    required_fields = fields;
    environment_order =
        merge_environment_order (normalize_environment_order_input priorities)
          (normalize_environment_order_input discovered);
  })

-- The fields that have a label and a type.
unfoldable pub clean_required_fields : List RequiredField → List RequiredField
clean_required_fields [] = []
clean_required_fields (f ∷ fs) =
    let rest = clean_required_fields fs in
    if is_empty (trim_space f.label) || is_empty (trim_space f.field_type)
    then rest
    else (record {
      label = trim_space f.label;
      field_type = trim_space f.field_type;
      filterable = f.filterable;
    })
      ∷ rest

-- The update that the store is given.
abbrev pub store_update : SettingsInput → SettingsUpdate
store_update update = record {
  auth_token = trim_space update.auth_token;
  webhook_secret = trim_space update.webhook_secret;
  enabled = update.enabled;
  show_sync_status = update.show_sync_status;
  show_metadata_badges = update.show_metadata_badges;
  show_environment_column = update.show_environment_column;
  enable_sse_live_updates = update.enable_sse_live_updates;
  show_deployment_history = update.show_deployment_history;
  show_metadata_filters = update.show_metadata_filters;
  strict_metadata_enforcement = update.strict_metadata_enforcement;
  mask_sensitive_metadata_values = update.mask_sensitive_metadata_values;
  allow_service_metadata_editing = update.allow_service_metadata_editing;
  show_onboarding_hints = update.show_onboarding_hints;
  show_integration_type_badges = update.show_integration_type_badges;
  show_service_detail_insights = update.show_service_detail_insights;
  show_service_dependencies = update.show_service_dependencies;
  show_service_delivery_metrics = update.show_service_delivery_metrics;
  deployment_retention_days = update.deployment_retention_days;
  default_dashboard_view = update.default_dashboard_view;
  status_semantics_mode = update.status_semantics_mode;
  required_fields = clean_required_fields update.required_fields;
  environment_order = normalize_environment_order_input update.environment_order;
}

unfoldable pub update_settings : ℤ → SettingsInput → Exec World Unit
unfolding clean_required_fields
update_settings org update = Adapter.update_organization_settings org (store_update update)
