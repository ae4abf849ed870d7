-- ===== src/Settings/Adapter.antt =====
-- adapters/sqlite/store.go and service_read_store.go: the methods of `Store` for settings.
use ddash.Base.{ℕ, suc, String, ℤ, Bool, not, ◌&&◌, ◌||◌, List, [], ◌∷◌, map, filter, if◌then◌else◌}
use ddash.Base.Text.{trim_space, to_lower, is_empty, contains}
use ddash.Base.Text.Format.{show_int}
use ddash.Effect.{Err, Outcome, ok, err, Exec, pure, raise, attempt, ◌>>=◌, ◌>>◌}
use ddash.Store.{World, call, FeatureRow, PreferenceRow}
use ddash.Events.Tx.{with_tx}
use ddash.Identity.Tokens.{message}
use ddash.Metadata.{RequiredField, MetadataValue}
use ddash.Settings.Queries

unfoldable pub is_missing_env_priority_table_err : Err → Bool
is_missing_env_priority_table_err e =
    let msg = to_lower (message e) in
    contains msg "no such table" && contains msg "organization_environment_priorities"

-- ports.OrganizationSettingsUpdate
pub record SettingsUpdate : Type 0 where
  pub auth_token : String
  pub webhook_secret : String
  pub enabled : Bool
  pub show_sync_status : Bool
  pub show_metadata_badges : Bool
  pub show_environment_column : Bool
  pub enable_sse_live_updates : Bool
  pub show_deployment_history : Bool
  pub show_metadata_filters : Bool
  pub strict_metadata_enforcement : Bool
  pub mask_sensitive_metadata_values : Bool
  pub allow_service_metadata_editing : Bool
  pub show_onboarding_hints : Bool
  pub show_integration_type_badges : Bool
  pub show_service_detail_insights : Bool
  pub show_service_dependencies : Bool
  pub show_service_delivery_metrics : Bool
  pub deployment_retention_days : ℤ
  pub default_dashboard_view : String
  pub status_semantics_mode : String
  pub required_fields : List RequiredField
  pub environment_order : List String

-- The keys of the features that the adapter stores.
abbrev pub stored_features : List String
stored_features =
    "show_sync_status" ∷ "show_metadata_badges" ∷ "show_environment_column"
    ∷ "enable_sse_live_updates" ∷ "show_deployment_history" ∷ "show_metadata_filters"
    ∷ "strict_metadata_enforcement" ∷ "mask_sensitive_metadata_values"
    ∷ "allow_service_metadata_editing" ∷ "show_onboarding_hints" ∷ "show_integration_type_badges"
    ∷ "show_service_detail_insights" ∷ "show_service_dependencies" ∷ []

-- The list `features`.
abbrev pub feature_rows : SettingsUpdate → List (String × Bool)
feature_rows p =
    ("show_sync_status", p.show_sync_status)
    ∷ ("show_metadata_badges", p.show_metadata_badges)
    ∷ ("show_environment_column", p.show_environment_column)
    ∷ ("enable_sse_live_updates", p.enable_sse_live_updates)
    ∷ ("show_deployment_history", p.show_deployment_history)
    ∷ ("show_metadata_filters", p.show_metadata_filters)
    ∷ ("strict_metadata_enforcement", p.strict_metadata_enforcement)
    ∷ ("mask_sensitive_metadata_values", p.mask_sensitive_metadata_values)
    ∷ ("allow_service_metadata_editing", p.allow_service_metadata_editing)
    ∷ ("show_onboarding_hints", p.show_onboarding_hints)
    ∷ ("show_integration_type_badges", p.show_integration_type_badges)
    ∷ ("show_service_detail_insights", p.show_service_detail_insights)
    ∷ ("show_service_dependencies", p.show_service_dependencies)
    ∷ []

unfoldable pub write_features : ℤ → List (String × Bool) → Exec World Unit
write_features org [] = pure tt
write_features org ((key, enabled) ∷ rest) =
    call (Queries.upsert_organization_feature org key enabled) >> write_features org rest

unfoldable pub write_preferences : ℤ → List (String × String) → Exec World Unit
write_preferences org [] = pure tt
write_preferences org ((key, value) ∷ rest) =
    let later = write_preferences org rest in
    if is_empty value
    then later
    else call (Queries.upsert_organization_preference org key value) >> later

abbrev pub preferences_of : SettingsUpdate → List (String × String)
preferences_of p =
    ("deployment_retention_days", trim_space (show_int p.deployment_retention_days))
    ∷ ("default_dashboard_view", trim_space p.default_dashboard_view)
    ∷ ("status_semantics_mode", trim_space p.status_semantics_mode)
    ∷ []

unfoldable pub write_required_fields : ℤ → ℕ → List RequiredField → Exec World Unit
write_required_fields org index [] = pure tt
write_required_fields org index (f ∷ fs) =
    let later = write_required_fields org (suc index) fs in
    if is_empty (trim_space f.label) || is_empty (trim_space f.field_type)
    then later
    else call (
        Queries.create_organization_required_field (record {
          organization_id = org;
          label = trim_space f.label;
          field_type = trim_space f.field_type;
          sort_order = index;
          is_filterable = f.filterable;
        }))
      >> later

-- An error, unless it is that of a database without the table.
abbrev pub unless_missing : Exec World Unit → Outcome → Exec World Unit
unless_missing rest (ok _) = rest
unless_missing rest (err e) = if is_missing_env_priority_table_err e then pure tt else raise e

unfoldable pub write_priorities : ℤ → ℕ → List String → Exec World Unit
unfolding is_missing_env_priority_table_err
write_priorities org index [] = pure tt
write_priorities org index (v ∷ vs) =
    let later = write_priorities org (suc index) vs in
    if is_empty (trim_space v) then later else do
      written ← attempt (
          call (
            Queries.create_organization_environment_priority
              (record { organization_id = org; environment = trim_space v; sort_order = index })))
      unless_missing later written

unfoldable pub write_settings : ℤ → SettingsUpdate → Exec World Unit
unfolding write_features write_preferences write_required_fields write_priorities
write_settings org p = do
  call (
      Queries.update_organization_secrets (trim_space p.auth_token) (trim_space p.webhook_secret)
        p.enabled org)
  write_features org (feature_rows p)
  write_preferences org (preferences_of p)
  call (Queries.delete_organization_required_fields org)
  write_required_fields org 0 p.required_fields
  cleared ← attempt (call (Queries.delete_organization_environment_priorities org))
  unless_missing (write_priorities org 0 p.environment_order) cleared

unfoldable pub update_organization_settings : ℤ → SettingsUpdate → Exec World Unit
unfolding write_settings
update_organization_settings org p = with_tx (write_settings org p)

unfoldable pub list_organization_required_fields : ℤ → Exec World (List RequiredField)
list_organization_required_fields org = do
  rows ← call (Queries.list_organization_required_fields org)
  pure (
      map (λ r. record { label = r.label; field_type = r.field_type; filterable = r.is_filterable })
        rows)

unfoldable pub list_organization_environment_priorities : ℤ → Exec World (List String)
list_organization_environment_priorities org = do
  rows ← call (Queries.list_organization_environment_priorities org)
  pure (filter (λ v. not (is_empty v)) (map (λ r. trim_space r.environment) rows))

unfoldable pub list_organization_features : ℤ → Exec World (List FeatureRow)
list_organization_features org = call (Queries.list_organization_features org)

unfoldable pub list_organization_preferences : ℤ → Exec World (List PreferenceRow)
list_organization_preferences org = call (Queries.list_organization_preferences org)

unfoldable pub write_metadata : ℤ → String → List MetadataValue → Exec World Unit
write_metadata org service [] = pure tt
write_metadata org service (v ∷ vs) =
    let later = write_metadata org service vs in
    if is_empty (trim_space v.label) || is_empty (trim_space v.value)
    then later
    else call (
        Queries.upsert_service_metadata (record {
          organization_id = org;
          service_name = service;
          label = trim_space v.label;
          value = trim_space v.value;
        }))
      >> later

unfoldable pub replace_service_metadata : ℤ → String → List MetadataValue → Exec World Unit
unfolding write_metadata
replace_service_metadata org service values =
    if is_empty (trim_space service)
    then pure tt
    else with_tx (
        call (Queries.delete_service_metadata_by_service org (trim_space service))
        >> write_metadata org (trim_space service) values)
