-- ===== src/Settings/Queries.antt =====
-- The queries of internal/db/queries on the tables of settings. Rows stand in the order of their ids.
use ddash.Base.{
  String, ◌==◌, ℤ, int_eq, leb, Bool, not, ◌&&◌, List, [], ◌∷◌, ◌++◌, map, any, filter, sort_by,
  if◌then◌else◌,
}
use ddash.Effect.{other, ok, err, Exec}
use ddash.Store.{
  OrganizationRow, FeatureRow, PreferenceRow, RequiredFieldRow, PriorityRow, MetadataRow,
  SettingsTables, Db,
}
use ddash.Store.Queries.{has_organization}
use ddash.Environments.{text_le}

abbrev pub set_settings : SettingsTables → Db → Db
set_settings t db = record db { settings = t }

abbrev pub set_secrets : ℤ → String → String → Bool → OrganizationRow → OrganizationRow
set_secrets id token secret enabled o =
    if int_eq o.id id
    then record o { auth_token = token; webhook_secret = secret; enabled = enabled }
    else o

-- The column `auth_token` is UNIQUE.
abbrev pub token_taken : ℤ → String → Db → Bool
token_taken id token db =
    has_organization id db
    && any (λ o. o.auth_token == token && not (int_eq o.id id)) db.organizations

unfoldable pub update_organization_secrets : String → String → Bool → ℤ → Exec Db Unit
update_organization_secrets token secret enabled id db =
    if token_taken id token db
    then (err (other "UNIQUE constraint failed: organizations.auth_token"), db)
    else (
      ok tt,
      record db { organizations = map (set_secrets id token secret enabled) db.organizations },
    )

unfoldable pub list_organization_features : ℤ → Exec Db (List FeatureRow)
list_organization_features org db = (
  ok (
      sort_by (λ a b. text_le a.feature_key b.feature_key)
        (filter (λ r. int_eq r.organization_id org) db.settings.features)),
  db,
)

abbrev pub is_feature : ℤ → String → FeatureRow → Bool
is_feature org key r = int_eq r.organization_id org && r.feature_key == key

abbrev pub put_feature : ℤ → String → Bool → List FeatureRow → List FeatureRow
put_feature org key enabled rows =
    if any (is_feature org key) rows
    then map (λ r. if is_feature org key r then record r { is_enabled = enabled } else r) rows
    else rows ++ (record { organization_id = org; feature_key = key; is_enabled = enabled }) ∷ []

unfoldable pub upsert_organization_feature : ℤ → String → Bool → Exec Db Unit
upsert_organization_feature org key enabled db =
    if has_organization org db
    then (
      ok tt,
      set_settings
          (record db.settings { features = put_feature org key enabled db.settings.features }) db,
    )
    else (err (other "FOREIGN KEY constraint failed"), db)

unfoldable pub list_organization_preferences : ℤ → Exec Db (List PreferenceRow)
list_organization_preferences org db = (
  ok (
      sort_by (λ a b. text_le a.preference_key b.preference_key)
        (filter (λ r. int_eq r.organization_id org) db.settings.preferences)),
  db,
)

abbrev pub is_preference : ℤ → String → PreferenceRow → Bool
is_preference org key r = int_eq r.organization_id org && r.preference_key == key

abbrev pub put_preference : ℤ → String → String → List PreferenceRow → List PreferenceRow
put_preference org key value rows =
    if any (is_preference org key) rows
    then map (λ r. if is_preference org key r then record r { preference_value = value } else r)
        rows
    else rows
      ++ (record { organization_id = org; preference_key = key; preference_value = value }) ∷ []

unfoldable pub upsert_organization_preference : ℤ → String → String → Exec Db Unit
upsert_organization_preference org key value db =
    if has_organization org db
    then (
      ok tt,
      set_settings
          (record db.settings {
            preferences = put_preference org key value db.settings.preferences;
          })
          db,
    )
    else (err (other "FOREIGN KEY constraint failed"), db)

unfoldable pub list_organization_required_fields : ℤ → Exec Db (List RequiredFieldRow)
list_organization_required_fields org db = (
  ok (
      sort_by (λ a b. leb a.sort_order b.sort_order)
        (filter (λ r. int_eq r.organization_id org) db.settings.required_fields)),
  db,
)

unfoldable pub delete_organization_required_fields : ℤ → Exec Db Unit
delete_organization_required_fields org db = (
  ok tt,
  set_settings
      (record db.settings {
        required_fields =
            filter (λ r. not (int_eq r.organization_id org)) db.settings.required_fields;
      })
      db,
)

unfoldable pub create_organization_required_field : RequiredFieldRow → Exec Db Unit
create_organization_required_field r db =
    if has_organization r.organization_id db
    then (
      ok tt,
      set_settings (record db.settings { required_fields = db.settings.required_fields ++ r ∷ [] })
          db,
    )
    else (err (other "FOREIGN KEY constraint failed"), db)

unfoldable pub list_organization_environment_priorities : ℤ → Exec Db (List PriorityRow)
list_organization_environment_priorities org db = (
  ok (
      sort_by (λ a b. leb a.sort_order b.sort_order)
        (filter (λ r. int_eq r.organization_id org) db.settings.priorities)),
  db,
)

unfoldable pub delete_organization_environment_priorities : ℤ → Exec Db Unit
delete_organization_environment_priorities org db = (
  ok tt,
  set_settings
      (record db.settings {
        priorities = filter (λ r. not (int_eq r.organization_id org)) db.settings.priorities;
      })
      db,
)

abbrev pub is_priority : PriorityRow → PriorityRow → Bool
is_priority r p = int_eq p.organization_id r.organization_id && p.environment == r.environment

-- UNIQUE (organization_id, environment)
unfoldable pub create_organization_environment_priority : PriorityRow → Exec Db Unit
create_organization_environment_priority r db =
    if any (is_priority r) db.settings.priorities
    then (
      err (
          other
            "UNIQUE constraint failed: organization_environment_priorities.organization_id, organization_environment_priorities.environment"),
      db,
    )
    else if has_organization r.organization_id db
    then (
      ok tt,
      set_settings (record db.settings { priorities = db.settings.priorities ++ r ∷ [] }) db,
    )
    else (err (other "FOREIGN KEY constraint failed"), db)

abbrev pub is_metadata_of : ℤ → String → MetadataRow → Bool
is_metadata_of org service r = int_eq r.organization_id org && r.service_name == service

unfoldable pub list_service_metadata_by_service : ℤ → String → Exec Db (List MetadataRow)
list_service_metadata_by_service org service db = (
  ok (
      sort_by (λ a b. text_le a.label b.label)
        (filter (is_metadata_of org service) db.settings.metadata)),
  db,
)

unfoldable pub delete_service_metadata_by_service : ℤ → String → Exec Db Unit
delete_service_metadata_by_service org service db = (
  ok tt,
  set_settings
      (record db.settings {
        metadata = filter (λ r. not (is_metadata_of org service r)) db.settings.metadata;
      })
      db,
)

abbrev pub is_metadata : MetadataRow → MetadataRow → Bool
is_metadata r p = is_metadata_of r.organization_id r.service_name p && p.label == r.label

abbrev pub put_metadata : MetadataRow → List MetadataRow → List MetadataRow
put_metadata r rows =
    if any (is_metadata r) rows
    then map (λ p. if is_metadata r p then r else p) rows
    else rows ++ r ∷ []

unfoldable pub upsert_service_metadata : MetadataRow → Exec Db Unit
upsert_service_metadata r db =
    if has_organization r.organization_id db
    then (
      ok tt,
      set_settings (record db.settings { metadata = put_metadata r db.settings.metadata }) db,
    )
    else (err (other "FOREIGN KEY constraint failed"), db)
