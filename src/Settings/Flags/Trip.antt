-- ===== src/Settings/Flags/Trip.antt =====
-- Flags that an update stores are the flags that are read afterwards; one flag is not stored.
use ddash.Base.{
  ℕ, zero, suc, map, [], ◌∷◌, String, ℤ, Bool, true, false, List, any, All, ◌≡◌, refl, ap, ◌∙◌, ◌⊎◌,
  inl, inr, arith,
}
use ddash.Base.Text.{trim_space, to_lower}
use ddash.Effect.{Err, ok, err, Exec}
use ddash.Store.{World, FeatureRow}
use ddash.Environments.{has}
use ddash.Settings.Queries.{is_feature}
use ddash.Settings.Adapter.{stored_features}
use ddash.Settings.Config.{
  OrganizationSettings, SettingsInput, store_update, delivery_metrics, default_flag, flag,
  feature_flags, get_settings, update_settings,
}
use ddash.Settings.Flags.Rows.{
  put_all, Canonical, put_all-Gives, any-put_all, Canonical-put_all, unheld-Gives,
}
use ddash.Settings.Flags.Untouched.{features, Spares}
use ddash.Settings.Flags.Stored.{given, update_organization_settings-cases}
use ddash.Settings.Flags.Read.{known_features, flag_values, listed, get_settings-flags, flag-listed}

stored_small : All (λ k. to_lower (trim_space k) ≡ k) stored_features
unfolding to_lower trim_space
stored_small = (
  refl,
  (
    refl,
    (refl, (refl, (refl, (refl, (refl, (refl, (refl, (refl, (refl, (refl, (refl, tt))))))))))),
  ),
)

-- The flags of the rows that an update leaves.
module _ (org : ℤ) (flags : String → Bool) (before : List FeatureRow)
    (canonical : All Canonical before) where
  abbrev after : List FeatureRow
  after = put_all org flags stored_features before

  stored_flag :
      (key : String)
      → has key stored_features ≡ true
      → feature_flags (listed org after) key ≡ flags key
  unfolding feature_flags
  stored_flag key stored =
      let some_row : any (is_feature org key) after ≡ true =
        any-put_all org flags key stored_features before ∙ rw stored (ground arith) in
      let given : flag key (default_flag key) (listed org after) ≡ flags key =
        flag-listed org key (flags key) after
          (Canonical-put_all org flags stored_features before stored_small canonical)
          (put_all-Gives org flags key stored_features before stored) (inl some_row) in
      rw (given, stored) (ground arith)

  unstored_flag :
      any (is_feature org delivery_metrics) before ≡ false
      → feature_flags (listed org after) delivery_metrics ≡ true
  unfolding feature_flags
  unstored_flag unheld =
      let no_row : any (is_feature org delivery_metrics) after ≡ false =
        any-put_all org flags delivery_metrics stored_features before ∙ rw unheld in
      flag-listed org delivery_metrics true after
        (Canonical-put_all org flags stored_features before stored_small canonical)
        (unheld-Gives org (λ _. true) delivery_metrics after no_row) (inr refl)

-- The flags that were read are those of the update, field by field.
abbrev pub SameFlags : OrganizationSettings → SettingsInput → Type 0
SameFlags s u =
    (s.show_sync_status ≡ u.show_sync_status)
    × (s.show_metadata_badges ≡ u.show_metadata_badges)
    × (s.show_environment_column ≡ u.show_environment_column)
    × (s.enable_sse_live_updates ≡ u.enable_sse_live_updates)
    × (s.show_deployment_history ≡ u.show_deployment_history)
    × (s.show_metadata_filters ≡ u.show_metadata_filters)
    × (s.strict_metadata_enforcement ≡ u.strict_metadata_enforcement)
    × (s.mask_sensitive_metadata_values ≡ u.mask_sensitive_metadata_values)
    × (s.allow_service_metadata_editing ≡ u.allow_service_metadata_editing)
    × (s.show_onboarding_hints ≡ u.show_onboarding_hints)
    × (s.show_integration_type_badges ≡ u.show_integration_type_badges)
    × (s.show_service_detail_insights ≡ u.show_service_detail_insights)
    × (s.show_service_dependencies ≡ u.show_service_dependencies)

abbrev nth : ℕ → List Bool → Bool
nth n [] = false
nth zero (b ∷ bs) = b
nth (suc n) (b ∷ bs) = nth n bs

-- Settings whose flags are those that the rows after an update stand for.
flags-SameFlags :
    (org : ℤ) (u : SettingsInput) (before : List FeatureRow) (s : OrganizationSettings)
    → (canonical : All Canonical before)
    → flag_values s
      ≡ map
          (feature_flags (listed org (put_all org (given (store_update u)) stored_features before)))
          known_features
    → SameFlags s u
      × (any (is_feature org delivery_metrics) before ≡ false
          → s.show_service_delivery_metrics ≡ true)
flags-SameFlags org u before s canonical e =
    let stored : (key : String)
        → has key stored_features ≡ true
        → feature_flags (listed org (put_all org (given (store_update u)) stored_features before))
            key
          ≡ given (store_update u) key =
      λ key. stored_flag org (given (store_update u)) before canonical key in
    (
      (
        ap (nth 0) e ∙ stored "show_sync_status" refl,
        ap (nth 1) e ∙ stored "show_metadata_badges" refl,
        ap (nth 2) e ∙ stored "show_environment_column" refl,
        ap (nth 3) e ∙ stored "enable_sse_live_updates" refl,
        ap (nth 4) e ∙ stored "show_deployment_history" refl,
        ap (nth 5) e ∙ stored "show_metadata_filters" refl,
        ap (nth 6) e ∙ stored "strict_metadata_enforcement" refl,
        ap (nth 7) e ∙ stored "mask_sensitive_metadata_values" refl,
        ap (nth 8) e ∙ stored "allow_service_metadata_editing" refl,
        ap (nth 9) e ∙ stored "show_onboarding_hints" refl,
        ap (nth 10) e ∙ stored "show_integration_type_badges" refl,
        ap (nth 11) e ∙ stored "show_service_detail_insights" refl,
        ap (nth 12) e ∙ stored "show_service_dependencies" refl,
      ),
      λ unheld. ap (nth 13) e ∙ unstored_flag org (given (store_update u)) before canonical unheld,
    )

-- Where the stored keys of features have no blanks or capitals, and whatever store calls fail: an
-- update of the settings fails, or reading them afterwards fails, or it gives each of the thirteen
-- flags that the adapter stores as it was updated, field by field. The flag of the delivery metrics,
-- if it has no row, is on, no matter what the update says.
pub get_settings-update_settings :
    (list_discovered : ℤ → Exec World (List String)) (org : ℤ) (update : SettingsInput)
    → (w later : World) → ((id : ℤ) → Spares (list_discovered id))
    → All Canonical (features w)
    → later.db ≡ (update_settings org update w).1.db
    → ((e : Err) × ((update_settings org update w).0 ≡ err e))
      ⊎ (((e : Err) × ((get_settings list_discovered org later).0 ≡ err e))
          ⊎ ((s : OrganizationSettings) × ((get_settings list_discovered org later).0 ≡ ok s)
              × SameFlags s update
              × (any (is_feature org delivery_metrics) (features w) ≡ false
                  → s.show_service_delivery_metrics ≡ true)))
unfolding update_settings
get_settings-update_settings list_discovered org update w later spared canonical left =
    elim (update_organization_settings-cases org (store_update update) w) [
      | inl failed ↦ inl failed
      | inr put ↦ inr (elim (get_settings-flags list_discovered org later spared) [
        | inl failed ↦ inl failed
        | inr (s, read, flags) ↦
            let rows : features later
                ≡ put_all org (given (store_update update)) stored_features (features w) =
              ap (λ db. db.settings.features) left ∙ put in
            let same =
              flags-SameFlags org update (features w) s canonical
                (flags ∙ ap (λ r. map (feature_flags (listed org r)) known_features) rows) in
            inr (s, read, same.0, same.1)
      ])
    ]
