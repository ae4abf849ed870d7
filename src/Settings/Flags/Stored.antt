-- ===== src/Settings/Flags/Stored.antt =====
-- A successful update puts the flags of the keys that the adapter lists.
use ddash.Base.{
  arith, String, ◌==◌, false, if◌then◌else◌, ℤ, Bool, List, [], ◌∷◌, ◌≡◌, refl, ap, ◌∙◌, ◌⊎◌, inl,
  inr, Bool-cases,
}
use ddash.Base.Text.{trim_space}
use ddash.Effect.{Err, Result-cases, ok, err, Exec, attempt, ◌>>=◌, ◌>>◌, other}
use ddash.Store.{World, call, after_call}
use ddash.Store.Calls.{call_cases}
use ddash.Store.Queries.{has_organization}
use ddash.Events.Tx.{with_tx}
use ddash.Events.Atomic.{touch_cases}
use ddash.Settings.Queries
use ddash.Settings.Queries.{put_feature}
use ddash.Settings.Adapter.{
  SettingsUpdate, feature_rows, stored_features, write_features, write_preferences,
  write_required_fields, write_settings, update_organization_settings, write_priorities,
  preferences_of, unless_missing,
}
use ddash.Settings.Flags.Rows.{put_all}
use ddash.Settings.Flags.Untouched.{
  features, Spares, Spares-bind, Spares-secrets, Spares-write_preferences, Spares-delete_required,
  Spares-write_required_fields, Spares-replace_priorities,
}

-- A transaction fails, or its body succeeded on the same tables and its tables are kept.
with_tx_cases :
    (body : Exec World Unit) (w : World)
    → ((e : Err) × ((with_tx body w).0 ≡ err e))
      ⊎ ((v : World) × (v.db ≡ w.db)
          × ((body v).0 ≡ ok tt)
          × ((with_tx body w).1.db ≡ (body v).1.db))
unfolding with_tx ◌>>=◌
with_tx_cases body w = elim (touch_cases w) [
  | inl (e, failed) ↦ rw failed (inl (e, refl))
  | inr began ↦ rw began (elim (Result-cases (body (after_call w w.db)).0) [
    | inl (e, failed) ↦
        rw failed (elim (touch_cases (record (body (after_call w w.db)).1 { db = w.db })) [
          | inl (e', failed') ↦ rw failed' (inl (e', refl))
          | inr undone ↦ rw undone (inl (e, refl))
        ])
    | inr (_, passed) ↦ rw passed (elim (touch_cases (body (after_call w w.db)).1) [
      | inl (e, failed) ↦ rw failed (inl (e, refl))
      | inr done ↦ rw done (inr (after_call w w.db, refl, passed, refl))
    ])
  ])
]

-- The value of the first row with a key.
abbrev pub value_of : List (String × Bool) → String → Bool
value_of [] key = false
value_of ((k, enabled) ∷ rest) key =
    let later = value_of rest key in if k == key then enabled else later

abbrev with_keys : (String → Bool) → List String → List (String × Bool)
with_keys flags [] = []
with_keys flags (k ∷ ks) = (k, flags k) ∷ with_keys flags ks

-- The flags that an update gives to the stored keys.
abbrev pub given : SettingsUpdate → String → Bool
given p = value_of (feature_rows p)

feature_rows-given : (p : SettingsUpdate) → feature_rows p ≡ with_keys (given p) stored_features
feature_rows-given p = refl

module _ (org : ℤ) (flags : String → Bool) where
  write_features-cases :
      (keys : List String) (w : World)
      → ((e : Err) × ((write_features org (with_keys flags keys) w).0 ≡ err e))
        ⊎ (((write_features org (with_keys flags keys) w).0 ≡ ok tt)
            × (features (write_features org (with_keys flags keys) w).1
                ≡ put_all org flags keys (features w)))
  unfolding write_features put_all ◌>>=◌ Queries.upsert_organization_feature
  write_features-cases [] w = inr (refl, refl)
  write_features-cases (k ∷ ks) w =
      elim (call_cases (Queries.upsert_organization_feature org k (flags k)) w) [
        | inl (e, _, failed) ↦ rw failed (inl (e, refl))
        | inr answer ↦ elim (Bool-cases (has_organization org w.db)) [
          | inl known ↦ rw (answer, known) (write_features-cases ks _)
          | inr unknown ↦ rw (answer, unknown) (inl (other "FOREIGN KEY constraint failed", refl))
        ]
      ]

module _ (org : ℤ) (p : SettingsUpdate) where
  -- The statements behind those for the features.
  rest : Exec World Unit
  rest = do
    write_preferences org (preferences_of p)
    call (Queries.delete_organization_required_fields org)
    write_required_fields org 0 p.required_fields
    cleared ← attempt (call (Queries.delete_organization_environment_priorities org))
    unless_missing (write_priorities org 0 p.environment_order) cleared

  Spares-rest : Spares rest
  unfolding rest
  Spares-rest =
      Spares-bind (write_preferences org (preferences_of p)) _
        (Spares-write_preferences org (preferences_of p))
        (λ _.
          Spares-bind (call (Queries.delete_organization_required_fields org)) _
            (Spares-delete_required org)
            (λ _.
              Spares-bind (write_required_fields org 0 p.required_fields) _
                (Spares-write_required_fields org 0 p.required_fields)
                (λ _. Spares-replace_priorities org p.environment_order)))

  secrets : Exec World Unit
  secrets = call (
      Queries.update_organization_secrets (trim_space p.auth_token) (trim_space p.webhook_secret)
        p.enabled org)

  features_then_rest :
      (keys : List String) (w : World)
      → ((e : Err) × (((write_features org (with_keys (given p) keys) >> rest) w).0 ≡ err e))
        ⊎ (features ((write_features org (with_keys (given p) keys) >> rest) w).1
            ≡ put_all org (given p) keys (features w))
  unfolding ◌>>=◌
  features_then_rest keys w = elim (write_features-cases org (given p) keys w) [
    | inl (e, failed) ↦ rw failed (inl (e, refl))
    | inr (passed, put) ↦
        rw passed (inr (Spares-rest (write_features org (with_keys (given p) keys) w).1 ∙ put))
  ]

  write_settings-cases :
      (w : World)
      → ((e : Err) × ((write_settings org p w).0 ≡ err e))
        ⊎ (features (write_settings org p w).1 ≡ put_all org (given p) stored_features (features w))
  unfolding write_settings ◌>>=◌ rest secrets
  write_settings-cases w = elim (Result-cases (secrets w).0) [
    | inl (e, failed) ↦ rw failed (inl (e, refl))
    | inr (_, passed) ↦ rw passed (elim (features_then_rest stored_features (secrets w).1) [
      | inl failed ↦ inl failed
      | inr put ↦
          inr (put ∙ ap (put_all org (given p) stored_features) (Spares-secrets _ _ _ org w))
    ])
  ]

  -- An update fails, or leaves the features with the given flags put.
  pub update_organization_settings-cases :
      (w : World)
      → ((e : Err) × ((update_organization_settings org p w).0 ≡ err e))
        ⊎ (features (update_organization_settings org p w).1
            ≡ put_all org (given p) stored_features (features w))
  unfolding update_organization_settings
  update_organization_settings-cases w = elim (with_tx_cases (write_settings org p) w) [
    | inl failed ↦ inl failed
    | inr (v, same, passed, left) ↦ elim (write_settings-cases v) [
      | inl (e, failed) ↦ absurd (ground arith)
      | inr put ↦ inr (
          ap (λ db. db.settings.features) left
          ∙ put
          ∙ ap (λ db. put_all org (given p) stored_features db.settings.features) same)
    ]
  ]
