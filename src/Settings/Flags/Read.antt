-- ===== src/Settings/Flags/Read.antt =====
-- Reading the settings: the flags are those of the organization's rows.
use ddash.Base.{
  map, ltb, String, ◌==◌, ℤ, int_eq, int_eq_iff, Bool, true, List, [], ◌∷◌, any, filter,
  find?-passes, sort_by, count, count-sort_by, All, All-sort_by, ◌≡◌, refl, sym, ap, ◌∙◌, ◌⊎◌, inl,
  inr, arith, Bool-cases,
}
use ddash.Base.Text.{trim_space, to_lower}
use ddash.Effect.{
  Err, Result, Result-cases, ok, err, ok-injective, Exec, pure, raise, attempt, ◌>>=◌,
}
use ddash.Store.{World, FeatureRow, call}
use ddash.Store.Queries as Tables
use ddash.Store.Adapter as Rows
use ddash.Store.Adapter.{Organization, map_organization}
use ddash.Store.Calls.{call_cases}
use ddash.Store.Listings.{get_by_id_cases}
use ddash.Environments.{text_le}
use ddash.Settings.Queries
use ddash.Settings.Queries.{is_feature}
use ddash.Settings.Adapter
use ddash.Settings.Adapter.{SettingsUpdate, stored_features}
use ddash.Settings.Config.{
  OrganizationSettings, default_flag, flag, feature_flags, get_settings, priorities_or_none,
}
use ddash.Settings.Flags.Rows.{Gives, Canonical, flag_lem}
use ddash.Settings.Flags.Untouched.{
  features, Spares, Spares-call, Spares-bind, Spares-pure, Spares-if, Spares-attempt,
}

-- An action fails, or its result has the property.
abbrev pub Ends : {B : Type 0} → (B → Type 0) → Exec World B → World → Type 0
Ends {B} Q m w = ((e : Err) × ((m w).0 ≡ err e)) ⊎ ((b : B) × ((m w).0 ≡ ok b) × Q b)

Ends-bind :
    {A B : Type 0} (Q : B → Type 0) (m : Exec World A) (rest : A → Exec World B) (w : World)
    → Spares m
    → ((a : A) (v : World) → features v ≡ features w → (m w).0 ≡ ok a → Ends Q (rest a) v)
    → Ends Q (m >>= rest) w
unfolding ◌>>=◌
Ends-bind Q m rest w spared next = elim (Result-cases (m w).0) [
  | inl (e, failed) ↦ rw failed (inl (e, refl))
  | inr (a, passed) ↦ rw passed (next a (m w).1 (spared w) passed)
]

Ends-pure : {B : Type 0} (Q : B → Type 0) (b : B) (w : World) → Q b → Ends Q (pure b) w
unfolding pure
Ends-pure Q b w h = inr (b, refl, h)

-- The rows of an organization, as they are listed.
abbrev pub listed : ℤ → List FeatureRow → List FeatureRow
listed org rows =
    sort_by (λ a b. text_le a.feature_key b.feature_key)
      (filter (λ r. int_eq r.organization_id org) rows)

found-id :
    (id : ℤ) (w : World) (org : Organization)
    → (Rows.get_organization_by_id id w).0 ≡ ok org
    → org.id ≡ id
unfolding map_organization
found-id id w org found = elim (get_by_id_cases id w) [
  | inl (e, failed) ↦ let broken : err e ≡ ok org = rw failed at found in absurd (ground arith)
  | inr (row, here, answer) ↦
      let same : map_organization row ≡ org =
        ok-injective (map_organization row) org (rw answer at found) in
      sym (ap (λ o. o.id) same)
      ∙ (int_eq_iff row.id id).0 (find?-passes (λ o. int_eq o.id id) w.db.organizations row here)
]

listed-features :
    (org : ℤ) (w : World) (rows : List FeatureRow)
    → (Adapter.list_organization_features org w).0 ≡ ok rows
    → rows ≡ listed org (features w)
unfolding Adapter.list_organization_features Queries.list_organization_features
listed-features org w rows got = elim (call_cases (Queries.list_organization_features org) w) [
  | inl (e, _, failed) ↦ let broken : err e ≡ ok rows = rw failed at got in absurd (ground arith)
  | inr answer ↦ sym (ok-injective (listed org (features w)) rows (rw answer at got))
]

Spares-get_organization : (id : ℤ) → Spares (Rows.get_organization_by_id id)
unfolding Rows.get_organization_by_id Tables.get_organization_by_id
Spares-get_organization id =
    Spares-bind (call (Tables.get_organization_by_id id)) _
      (Spares-call (Tables.get_organization_by_id id) (λ db. refl))
      (λ org. Spares-pure (map_organization org))

Spares-list_required : (id : ℤ) → Spares (Adapter.list_organization_required_fields id)
unfolding Adapter.list_organization_required_fields Queries.list_organization_required_fields
Spares-list_required id =
    Spares-bind (call (Queries.list_organization_required_fields id)) _
      (Spares-call (Queries.list_organization_required_fields id) (λ db. refl))
      (λ rows. Spares-pure _)

Spares-list_priorities :
    (id : ℤ) → Spares (attempt (Adapter.list_organization_environment_priorities id))
unfolding Adapter.list_organization_environment_priorities
    Queries.list_organization_environment_priorities
Spares-list_priorities id = Spares-attempt (Adapter.list_organization_environment_priorities id) (
    Spares-bind (call (Queries.list_organization_environment_priorities id)) _
      (Spares-call (Queries.list_organization_environment_priorities id) (λ db. refl))
      (λ rows. Spares-pure _))

Spares-priorities_or_none : (r : Result (List String)) → Spares (priorities_or_none r)
unfolding raise
Spares-priorities_or_none (ok values) = Spares-pure values
Spares-priorities_or_none (err e) =
    Spares-if (Adapter.is_missing_env_priority_table_err e) (pure []) (raise e) (Spares-pure [])
      (λ w. refl)

Spares-list_features : (id : ℤ) → Spares (Adapter.list_organization_features id)
unfolding Adapter.list_organization_features Queries.list_organization_features
Spares-list_features id = Spares-call (Queries.list_organization_features id) (λ db. refl)

Spares-list_preferences : (id : ℤ) → Spares (Adapter.list_organization_preferences id)
unfolding Adapter.list_organization_preferences Queries.list_organization_preferences
Spares-list_preferences id = Spares-call (Queries.list_organization_preferences id) (λ db. refl)

-- The keys of the features, and the values that settings have for them.
abbrev pub known_features : List String
known_features =
    "show_sync_status" ∷ "show_metadata_badges" ∷ "show_environment_column"
    ∷ "enable_sse_live_updates" ∷ "show_deployment_history" ∷ "show_metadata_filters"
    ∷ "strict_metadata_enforcement" ∷ "mask_sensitive_metadata_values"
    ∷ "allow_service_metadata_editing" ∷ "show_onboarding_hints" ∷ "show_integration_type_badges"
    ∷ "show_service_detail_insights" ∷ "show_service_dependencies" ∷ "show_service_delivery_metrics"
    ∷ []

abbrev pub flag_values : OrganizationSettings → List Bool
flag_values s =
    s.show_sync_status ∷ s.show_metadata_badges ∷ s.show_environment_column
    ∷ s.enable_sse_live_updates ∷ s.show_deployment_history ∷ s.show_metadata_filters
    ∷ s.strict_metadata_enforcement ∷ s.mask_sensitive_metadata_values
    ∷ s.allow_service_metadata_editing ∷ s.show_onboarding_hints ∷ s.show_integration_type_badges
    ∷ s.show_service_detail_insights ∷ s.show_service_dependencies ∷ s.show_service_delivery_metrics
    ∷ []

-- Reading the settings fails, or gives the flags of the organization's rows.
pub get_settings-flags :
    (list_discovered : ℤ → Exec World (List String)) (id : ℤ) (w : World)
    → ((org : ℤ) → Spares (list_discovered org))
    → Ends
        (λ s. flag_values s ≡ map (feature_flags (listed id (features w))) known_features)
        (get_settings list_discovered id)
        w
unfolding get_settings
get_settings-flags list_discovered id w spared =
    Ends-bind _ (Rows.get_organization_by_id id) _ w (Spares-get_organization id) λ org v0 s0 found.
      Ends-bind _ (Adapter.list_organization_required_fields org.id) _ v0
        (Spares-list_required org.id)
        λ fields v1 s1 _.
          Ends-bind _ (attempt (Adapter.list_organization_environment_priorities org.id)) _ v1
            (Spares-list_priorities org.id)
            λ answer v2 s2 _.
              Ends-bind _ (priorities_or_none answer) _ v2 (Spares-priorities_or_none answer)
                λ values v3 s3 _.
                  Ends-bind _ (list_discovered org.id) _ v3 (spared org.id) λ names v4 s4 _.
                    Ends-bind _ (Adapter.list_organization_features org.id) _ v4
                      (Spares-list_features org.id)
                      λ rows v5 s5 got.
                        Ends-bind _ (Adapter.list_organization_preferences org.id) _ v5
                          (Spares-list_preferences org.id)
                          λ preferences v6 s6 _. Ends-pure _ _ v6 (
                            ap (λ r. map (feature_flags r) known_features)
                              (listed-features org.id v4 rows got
                                ∙ ap (listed org.id) (s4 ∙ s3 ∙ s2 ∙ s1 ∙ s0)
                                ∙ ap (λ o. listed o (features w)) (found-id id w org found)))

module _ (org : ℤ) (key : String) where
  abbrev matches : FeatureRow → Bool
  matches r = to_lower (trim_space r.feature_key) == key

  any-count : (p : FeatureRow → Bool) (rows : List FeatureRow) → any p rows ≡ ltb 0 (count p rows)
  any-count p [] = refl
  any-count p (r ∷ rows) = ground (arith, any-count p rows)

  any-listed :
      (rows : List FeatureRow)
      → All Canonical rows
      → any matches (filter (λ r. int_eq r.organization_id org) rows)
        ≡ any (is_feature org key) rows
  any-listed [] h = refl
  any-listed (r ∷ rows) (c, cs) = elim (Bool-cases (int_eq r.organization_id org)) [
    | inl mine ↦ rw (mine, c, any-listed rows cs)
    | inr other ↦ rw (other, any-listed rows cs)
  ]

  All-listed :
      (b : Bool) (rows : List FeatureRow)
      → All Canonical rows
      → All (Gives org key b) rows
      → All
          (λ r. matches r ≡ true → r.is_enabled ≡ b)
          (filter (λ r. int_eq r.organization_id org) rows)
  All-listed b [] h g = tt
  All-listed b (r ∷ rows) (c, cs) (g, gs) = elim (Bool-cases (int_eq r.organization_id org)) [
    | inl mine ↦ rw mine (
      λ hit. let hit' : (r.feature_key == key) ≡ true = rw c at hit in g (rw (mine, hit')),
      All-listed b rows cs gs,
    )
    | inr other ↦ rw other (All-listed b rows cs gs)
  ]

  -- The flag of rows that all give a value, and that give one unless it is the default.
  pub flag-listed :
      (b : Bool) (rows : List FeatureRow)
      → All Canonical rows
      → All (Gives org key b) rows
      → (any (is_feature org key) rows ≡ true) ⊎ (default_flag key ≡ b)
      → flag key (default_flag key) (listed org rows) ≡ b
  flag-listed b rows canonical gives some_row =
      let before = λ (a c : FeatureRow). text_le a.feature_key c.feature_key in
      let mine : List FeatureRow = filter (λ r. int_eq r.organization_id org) rows in
      let kept : any matches (listed org rows) ≡ any (is_feature org key) rows =
        any-count matches (listed org rows)
        ∙ ap (ltb 0) (count-sort_by before matches mine)
        ∙ sym (any-count matches mine)
        ∙ any-listed rows canonical in
      flag_lem key b (default_flag key) (listed org rows)
        (All-sort_by before (λ r. matches r ≡ true → r.is_enabled ≡ b) mine
          (All-listed b rows canonical gives))
        (elim some_row [ inl there ↦ inl (kept ∙ there) | inr same ↦ inr same ])
