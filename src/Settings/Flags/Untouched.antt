-- ===== src/Settings/Flags/Untouched.antt =====
-- Which parts of an update leave the features of organizations alone.
use ddash.Base.{
  ℕ, suc, String, ℤ, Bool, ◌||◌, any, List, [], ◌∷◌, ◌≡◌, refl, ◌∙◌, inl, inr, Bool-cases,
  if◌then◌else◌,
}
use ddash.Base.Text.{trim_space, is_empty}
use ddash.Effect.{Err, Result-cases, Outcome, ok, err, Exec, pure, raise, attempt, ◌>>=◌}
use ddash.Store.{World, Db, FeatureRow, PriorityRow, call}
use ddash.Store.Queries.{has_organization}
use ddash.Store.Calls.{call_cases}
use ddash.Metadata.{RequiredField}
use ddash.Settings.Queries
use ddash.Settings.Queries.{token_taken, is_priority}
use ddash.Settings.Adapter.{
  write_preferences, write_required_fields, write_priorities, unless_missing,
  is_missing_env_priority_table_err,
}

abbrev pub features : World → List FeatureRow
features w = w.db.settings.features

-- An action leaves the features as they are.
abbrev pub Spares : {A : Type 0} → Exec World A → Type 0
Spares m = (w : World) → features (m w).1 ≡ features w

pub Spares-call :
    {A : Type 0} (f : Exec Db A)
    → ((db : Db) → (f db).1.settings.features ≡ db.settings.features)
    → Spares (call f)
Spares-call f h w = elim (call_cases f w) [
  | inl (_, _, failed) ↦ rw failed
  | inr answer ↦ rw answer (h w.db)
]

pub Spares-bind :
    {A B : Type 0} (m : Exec World A) (rest : A → Exec World B)
    → Spares m
    → ((a : A) → Spares (rest a))
    → Spares (m >>= rest)
unfolding ◌>>=◌
Spares-bind m rest h hs w = elim (Result-cases (m w).0) [
  | inl (_, failed) ↦ rw failed (h w)
  | inr (a, passed) ↦ rw passed (hs a (m w).1 ∙ h w)
]

pub Spares-if :
    {A : Type 0} (b : Bool) (m n : Exec World A) → Spares m → Spares n → Spares (if b then m else n)
Spares-if b m n h k w = elim (Bool-cases b) [
  | inl yes_b ↦ rw yes_b (h w)
  | inr no_b ↦ rw no_b (k w)
]

pub Spares-pure : {A : Type 0} (a : A) → Spares {A = A} (pure a)
unfolding pure
Spares-pure a w = refl

Spares-raise : (e : Err) → Spares {A = Unit} (raise e)
unfolding raise
Spares-raise e w = refl

pub Spares-attempt : {A : Type 0} (m : Exec World A) → Spares m → Spares (attempt m)
unfolding attempt
Spares-attempt m h w = h w

pub Spares-secrets :
    (token secret : String) (enabled : Bool) (org : ℤ)
    → Spares (call (Queries.update_organization_secrets token secret enabled org))
unfolding Queries.update_organization_secrets
Spares-secrets token secret enabled org =
    Spares-call (Queries.update_organization_secrets token secret enabled org) λ db.
      elim (Bool-cases (token_taken org token db)) [ inl taken ↦ rw taken | inr free ↦ rw free ]

-- A query that writes only where the organization is known.
known_or :
    (org : ℤ) (db db' : Db) (e : Err)
    → db'.settings.features ≡ db.settings.features
    → (if has_organization org db
        then (let r : Outcome × Db = (ok tt, db') in r)
        else (err e, db)).1.settings.features
      ≡ db.settings.features
known_or org db db' e same = elim (Bool-cases (has_organization org db)) [
  | inl known ↦ rw known same
  | inr unknown ↦ rw unknown
]

pub Spares-write_preferences :
    (org : ℤ) (ps : List (String × String)) → Spares (write_preferences org ps)
unfolding write_preferences Queries.upsert_organization_preference
Spares-write_preferences org [] = Spares-pure tt
Spares-write_preferences org ((key, value) ∷ rest) =
    Spares-if (is_empty value) (write_preferences org rest) _ (Spares-write_preferences org rest) (
      Spares-bind (call (Queries.upsert_organization_preference org key value)) _
        (Spares-call (Queries.upsert_organization_preference org key value)
          λ db. known_or org db _ _ refl)
        (λ _. Spares-write_preferences org rest))

pub Spares-delete_required :
    (org : ℤ) → Spares (call (Queries.delete_organization_required_fields org))
unfolding Queries.delete_organization_required_fields
Spares-delete_required org =
    Spares-call (Queries.delete_organization_required_fields org) (λ db. refl)

pub Spares-write_required_fields :
    (org : ℤ) (index : ℕ) (fs : List RequiredField) → Spares (write_required_fields org index fs)
unfolding write_required_fields Queries.create_organization_required_field
Spares-write_required_fields org index [] = Spares-pure tt
Spares-write_required_fields org index (f ∷ fs) =
    Spares-if (is_empty (trim_space f.label) || is_empty (trim_space f.field_type))
      (write_required_fields org (suc index) fs) _ (Spares-write_required_fields org (suc index) fs)
      (Spares-bind _ _
        (Spares-call
          (Queries.create_organization_required_field (record {
            organization_id = org;
            label = trim_space f.label;
            field_type = trim_space f.field_type;
            sort_order = index;
            is_filterable = f.filterable;
          }))
          λ db. known_or org db _ _ refl)
        (λ _. Spares-write_required_fields org (suc index) fs))

Spares-unless_missing :
    (rest : Exec World Unit) (answer : Outcome) → Spares rest → Spares (unless_missing rest answer)
Spares-unless_missing rest (ok _) h = h
Spares-unless_missing rest (err e) h =
    Spares-if (is_missing_env_priority_table_err e) (pure tt) (raise e) (Spares-pure tt)
      (Spares-raise e)

Spares-create_priority :
    (r : PriorityRow) → Spares (call (Queries.create_organization_environment_priority r))
unfolding Queries.create_organization_environment_priority
Spares-create_priority r = Spares-call (Queries.create_organization_environment_priority r) λ db.
    elim (Bool-cases (any (is_priority r) db.settings.priorities)) [
      | inl taken ↦ rw taken
      | inr free ↦ rw free (known_or r.organization_id db _ _ refl)
    ]

Spares-write_priorities :
    (org : ℤ) (index : ℕ) (vs : List String) → Spares (write_priorities org index vs)
unfolding write_priorities
Spares-write_priorities org index [] = Spares-pure tt
Spares-write_priorities org index (v ∷ vs) =
    let row : PriorityRow = record {
      organization_id = org;
      environment = trim_space v;
      sort_order = index;
    } in
    Spares-if (is_empty (trim_space v)) (write_priorities org (suc index) vs) _
      (Spares-write_priorities org (suc index) vs)
      (Spares-bind (attempt (call (Queries.create_organization_environment_priority row))) _
        (Spares-attempt (call (Queries.create_organization_environment_priority row))
          (Spares-create_priority row))
        (λ answer.
          Spares-unless_missing (write_priorities org (suc index) vs) answer
            (Spares-write_priorities org (suc index) vs)))

-- The part of an update that replaces the priorities.
pub Spares-replace_priorities :
    (org : ℤ) (vs : List String)
    → Spares (
        attempt (call (Queries.delete_organization_environment_priorities org))
        >>= unless_missing (write_priorities org 0 vs))
unfolding Queries.delete_organization_environment_priorities
Spares-replace_priorities org vs =
    Spares-bind (attempt (call (Queries.delete_organization_environment_priorities org))) _
      (Spares-attempt (call (Queries.delete_organization_environment_priorities org))
        (Spares-call (Queries.delete_organization_environment_priorities org) (λ db. refl)))
      (λ answer.
        Spares-unless_missing (write_priorities org 0 vs) answer (Spares-write_priorities org 0 vs))
