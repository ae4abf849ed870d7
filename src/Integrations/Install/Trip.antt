-- ===== src/Integrations/Install/Trip.antt =====
-- An installation that is started and completed in time maps to its organization.
use ddash.Base.{
  ℕ, ◌+◌, ◌≤◌, ltb, String, ℤ, Bool, true, false, not, some, List, [], ◌∷◌, ◌++◌, any, Option,
  find?, filter, ◌≡◌, refl, inl, inr, arith, Bool-cases, eq_refl,
}
use ddash.Base.Text.{trim_space, is_empty}
use ddash.Base.Text.Format.{hex_bytes}
use ddash.Base.Text.Laws.{trim_space_idem}
use ddash.Base.Text.Solid.{trim_space-solid, is_solid-hex_bytes}
use ddash.Effect.{Result, ok, ◌>>=◌}
use ddash.Store.{IntentRow, InstallationRow, Db, World, call}
use ddash.Store.Queries.{has_organization}
use ddash.Integrations.Adapter
use ddash.Integrations.Adapter.{trim_installation, trim_intent}
use ddash.Integrations.Queries
use ddash.Integrations.Queries.{has_state, set_installations, set_intents, put_installation}
use ddash.Integrations.Install.{
  start_install, complete_install, normalize_environment, random_state_hex, setup_lifetime,
}

trimmed_production : trim_space "production" ≡ "production"
unfolding trim_space
trimmed_production = refl

trim_space-normalize_environment :
    (value : String)
    → trim_space (normalize_environment value "production")
      ≡ normalize_environment value "production"
unfolding normalize_environment
trim_space-normalize_environment value = elim (Bool-cases (is_empty (trim_space value))) [
  | inl blank ↦ rw (blank, trimmed_production) trimmed_production
  | inr given ↦ rw (given, given) (trim_space_idem value)
]

find?-append :
    {A : Type 0} (p : A → Bool) (xs : List A) (x : A)
    → any p xs ≡ false
    → p x ≡ true
    → find? p (xs ++ x ∷ []) ≡ some x
find?-append p [] x none_yet here = rw here
find?-append p (y ∷ xs) x none_yet here = ground (arith, find?-append p xs x)

filter-append_last :
    {A : Type 0} (p : A → Bool) (xs : List A) (x : A)
    → any p xs ≡ false
    → p x ≡ true
    → filter (λ y. not (p y)) (xs ++ x ∷ []) ≡ xs
filter-append_last p [] x none_yet here = rw here
filter-append_last p (y ∷ xs) x none_yet here = ground (arith, filter-append_last p xs x)

-- The mapping that an installation ends with.
abbrev pub mapping : ℤ → ℤ → String → String → InstallationRow
mapping id org label environment = record {
  installation_id = id;
  organization_id = org;
  organization_label = trim_space label;
  default_environment = normalize_environment environment "production";
  enabled = true;
}

module _ (installer : String → Result String) (org id : ℤ) (label environment : String)
    (now later : ℕ) (db : Db) (bytes : ℕ → ℕ) (rest : List (Option (ℕ → ℕ)))
    (known : has_organization org db ≡ true)
    (fresh : any (has_state (hex_bytes 16 0 bytes)) db.links.intents ≡ false)
    (in_time : later ≤ now + setup_lifetime) where
  -- The intent as it is stored.
  abbrev intent : IntentRow
  intent = record {
    state = hex_bytes 16 0 bytes;
    organization_id = org;
    organization_label = trim_space label;
    default_environment = normalize_environment environment "production";
    expires_at = now + setup_lifetime;
  }

  -- No store call fails, and `rand.Read` gives the bytes.
  abbrev pub ready : World
  ready = record { db = db; faults = []; entropy = some bytes ∷ rest }

  abbrev started : World
  started = record {
    db = set_intents (db.links.intents ++ intent ∷ []) db;
    faults = [];
    entropy = rest;
  }

  start_lem :
      start_install installer org label environment now ready
      ≡ (installer (hex_bytes 16 0 bytes), started)
  unfolding start_install random_state_hex ◌>>=◌ Adapter.create_github_setup_intent call
      Queries.create_github_setup_intent
  start_lem = rw (
    trim_space-solid (hex_bytes 16 0 bytes) (is_solid-hex_bytes 16 0 bytes),
    fresh,
    known,
    trim_space_idem label,
    trim_space-normalize_environment environment,
  )

  trimmed_state : trim_space (hex_bytes 16 0 bytes) ≡ hex_bytes 16 0 bytes
  trimmed_state = trim_space-solid (hex_bytes 16 0 bytes) (is_solid-hex_bytes 16 0 bytes)

  ltb_in_time : ltb (now + setup_lifetime) later ≡ false
  ltb_in_time = ground arith

  complete_lem : complete_install (hex_bytes 16 0 bytes) id later started ≡ (
    ok tt,
    record started {
      db =
          set_installations
            (put_installation (mapping id org label environment) db.links.installations)
            db;
    },
  )
  unfolding complete_install ◌>>=◌ Adapter.get_github_setup_intent_by_state call
      Adapter.upsert_github_installation_mapping Adapter.delete_github_setup_intent
      Queries.get_github_setup_intent_by_state Queries.upsert_github_installation_mapping
      Queries.delete_github_setup_intent
  complete_lem = rw (
    trimmed_state,
    trimmed_state,
    find?-append (has_state (hex_bytes 16 0 bytes)) db.links.intents intent fresh
        (eq_refl (hex_bytes 16 0 bytes)),
    ltb_in_time,
    known,
    trim_space_idem label,
    trim_space-normalize_environment environment,
    trimmed_state,
    filter-append_last (has_state (hex_bytes 16 0 bytes)) db.links.intents intent fresh
        (eq_refl (hex_bytes 16 0 bytes)),
  )

  -- Where no store call fails, the organization is known and no intent has the drawn state:
  -- starting an installation gives the installer's answer for that state, and completing it with
  -- that state within fifteen minutes succeeds. The tables then differ from those before in the
  -- mapping alone, which is enabled and of the organization, and no intent is left over.
  pub complete_install-start_install :
      ((start_install installer org label environment now ready).0
        ≡ installer (hex_bytes 16 0 bytes))
      × (complete_install
            (hex_bytes 16 0 bytes)
            id
            later
            (start_install installer org label environment now ready).1
          ≡ (
            ok tt,
            record {
              db =
                  set_installations
                    (put_installation (mapping id org label environment) db.links.installations)
                    db;
              faults = [];
              entropy = rest;
            },
          ))
  complete_install-start_install = rw start_lem (refl, complete_lem)
