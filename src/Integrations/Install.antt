-- ===== src/Integrations/Install.antt =====
-- apps/ddash/internal/application/githubintegration/service.go: an installation is started with a
-- random state, and completed by whoever returns with that state within fifteen minutes.
pub mod Guarded
pub mod Spent
pub mod Trip
use ddash.Base.{ℕ, ◌+◌, ◌*◌, ltb, String, ℤ, Bool, true, Option, none, some, List, if◌then◌else◌}
use ddash.Base.Text.{trim_space, is_empty}
use ddash.Base.Text.Format.{hex_bytes}
use ddash.Effect.{
  Result, ok, err, other, is_no_rows, setup_intent_not_found, setup_intent_expired, Exec, pure,
  raise, lift, attempt, ◌>>=◌, ◌>>◌,
}
use ddash.Store.{InstallationRow, IntentRow, World}
use ddash.Identity.Tokens.{read_entropy, later_entropy}
use ddash.Integrations.Adapter

abbrev or_production : String → String
or_production value = if is_empty value then "production" else value

-- domains/githubintegration/models.go
unfoldable pub normalize_environment : String → String → String
normalize_environment value fallback =
    or_production (if is_empty (trim_space value) then trim_space fallback else trim_space value)

unfoldable pub random_state_hex : ℕ → Exec World String
random_state_hex size w = elim (read_entropy w.entropy) [
  | none ↦ (err (other "generate state: rand"), record w { entropy = later_entropy w.entropy })
  | some bytes ↦ (ok (hex_bytes size 0 bytes), record w { entropy = later_entropy w.entropy })
]

-- 15 * time.Minute
abbrev pub setup_lifetime : ℕ
setup_lifetime = 15 * 60 * 1000000000

abbrev pub new_intent : String → ℤ → String → String → ℕ → IntentRow
new_intent state org label environment now = record {
  state = state;
  organization_id = org;
  organization_label = trim_space label;
  default_environment = normalize_environment environment "production";
  expires_at = now + setup_lifetime;
}

-- The first argument is the installer's StartInstall, which builds the address to visit; `now` is
-- what time.Now gives.
unfoldable pub start_install :
    (String → Result String) → ℤ → String → String → ℕ → Exec World String
unfolding random_state_hex normalize_environment
start_install installer org label environment now = do
  state ← random_state_hex 16
  Adapter.create_github_setup_intent (new_intent state org label environment now)
  lift (installer state)

abbrev pub intent_mapping : ℤ → IntentRow → InstallationRow
intent_mapping id intent = record {
  installation_id = id;
  organization_id = intent.organization_id;
  organization_label = intent.organization_label;
  default_environment = intent.default_environment;
  enabled = true;
}

abbrev pub complete_found : String → ℤ → ℕ → Result IntentRow → Exec World Unit
complete_found state id now (err e) = if is_no_rows e then raise setup_intent_not_found else raise e
complete_found state id now (ok intent) =
    if ltb intent.expires_at now
    then (do attempt (Adapter.delete_github_setup_intent state); raise setup_intent_expired)
    else (do
      Adapter.upsert_github_installation_mapping (intent_mapping id intent)
      Adapter.delete_github_setup_intent state)

unfoldable pub complete_install : String → ℤ → ℕ → Exec World Unit
complete_install state id now = do
  found ← attempt (Adapter.get_github_setup_intent_by_state (trim_space state))
  complete_found state id now found

unfoldable pub delete_mapping : ℤ → ℤ → Exec World Unit
delete_mapping org id = Adapter.delete_github_installation_mapping id org

unfoldable pub list_mappings : ℤ → Exec World (List InstallationRow)
list_mappings org = Adapter.list_github_installation_mappings org
