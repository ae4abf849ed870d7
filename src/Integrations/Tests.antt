-- ===== src/Integrations/Tests.antt =====
-- An organization that installs the GitHub app, on which the theorems about it are tried.
use ddash.Base.{ℕ, String, ℤ, pos, true, false, List, [], ◌∷◌, Option, some, none, ◌≡◌, refl, arith}
use ddash.Base.Text.{trim_space}
use ddash.Base.Text.Format.{hex_bytes}
use ddash.Effect.{Err, Result, Outcome, ok, err, setup_intent_expired}
use ddash.Store.{OrganizationRow, InstallationRow, Db, World, no_links, no_settings}
use ddash.Integrations.Queries.{set_installations, put_installation}
use ddash.Integrations.Install.{start_install, complete_install}
use ddash.Integrations.Install.Guarded.{Completion, complete_install-Completion}
use ddash.Integrations.Install.Spent.{complete_install_once}
use ddash.Integrations.Install.Trip.{mapping, complete_install-start_install}

abbrev pub acme : OrganizationRow
acme = record {
  id = pos 7;
  name = "acme";
  auth_token = "token";
  webhook_secret = "secret";
  enabled = true;
  join_code = none;
}

abbrev pub office : Db
office = record {
  organizations = acme ∷ [];
  next_organization = 8;
  users = [];
  next_user = 1;
  members = [];
  join_requests = [];
  log = record { rows = []; next_seq = 1 };
  projected = [];
  links = no_links;
  dependencies = [];
  settings = no_settings;
}

abbrev pub dice : ℕ → ℕ
dice i = i

abbrev installer : String → Result String
installer state = ok state

abbrev before : World
before = record { db = office; faults = []; entropy = some dice ∷ [] }

abbrev pub started : World
started = (start_install installer (pos 7) " acme " "" 1000 before).1

abbrev state : String
state = hex_bytes 16 0 dice

abbrev pub linked : World
linked = (complete_install state (pos 42) 2000 started).1

mapped_row : linked.db.links.installations ≡ mapping (pos 42) (pos 7) " acme " "" ∷ []
unfolding complete_install ddash.Effect.◌>>=◌
    ddash.Integrations.Adapter.get_github_setup_intent_by_state ddash.Store.call start_install
    ddash.Integrations.Adapter.create_github_setup_intent
    ddash.Integrations.Queries.create_github_setup_intent ddash.Base.int_eq
    ddash.Integrations.Queries.get_github_setup_intent_by_state trim_space hex_bytes
    ddash.Integrations.Adapter.upsert_github_installation_mapping
    ddash.Integrations.Queries.upsert_github_installation_mapping
    ddash.Integrations.Adapter.delete_github_setup_intent
    ddash.Integrations.Queries.delete_github_setup_intent
mapped_row = refl

-- A state that is shown after its fifteen minutes maps nothing and is gone.
too_late : (complete_install state (pos 42) 900000001001 started).0 ≡ err setup_intent_expired
unfolding complete_install ddash.Effect.◌>>=◌
    ddash.Integrations.Adapter.get_github_setup_intent_by_state ddash.Store.call start_install
    ddash.Integrations.Adapter.create_github_setup_intent
    ddash.Integrations.Queries.create_github_setup_intent ddash.Base.int_eq
    ddash.Integrations.Queries.get_github_setup_intent_by_state trim_space hex_bytes
too_late = refl

complete_install-start_install_example :
    ((start_install installer (pos 7) " acme " "" 1000 before).0 ≡ installer state)
    × (complete_install state (pos 42) 2000 started ≡ (
      ok tt,
      record {
        db =
            set_installations
              (put_installation (mapping (pos 42) (pos 7) " acme " "") office.links.installations)
              office;
        faults = [];
        entropy = [];
      },
    ))
unfolding ddash.Base.int_eq
complete_install-start_install_example =
    complete_install-start_install installer (pos 7) (pos 42) " acme " "" 1000 2000 office dice []
      refl refl (omega arith)

complete_install-Completion_example :
    Completion state
      (pos 42)
      2000
      started
      (complete_install state (pos 42) 2000 started).1.db
      (complete_install state (pos 42) 2000 started).0
complete_install-Completion_example = complete_install-Completion state (pos 42) 2000 started

completed : (complete_install state (pos 42) 2000 started).0 ≡ ok tt
unfolding complete_install ddash.Effect.◌>>=◌
    ddash.Integrations.Adapter.get_github_setup_intent_by_state ddash.Store.call start_install
    ddash.Integrations.Adapter.create_github_setup_intent
    ddash.Integrations.Queries.create_github_setup_intent ddash.Base.int_eq
    ddash.Integrations.Queries.get_github_setup_intent_by_state trim_space hex_bytes
    ddash.Integrations.Adapter.upsert_github_installation_mapping
    ddash.Integrations.Queries.upsert_github_installation_mapping
    ddash.Integrations.Adapter.delete_github_setup_intent
    ddash.Integrations.Queries.delete_github_setup_intent
completed = refl

same_state : trim_space " 000102030405060708090a0b0c0d0e0f" ≡ trim_space state
unfolding hex_bytes trim_space
same_state = refl

complete_install_once_example :
    ((complete_install " 000102030405060708090a0b0c0d0e0f" (pos 43) 3000 linked).1.db ≡ linked.db)
    × ((e : Err) × ((complete_install " 000102030405060708090a0b0c0d0e0f" (pos 43) 3000 linked).0
          ≡ err e))
complete_install_once_example =
    complete_install_once state " 000102030405060708090a0b0c0d0e0f" (pos 42) (pos 43) 2000 3000
      started linked completed same_state (λ h. h)
