-- ===== src/Store.antt =====
-- The data that the SQLite store keeps (internal/db/migrations) and the state of a run: the
-- tables, the faults that the store calls will meet, and the bytes that `rand.Read` will give.
-- Rows stand in the order of their ids. Columns that hold times of creation and update are left
-- out: no modelled code reads them.
pub mod Queries
pub mod Adapter
pub mod Owners
pub mod WellFormed
pub mod Calls
pub mod Enabled
pub mod Listings
use ddash.Base.{ℕ, suc, String, ℤ, Bool, Option, none, some, List, [], ◌∷◌, if◌then◌else◌}
use ddash.Effect.{Err, Result, ok, err, Exec}

pub record OrganizationRow : Type 0 where
  pub id : ℤ
  pub name : String
  pub auth_token : String
  pub webhook_secret : String
  pub enabled : Bool
  pub join_code : Option String

pub record UserRow : Type 0 where
  pub id : ℤ
  pub github_id : Option String
  pub email : String
  pub nickname : String
  pub name : Option String
  pub avatar_url : Option String

pub record MemberRow : Type 0 where
  pub organization_id : ℤ
  pub user_id : ℤ
  pub role : String

pub record JoinRequestRow : Type 0 where
  pub organization_id : ℤ
  pub user_id : ℤ
  pub request_code : String
  pub status : String
  pub reviewed_by : Option ℤ

-- The columns of `event_store` that an insertion names (AppendEventStoreParams).
pub record EventParams : Type 0 where
  pub organization_id : ℤ
  pub event_id : String
  pub event_type : String
  pub event_source : String
  pub event_timestamp : String
  pub event_ts_ms : ℤ
  pub subject_id : String
  pub subject_source : Option String
  pub subject_type : String
  pub chain_id : Option String
  pub raw_event_json : String

pub record EventRow : Type 0 where
  pub seq : ℕ
  pub params : EventParams

-- The table `event_store`, in the order of `seq`, and its AUTOINCREMENT counter.
pub record EventLog : Type 0 where
  pub rows : List EventRow
  pub next_seq : ℕ

-- A statement that brings a projection table up to date.
pub data Projection : Type 0 where
  -- UpsertServiceEnvStateFromEventSeq, UpsertServiceDeliveryStatsDailyFromEventSeq and
  -- UpsertServiceChangeLinkFromEventSeq, with the organization and the `seq`
  env_state delivery_stats change_link : ℤ → ℕ → Projection
  -- UpsertServiceCurrentStateByService, with the organization and the service
  current_state : ℤ → String → Projection

-- github_installation_mappings
pub record InstallationRow : Type 0 where
  pub installation_id : ℤ
  pub organization_id : ℤ
  pub organization_label : String
  pub default_environment : String
  pub enabled : Bool

-- gitlab_project_mappings
pub record ProjectRow : Type 0 where
  pub project_id : ℤ
  pub organization_id : ℤ
  pub project_path : String
  pub default_environment : String
  pub enabled : Bool

-- github_setup_intents; a time is a number of nanoseconds since the epoch
pub record IntentRow : Type 0 where
  pub state : String
  pub organization_id : ℤ
  pub organization_label : String
  pub default_environment : String
  pub expires_at : ℕ

-- The tables of the GitHub and GitLab integrations.
pub record Links : Type 0 where
  pub installations : List InstallationRow
  pub projects : List ProjectRow
  pub intents : List IntentRow

abbrev pub no_links : Links
no_links = record { installations = []; projects = []; intents = [] }

-- service_dependencies
pub record DependencyRow : Type 0 where
  pub organization_id : ℤ
  pub service_name : String
  pub depends_on_service_name : String

-- organization_features
pub record FeatureRow : Type 0 where
  pub organization_id : ℤ
  pub feature_key : String
  pub is_enabled : Bool

-- organization_preferences
pub record PreferenceRow : Type 0 where
  pub organization_id : ℤ
  pub preference_key : String
  pub preference_value : String

-- organization_required_fields
pub record RequiredFieldRow : Type 0 where
  pub organization_id : ℤ
  pub label : String
  pub field_type : String
  pub sort_order : ℕ
  pub is_filterable : Bool

-- organization_environment_priorities
pub record PriorityRow : Type 0 where
  pub organization_id : ℤ
  pub environment : String
  pub sort_order : ℕ

-- service_metadata
pub record MetadataRow : Type 0 where
  pub organization_id : ℤ
  pub service_name : String
  pub label : String
  pub value : String

-- The tables of the settings of organizations and services.
pub record SettingsTables : Type 0 where
  pub features : List FeatureRow
  pub preferences : List PreferenceRow
  pub required_fields : List RequiredFieldRow
  pub priorities : List PriorityRow
  pub metadata : List MetadataRow

abbrev pub no_settings : SettingsTables
no_settings = record {
  features = [];
  preferences = [];
  required_fields = [];
  priorities = [];
  metadata = [];
}

pub record Db : Type 0 where
  pub organizations : List OrganizationRow
  -- SQLite's AUTOINCREMENT counters: the ids that come next
  pub next_organization : ℕ
  pub users : List UserRow
  pub next_user : ℕ
  pub members : List MemberRow
  pub join_requests : List JoinRequestRow
  pub log : EventLog
  -- the projection statements that were run, in their order
  pub projected : List Projection
  pub links : Links
  pub dependencies : List DependencyRow
  pub settings : SettingsTables

pub record World : Type 0 where
  pub db : Db
  -- for each coming store call, the error that it meets, if any; none beyond the list
  pub faults : List (Option Err)
  -- for each coming call of `rand.Read`, the byte at each place, or none if it fails
  pub entropy : List (Option (ℕ → ℕ))

abbrev pub next_fault : List (Option Err) → Option Err
next_fault [] = none
next_fault (f ∷ _) = f

abbrev pub later_faults : List (Option Err) → List (Option Err)
later_faults [] = []
later_faults (_ ∷ fs) = fs

abbrev pub after_call : World → Db → World
after_call w db = record w { db = db; faults = later_faults w.faults }

-- A store call that meets a fault changes nothing.
unfoldable pub call : {A : Type 0} → Exec Db A → Exec World A
call f w = elim (next_fault w.faults) [
  | some e ↦ (err e, after_call w w.db)
  | none ↦ let (r, db') = f w.db in (r, after_call w db')
]
