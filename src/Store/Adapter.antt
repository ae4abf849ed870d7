-- ===== src/Store/Adapter.antt =====
-- adapters/sqlite/store.go: the methods of `Store` that serve organizations, users, members and
-- join requests. Each trims its texts and guards its ids, and then makes one store call.
use ddash.Base.{ℕ, String, ℤ, Bool, Option, none, some, List, map, ◌||◌, nonpos, if◌then◌else◌}
use ddash.Base.Text.{trim_space, is_empty}
use ddash.Effect.{Exec, pure, ◌>>=◌}
use ddash.Store.{OrganizationRow, UserRow, World, call}
use ddash.Store.Queries

-- ports.Organization
pub record Organization : Type 0 where
  pub id : ℤ
  pub name : String
  pub auth_token : String
  pub join_code : String
  pub webhook_secret : String
  pub enabled : Bool

-- ports.User
pub record User : Type 0 where
  pub id : ℤ
  pub github_id : String
  pub email : String
  pub nickname : String
  pub name : String
  pub avatar_url : String

-- ports.CreateOrganizationInput
pub record CreateOrganizationInput : Type 0 where
  pub name : String
  pub auth_token : String
  pub join_code : String
  pub webhook_secret : String
  pub enabled : Bool

-- ports.UpsertUserInput
pub record UpsertUserInput : Type 0 where
  pub github_id : String
  pub email : String
  pub nickname : String
  pub name : String
  pub avatar_url : String

abbrev pub string_or_empty : Option String → String
string_or_empty none = ""
string_or_empty (some s) = s

unfoldable pub map_organization : OrganizationRow → Organization
map_organization o = record {
  id = o.id;
  name = o.name;
  auth_token = o.auth_token;
  join_code = string_or_empty o.join_code;
  webhook_secret = o.webhook_secret;
  enabled = o.enabled;
}

unfoldable pub map_user : UserRow → User
map_user u = record {
  id = u.id;
  github_id = string_or_empty u.github_id;
  email = u.email;
  nickname = u.nickname;
  name = string_or_empty u.name;
  avatar_url = string_or_empty u.avatar_url;
}

unfoldable pub null_string : String → Option String
null_string value = let v = trim_space value in if is_empty v then none else some v

unfoldable pub null_int64 : ℤ → Option ℤ
null_int64 value = if nonpos value then none else some value

unfoldable pub get_default_organization : Exec World Organization
get_default_organization = do
  org ← call Queries.get_default_organization
  pure (map_organization org)

unfoldable pub get_organization_by_id : ℤ → Exec World Organization
get_organization_by_id id = do
  org ← call (Queries.get_organization_by_id id)
  pure (map_organization org)

unfoldable pub get_organization_by_join_code : String → Exec World Organization
get_organization_by_join_code code = do
  org ← call (Queries.get_organization_by_join_code (null_string code))
  pure (map_organization org)

unfoldable pub list_organizations : Exec World (List Organization)
list_organizations = do rows ← call Queries.list_organizations; pure (map map_organization rows)

unfoldable pub create_organization : CreateOrganizationInput → Exec World Organization
create_organization input = do
  org ← call (
      Queries.create_organization (record {
        name = trim_space input.name;
        auth_token = trim_space input.auth_token;
        join_code = null_string input.join_code;
        webhook_secret = trim_space input.webhook_secret;
        enabled = input.enabled;
      }))
  pure (map_organization org)

unfoldable pub update_organization_name : ℤ → String → Exec World Unit
update_organization_name org name =
    if nonpos org || is_empty (trim_space name)
    then pure tt
    else call (Queries.update_organization_name (trim_space name) org)

unfoldable pub update_organization_enabled : ℤ → Bool → Exec World Unit
update_organization_enabled org enabled =
    if nonpos org then pure tt else call (Queries.update_organization_enabled enabled org)

unfoldable pub delete_organization : ℤ → Exec World Unit
delete_organization org = if nonpos org then pure tt else call (Queries.delete_organization org)

unfoldable pub upsert_user : UpsertUserInput → Exec World User
upsert_user input = do
  row ← call (
      Queries.upsert_user (record {
        github_id = null_string input.github_id;
        email = trim_space input.email;
        nickname = trim_space input.nickname;
        name = null_string input.name;
        avatar_url = null_string input.avatar_url;
      }))
  pure (map_user row)

unfoldable pub get_user_by_id : ℤ → Exec World User
get_user_by_id id = do row ← call (Queries.get_user_by_id id); pure (map_user row)

unfoldable pub get_user_by_email_or_nickname : Queries.Scan → String → String → Exec World User
get_user_by_email_or_nickname scan email nickname = do
  row ← call (Queries.get_user_by_email_or_nickname scan (trim_space email) (trim_space nickname))
  pure (map_user row)

unfoldable pub list_organizations_by_user : ℤ → Exec World (List Organization)
list_organizations_by_user user = do
  rows ← call (Queries.list_organizations_by_user user)
  pure (map map_organization rows)

unfoldable pub get_organization_member_role : ℤ → ℤ → Exec World String
get_organization_member_role org user = call (Queries.get_organization_member_role org user)

unfoldable pub upsert_organization_member : ℤ → ℤ → String → Exec World Unit
upsert_organization_member org user role =
    call (Queries.upsert_organization_member org user (trim_space role))

unfoldable pub delete_organization_member : ℤ → ℤ → Exec World Unit
delete_organization_member org user = call (Queries.delete_organization_member org user)

unfoldable pub count_organization_owners : ℤ → Exec World ℕ
count_organization_owners org = call (Queries.count_organization_owners org)

unfoldable pub upsert_organization_join_request : ℤ → ℤ → String → Exec World Unit
upsert_organization_join_request org user code =
    if nonpos org || nonpos user
    then pure tt
    else call (Queries.upsert_organization_join_request org user (trim_space code))

unfoldable pub set_organization_join_request_status : ℤ → ℤ → String → ℤ → Exec World Unit
set_organization_join_request_status org user status by =
    if nonpos org || nonpos user || nonpos by
    then pure tt
    else call
        (Queries.set_organization_join_request_status (trim_space status) (null_int64 by) org user)
