-- ===== src/Store/Queries.antt =====
-- The queries of internal/db/queries (organizations, users, members, join requests), as actions on
-- the tables. A query for one row fails with `no_rows` where there is none; constraints of the
-- schema fail with the message that SQLite documents, and then nothing is written.
use mathlib.Core.Option
use Prim.Native.String.{compare}
use Prim.Native.Nat.{Ordering}
use ddash.Base.{
  ℕ, suc, String, ◌==◌, ℤ, pos, int_eq, Bool, true, false, not, ◌&&◌, ◌||◌, Option, none, some,
  List, [], ◌∷◌, ◌++◌, map, find?, any, count, filter, sort_by, if◌then◌else◌, int_le,
}
use ddash.Effect.{no_rows, other, Result, ok, err, Exec}
use ddash.Store.{OrganizationRow, UserRow, MemberRow, JoinRequestRow, Db}

abbrev pub row_or_none : {A : Type 0} → Option A → Result A
row_or_none none = err no_rows
row_or_none (some row) = ok row

-- ORDER BY name, id
unfoldable pub by_name_id : OrganizationRow → OrganizationRow → Bool
by_name_id a b = elim (compare a.name b.name) [
  | Ordering.lt ↦ true
  | Ordering.eq ↦ int_le a.id b.id
  | Ordering.gt ↦ false
]

abbrev pub is_member_row : ℤ → ℤ → MemberRow → Bool
is_member_row org user m = int_eq m.organization_id org && int_eq m.user_id user

unfoldable pub get_default_organization : Exec Db OrganizationRow
get_default_organization db = (row_or_none (find? (λ _. true) db.organizations), db)

unfoldable pub get_organization_by_id : ℤ → Exec Db OrganizationRow
get_organization_by_id id db = (row_or_none (find? (λ o. int_eq o.id id) db.organizations), db)

-- `join_code = NULL` holds of no row.
abbrev pub has_join_code : Option String → OrganizationRow → Bool
has_join_code none o = false
has_join_code (some code) o = elim o.join_code [ none ↦ false | some c ↦ c == code ]

unfoldable pub get_organization_by_join_code : Option String → Exec Db OrganizationRow
get_organization_by_join_code code db =
    (row_or_none (find? (has_join_code code) db.organizations), db)

unfoldable pub list_organizations : Exec Db (List OrganizationRow)
list_organizations db = (ok (sort_by by_name_id db.organizations), db)

-- `organization_members` holds a pair of organization and user once, so the join gives an
-- organization once.
unfoldable pub list_organizations_by_user : ℤ → Exec Db (List OrganizationRow)
list_organizations_by_user user db = (
  ok (sort_by by_name_id (filter (λ o. any (is_member_row o.id user) db.members) db.organizations)),
  db,
)

abbrev pub set_name : ℤ → String → OrganizationRow → OrganizationRow
set_name id name o = if int_eq o.id id then record o { name = name } else o

-- The column `name` is UNIQUE.
unfoldable pub update_organization_name : String → ℤ → Exec Db Unit
update_organization_name name id db =
    if any (λ o. int_eq o.id id) db.organizations
      && any (λ o. o.name == name && not (int_eq o.id id)) db.organizations
    then (err (other "UNIQUE constraint failed: organizations.name"), db)
    else (ok tt, record db { organizations = map (set_name id name) db.organizations })

abbrev pub set_enabled : ℤ → Bool → OrganizationRow → OrganizationRow
set_enabled id enabled o = if int_eq o.id id then record o { enabled = enabled } else o

unfoldable pub update_organization_enabled : Bool → ℤ → Exec Db Unit
update_organization_enabled enabled id db =
    (ok tt, record db { organizations = map (set_enabled id enabled) db.organizations })

-- The foreign keys cascade to the members and the join requests.
unfoldable pub delete_organization : ℤ → Exec Db Unit
delete_organization id db = (
  ok tt,
  record db {
    organizations = filter (λ o. not (int_eq o.id id)) db.organizations;
    members = filter (λ m. not (int_eq m.organization_id id)) db.members;
    join_requests = filter (λ r. not (int_eq r.organization_id id)) db.join_requests;
    log = record db.log {
      rows = filter (λ e. not (int_eq e.params.organization_id id)) db.log.rows;
    };
    dependencies = filter (λ d. not (int_eq d.organization_id id)) db.dependencies;
    settings = record {
      features = filter (λ r. not (int_eq r.organization_id id)) db.settings.features;
      preferences = filter (λ r. not (int_eq r.organization_id id)) db.settings.preferences;
      required_fields = filter (λ r. not (int_eq r.organization_id id)) db.settings.required_fields;
      priorities = filter (λ r. not (int_eq r.organization_id id)) db.settings.priorities;
      metadata = filter (λ r. not (int_eq r.organization_id id)) db.settings.metadata;
    };
    links = record {
      installations = filter (λ m. not (int_eq m.organization_id id)) db.links.installations;
      projects = filter (λ m. not (int_eq m.organization_id id)) db.links.projects;
      intents = filter (λ s. not (int_eq s.organization_id id)) db.links.intents;
    };
  },
)

pub record OrganizationParams : Type 0 where
  pub name : String
  pub auth_token : String
  pub join_code : Option String
  pub webhook_secret : String
  pub enabled : Bool

abbrev pub new_organization : ℕ → OrganizationParams → OrganizationRow
new_organization n p = record {
  id = pos n;
  name = p.name;
  auth_token = p.auth_token;
  webhook_secret = p.webhook_secret;
  enabled = p.enabled;
  join_code = p.join_code;
}

-- The columns `name`, `auth_token` and `join_code` are UNIQUE.
unfoldable pub create_organization : OrganizationParams → Exec Db OrganizationRow
create_organization p db =
    if any (λ o. o.name == p.name) db.organizations
    then (err (other "UNIQUE constraint failed: organizations.name"), db)
    else if any (λ o. o.auth_token == p.auth_token) db.organizations
    then (err (other "UNIQUE constraint failed: organizations.auth_token"), db)
    else if any (has_join_code p.join_code) db.organizations
    then (err (other "UNIQUE constraint failed: organizations.join_code"), db)
    else let row = new_organization db.next_organization p in
      (
        ok row,
        record db {
          organizations = db.organizations ++ row ∷ [];
          next_organization = suc db.next_organization;
        },
      )

unfoldable pub get_user_by_id : ℤ → Exec Db UserRow
get_user_by_id id db = (row_or_none (find? (λ u. int_eq u.id id) db.users), db)

-- The order in which the database meets the rows of a table; LIMIT 1 without ORDER BY gives the
-- first match in it.
abbrev pub Scan : Type 0
Scan = List UserRow → List UserRow

unfoldable pub get_user_by_email_or_nickname : Scan → String → String → Exec Db UserRow
get_user_by_email_or_nickname scan email nickname db =
    (row_or_none (find? (λ u. u.email == email || u.nickname == nickname) (scan db.users)), db)

unfoldable pub get_organization_member_role : ℤ → ℤ → Exec Db String
get_organization_member_role org user db =
    (row_or_none (Option.map (λ m. m.role) (find? (is_member_row org user) db.members)), db)

abbrev pub set_role : ℤ → ℤ → String → MemberRow → MemberRow
set_role org user role m = if is_member_row org user m then record m { role = role } else m

abbrev pub put_member : ℤ → ℤ → String → List MemberRow → List MemberRow
put_member org user role members =
    if any (is_member_row org user) members
    then map (set_role org user role) members
    else members ++ (record { organization_id = org; user_id = user; role = role }) ∷ []

abbrev pub has_organization : ℤ → Db → Bool
has_organization id db = any (λ o. int_eq o.id id) db.organizations

abbrev pub has_user : ℤ → Db → Bool
has_user id db = any (λ u. int_eq u.id id) db.users

-- CHECK (role IN ('owner', 'admin', 'member')), and two foreign keys.
unfoldable pub upsert_organization_member : ℤ → ℤ → String → Exec Db Unit
upsert_organization_member org user role db =
    if not (role == "owner" || role == "admin" || role == "member")
    then (err (other "CHECK constraint failed: role IN ('owner', 'admin', 'member')"), db)
    else if not (has_organization org db && has_user user db)
    then (err (other "FOREIGN KEY constraint failed"), db)
    else (ok tt, record db { members = put_member org user role db.members })

unfoldable pub delete_organization_member : ℤ → ℤ → Exec Db Unit
delete_organization_member org user db =
    (ok tt, record db { members = filter (λ m. not (is_member_row org user m)) db.members })

abbrev pub is_owner_row : ℤ → MemberRow → Bool
is_owner_row org m = int_eq m.organization_id org && m.role == "owner"

unfoldable pub count_organization_owners : ℤ → Exec Db ℕ
count_organization_owners org db = (ok (count (is_owner_row org) db.members), db)

abbrev pub is_request_row : ℤ → ℤ → JoinRequestRow → Bool
is_request_row org user r = int_eq r.organization_id org && int_eq r.user_id user

abbrev pub renew_request : ℤ → ℤ → String → JoinRequestRow → JoinRequestRow
renew_request org user code r =
    if is_request_row org user r
    then record r { request_code = code; status = "pending"; reviewed_by = none }
    else r

unfoldable pub upsert_organization_join_request : ℤ → ℤ → String → Exec Db Unit
upsert_organization_join_request org user code db =
    if not (has_organization org db && has_user user db)
    then (err (other "FOREIGN KEY constraint failed"), db)
    else if any (is_request_row org user) db.join_requests
    then (ok tt, record db { join_requests = map (renew_request org user code) db.join_requests })
    else (
      ok tt,
      record db {
        join_requests =
            db.join_requests
            ++ (record {
              organization_id = org;
              user_id = user;
              request_code = code;
              status = "pending";
              reviewed_by = none;
            })
              ∷ [];
      },
    )

-- The join with `users` drops no row, by the foreign key.
unfoldable pub list_pending_organization_join_requests : ℤ → Exec Db (List JoinRequestRow)
list_pending_organization_join_requests org db =
    (ok (filter (λ r. int_eq r.organization_id org && r.status == "pending") db.join_requests), db)

abbrev pub set_status : ℤ → ℤ → String → Option ℤ → JoinRequestRow → JoinRequestRow
set_status org user status by r =
    if is_request_row org user r then record r { status = status; reviewed_by = by } else r

abbrev reviewer_exists : Option ℤ → Db → Bool
reviewer_exists none db = true
reviewer_exists (some user) db = has_user user db

-- CHECK (status IN ('pending', 'approved', 'rejected')), and the foreign key of `reviewed_by`; both
-- are tested where a row is written.
unfoldable pub set_organization_join_request_status : String → Option ℤ → ℤ → ℤ → Exec Db Unit
set_organization_join_request_status status by org user db =
    if any (is_request_row org user) db.join_requests
      && not (status == "pending" || status == "approved" || status == "rejected")
    then (err (other "CHECK constraint failed: status IN ('pending', 'approved', 'rejected')"), db)
    else if any (is_request_row org user) db.join_requests && not (reviewer_exists by db)
    then (err (other "FOREIGN KEY constraint failed"), db)
    else (ok tt, record db { join_requests = map (set_status org user status by) db.join_requests })

pub record UserParams : Type 0 where
  pub github_id : Option String
  pub email : String
  pub nickname : String
  pub name : Option String
  pub avatar_url : Option String

abbrev pub user_row : ℤ → UserParams → UserRow
user_row id p = record {
  id = id;
  github_id = p.github_id;
  email = p.email;
  nickname = p.nickname;
  name = p.name;
  avatar_url = p.avatar_url;
}

abbrev pub replace_user : UserParams → UserRow → UserRow
replace_user p u = if u.email == p.email then user_row u.id p else u

-- ON CONFLICT(email) rewrites the row; the column `nickname` is UNIQUE too.
unfoldable pub upsert_user : UserParams → Exec Db UserRow
upsert_user p db =
    if any (λ u. u.nickname == p.nickname && not (u.email == p.email)) db.users
    then (err (other "UNIQUE constraint failed: users.nickname"), db)
    else elim (find? (λ u. u.email == p.email) db.users) [
      | some u ↦ (ok (user_row u.id p), record db { users = map (replace_user p) db.users })
      | none ↦ (
        ok (user_row (pos db.next_user) p),
        record db {
          users = db.users ++ (user_row (pos db.next_user) p) ∷ [];
          next_user = suc db.next_user;
        },
      )
    ]
