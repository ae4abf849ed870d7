-- ===== src/Identity/Tests.antt =====
-- An office with two organizations and two users, on which the theorems about identity are tried.
use ddash.Base.{
  ℕ, ◌≤◌, ◌<◌, String, ℤ, pos, negsuc, int_eq, true, false, none, some, [], ◌∷◌, ◌≡◌, refl, arith,
  count, length, find?, inl, inr, ◌⊎◌,
}
use ddash.Base.Text.{trim_space, to_lower, is_empty}
use ddash.Effect.{Err, other, is_no_rows, ok, err}
use ddash.Store.{no_settings, no_links, OrganizationRow, UserRow, MemberRow, Db, World, next_fault}
use ddash.Store.Queries.{is_member_row}
use ddash.Store.WellFormed.{IsWellFormed, owners}
use ddash.Identity.Members.{
  update_member_role, remove_member, approve_join_request, normalize_role, add_member_by_lookup,
}
use ddash.Identity.Members.Owners.{remove_member-owners}
use ddash.Identity.Members.Roles.{update_member_role-owners}
use ddash.Identity.Members.Gaps.{
  IsSoleOwner, approve_join_request-demotes, update_member_role_unread-demotes,
}
use ddash.Identity.Lifecycle.{set_organization_enabled, delete_organization}
use ddash.Identity.Lifecycle.Kept.{
  enabled_in, set_organization_enabled-keeps, delete_organization-keeps,
}
use ddash.Identity.Access.{can_manage_organization, get_active_or_default_organization_for_user}
use ddash.Identity.Access.Allowed.{
  ChoiceIsAllowed, get_active_or_default_organization_for_user-IsAllowed,
}
use ddash.Identity.Members.Lookup.{looked_up, add_member_by_lookup-demotes}
use ddash.Identity.Create.{create_organization}
use ddash.Identity.Create.Owned.{IsOwned, create_organization-IsOwned}
use ddash.Identity.Access.Manage.{is_manager_role, can_manage_organization-cases}

abbrev organization : ℕ → String → OrganizationRow
organization id name = record {
  id = pos id;
  name = name;
  auth_token = "token";
  webhook_secret = "secret";
  enabled = true;
  join_code = none;
}

abbrev user : ℕ → String → UserRow
user id nickname = record {
  id = pos id;
  github_id = none;
  email = "";
  nickname = nickname;
  name = none;
  avatar_url = none;
}

abbrev member : ℕ → ℕ → String → MemberRow
member org id role = record { organization_id = pos org; user_id = pos id; role = role }

abbrev office : Db
office = record {
  organizations = organization 1 "acme" ∷ organization 2 "beta" ∷ [];
  next_organization = 3;
  users = user 1 "ann" ∷ user 2 "bob" ∷ [];
  next_user = 3;
  members = member 1 1 "owner" ∷ member 1 2 "admin" ∷ member 2 2 "owner" ∷ [];
  join_requests = [];
  log = record { rows = []; next_seq = 1 };
  projected = [];
  links = no_links;
  dependencies = [];
  settings = no_settings;
}

abbrev sound : World
sound = record { db = office; faults = []; entropy = [] }

abbrev unread : World
unread = record { db = office; faults = some (other "disk I/O error") ∷ []; entropy = [] }

ids : (id : ℤ) → count (λ o. int_eq o.id id) office.organizations ≤ 1
unfolding int_eq
ids (pos n) = ground arith
ids (negsuc n) = omega arith

roles : (org user : ℤ) → count (is_member_row org user) office.members ≤ 1
unfolding int_eq
roles (pos m) (pos n) = ground arith
roles (pos m) (negsuc n) = ground arith
roles (negsuc m) n = ground arith

office-IsWellFormed : IsWellFormed office
office-IsWellFormed = record { one_id = ids; one_role = roles }

one_owner : (0 < owners (pos 1) office)
unfolding int_eq
one_owner = omega arith

remove_member-owners_example : 0 < owners (pos 1) (remove_member (pos 1) (pos 1) sound).1.db
remove_member-owners_example =
    remove_member-owners (pos 1) (pos 1) (pos 1) sound office-IsWellFormed one_owner

update_member_role-owners_example :
    0 < owners (pos 1) (update_member_role (pos 1) (pos 1) "member" sound).1.db
update_member_role-owners_example =
    update_member_role-owners (pos 1) (pos 1) (pos 1) "member" sound office-IsWellFormed refl
      one_owner

ann_alone : IsSoleOwner (pos 1) (pos 1) sound
unfolding int_eq
ann_alone = record {
  row = member 1 1 "owner";
  found = refl;
  owner = refl;
  alone = refl;
  org_known = refl;
  user_known = refl;
}

ann_alone_unread : IsSoleOwner (pos 1) (pos 1) unread
unfolding int_eq
ann_alone_unread = record {
  row = member 1 1 "owner";
  found = refl;
  owner = refl;
  alone = refl;
  org_known = refl;
  user_known = refl;
}

admin_normal : normalize_role "Admin " ≡ "admin"
unfolding normalize_role trim_space to_lower
admin_normal = refl

approve_join_request-demotes_example :
    owners (pos 1) (approve_join_request (pos 1) (pos 1) (pos 1) sound).1.db ≡ 0
approve_join_request-demotes_example =
    approve_join_request-demotes (pos 1) (pos 1) (pos 1) sound refl ann_alone refl

update_member_role_unread-demotes_example :
    owners (pos 1) (update_member_role (pos 1) (pos 1) "Admin " unread).1.db ≡ 0
update_member_role_unread-demotes_example =
    update_member_role_unread-demotes (pos 1) (pos 1) "Admin " unread (other "disk I/O error")
      (inl admin_normal) ann_alone_unread refl refl

set_organization_enabled-keeps_example :
    0 < enabled_in (set_organization_enabled (pos 1) false sound).1.db
set_organization_enabled-keeps_example =
    set_organization_enabled-keeps (pos 1) false sound office-IsWellFormed (omega arith)

delete_organization-keeps_example :
    0 < length (delete_organization (pos 1) sound).1.db.organizations
delete_organization-keeps_example =
    delete_organization-keeps (pos 1) sound office-IsWellFormed (omega arith)

get_active_or_default_organization_for_user-IsAllowed_example :
    ChoiceIsAllowed
      (pos 2)
      office
      (get_active_or_default_organization_for_user (pos 2) (pos 2) sound)
get_active_or_default_organization_for_user-IsAllowed_example =
    get_active_or_default_organization_for_user-IsAllowed (pos 2) (pos 2) sound

member_normal : normalize_role "member" ≡ "member"
unfolding normalize_role to_lower trim_space
member_normal = refl

ann_given : is_empty (trim_space "ann") ≡ false
unfolding trim_space
ann_given = refl

ann_found : looked_up (λ rows. rows) (trim_space "ann") sound ≡ some (user 1 "ann")
unfolding trim_space
ann_found = refl

add_member_by_lookup-demotes_example :
    owners (pos 1) (add_member_by_lookup (λ rows. rows) (pos 1) "ann" "member" sound).1.db ≡ 0
add_member_by_lookup-demotes_example =
    add_member_by_lookup-demotes (λ rows. rows) (pos 1) "ann" "member" sound (user 1 "ann") refl
      (inr member_normal) ann_given ann_found ann_alone refl refl

can_manage_organization-cases_example :
    ((can_manage_organization (pos 1) (pos 2) sound).1.db ≡ sound.db)
    × (((m : MemberRow) × (find? (is_member_row (pos 1) (pos 2)) sound.db.members ≡ some m)
          × ((can_manage_organization (pos 1) (pos 2) sound).0 ≡ ok (is_manager_role m.role)))
        ⊎ ((find? (is_member_row (pos 1) (pos 2)) sound.db.members ≡ none)
            × ((can_manage_organization (pos 1) (pos 2) sound).0 ≡ ok false))
        ⊎ ((e : Err) × (next_fault sound.faults ≡ some e)
            × (((is_no_rows e ≡ true)
                  × ((can_manage_organization (pos 1) (pos 2) sound).0 ≡ ok false))
                ⊎ ((is_no_rows e ≡ false)
                    × ((can_manage_organization (pos 1) (pos 2) sound).0 ≡ err e)))))
can_manage_organization-cases_example = can_manage_organization-cases (pos 1) (pos 2) sound

abbrev random : World
random = record {
  db = office;
  faults = [];
  entropy = some (λ k. k) ∷ some (λ k. k) ∷ some (λ k. k) ∷ [];
}

-- The third organization has the next id and a fourth member row.
created : length (create_organization (pos 2) "gamma" random).1.db.members ≡ 4
unfolding create_organization trim_space ddash.Identity.Create.create_rounds ddash.Effect.◌>>=◌
    ddash.Identity.Tokens.random_hex_token ddash.Store.Adapter.create_organization ddash.Store.call
    ddash.Store.Queries.create_organization ddash.Base.Text.Format.hex_bytes
    ddash.Store.Adapter.null_string ddash.Store.Adapter.upsert_organization_member
    ddash.Store.Queries.upsert_organization_member int_eq ddash.Store.Adapter.map_organization
created = refl

create_organization-IsOwned_example : IsOwned (pos 2) (create_organization (pos 2) "gamma" random)
create_organization-IsOwned_example = create_organization-IsOwned (pos 2) "gamma" random
