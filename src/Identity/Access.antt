-- ===== src/Identity/Access.antt =====
-- The organization that a request acts on: the default one, the active one, and the first enabled
-- one of a user.
pub mod Allowed
pub mod Manage
use ddash.Base.{
  String, ◌==◌, ℤ, nonpos, Bool, true, false, not, ◌&&◌, ◌||◌, Option, none, some, List, find?,
  if◌then◌else◌,
}
use ddash.Base.Text.{trim_space, to_lower}
use ddash.Effect.{
  is_no_rows, organization_access_denied, organization_membership_required, ok, err, Exec, pure,
  raise, attempt, ◌>>=◌, ◌>>◌,
}
use ddash.Store.{World}
use ddash.Store.Adapter
use ddash.Store.Adapter.{Organization}
use ddash.Identity.Tokens.{random_hex_token}

-- Another request may have created it meanwhile, so a failed creation looks once more.
unfoldable pub create_default_organization : Exec World Organization
create_default_organization = do
  auth_token ← random_hex_token 16
  secret ← random_hex_token 24
  created ← attempt (
      Adapter.create_organization (record {
        name = "default";
        auth_token = auth_token;
        join_code = "default-org";
        webhook_secret = secret;
        enabled = true;
      }))
  elim created [ ok org ↦ pure org | err e ↦ Adapter.get_default_organization ]

unfoldable pub get_or_create_default_organization : Exec World Organization
unfolding create_default_organization
get_or_create_default_organization = do
  found ← attempt Adapter.get_default_organization
  elim found [
    | ok org ↦ pure org
    | err e ↦ if is_no_rows e then create_default_organization else raise e
  ]

-- The first enabled organization of a list, or the error that the membership is required.
abbrev pub found_or_required : Option Organization → Exec World Organization
found_or_required (some org) = pure org
found_or_required none = raise organization_membership_required

abbrev pub first_enabled : List Organization → Exec World Organization
first_enabled orgs = found_or_required (find? (λ o. o.enabled) orgs)

unfoldable pub ensure_default_organization_for_user : ℤ → Exec World Organization
ensure_default_organization_for_user user =
    if nonpos user
    then raise organization_access_denied
    else do orgs ← Adapter.list_organizations_by_user user; first_enabled orgs

-- With an active organization: it, if it is enabled and the user has a role in it.
unfoldable pub active_for_user : ℤ → ℤ → Exec World (Option Organization)
active_for_user user active = if nonpos active then pure none else do
  found ← attempt (Adapter.get_organization_by_id active)
  elim found [
    | err _ ↦ pure none
    | ok org ↦
        if org.enabled
        then (do
          role ← attempt (Adapter.get_organization_member_role active user)
          elim role [ ok _ ↦ pure (some org) | err _ ↦ pure none ])
        else pure none
  ]

unfoldable pub get_active_or_default_organization_for_user : ℤ → ℤ → Exec World Organization
unfolding active_for_user
get_active_or_default_organization_for_user user active =
    if nonpos user then raise organization_access_denied else do
      chosen ← active_for_user user active
      elim chosen [
        | some org ↦ pure org
        | none ↦ (do orgs ← Adapter.list_organizations_by_user user; first_enabled orgs)
      ]

-- GetActiveOrDefaultOrganization, which asks for no user: the active organization if it is enabled.
unfoldable pub active_enabled : ℤ → Exec World (Option Organization)
active_enabled active = if nonpos active then pure none else do
  found ← attempt (Adapter.get_organization_by_id active)
  elim found [ err _ ↦ pure none | ok org ↦ if org.enabled then pure (some org) else pure none ]

unfoldable pub enable_default : Exec World Organization
enable_default = do
  org ← get_or_create_default_organization
  if org.enabled
      then pure org
      else do Adapter.update_organization_enabled org.id true; Adapter.get_organization_by_id org.id

unfoldable pub get_active_or_default_organization : ℤ → Exec World Organization
unfolding active_enabled enable_default
get_active_or_default_organization active = do
  chosen ← active_enabled active
  elim chosen [
    | some org ↦ pure org
    | none ↦ (do
      rows ← Adapter.list_organizations
      elim (find? (λ o. o.enabled) rows) [ some org ↦ pure org | none ↦ enable_default ])
  ]

unfoldable pub list_organizations_for_user : ℤ → Exec World (List Organization)
list_organizations_for_user user =
    if nonpos user
    then raise organization_access_denied
    else Adapter.list_organizations_by_user user

-- Owners and admins may manage an organization; nobody without a membership may.
unfoldable pub can_manage_organization : ℤ → ℤ → Exec World Bool
can_manage_organization org user = do
  found ← attempt (Adapter.get_organization_member_role org user)
  elim found [
    | ok role ↦ let r = to_lower (trim_space role) in pure (r == "owner" || r == "admin")
    | err e ↦ if is_no_rows e then pure false else raise e
  ]
