-- ===== src/Routes/Organizations/Membership.antt =====
-- Who reaches the handler that renames an organization, and what the handler does for them.
use ddash.Base.{ℤ, nonpos, false, some, none, [], map, ◌≡◌, ap, ◌∙◌}
use ddash.Base.Text.{trim_space, is_empty}
use ddash.Base.Text.Parse.{parse_int}
use ddash.Effect.{ok, ◌>>=◌}
use ddash.Store.Adapter.{Organization}
use ddash.Store.Queries.{set_name}
use ddash.Identity.Access.{get_active_or_default_organization_for_user}
use ddash.Identity.Access.Allowed.{get_active_or_default_organization_for_user-IsAllowed}
use ddash.Routes.Organizations.{Exchange, Request, serve, route_organization_rename}
use ddash.Routes.Organizations.Guard.{name_taken, handle_organization_rename_lem}

-- The exchange after the organization was chosen that the request acts on.
abbrev pub chosen : ℤ → ℤ → Exchange → Exchange
chosen user active x = record x {
  world = (get_active_or_default_organization_for_user user active x.world).1;
}

-- A signed-in user, for whom an organization is chosen and whose session is written: where no store
-- call fails after that choice and no other organization has the new name, the request renames the
-- organization of a valid id, whether the user manages it, is a member of it or not. The guard of
-- the handler answers by a redirect, which is no error, and the handler goes on.
pub route_organization_rename-unguarded :
    (request : Request) (user id : ℤ) (org : Organization) (x : Exchange)
    → request.auth_user ≡ some user
    → nonpos user ≡ false
    → request.session_error ≡ none
    → (get_active_or_default_organization_for_user user request.active_organization x.world).0
      ≡ ok org
    → (chosen user request.active_organization x).world.faults ≡ []
    → parse_int (trim_space request.organization_id) ≡ some id
    → nonpos id ≡ false
    → is_empty (trim_space request.name) ≡ false
    → name_taken id (trim_space request.name) x.world.db ≡ false
    → (route_organization_rename request x).1.world.db.organizations
      ≡ map (set_name id (trim_space request.name)) x.world.db.organizations
unfolding route_organization_rename serve ◌>>=◌
route_organization_rename-unguarded request user id org x signed known saved passed sound parsed
      valid full free =
    let same : (chosen user request.active_organization x).world.db ≡ x.world.db =
      (get_active_or_default_organization_for_user-IsAllowed user request.active_organization
        x.world).0 in
    let free' : name_taken id (trim_space request.name)
          (chosen user request.active_organization x).world.db
        ≡ false =
      rw same free in
    rw (signed, known, passed, saved)
      (handle_organization_rename_lem
          (record request { auth_user = some user; session_error = none }) id
          (chosen user request.active_organization x) sound parsed valid full free'
        ∙ ap (λ d. map (set_name id (trim_space request.name)) d.organizations) same)
