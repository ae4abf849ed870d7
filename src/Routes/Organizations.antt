-- ===== src/Routes/Organizations.antt =====
-- The handler that renames an organization, and its guard
-- (apps/ddash/internal/server/routes/organizations.go). `c.Redirect` of the echo framework writes
-- the answer and gives no error; an answer that was written stays.
pub mod Guard
pub mod Membership
use Prim.Native.Char.{Char, code}
use Prim.Native.String
use ddash.Base.{
  ℕ, zero, suc, ◌+◌, ◌-◌, ◌*◌, ◌^◌, String, ℤ, pos, negsuc, nonpos, leb, ltb, eqb, Bool, true,
  false, ◌&&◌, ◌||◌, Option, none, some, if◌then◌else◌,
}
use ddash.Base.Text.Parse.{parse_int}
use ddash.Base.Text.{trim_space, is_empty}
use ddash.Effect.{
  Err, Result, ok, err, organization_membership_required, Exec, pure, raise, attempt, ◌>>=◌, ◌>>◌,
}
use ddash.Store.{World}
use ddash.Store.Adapter.{Organization}
use ddash.Identity.Access.{can_manage_organization, get_active_or_default_organization_for_user}
use ddash.Identity.Lifecycle.{rename_organization}

-- Where a redirect goes: the login page, the welcome page, or the organizations page with a message and its level.
pub data Location : Type 0 where
  login welcome : Location
  organizations : String → String → Location

-- The state of an exchange: the world of the services, and the redirect that was written, if any.
pub record Exchange : Type 0 where
  pub world : World
  pub location : Option Location

pub record Request : Type 0 where
  -- GetAuthUserID
  pub auth_user : Option ℤ
  -- GetActiveOrganizationID
  pub active_organization : ℤ
  -- the error of writing the session, if any
  pub session_error : Option Err
  -- form values
  pub organization_id : String
  pub name : String

abbrev first_answer : Option Location → Location → Option Location
first_answer none l = some l
first_answer (some l') l = some l'

unfoldable pub redirect : Location → Exec Exchange Unit
redirect l x = (ok tt, record x { location = first_answer x.location l })

-- A call of a service.
unfoldable pub serve : {A : Type 0} → Exec World A → Exec Exchange A
serve m x = let (answer, world) = m x.world in (answer, record x { world = world })

abbrev pub check_manager : Bool → Exec Exchange Unit
check_manager can =
    if can then pure tt else redirect (organizations "Organization admin access required" "error")

abbrev pub require_user : Option ℤ → ℤ → Exec Exchange Unit
require_user none org = redirect login
require_user (some user) org =
    if nonpos user
    then redirect login
    else do can ← serve (can_manage_organization org user); check_manager can

unfoldable pub require_organization_admin : Request → ℤ → Exec Exchange Unit
unfolding redirect serve
require_organization_admin request org = require_user request.auth_user org

abbrev pub rename_checked : Request → ℤ → Exec Exchange Unit
rename_checked request id = do
  require_organization_admin request id
  serve (rename_organization id (trim_space request.name))
  redirect (organizations "Organization renamed" "success")

abbrev pub rename_parsed : Request → Option ℤ → Exec Exchange Unit
rename_parsed request none = redirect (organizations "Invalid organization id" "error")
rename_parsed request (some id) =
    if nonpos id
    then redirect (organizations "Invalid organization id" "error")
    else if is_empty (trim_space request.name)
    then redirect (organizations "Organization name is required" "error")
    else rename_checked request id

unfoldable pub handle_organization_rename : Request → Exec Exchange Unit
unfolding require_organization_admin parse_int
handle_organization_rename request =
    rename_parsed request (parse_int (trim_space request.organization_id))

-- RequireAuth (auth_middleware.go).
abbrev pub require_auth : Request → Exec Exchange Unit → Exec Exchange Unit
require_auth request next = elim request.auth_user [ none ↦ redirect login | some _ ↦ next ]

abbrev pub enter : Request → Exec Exchange Unit → Result Organization → Exec Exchange Unit
enter request next (err organization_membership_required) = redirect welcome
enter request next (err e) = raise e
enter request next (ok org) = elim request.session_error [ some e ↦ raise e | none ↦ next ]

abbrev pub require_member : Request → Exec Exchange Unit → Option ℤ → Exec Exchange Unit
require_member request next none = redirect login
require_member request next (some user) = if nonpos user then redirect login else do
  chosen ←
      attempt (serve (get_active_or_default_organization_for_user user request.active_organization))
  enter request next chosen

-- requireOrganizationMembership (view_routes.go). What writing the session stores is not modelled.
abbrev pub require_organization_membership : Request → Exec Exchange Unit → Exec Exchange Unit
require_organization_membership request next = require_member request next request.auth_user

-- POST /organizations/rename, with the middlewares in front of it.
unfoldable pub route_organization_rename : Request → Exec Exchange Unit
unfolding redirect serve
route_organization_rename request =
    require_auth request
      (require_organization_membership request (handle_organization_rename request))
