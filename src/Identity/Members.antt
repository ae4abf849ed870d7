-- ===== src/Identity/Members.antt =====
-- Members and join requests.
pub mod Owners
pub mod Roles
pub mod Gaps
pub mod Lookup
use ddash.Base.{ℕ, String, ◌==◌, ℤ, nonpos, Bool, true, false, not, ◌&&◌, ◌||◌, leb, if◌then◌else◌}
use ddash.Base.Text.{trim_space, to_lower, equal_fold, is_empty}
use ddash.Effect.{
  Result, is_no_rows, organization_access_denied, organization_admin_required,
  cannot_remove_last_owner, ok, err, Exec, pure, raise, attempt, ◌>>=◌, ◌>>◌,
}
use ddash.Store.{World}
use ddash.Store.Adapter
use ddash.Store.Queries.{Scan}
use ddash.Identity.Tokens.{random_hex_token}

unfoldable pub normalize_role : String → String
normalize_role role =
    let r = to_lower (trim_space role) in
    if r == "owner" || r == "admin" || r == "member" then r else ""

-- `strings.EqualFold(strings.TrimSpace(role), memberRoleOwner)`
abbrev pub is_owner_role : String → Bool
is_owner_role role = equal_fold (trim_space role) "owner"

-- The guard in front of a change that takes an owner away.
unfoldable pub keep_an_owner : ℤ → Exec World Unit
keep_an_owner org = do
  owners ← Adapter.count_organization_owners org
  if leb owners 1 then raise cannot_remove_last_owner else pure tt

unfoldable pub request_join_by_code : ℤ → String → Exec World Unit
request_join_by_code user code =
    if nonpos user || is_empty (trim_space code) then raise organization_access_denied else do
      org ← Adapter.get_organization_by_join_code (trim_space code)
      request_code ← random_hex_token 5
      Adapter.upsert_organization_join_request org.id user request_code

unfoldable pub approve_join_request : ℤ → ℤ → ℤ → Exec World Unit
approve_join_request org user by =
    if nonpos org || nonpos user || nonpos by then raise organization_access_denied else do
      Adapter.upsert_organization_member org user "member"
      Adapter.set_organization_join_request_status org user "approved" by

unfoldable pub reject_join_request : ℤ → ℤ → ℤ → Exec World Unit
reject_join_request org user by =
    if nonpos org || nonpos user || nonpos by
    then raise organization_access_denied
    else Adapter.set_organization_join_request_status org user "rejected" by

unfoldable pub add_member_by_lookup : Scan → ℤ → String → String → Exec World Unit
unfolding normalize_role
add_member_by_lookup scan org email_or_nick role =
    if nonpos org
    then raise organization_access_denied
    else if is_empty (normalize_role role)
    then raise organization_admin_required
    else if is_empty (trim_space email_or_nick)
    then pure tt
    else do
      user ←
          Adapter.get_user_by_email_or_nickname scan (trim_space email_or_nick)
            (trim_space email_or_nick)
      Adapter.upsert_organization_member org user.id (normalize_role role)

-- The last-owner test runs only if the present role could be read.
abbrev demotion_guard : ℤ → Result String → Exec World Unit
demotion_guard org (ok current) = if is_owner_role current then keep_an_owner org else pure tt
demotion_guard org (err e) = pure tt

unfoldable pub guard_demotion : ℤ → ℤ → Exec World Unit
unfolding keep_an_owner
guard_demotion org user = do
  current ← attempt (Adapter.get_organization_member_role org user)
  demotion_guard org current

unfoldable pub update_member_role : ℤ → ℤ → String → Exec World Unit
unfolding normalize_role
update_member_role org user role =
    if is_empty (normalize_role role) then raise organization_admin_required else do
      if normalize_role role == "owner" then pure tt else guard_demotion org user
      Adapter.upsert_organization_member org user (normalize_role role)

unfoldable pub remove_member : ℤ → ℤ → Exec World Unit
unfolding keep_an_owner
remove_member org user = do
  found ← attempt (Adapter.get_organization_member_role org user)
  elim found [
    | err e ↦ if is_no_rows e then pure tt else raise e
    | ok role ↦ (do
      if is_owner_role role then keep_an_owner org else pure tt
      Adapter.delete_organization_member org user)
  ]
