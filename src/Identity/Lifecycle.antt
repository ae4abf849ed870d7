-- ===== src/Identity/Lifecycle.antt =====
-- Renaming, enabling, disabling and deleting an organization.
pub mod Kept
use ddash.Base.{
  ℕ, String, ℤ, nonpos, Bool, true, false, ◌&&◌, ◌||◌, count, length, leb, List, if◌then◌else◌,
}
use ddash.Base.Text.{trim_space, is_empty}
use ddash.Effect.{
  is_no_rows, cannot_delete_last_organization, ok, err, Exec, pure, raise, attempt, ◌>>=◌,
}
use ddash.Store.{World}
use ddash.Store.Adapter
use ddash.Store.Adapter.{Organization}

unfoldable pub rename_organization : ℤ → String → Exec World Unit
rename_organization org name =
    if nonpos org || is_empty (trim_space name)
    then pure tt
    else Adapter.update_organization_name org (trim_space name)

abbrev pub enabled_count : List Organization → ℕ
enabled_count rows = count (λ o. o.enabled) rows

-- Disabling does nothing where it would leave no organization enabled.
unfoldable pub disable_organization : ℤ → Exec World Unit
disable_organization org = do
  rows ← Adapter.list_organizations
  found ← attempt (Adapter.get_organization_by_id org)
  elim found [
    | err e ↦ if is_no_rows e then pure tt else raise e
    | ok o ↦
        if o.enabled && leb (enabled_count rows) 1
        then pure tt
        else Adapter.update_organization_enabled org false
  ]

unfoldable pub set_organization_enabled : ℤ → Bool → Exec World Unit
unfolding disable_organization
set_organization_enabled org enabled =
    if nonpos org
    then pure tt
    else if enabled
    then Adapter.update_organization_enabled org true
    else disable_organization org

unfoldable pub delete_organization : ℤ → Exec World Unit
delete_organization org = if nonpos org then pure tt else do
  rows ← Adapter.list_organizations
  if leb (length rows) 1
      then raise cannot_delete_last_organization
      else Adapter.delete_organization org
