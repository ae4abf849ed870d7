-- ===== src/Store/Enabled.antt =====
-- How the queries on `organizations` change the number of rows and of enabled rows.
use ddash.Base.{
  ◌+◌, ◌≤◌, ℤ, int_eq, Bool, true, false, not, ◌&&◌, some, List, [], ◌∷◌, map, ◌≡◌, refl, arith,
  find?, count, filter, length,
}
use ddash.Store.{OrganizationRow}
use ddash.Store.Queries.{set_enabled}
use ddash.Store.Adapter.{map_organization}

abbrev pub is_enabled_row : OrganizationRow → Bool
is_enabled_row o = o.enabled

abbrev has_id : ℤ → OrganizationRow → Bool
has_id id o = int_eq o.id id

abbrev is_enabled_with : ℤ → OrganizationRow → Bool
is_enabled_with id o = o.enabled && int_eq o.id id

pub count-map_organization :
    (os : List OrganizationRow)
    → count (λ o. o.enabled) (map map_organization os) ≡ count is_enabled_row os
unfolding map_organization
count-map_organization [] = refl
count-map_organization (o ∷ os) = ground (arith, count-map_organization os)

pub length-map_organization :
    (os : List OrganizationRow) → length (map map_organization os) ≡ length os
length-map_organization [] = refl
length-map_organization (o ∷ os) = ground (arith, length-map_organization os)

module _ (id : ℤ) where
  pub enabled-disable :
      (os : List OrganizationRow)
      → count is_enabled_row (map (set_enabled id false) os) + count (is_enabled_with id) os
        ≡ count is_enabled_row os
  enabled-disable [] = omega arith
  enabled-disable (o ∷ os) = ground (arith, enabled-disable os)

  pub enabled-enable :
      (os : List OrganizationRow)
      → count is_enabled_row os ≤ count is_enabled_row (map (set_enabled id true) os)
  enabled-enable [] = omega arith
  enabled-enable (o ∷ os) = ground (arith, enabled-enable os)

  pub enabled-le-rows :
      (os : List OrganizationRow) → count (is_enabled_with id) os ≤ count (has_id id) os
  enabled-le-rows [] = omega arith
  enabled-le-rows (o ∷ os) = ground (arith, enabled-le-rows os)

  -- The only row of an id decides whether the id counts as enabled.
  pub enabled_of_found :
      (os : List OrganizationRow) (o : OrganizationRow)
      → count (has_id id) os ≤ 1
      → find? (has_id id) os ≡ some o
      → o.enabled ≡ false
      → count (is_enabled_with id) os ≡ 0
  enabled_of_found [] o unique found off = refl
  enabled_of_found (r ∷ os) o unique found off =
      ground (arith, enabled_of_found os o, enabled-le-rows os)

  -- A deletion takes away the rows of the id.
  pub length-delete :
      (os : List OrganizationRow)
      → length (filter (λ o. not (int_eq o.id id)) os) + count (has_id id) os ≡ length os
  length-delete [] = omega arith
  length-delete (o ∷ os) = ground (arith, length-delete os)
