-- ===== src/Store/Listings.antt =====
-- What the store calls that read organizations can answer.
use ddash.Base.{
  ℤ, int_eq, true, some, List, [], ◌∷◌, map, ◌≡◌, ◌⊎◌, inl, inr, find?, any, filter, sort_by, All,
  All-sort_by, All-map, find?-passes, find?-All, Option-cases, Bool-cases,
}
use ddash.Effect.{Err, no_rows, ok, err, ◌>>=◌}
use ddash.Store.{OrganizationRow, MemberRow, World, after_call}
use ddash.Store.Adapter
use ddash.Store.Adapter.{Organization, map_organization}
use ddash.Store.Queries
use ddash.Store.Queries.{by_name_id, is_member_row}
use ddash.Store.Calls.{call_cases}

-- The listing fails, or holds every row in the order of the names.
pub list_organizations_cases :
    (w : World)
    → ((e : Err) × (Adapter.list_organizations w ≡ (err e, after_call w w.db)))
      ⊎ (Adapter.list_organizations w
          ≡ (ok (map map_organization (sort_by by_name_id w.db.organizations)), after_call w w.db))
unfolding Adapter.list_organizations Queries.list_organizations ◌>>=◌
list_organizations_cases w = elim (call_cases Queries.list_organizations w) [
  | inl (e, _, failed) ↦ inl (e, rw failed)
  | inr answer ↦ inr (rw answer)
]

-- The read of an organization fails, or finds its row.
pub get_by_id_cases :
    (id : ℤ) (w : World)
    → ((e : Err) × (Adapter.get_organization_by_id id w ≡ (err e, after_call w w.db)))
      ⊎ ((o : OrganizationRow) × (find? (λ r. int_eq r.id id) w.db.organizations ≡ some o)
          × (Adapter.get_organization_by_id id w ≡ (ok (map_organization o), after_call w w.db)))
unfolding Adapter.get_organization_by_id Queries.get_organization_by_id ◌>>=◌
get_by_id_cases id w = elim (call_cases (Queries.get_organization_by_id id) w) [
  | inl (e, _, failed) ↦ inl (e, rw failed)
  | inr answer ↦ elim (Option-cases (find? (λ r. int_eq r.id id) w.db.organizations)) [
    | inl absent ↦ inl (no_rows, rw (answer, absent))
    | inr (o, found) ↦ inr (o, found, rw (answer, found))
  ]
]

-- The organizations in which the user has a role.
abbrev pub joined : ℤ → List MemberRow → List OrganizationRow → List OrganizationRow
joined user members organizations =
    sort_by by_name_id (filter (λ o. any (is_member_row o.id user) members) organizations)

pub list_by_user_cases :
    (user : ℤ) (w : World)
    → ((e : Err) × (Adapter.list_organizations_by_user user w ≡ (err e, after_call w w.db)))
      ⊎ (Adapter.list_organizations_by_user user w ≡ (
        ok (map map_organization (joined user w.db.members w.db.organizations)),
        after_call w w.db,
      ))
unfolding Adapter.list_organizations_by_user Queries.list_organizations_by_user ◌>>=◌
list_by_user_cases user w = elim (call_cases (Queries.list_organizations_by_user user) w) [
  | inl (e, _, failed) ↦ inl (e, rw failed)
  | inr answer ↦ inr (rw answer)
]

abbrev HasRole : ℤ → List MemberRow → OrganizationRow → Type 0
HasRole user members o = any (is_member_row o.id user) members ≡ true

All-passed :
    (user : ℤ) (members : List MemberRow) (os : List OrganizationRow)
    → All (HasRole user members) (filter (λ o. any (is_member_row o.id user) members) os)
All-passed user members [] = tt
All-passed user members (o ∷ os) = elim (Bool-cases (any (is_member_row o.id user) members)) [
  | inl role ↦ rw role (role, All-passed user members os)
  | inr none' ↦ rw none' (All-passed user members os)
]

-- The user has a role in every organization that is listed for the user.
pub All-joined :
    (user : ℤ) (members : List MemberRow) (os : List OrganizationRow)
    → All (HasRole user members) (joined user members os)
All-joined user members os =
    All-sort_by by_name_id (HasRole user members) _ (All-passed user members os)

-- The first enabled organization of a list is enabled, and one of the list.
pub found-HasRole :
    (user : ℤ) (members : List MemberRow) (os : List OrganizationRow) (org : Organization)
    → All (HasRole user members) os
    → find? (λ o. o.enabled) (map map_organization os) ≡ some org
    → (org.enabled ≡ true) × (any (is_member_row org.id user) members ≡ true)
unfolding map_organization
found-HasRole user members os org h found = (
  find?-passes (λ o. o.enabled) (map map_organization os) org found,
  find?-All (λ o. o.enabled) (λ o. any (is_member_row o.id user) members ≡ true)
      (map map_organization os) org
      (All-map map_organization (λ o. any (is_member_row o.id user) members ≡ true) os h) found,
)
