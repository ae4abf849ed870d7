-- ===== src/Identity/Lifecycle/Kept.antt =====
-- Disabling keeps an enabled organization, and deleting keeps an organization.
use ddash.Base.{
  ℕ, ◌≤◌, ◌<◌, ℤ, int_eq, nonpos, Bool, true, false, ◌&&◌, some, map, ◌≡◌, refl, ◌∙◌, arith, find?,
  count, length, sort_by, count-sort_by, length-sort_by, leb, inl, inr, ◌⊎◌, Bool-cases,
}
use ddash.Effect.{is_no_rows, pure, ◌>>=◌}
use ddash.Store.{Db, OrganizationRow, World, after_call}
use ddash.Store.Adapter
use ddash.Store.Adapter.{map_organization}
use ddash.Store.Queries
use ddash.Store.Queries.{by_name_id, set_enabled}
use ddash.Store.Enabled.{
  is_enabled_row, count-map_organization, length-map_organization, enabled-disable, enabled-enable,
  enabled-le-rows, enabled_of_found, length-delete,
}
use ddash.Store.Calls.{call_cases}
use ddash.Store.Listings.{list_organizations_cases, get_by_id_cases}
use ddash.Store.WellFormed.{IsWellFormed}
use ddash.Identity.Lifecycle.{
  enabled_count, disable_organization, set_organization_enabled, delete_organization,
}

abbrev pub enabled_in : Db → ℕ
enabled_in db = count is_enabled_row db.organizations

-- The count of the listed organizations is that of the rows.
enabled_count_listed :
    (db : Db)
    → enabled_count (map map_organization (sort_by by_name_id db.organizations)) ≡ enabled_in db
enabled_count_listed db =
    count-map_organization (sort_by by_name_id db.organizations)
    ∙ count-sort_by by_name_id is_enabled_row db.organizations

update_enabled-keeps :
    (id : ℤ) (w : World) (o : OrganizationRow)
    → count (λ r. int_eq r.id id) w.db.organizations ≤ 1
    → find? (λ r. int_eq r.id id) w.db.organizations ≡ some o
    → (o.enabled ≡ false) ⊎ (2 ≤ enabled_in w.db)
    → 0 < enabled_in w.db
    → 0 < enabled_in (Adapter.update_organization_enabled id false w).1.db
unfolding Adapter.update_organization_enabled Queries.update_organization_enabled pure
update_enabled-keeps id w o unique found c h = elim (Bool-cases (nonpos id)) [
  | inl skipped ↦ rw skipped h
  | inr valid ↦ rw valid (elim (call_cases (Queries.update_organization_enabled false id) w) [
    | inl (e, _, failed) ↦ rw failed h
    | inr answer ↦ rw answer (kept c)
  ])
]
  where
    kept :
        (o.enabled ≡ false) ⊎ (2 ≤ enabled_in w.db)
        → 0 < count is_enabled_row (map (set_enabled id false) w.db.organizations)
    kept (inl off) = omega (
      arith,
      enabled-disable id w.db.organizations,
      enabled_of_found id w.db.organizations o unique found off,
    )
    kept (inr two) =
        omega (arith, enabled-disable id w.db.organizations, enabled-le-rows id w.db.organizations)

enable-keeps :
    (id : ℤ) (w : World)
    → 0 < enabled_in w.db
    → 0 < enabled_in (Adapter.update_organization_enabled id true w).1.db
unfolding Adapter.update_organization_enabled Queries.update_organization_enabled pure
enable-keeps id w h = elim (Bool-cases (nonpos id)) [
  | inl skipped ↦ rw skipped h
  | inr valid ↦ rw valid (elim (call_cases (Queries.update_organization_enabled true id) w) [
    | inl (e, _, failed) ↦ rw failed h
    | inr answer ↦ rw answer (omega (arith, enabled-enable id w.db.organizations))
  ])
]

not_last : (b : Bool) (n : ℕ) → (b && leb n 1) ≡ false → (b ≡ false) ⊎ (2 ≤ n)
not_last true n h = inr (ground arith)
not_last false n h = inl refl

disable-keeps :
    (id : ℤ) (w : World)
    → IsWellFormed w.db
    → 0 < enabled_in w.db
    → 0 < enabled_in (disable_organization id w).1.db
unfolding disable_organization map_organization ◌>>=◌
disable-keeps id w v h = elim (list_organizations_cases w) [
  | inl (e, failed) ↦ rw failed h
  | inr listed ↦ rw listed (elim (get_by_id_cases id (after_call w w.db)) [
    | inl (e, failed) ↦
        rw failed (elim (Bool-cases (is_no_rows e)) [ inl b ↦ rw b h | inr b ↦ rw b h ])
    | inr (o, found, answer) ↦
        rw (answer, enabled_count_listed w.db)
          (elim (Bool-cases (o.enabled && leb (enabled_in w.db) 1)) [
            | inl last ↦ rw last h
            | inr more ↦ rw more (
                update_enabled-keeps id (after_call (after_call w w.db) w.db) o (v.one_id id) found
                  (not_last o.enabled (enabled_in w.db) more) h)
          ])
  ])
]

-- In tables that meet the uniqueness constraints, and whatever store calls fail, enabling or
-- disabling an organization leaves an enabled organization, if there was one.
pub set_organization_enabled-keeps :
    (id : ℤ) (enabled : Bool) (w : World)
    → IsWellFormed w.db
    → 0 < enabled_in w.db
    → 0 < enabled_in (set_organization_enabled id enabled w).1.db
unfolding set_organization_enabled pure
set_organization_enabled-keeps id true w v h = elim (Bool-cases (nonpos id)) [
  | inl skipped ↦ rw skipped h
  | inr valid ↦ rw valid (enable-keeps id w h)
]
set_organization_enabled-keeps id false w v h = elim (Bool-cases (nonpos id)) [
  | inl skipped ↦ rw skipped h
  | inr valid ↦ rw valid (disable-keeps id w v h)
]

delete-keeps :
    (id : ℤ) (w : World)
    → IsWellFormed w.db
    → 2 ≤ length w.db.organizations
    → 0 < length (Adapter.delete_organization id w).1.db.organizations
unfolding Adapter.delete_organization Queries.delete_organization pure
delete-keeps id w v h = elim (Bool-cases (nonpos id)) [
  | inl skipped ↦ rw skipped (omega arith)
  | inr valid ↦ rw valid (elim (call_cases (Queries.delete_organization id) w) [
    | inl (e, _, failed) ↦ rw failed (omega arith)
    | inr answer ↦ rw answer (omega (arith, length-delete id w.db.organizations, v.one_id id))
  ])
]

-- In tables that meet the uniqueness constraints, and whatever store calls fail, deleting an
-- organization leaves an organization, if there was one.
pub delete_organization-keeps :
    (id : ℤ) (w : World)
    → IsWellFormed w.db
    → 0 < length w.db.organizations
    → 0 < length (delete_organization id w).1.db.organizations
unfolding delete_organization ◌>>=◌
delete_organization-keeps id w v h = elim (Bool-cases (nonpos id)) [
  | inl skipped ↦ rw skipped h
  | inr valid ↦ rw valid (elim (list_organizations_cases w) [
    | inl (e, failed) ↦ rw failed h
    | inr listed ↦
        let total : length (map map_organization (sort_by by_name_id w.db.organizations))
            ≡ length w.db.organizations =
          length-map_organization (sort_by by_name_id w.db.organizations)
          ∙ length-sort_by by_name_id w.db.organizations in
        rw (listed, total)
          (elim (Bool-cases (leb (length w.db.organizations) 1)) [
            | inl last ↦ rw last h
            | inr more ↦ rw more (delete-keeps id (after_call w w.db) v (ground arith))
          ])
  ])
]
