-- ===== src/Store/WellFormed.antt =====
-- The uniqueness constraints of the schema, as an invariant of the tables.
use ddash.Base.{ℕ, ◌≤◌, ℤ, int_eq, count}
use ddash.Store.{Db}
use ddash.Store.Queries.{is_member_row, is_owner_row}

pub record IsWellFormed (db : Db) : Type 0 where
  -- PRIMARY KEY of `organizations`
  pub one_id : (id : ℤ) → count (λ o. int_eq o.id id) db.organizations ≤ 1
  -- UNIQUE (organization_id, user_id) of `organization_members`
  pub one_role : (org user : ℤ) → count (is_member_row org user) db.members ≤ 1

-- The number of owners of an organization.
abbrev pub owners : ℤ → Db → ℕ
owners org db = count (is_owner_row org) db.members
