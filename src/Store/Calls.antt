-- ===== src/Store/Calls.antt =====
-- What each store call of the member and organization methods can do: it meets a fault and changes
-- nothing, or it answers from the tables.
use ddash.Base.{
  String, ◌==◌, ℤ, true, not, none, some, ◌≡◌, ◌∙◌, ◌⊎◌, inl, inr, arith, find?, filter,
  Option-cases, Bool-cases, nonpos, ◌||◌,
}
use ddash.Base.Text.{trim_space}
use ddash.Effect.{Err, no_rows, ok, err, pure, Exec}
use ddash.Store.{Db, MemberRow, World, call, next_fault, after_call}
use ddash.Store.Adapter
use ddash.Store.Queries
use ddash.Store.Queries.{is_member_row, is_owner_row, put_member, has_organization, has_user}
use ddash.Store.WellFormed.{owners}

-- A call fails by a fault, or is the query's.
pub call_cases :
    {A : Type 0} (f : Exec Db A) (w : World)
    → ((e : Err) × (next_fault w.faults ≡ some e) × (call f w ≡ (err e, after_call w w.db)))
      ⊎ (call f w ≡ ((f w.db).0, after_call w (f w.db).1))
unfolding call
call_cases f w = elim (Option-cases (next_fault w.faults)) [
  | inl sound ↦ inr (rw (sound, call))
  | inr (e, fault) ↦ inl (e, fault, rw (fault, call))
]

module _ (org user : ℤ) (w : World) where
  -- The read of a role meets a fault, or finds no member, or finds one.
  pub role_cases :
      ((e : Err) × (next_fault w.faults ≡ some e)
        × (Adapter.get_organization_member_role org user w ≡ (err e, after_call w w.db)))
      ⊎ ((find? (is_member_row org user) w.db.members ≡ none)
          × (Adapter.get_organization_member_role org user w ≡ (err no_rows, after_call w w.db)))
      ⊎ ((m : MemberRow) × (find? (is_member_row org user) w.db.members ≡ some m)
          × (Adapter.get_organization_member_role org user w ≡ (ok m.role, after_call w w.db)))
  unfolding Adapter.get_organization_member_role Queries.get_organization_member_role
  role_cases = elim (call_cases (Queries.get_organization_member_role org user) w) [
    | inl fault ↦ inl fault
    | inr answer ↦ elim (Option-cases (find? (is_member_row org user) w.db.members)) [
      | inl absent ↦ inr (inl (absent, answer ∙ rw absent))
      | inr (m, found) ↦ inr (inr (m, found, answer ∙ rw found))
    ]
  ]

  -- A read that meets a fault.
  pub role_unread :
      {e : Err}
      → next_fault w.faults ≡ some e
      → Adapter.get_organization_member_role org user w ≡ (err e, after_call w w.db)
  unfolding Adapter.get_organization_member_role call
  role_unread fault = rw (fault, call)

  pub count_cases :
      ((e : Err) × (Adapter.count_organization_owners org w ≡ (err e, after_call w w.db)))
      ⊎ (Adapter.count_organization_owners org w ≡ (ok (owners org w.db), after_call w w.db))
  unfolding Adapter.count_organization_owners Queries.count_organization_owners
  count_cases = elim (call_cases (Queries.count_organization_owners org) w) [
    | inl (e, _, failed) ↦ inl (e, failed)
    | inr answer ↦ inr answer
  ]

  -- The members after a deletion.
  pub delete_member_cases :
      ((Adapter.delete_organization_member org user w).1.db ≡ w.db)
      ⊎ ((Adapter.delete_organization_member org user w).1.db.members
          ≡ filter (λ m. not (is_member_row org user m)) w.db.members)
  unfolding Adapter.delete_organization_member Queries.delete_organization_member
  delete_member_cases = elim (call_cases (Queries.delete_organization_member org user) w) [
    | inl (e, _, failed) ↦ inl (rw failed)
    | inr answer ↦ inr (rw answer)
  ]

  -- The members after a role is written: unchanged, or the pair has the trimmed role.
  pub upsert_member_cases :
      (role : String)
      → ((Adapter.upsert_organization_member org user role w).1.db ≡ w.db)
        ⊎ ((Adapter.upsert_organization_member org user role w).1.db.members
            ≡ put_member org user (trim_space role) w.db.members)
  unfolding Adapter.upsert_organization_member Queries.upsert_organization_member
  upsert_member_cases role =
      elim (call_cases (Queries.upsert_organization_member org user (trim_space role)) w) [
        | inl (e, _, failed) ↦ inl (rw failed)
        | inr answer ↦ rw answer (ground arith)
      ]

  -- Without a fault a role is written if it is a known one, for a known user and organization.
  pub upsert_member_written :
      (role : String)
      → next_fault w.faults ≡ none
      → has_organization org w.db ≡ true
      → has_user user w.db ≡ true
      → (trim_space role == "admin") ≡ true ⊎ (trim_space role == "member") ≡ true
      → (Adapter.upsert_organization_member org user role w).1.db.members
        ≡ put_member org user (trim_space role) w.db.members
  unfolding Adapter.upsert_organization_member Queries.upsert_organization_member
  upsert_member_written role sound org_known user_known known =
      elim (call_cases (Queries.upsert_organization_member org user (trim_space role)) w) [
        | inl (e, fault, _) ↦ cc
        | inr answer ↦ rw answer (ground arith)
      ]

  -- A change of a join request leaves the members alone.
  pub members-set_status :
      (status : String) (by : ℤ)
      → (Adapter.set_organization_join_request_status org user status by w).1.db.members
        ≡ w.db.members
  unfolding Adapter.set_organization_join_request_status pure
      Queries.set_organization_join_request_status
  members-set_status status by = elim (Bool-cases (nonpos org || nonpos user || nonpos by)) [
    | inl skipped ↦ rw skipped
    | inr written ↦
        rw written
          (elim (call_cases
            (Queries.set_organization_join_request_status (trim_space status)
              (Adapter.null_int64 by) org user)
            w) [ inl (e, _, failed) ↦ rw failed | inr answer ↦ rw answer (ground arith) ])
  ]
