-- ===== src/Identity/Members/Roles.antt =====
-- A change of role keeps an owner, as long as the present role can be read.
use ddash.Base.{
  ◌<◌, String, ◌==◌, eq_iff, ℤ, not, none, ◌≡◌, refl, ap, ◌∙◌, arith, count, filter, inl, inr,
  Bool-cases, ◌⊎◌,
}
use ddash.Base.Text.{trim_space, is_empty}
use ddash.Effect.{Err, ok, err, ◌>>=◌}
use ddash.Store.{World, after_call, next_fault}
use ddash.Store.Adapter
use ddash.Store.Queries.{is_member_row, is_owner_row}
use ddash.Store.Owners.{owners-delete, owners_of_absent, owners-put_member, owners-put_owner}
use ddash.Store.Calls.{role_cases, upsert_member_cases}
use ddash.Store.WellFormed.{IsWellFormed, owners}
use ddash.Identity.Members.{is_owner_role, normalize_role, guard_demotion, update_member_role}
use ddash.Identity.Members.Owners.{not-owner, owners_kept, keep_an_owner_cases}

module _ (g org user : ℤ) (role : String) where
  -- Writing a role keeps an owner where the other members have one.
  upsert-others :
      (w : World)
      → 0 < owners g w.db
      → 0 < count (is_owner_row g) (filter (λ r. not (is_member_row org user r)) w.db.members)
      → 0 < owners g (Adapter.upsert_organization_member org user role w).1.db
  upsert-others w h others = elim (upsert_member_cases org user w role) [
    | inl same ↦ rw same h
    | inr written ↦
        rw written (omega (arith, owners-put_member g org user (trim_space role) w.db.members))
  ]

  -- Writing the owner's role takes no owner away.
  upsert-owner :
      (w : World)
      → trim_space role ≡ "owner"
      → 0 < owners g w.db
      → 0 < owners g (Adapter.upsert_organization_member org user role w).1.db
  upsert-owner w owner h = elim (upsert_member_cases org user w role) [
    | inl same ↦ rw same h
    | inr written ↦ rw (written, owner) (omega (arith, owners-put_owner g org user w.db.members))
  ]

-- After the guard of a demotion: an error, or the other members still have an owner.
guard_demotion_cases :
    (g org user : ℤ) (w : World)
    → IsWellFormed w.db
    → next_fault w.faults ≡ none
    → 0 < owners g w.db
    → ((guard_demotion org user w).1.db ≡ w.db)
      × (((e : Err) × ((guard_demotion org user w).0 ≡ err e))
          ⊎ (((guard_demotion org user w).0 ≡ ok tt)
              × (0
                  < count
                      (is_owner_row g)
                      (filter (λ r. not (is_member_row org user r)) w.db.members))))
unfolding guard_demotion ◌>>=◌
guard_demotion_cases g org user w v readable h = elim (role_cases org user w) [
  | inl (e, fault, _) ↦ cc
  | inr (inl (absent, answer)) ↦ rw answer (
    refl,
    inr (
      refl,
      omega (
        arith,
        owners-delete g org user w.db.members,
        owners_of_absent g org user w.db.members absent,
      ),
    ),
  )
  | inr (inr (m, found, answer)) ↦ elim (Bool-cases (is_owner_role m.role)) [
    | inl owner ↦
        rw (answer, owner)
          (elim (keep_an_owner_cases org (after_call w w.db)) [
            | inl (e, refused) ↦ rw refused (refl, inl (e, refl))
            | inr (passed, two) ↦ rw passed (
              refl,
              inr (
                refl,
                owners_kept g org user w.db.members (v.one_role org user) m found (inr two) h,
              ),
            )
          ])
    | inr plain ↦
        rw (answer, plain)
          (
            refl,
            inr (
              refl,
              owners_kept g org user w.db.members (v.one_role org user) m found
                  (inl (not-owner m.role plain)) h,
            ),
          )
  ]
]

trimmed_owner : trim_space "owner" ≡ "owner"
unfolding trim_space
trimmed_owner = refl

-- In tables that meet the uniqueness constraints, and where the store can read the member's present
-- role, a change of role leaves an owner in every organization that has one, whatever later store
-- calls fail.
pub update_member_role-owners :
    (g org user : ℤ) (role : String) (w : World)
    → IsWellFormed w.db
    → next_fault w.faults ≡ none
    → 0 < owners g w.db
    → 0 < owners g (update_member_role org user role w).1.db
unfolding update_member_role ◌>>=◌
update_member_role-owners g org user role w v readable h =
    elim (Bool-cases (is_empty (normalize_role role))) [
      | inl invalid ↦ rw invalid h
      | inr valid ↦ elim (Bool-cases (normalize_role role == "owner")) [
        | inl owner ↦
            rw (valid, owner)
              (upsert-owner g org user (normalize_role role) w
                (ap trim_space ((eq_iff _ _).0 owner) ∙ trimmed_owner) h)
        | inr other ↦
            rw (valid, other)
              (let (same, c) = guard_demotion_cases g org user w v readable h in
                elim c [
                  | inl (e, refused) ↦ rw refused (rw same h)
                  | inr (passed, others) ↦ rw passed (
                      upsert-others g org user (normalize_role role) (guard_demotion org user w).1
                        (rw same h) (rw same others))
                ])
      ]
    ]
