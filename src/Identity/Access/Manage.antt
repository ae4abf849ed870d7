-- ===== src/Identity/Access/Manage.antt =====
-- Who may manage an organization.
use ddash.Base.{
  String, ◌==◌, ℤ, Bool, true, false, ◌||◌, none, some, find?, ◌≡◌, refl, ◌⊎◌, inl, inr, Bool-cases,
}
use ddash.Base.Text.{trim_space, to_lower}
use ddash.Effect.{Err, is_no_rows, ok, err, ◌>>=◌}
use ddash.Store.{MemberRow, World, next_fault}
use ddash.Store.Queries.{is_member_row}
use ddash.Store.Calls.{role_cases}
use ddash.Identity.Access.{can_manage_organization}

-- A stored role that may manage, up to blanks and the case of its letters.
abbrev pub is_manager_role : String → Bool
is_manager_role role =
    to_lower (trim_space role) == "owner" || to_lower (trim_space role) == "admin"

-- The question changes no table. It is answered with yes just for a stored role of owner or admin,
-- with no for another role or none, and with an error only where the store failed. A store failure
-- that reports no rows reads as no.
pub can_manage_organization-cases :
    (org user : ℤ) (w : World)
    → ((can_manage_organization org user w).1.db ≡ w.db)
      × (((m : MemberRow) × (find? (is_member_row org user) w.db.members ≡ some m)
            × ((can_manage_organization org user w).0 ≡ ok (is_manager_role m.role)))
          ⊎ ((find? (is_member_row org user) w.db.members ≡ none)
              × ((can_manage_organization org user w).0 ≡ ok false))
          ⊎ ((e : Err) × (next_fault w.faults ≡ some e)
              × (((is_no_rows e ≡ true) × ((can_manage_organization org user w).0 ≡ ok false))
                  ⊎ ((is_no_rows e ≡ false) × ((can_manage_organization org user w).0 ≡ err e)))))
unfolding can_manage_organization ◌>>=◌ is_no_rows
can_manage_organization-cases org user w = elim (role_cases org user w) [
  | inl (e, fault, failed) ↦ elim (Bool-cases (is_no_rows e)) [
    | inl empty ↦ rw (failed, empty) (refl, inr (inr (e, fault, inl (empty, refl))))
    | inr other ↦ rw (failed, other) (refl, inr (inr (e, fault, inr (other, refl))))
  ]
  | inr (inl (none', absent)) ↦ rw absent (refl, inr (inl (none', refl)))
  | inr (inr (m, member, role)) ↦ rw role (refl, inl (m, member, refl))
]
