-- ===== src/Identity/Members/Owners.antt =====
-- Removing a member and changing a role keep an owner in every organization that has one.
use ddash.Base.{
  ◌≤◌, ◌<◌, String, ◌==◌, eq_iff, ℤ, int_eq, int_eq_iff, true, false, not, some, List, ◌≡◌, refl,
  ap, arith, find?, count, filter, leb, inl, inr, Bool-cases, ◌⊎◌,
}
use ddash.Base.Text.{equal_fold, trim_space}
use ddash.Effect.{Err, ok, err, cannot_remove_last_owner, ◌>>=◌}
use ddash.Store.{MemberRow, World, after_call}
use ddash.Store.Adapter
use ddash.Store.Queries.{is_member_row, is_owner_row}
use ddash.Store.Owners.{owners-delete, owners_of_found, owners-le-rows, owners_of_other}
use ddash.Store.Calls.{role_cases, count_cases, delete_member_cases}
use ddash.Store.WellFormed.{IsWellFormed, owners}
use ddash.Identity.Members.{is_owner_role, keep_an_owner, remove_member}

owner-is_owner_role : is_owner_role "owner" ≡ true
unfolding equal_fold trim_space
owner-is_owner_role = refl

-- A role that the code does not take for an owner's is not the stored role of an owner.
pub not-owner : (role : String) → is_owner_role role ≡ false → (role == "owner") ≡ false
not-owner role h = elim (Bool-cases (role == "owner")) [
  | inl e ↦
      let same : role ≡ "owner" = (eq_iff _ _).0 e in
      cc (ap is_owner_role same, owner-is_owner_role)
  | inr e ↦ e
]

module _ (g org user : ℤ) (ms : List MemberRow)
    (unique : count (is_member_row org user) ms ≤ 1) where
  -- Deleting a member that is no owner, or where the organization has a second one.
  pub owners_kept :
      (m : MemberRow)
      → find? (is_member_row org user) ms ≡ some m
      → (m.role == "owner" ≡ false) ⊎ (2 ≤ count (is_owner_row org) ms)
      → 0 < count (is_owner_row g) ms
      → 0 < count (is_owner_row g) (filter (λ r. not (is_member_row org user r)) ms)
  owners_kept m found (inl plain) h =
      omega (arith, owners-delete g org user ms, owners_of_found g org user ms m unique found plain)
  owners_kept m found (inr two) h = elim (Bool-cases (int_eq org g)) [
    | inl same ↦
        let e : org ≡ g = (int_eq_iff _ _).0 same in
        let two' : 2 ≤ count (is_owner_row g) ms = rw e at two in
        omega (arith, owners-delete g org user ms, owners-le-rows g org user ms)
    | inr different ↦
        omega (arith, owners-delete g org user ms, owners_of_other g org user ms different)
  ]

delete-owners :
    (g org user : ℤ) (w : World) (m : MemberRow)
    → count (is_member_row org user) w.db.members ≤ 1
    → find? (is_member_row org user) w.db.members ≡ some m
    → (m.role == "owner" ≡ false) ⊎ (2 ≤ owners org w.db)
    → 0 < owners g w.db
    → 0 < owners g (Adapter.delete_organization_member org user w).1.db
delete-owners g org user w m unique found c h = elim (delete_member_cases org user w) [
  | inl same ↦ rw same h
  | inr gone ↦ rw gone (owners_kept g org user w.db.members unique m found c h)
]

-- What the guard does: an error, or the organization has two owners; the tables stay.
pub keep_an_owner_cases :
    (org : ℤ) (w : World)
    → ((e : Err) × (keep_an_owner org w ≡ (err e, after_call w w.db)))
      ⊎ ((keep_an_owner org w ≡ (ok tt, after_call w w.db)) × (2 ≤ owners org w.db))
unfolding keep_an_owner ◌>>=◌
keep_an_owner_cases org w = elim (count_cases org org w) [
  | inl (e, fault) ↦ inl (e, rw fault)
  | inr answer ↦ elim (Bool-cases (leb (owners org w.db) 1)) [
    | inl last ↦ inl (cannot_remove_last_owner, rw (answer, last))
    | inr two ↦ inr (rw (answer, two), ground arith)
  ]
]

-- In tables that meet the uniqueness constraints, and whatever store calls fail, removing a member
-- leaves an owner in every organization that has one.
pub remove_member-owners :
    (g org user : ℤ) (w : World)
    → IsWellFormed w.db
    → 0 < owners g w.db
    → 0 < owners g (remove_member org user w).1.db
unfolding remove_member ◌>>=◌
remove_member-owners g org user w v h = elim (role_cases org user w) [
  | inl (e, _, failed) ↦ rw failed (ground arith)
  | inr (inl (_, absent)) ↦ rw absent (ground arith)
  | inr (inr (m, found, answer)) ↦ elim (Bool-cases (is_owner_role m.role)) [
    | inl owner ↦
        rw (answer, owner)
          (elim (keep_an_owner_cases org (after_call w w.db)) [
            | inl (e, refused) ↦ rw refused h
            | inr (passed, two) ↦ rw passed (
                delete-owners g org user (after_call (after_call w w.db) w.db) m
                  (v.one_role org user) found (inr two) h)
          ])
    | inr plain ↦
        rw (answer, plain)
          (delete-owners g org user (after_call w w.db) m (v.one_role org user) found
            (inl (not-owner m.role plain)) h)
  ]
]
