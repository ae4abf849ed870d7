-- ===== src/Identity/Members/Gaps.antt =====
-- Where the last-owner protection has gaps: actions that write a role without the test, or that
-- skip it because a read failed, leave the organization of a sole owner with no owner.
use ddash.Base.{
  String, ◌==◌, eq_iff, ℤ, nonpos, true, false, ◌||◌, none, some, ◌≡◌, refl, ap, ◌∙◌, arith, find?,
  count, ◌⊎◌, inl, inr,
}
use ddash.Base.Text.{trim_space}
use ddash.Effect.{Err, Result, ok, err, Exec, continue, ◌>>=◌}
use ddash.Store.{MemberRow, World, after_call, next_fault, later_faults}
use ddash.Store.Adapter
use ddash.Store.Queries.{is_member_row, is_owner_row, has_organization, has_user, put_member}
use ddash.Store.Owners.{owners-demote, owners_of_owner}
use ddash.Store.Calls.{role_unread, upsert_member_written, members-set_status}
use ddash.Store.WellFormed.{owners}
use ddash.Identity.Members.{
  normalize_role, guard_demotion, update_member_role, approve_join_request,
}

-- The user is the only owner of the organization, and both are known.
pub record IsSoleOwner (org user : ℤ) (w : World) : Type 0 where
  pub row : MemberRow
  pub found : find? (is_member_row org user) w.db.members ≡ some row
  pub owner : is_owner_row org row ≡ true
  pub alone : owners org w.db ≡ 1
  pub org_known : has_organization org w.db ≡ true
  pub user_known : has_user user w.db ≡ true

plain_role : (r : String) → (r ≡ "admin") ⊎ (r ≡ "member") → (r == "owner") ≡ false
plain_role r (inl e) = rw e
plain_role r (inr e) = rw e

known_role :
    (r : String)
    → (r ≡ "admin") ⊎ (r ≡ "member")
    → ((r == "admin") ≡ true) ⊎ ((r == "member") ≡ true)
known_role r (inl e) = inl ((eq_iff _ _).1 e)
known_role r (inr e) = inr ((eq_iff _ _).1 e)

-- A written role of admin or member takes the only owner away.
pub upsert-demotes :
    (org user : ℤ) (role : String) (w : World)
    → IsSoleOwner org user w
    → next_fault w.faults ≡ none
    → (trim_space role ≡ "admin") ⊎ (trim_space role ≡ "member")
    → owners org (Adapter.upsert_organization_member org user role w).1.db ≡ 0
upsert-demotes org user role w sole sound known =
    let plain : (trim_space role == "owner") ≡ false = plain_role _ known in
    let written : (Adapter.upsert_organization_member org user role w).1.db.members
        ≡ put_member org user (trim_space role) w.db.members =
      upsert_member_written org user w role sound sole.org_known sole.user_known
        (known_role _ known) in
    rw written (
      omega (
        arith,
        owners-demote org org user (trim_space role) w.db.members sole.row plain sole.found,
        owners_of_owner org org user w.db.members sole.row sole.found sole.owner,
        sole.alone,
      ))

continue-members :
    {A B : Type 0} (r : Result A) (n : A → Exec World B) (w : World)
    → ((a : A) (v : World) → (n a v).1.db.members ≡ v.db.members)
    → (continue r n w).1.db.members ≡ w.db.members
continue-members (ok a) n w keeps = keeps a w
continue-members (err e) n w keeps = refl

-- For positive ids, and where the first store call succeeds, approving a join request of an
-- organization's only owner leaves the organization without an owner.
pub approve_join_request-demotes :
    (org user by : ℤ) (w : World)
    → (nonpos org || nonpos user || nonpos by) ≡ false
    → IsSoleOwner org user w
    → next_fault w.faults ≡ none
    → owners org (approve_join_request org user by w).1.db ≡ 0
unfolding approve_join_request ◌>>=◌ trim_space
approve_join_request-demotes org user by w positive sole sound = rw positive (
    ap (count (is_owner_row org)) (
      continue-members (Adapter.upsert_organization_member org user "member" w).0 _ _
        (λ _ v. members-set_status org user v "approved" by))
    ∙ upsert-demotes org user "member" w sole sound (inr refl))

pub still_sole :
    {org user : ℤ} {w : World} → IsSoleOwner org user w → IsSoleOwner org user (after_call w w.db)
still_sole sole = record {
  row = sole.row;
  found = sole.found;
  owner = sole.owner;
  alone = sole.alone;
  org_known = sole.org_known;
  user_known = sole.user_known;
}

-- A role change to admin or member whose read of the present role fails, and whose write does not,
-- leaves the organization of the only owner without one.
pub update_member_role_unread-demotes :
    (org user : ℤ) (role : String) (w : World) (e : Err)
    → (normalize_role role ≡ "admin") ⊎ (normalize_role role ≡ "member")
    → IsSoleOwner org user w
    → next_fault w.faults ≡ some e
    → next_fault (later_faults w.faults) ≡ none
    → owners org (update_member_role org user role w).1.db ≡ 0
unfolding update_member_role guard_demotion ◌>>=◌ trim_space
update_member_role_unread-demotes org user role w e (inl admin) sole unread sound =
    rw (admin, role_unread org user w unread)
      (upsert-demotes org user "admin" (after_call w w.db) (still_sole sole) sound (inl refl))
update_member_role_unread-demotes org user role w e (inr member) sole unread sound =
    rw (member, role_unread org user w unread)
      (upsert-demotes org user "member" (after_call w w.db) (still_sole sole) sound (inr refl))
