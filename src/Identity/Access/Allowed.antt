-- ===== src/Identity/Access/Allowed.antt =====
-- The organization that a user's request acts on is enabled, and the user has a role in it.
use ddash.Base.{
  ℤ, int_eq, int_eq_iff, nonpos, true, none, some, List, ◌≡◌, refl, subst, ◌⊎◌, inl, inr, find?,
  find?-passes, any-find?, any, map, Bool-cases, Option-cases,
}
use ddash.Effect.{
  Err, Result, organization_access_denied, organization_membership_required, ok, err, ◌>>=◌,
}
use ddash.Store.{Db, MemberRow, World, after_call}
use ddash.Store.Adapter
use ddash.Store.Adapter.{Organization, map_organization}
use ddash.Store.Queries.{is_member_row}
use ddash.Store.Calls.{role_cases}
use ddash.Store.Listings.{get_by_id_cases, list_by_user_cases, joined, All-joined, found-HasRole}
use ddash.Identity.Access.{
  active_for_user, first_enabled, get_active_or_default_organization_for_user,
}

-- The organization is enabled and has a row for the user.
abbrev pub IsAllowed : ℤ → List MemberRow → Organization → Type 0
IsAllowed user members org = (org.enabled ≡ true) × (any (is_member_row org.id user) members ≡ true)

active_for_user-IsAllowed :
    (user active : ℤ) (w : World)
    → ((active_for_user user active w).1.db ≡ w.db)
      × (((active_for_user user active w).0 ≡ ok none)
          ⊎ ((org : Organization) × ((active_for_user user active w).0 ≡ ok (some org))
              × IsAllowed user w.db.members org))
unfolding active_for_user map_organization ◌>>=◌
active_for_user-IsAllowed user active w = elim (Bool-cases (nonpos active)) [
  | inl skipped ↦ rw skipped (refl, inl refl)
  | inr valid ↦ elim (get_by_id_cases active w) [
    | inl (e, failed) ↦ rw (valid, failed) (refl, inl refl)
    | inr (o, found, answer) ↦ elim (Bool-cases o.enabled) [
      | inl on ↦ elim (role_cases active user (after_call w w.db)) [
        | inl (e, _, failed) ↦ rw (valid, answer, on, failed) (refl, inl refl)
        | inr (inl (_, absent)) ↦ rw (valid, answer, on, absent) (refl, inl refl)
        | inr (inr (m, member, role)) ↦
            rw (valid, answer, on, role)
              (
                refl,
                inr (
                  map_organization o,
                  refl,
                  (
                    on,
                    rw ((int_eq_iff _ _).0 (find?-passes (λ r. int_eq r.id active) _ o found))
                        (any-find? (is_member_row active user) _ m member),
                  ),
                ),
              )
      ]
      | inr off ↦ rw (valid, answer, off) (refl, inl refl)
    ]
  ]
]

-- The answer of an action that chooses an organization, as the caller sees it.
abbrev pub ChoiceIsAllowed : ℤ → Db → Result Organization × World → Type 0
ChoiceIsAllowed user db (answer, w') =
    (w'.db ≡ db)
    × (((e : Err) × (answer ≡ err e))
        ⊎ ((org : Organization) × (answer ≡ ok org) × IsAllowed user db.members org))

first_of-ChoiceIsAllowed :
    (user : ℤ) (w : World)
    → ChoiceIsAllowed user w.db ((Adapter.list_organizations_by_user user >>= first_enabled) w)
unfolding ◌>>=◌
first_of-ChoiceIsAllowed user w = elim (list_by_user_cases user w) [
  | inl (e, failed) ↦ rw failed (refl, inl (e, refl))
  | inr listed ↦
      elim (Option-cases (
        find? (λ o. o.enabled)
          (map map_organization (joined user w.db.members w.db.organizations)))) [
            | inl absent ↦ rw (listed, absent) (refl, inl (organization_membership_required, refl))
            | inr (org, found) ↦
                rw (listed, found)
                  (
                    refl,
                    inr (
                      org,
                      refl,
                      found-HasRole user w.db.members _ org
                          (All-joined user w.db.members w.db.organizations) found,
                    ),
                  )
          ]
]

-- Whatever store calls fail, choosing the organization that a user's request acts on changes no
-- table, and gives an error or an organization that is enabled and has a row for the user.
pub get_active_or_default_organization_for_user-IsAllowed :
    (user active : ℤ) (w : World)
    → ChoiceIsAllowed user w.db (get_active_or_default_organization_for_user user active w)
unfolding get_active_or_default_organization_for_user ◌>>=◌
get_active_or_default_organization_for_user-IsAllowed user active w =
    elim (Bool-cases (nonpos user)) [
      | inl nobody ↦ rw nobody (refl, inl (organization_access_denied, refl))
      | inr valid ↦
          let (same, choice) = active_for_user-IsAllowed user active w in
          elim choice [
            | inl skipped ↦
                rw (valid, skipped)
                  (subst
                    (λ db. ChoiceIsAllowed user db (
                      (Adapter.list_organizations_by_user user >>= first_enabled)
                        (active_for_user user active w).1))
                    same (first_of-ChoiceIsAllowed user (active_for_user user active w).1))
            | inr (org, chosen, allowed) ↦ rw (valid, chosen) (same, inr (org, refl, allowed))
          ]
    ]
