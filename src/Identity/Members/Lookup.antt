-- ===== src/Identity/Members/Lookup.antt =====
-- Adding a user who is a member already.
use ddash.Base.{
  String, ◌==◌, ℤ, nonpos, false, ◌||◌, Option, none, some, find?, ◌≡◌, refl, ◌⊎◌, inl, inr,
}
use ddash.Base.Text.{trim_space, is_empty}
use ddash.Base.Text.Laws.{trim_space_idem}
use ddash.Effect.{ok, ◌>>=◌}
use ddash.Store.{UserRow, World, after_call, next_fault, later_faults}
use ddash.Store.Adapter
use ddash.Store.Adapter.{map_user}
use ddash.Store.Queries
use ddash.Store.Queries.{Scan}
use ddash.Store.Calls.{call_cases}
use ddash.Store.WellFormed.{owners}
use ddash.Identity.Members.{normalize_role, add_member_by_lookup}
use ddash.Identity.Members.Gaps.{IsSoleOwner, upsert-demotes, still_sole}

-- The first user of the email or the nickname, as the database meets the rows.
abbrev pub looked_up : Scan → String → World → Option UserRow
looked_up scan text w = find? (λ u. u.email == text || u.nickname == text) (scan w.db.users)

lookup_found :
    (scan : Scan) (text : String) (w : World) (row : UserRow)
    → looked_up scan (trim_space text) w ≡ some row
    → next_fault w.faults ≡ none
    → Adapter.get_user_by_email_or_nickname scan (trim_space text) (trim_space text) w
      ≡ (ok (map_user row), after_call w w.db)
unfolding Adapter.get_user_by_email_or_nickname Queries.get_user_by_email_or_nickname ◌>>=◌
lookup_found scan text w row found sound =
    rw (trim_space_idem text)
      (elim (call_cases
        (Queries.get_user_by_email_or_nickname scan (trim_space text) (trim_space text)) w) [
          | inl (e, fault, _) ↦ cc
          | inr answer ↦ rw (answer, found) refl
        ])

-- In whatever order the database meets the rows of users, and where the two store calls succeed:
-- adding the only owner of an organization, found by email or
-- nickname, as an admin or a member leaves the organization without an owner.
pub add_member_by_lookup-demotes :
    (scan : Scan) (org : ℤ) (text role : String) (w : World) (row : UserRow)
    → nonpos org ≡ false
    → (normalize_role role ≡ "admin") ⊎ (normalize_role role ≡ "member")
    → is_empty (trim_space text) ≡ false
    → looked_up scan (trim_space text) w ≡ some row
    → IsSoleOwner org row.id w
    → next_fault w.faults ≡ none
    → next_fault (later_faults w.faults) ≡ none
    → owners org (add_member_by_lookup scan org text role w).1.db ≡ 0
unfolding add_member_by_lookup ◌>>=◌ trim_space map_user
add_member_by_lookup-demotes scan org text role w row valid (inl admin) given found sole sound
      sound' =
    rw (valid, admin, given, lookup_found scan text w row found sound)
      (upsert-demotes org row.id "admin" (after_call w w.db) (still_sole sole) sound' (inl refl))
add_member_by_lookup-demotes scan org text role w row valid (inr member) given found sole sound
      sound' =
    rw (valid, member, given, lookup_found scan text w row found sound)
      (upsert-demotes org row.id "member" (after_call w w.db) (still_sole sole) sound' (inr refl))
