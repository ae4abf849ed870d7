-- ===== src/Store/Owners.antt =====
-- How the queries on `organization_members` change the number of an organization's owners.
use ddash.Base.{
  ◌+◌, ◌≤◌, String, ◌==◌, ℤ, int_eq, int_eq_iff, Bool, true, false, not, ◌&&◌, none, some, List, [],
  ◌∷◌, map, ◌≡◌, refl, arith, find?, any, count, count-append, filter, inl, inr, Bool-cases,
}
use ddash.Store.{MemberRow}
use ddash.Store.Queries.{is_member_row, is_owner_row, set_role, put_member}

abbrev is_owner_of : ℤ → ℤ → ℤ → MemberRow → Bool
is_owner_of g org user m = is_owner_row g m && is_member_row org user m

module _ (g org user : ℤ) where
  -- Deleting a member takes away what of it was an owner.
  pub owners-delete :
      (ms : List MemberRow)
      → count (is_owner_row g) (filter (λ m. not (is_member_row org user m)) ms)
          + count (is_owner_of g org user) ms
        ≡ count (is_owner_row g) ms
  owners-delete [] = omega arith
  owners-delete (m ∷ ms) = ground (arith, owners-delete ms)

  pub owners-le-rows :
      (ms : List MemberRow) → count (is_owner_of g org user) ms ≤ count (is_member_row org user) ms
  owners-le-rows [] = omega arith
  owners-le-rows (m ∷ ms) = ground (arith, owners-le-rows ms)

  -- The only row of a pair decides whether the pair counts as an owner.
  pub owners_of_found :
      (ms : List MemberRow) (m : MemberRow)
      → count (is_member_row org user) ms ≤ 1
      → find? (is_member_row org user) ms ≡ some m
      → (m.role == "owner") ≡ false
      → count (is_owner_of g org user) ms ≡ 0
  owners_of_found [] m h found e = ground arith
  owners_of_found (r ∷ ms) m h found e = ground (arith, owners_of_found ms m, owners-le-rows ms)

  -- A pair without a row has no owner.
  pub owners_of_absent :
      (ms : List MemberRow)
      → find? (is_member_row org user) ms ≡ none
      → count (is_owner_of g org user) ms ≡ 0
  owners_of_absent [] absent = refl
  owners_of_absent (m ∷ ms) absent = ground (arith, owners_of_absent ms)

  any_of_found :
      (ms : List MemberRow) (m : MemberRow)
      → find? (is_member_row org user) ms ≡ some m
      → any (is_member_row org user) ms ≡ true
  any_of_found [] m found = cc
  any_of_found (r ∷ ms) m found = ground (arith, any_of_found ms m)

  owners-filter-le :
      (ms : List MemberRow)
      → count (is_owner_row g) (filter (λ m. not (is_member_row org user m)) ms)
        ≤ count (is_owner_row g) ms
  owners-filter-le ms = omega (arith, owners-delete ms)

  owners-map-set_role :
      (role : String) (ms : List MemberRow)
      → count (is_owner_row g) (filter (λ m. not (is_member_row org user m)) ms)
        ≤ count (is_owner_row g) (map (set_role org user role) ms)
  owners-map-set_role role [] = omega arith
  owners-map-set_role role (m ∷ ms) = ground (arith, owners-map-set_role role ms)

  -- Whatever the new role, the owners among the other members stay.
  pub owners-put_member :
      (role : String) (ms : List MemberRow)
      → count (is_owner_row g) (filter (λ m. not (is_member_row org user m)) ms)
        ≤ count (is_owner_row g) (put_member org user role ms)
  owners-put_member role ms = elim (Bool-cases (any (is_member_row org user) ms)) [
    | inl old ↦ rw old (owners-map-set_role role ms)
    | inr new ↦ rw new (
        omega (
          arith,
          owners-filter-le ms,
          count-append (is_owner_row g) ms
              ((record { organization_id = org; user_id = user; role = role }) ∷ []),
        ))
  ]

  owners-map-demote :
      (role : String) (ms : List MemberRow)
      → (role == "owner") ≡ false
      → count (is_owner_row g) (map (set_role org user role) ms) + count (is_owner_of g org user) ms
        ≡ count (is_owner_row g) ms
  owners-map-demote role [] plain = omega arith
  owners-map-demote role (m ∷ ms) plain = ground (arith, owners-map-demote role ms plain)

  -- Another role takes an owner away.
  pub owners-demote :
      (role : String) (ms : List MemberRow) (m : MemberRow)
      → (role == "owner") ≡ false
      → find? (is_member_row org user) ms ≡ some m
      → count (is_owner_row g) (put_member org user role ms) + count (is_owner_of g org user) ms
        ≡ count (is_owner_row g) ms
  owners-demote role ms m plain found =
      rw (any_of_found ms m found) (owners-map-demote role ms plain)

  -- An owner's row counts.
  pub owners_of_owner :
      (ms : List MemberRow) (m : MemberRow)
      → find? (is_member_row org user) ms ≡ some m
      → is_owner_row g m ≡ true
      → 1 ≤ count (is_owner_of g org user) ms
  owners_of_owner [] m found owner = ground arith
  owners_of_owner (r ∷ ms) m found owner = ground (arith, owners_of_owner ms m)

  owners-map-owner :
      (ms : List MemberRow)
      → count (is_owner_row g) ms ≤ count (is_owner_row g) (map (set_role org user "owner") ms)
  owners-map-owner [] = omega arith
  owners-map-owner (m ∷ ms) = elim (Bool-cases (is_member_row org user m)) [
    | inl own ↦ rw own (ground (arith, owners-map-owner ms))
    | inr old ↦ rw old (ground (arith, owners-map-owner ms))
  ]

  -- A new owner takes no owner away.
  pub owners-put_owner :
      (ms : List MemberRow)
      → count (is_owner_row g) ms ≤ count (is_owner_row g) (put_member org user "owner" ms)
  owners-put_owner ms = elim (Bool-cases (any (is_member_row org user) ms)) [
    | inl old ↦ rw old (owners-map-owner ms)
    | inr new ↦ rw new (
        omega (
          arith,
          count-append (is_owner_row g) ms
              ((record { organization_id = org; user_id = user; role = "owner" }) ∷ []),
        ))
  ]

-- Rows of another organization are not touched.
pub owners_of_other :
    (g org user : ℤ) (ms : List MemberRow)
    → int_eq org g ≡ false
    → count (is_owner_of g org user) ms ≡ 0
owners_of_other g org user [] h = refl
owners_of_other g org user (m ∷ ms) h = ground (
  arith,
  owners_of_other g org user ms h,
  int_eq_iff m.organization_id g,
  int_eq_iff m.organization_id org,
  int_eq_iff org g,
)
