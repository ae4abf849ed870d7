-- ===== src/Identity/Create/Owned.antt =====
-- An organization that is created belongs to its creator.
use ddash.Base.{
  ℕ, zero, suc, String, ◌==◌, ℤ, int_eq_refl, nonpos, Bool, true, ◌&&◌, ◌||◌, List, [], ◌∷◌, ◌++◌,
  map, any, ◌≡◌, refl, ◌∙◌, ◌⊎◌, inl, inr, arith, Bool-cases, if◌then◌else◌,
}
use ddash.Base.Text.{trim_space, is_empty}
use ddash.Effect.{Err, Result, Result-cases, ok, err, Exec, pure, raise, attempt, ◌>>=◌, ◌>>◌}
use ddash.Store.{Db, OrganizationRow, MemberRow, World}
use ddash.Store.Adapter
use ddash.Store.Adapter.{Organization, CreateOrganizationInput, map_organization}
use ddash.Store.Queries
use ddash.Store.Queries.{
  is_member_row, set_role, put_member, has_organization, has_user, has_join_code,
  OrganizationParams,
}
use ddash.Store.Calls.{call_cases}
use ddash.Identity.Tokens.{random_hex_token, is_organization_name_conflict}
use ddash.Identity.Create.{candidate_name, new_input, create_rounds, create_organization}

abbrev pub is_owner_of : ℤ → ℤ → MemberRow → Bool
is_owner_of org user m = is_member_row org user m && m.role == "owner"

any-set_role :
    (org user : ℤ) (ms : List MemberRow)
    → any (is_member_row org user) ms ≡ true
    → any (is_owner_of org user) (map (set_role org user "owner") ms) ≡ true
any-set_role org user [] h = h
any-set_role org user (m ∷ ms) h = elim (Bool-cases (is_member_row org user m)) [
  | inl here ↦ rw (here, here) refl
  | inr there ↦ rw (there, there) (any-set_role org user ms (rw there at h))
]

any-last :
    (org user : ℤ) (ms : List MemberRow) (m : MemberRow)
    → is_owner_of org user m ≡ true
    → any (is_owner_of org user) (ms ++ m ∷ []) ≡ true
any-last org user [] m h = rw h refl
any-last org user (m' ∷ ms) m h = ground (arith, any-last org user ms m h)

put_member-owner :
    (org user : ℤ) (ms : List MemberRow)
    → any (is_owner_of org user) (put_member org user "owner" ms) ≡ true
put_member-owner org user ms = elim (Bool-cases (any (is_member_row org user) ms)) [
  | inl known ↦ rw known (any-set_role org user ms known)
  | inr fresh ↦ rw fresh (
      any-last org user ms (record { organization_id = org; user_id = user; role = "owner" })
        (rw (int_eq_refl org, int_eq_refl user) refl))
]

-- The answer of a creation: an error, or an enabled organization that the user owns.
abbrev pub IsOwned : ℤ → Result Organization × World → Type 0
IsOwned user (answer, w) =
    ((e : Err) × (answer ≡ err e))
    ⊎ ((org : Organization) × (answer ≡ ok org)
        × (org.enabled ≡ true)
        × (any (is_owner_of org.id user) w.db.members ≡ true))

bind-IsOwned :
    {A : Type 0} (user : ℤ) (m : Exec World A) (n : A → Exec World Organization) (w : World)
    → ((a : A) (w' : World) → IsOwned user (n a w'))
    → IsOwned user ((m >>= n) w)
unfolding ◌>>=◌
bind-IsOwned user m n w h = elim (Result-cases (m w).0) [
  | inl (e, failed) ↦ rw failed (inl (e, refl))
  | inr (a, passed) ↦ rw passed (h a (m w).1)
]

-- Making the user an owner fails, or the user is one.
own-IsOwned :
    (user : ℤ) (org : Organization) (w : World)
    → org.enabled ≡ true
    → IsOwned user ((Adapter.upsert_organization_member org.id user "owner" >> pure org) w)
unfolding Adapter.upsert_organization_member Queries.upsert_organization_member trim_space ◌>>=◌
own-IsOwned user org w on =
    elim (call_cases (Queries.upsert_organization_member org.id user "owner") w) [
      | inl (e, _, failed) ↦ rw failed (inl (e, refl))
      | inr answer ↦ elim (Bool-cases (has_organization org.id w.db && has_user user w.db)) [
        | inl known ↦
            rw (answer, known) (inr (org, refl, on, put_member-owner org.id user w.db.members))
        | inr unknown ↦ rw (answer, unknown) (inl (_, refl))
      ]
    ]

inserted_cases :
    (p : OrganizationParams) (db : Db)
    → ((e : Err) × ((Queries.create_organization p db).0 ≡ err e))
      ⊎ ((row : OrganizationRow) × ((Queries.create_organization p db).0 ≡ ok row)
          × (row.enabled ≡ p.enabled))
unfolding Queries.create_organization
inserted_cases p db = elim (Bool-cases (any (λ o. o.name == p.name) db.organizations)) [
  | inl named ↦ rw named (inl (_, refl))
  | inr fresh ↦ elim (Bool-cases (any (λ o. o.auth_token == p.auth_token) db.organizations)) [
    | inl used ↦ rw (fresh, used) (inl (_, refl))
    | inr unused ↦ elim (Bool-cases (any (has_join_code p.join_code) db.organizations)) [
      | inl taken ↦ rw (fresh, unused, taken) (inl (_, refl))
      | inr free ↦ rw (fresh, unused, free) (inr (_, refl, refl))
    ]
  ]
]

abbrev params_of : CreateOrganizationInput → OrganizationParams
params_of input = record {
  name = trim_space input.name;
  auth_token = trim_space input.auth_token;
  join_code = Adapter.null_string input.join_code;
  webhook_secret = trim_space input.webhook_secret;
  enabled = input.enabled;
}

-- The store creates an organization as it was asked to, or fails.
created_cases :
    (input : CreateOrganizationInput) (w : World)
    → ((e : Err) × ((Adapter.create_organization input w).0 ≡ err e))
      ⊎ ((org : Organization) × ((Adapter.create_organization input w).0 ≡ ok org)
          × (org.enabled ≡ input.enabled))
unfolding Adapter.create_organization map_organization ◌>>=◌
created_cases input w = elim (call_cases (Queries.create_organization (params_of input)) w) [
  | inl (e, _, failed) ↦ rw failed (inl (e, refl))
  | inr answer ↦ elim (inserted_cases (params_of input) w.db) [
    | inl (e, refused) ↦ rw (answer, refused) (inl (e, refl))
    | inr (row, inserted, on) ↦ rw (answer, inserted) (inr (map_organization row, refl, on))
  ]
]

round-IsOwned :
    (user : ℤ) (input : CreateOrganizationInput) (again : Exec World Organization) (w : World)
    → input.enabled ≡ true
    → ((w' : World) → IsOwned user (again w'))
    → IsOwned user (
        (attempt (Adapter.create_organization input) >>= λ created. elim created [
          | err e ↦ if is_organization_name_conflict e then again else raise e
          | ok org ↦ (do Adapter.upsert_organization_member org.id user "owner"; pure org)
        ])
          w)
unfolding ◌>>=◌
round-IsOwned user input again w on h = elim (created_cases input w) [
  | inl (e, failed) ↦ rw failed (elim (Bool-cases (is_organization_name_conflict e)) [
    | inl conflict ↦ rw conflict (h (Adapter.create_organization input w).1)
    | inr other ↦ rw other (inl (e, refl))
  ])
  | inr (org, created, same) ↦
      rw created (own-IsOwned user org (Adapter.create_organization input w).1 (same ∙ on))
]

create_rounds-IsOwned :
    (n i : ℕ) (base : String) (user : ℤ) (exhausted : Err) (w : World)
    → IsOwned user (create_rounds n i base user exhausted w)
unfolding create_rounds raise
create_rounds-IsOwned zero i base user exhausted w = inl (exhausted, refl)
create_rounds-IsOwned (suc n) i base user exhausted w =
    bind-IsOwned user (random_hex_token 16) _ w (λ auth_token w.
      bind-IsOwned user (random_hex_token 24) _ w (λ secret w.
        bind-IsOwned user (random_hex_token 6) _ w (λ join_code w.
          round-IsOwned user (new_input (candidate_name base i) auth_token secret join_code)
            (create_rounds n (suc i) base user exhausted) w refl
            (create_rounds-IsOwned n (suc i) base user exhausted))))

-- Whatever store calls or random reads fail: creating an organization gives an error, or an
-- organization that is enabled and of which the creator is an owner.
pub create_organization-IsOwned :
    (user : ℤ) (name : String) (w : World) → IsOwned user (create_organization user name w)
unfolding create_organization raise
create_organization-IsOwned user name w =
    elim (Bool-cases (nonpos user || is_empty (trim_space name))) [
      | inl refused ↦ rw refused (inl (_, refl))
      | inr valid ↦ rw valid (create_rounds-IsOwned 20 0 (trim_space name) user _ w)
    ]
