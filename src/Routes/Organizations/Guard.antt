-- ===== src/Routes/Organizations/Guard.antt =====
-- What the guard in front of a change of an organization lets pass.
use ddash.Base.{
  String, ◌==◌, ℤ, int_eq, nonpos, Bool, true, false, not, ◌&&◌, ◌||◌, Option, none, some, [], map,
  any, ◌≡◌, refl, ap, ◌∙◌, sym, inl, inr, arith, Bool-cases,
}
use ddash.Base.Text.Parse.{parse_int}
use ddash.Base.Text.{trim_space, to_lower, is_empty}
use ddash.Base.Text.Laws.{trim_space_idem}
use ddash.Effect.{Err, is_no_rows, Result-cases, ok, Exec, ◌>>=◌, ◌>>◌}
use ddash.Store.{Db, World, call, next_fault, later_faults, after_call}
use ddash.Store.Adapter
use ddash.Store.Queries
use ddash.Store.Queries.{set_name}
use ddash.Store.Calls.{role_cases}
use ddash.Identity.Access.{can_manage_organization}
use ddash.Identity.Lifecycle.{rename_organization}
use ddash.Routes.Organizations.{
  Location, organizations, Exchange, Request, redirect, serve, parse_int,
  require_organization_admin, require_user, handle_organization_rename,
}

-- Another organization has the name.
abbrev pub name_taken : ℤ → String → Db → Bool
name_taken id name db = any (λ o. o.name == name && not (int_eq o.id id)) db.organizations

abbrev is_some : Option Err → Bool
is_some none = false
is_some (some _) = true

-- Without faults the question has an answer.
can_manage_cases :
    (org user : ℤ) (w : World)
    → w.faults ≡ []
    → (can : Bool) × (can_manage_organization org user w ≡ (ok can, after_call w w.db))
unfolding can_manage_organization ◌>>=◌ is_no_rows
can_manage_cases org user w sound = elim (role_cases org user w) [
  | inl (e, fault, _) ↦
      let broken : false ≡ true = ap is_some (ap next_fault (sym sound) ∙ fault) in
      absurd (ground arith)
  | inr (inl (_, absent)) ↦ (false, rw absent refl)
  | inr (inr (m, _, role)) ↦ (
    to_lower (trim_space m.role) == "owner" || to_lower (trim_space m.role) == "admin",
    rw role refl,
  )
]

-- Whoever asks, the guard gives no error.
require_organization_admin_lem :
    (request : Request) (org : ℤ) (x : Exchange)
    → x.world.faults ≡ []
    → ((require_organization_admin request org x).0 ≡ ok tt)
      × ((require_organization_admin request org x).1.world.db ≡ x.world.db)
      × ((require_organization_admin request org x).1.world.faults ≡ [])
unfolding require_organization_admin ◌>>=◌
require_organization_admin_lem request org x sound = cases request.auth_user
  where
    cases :
        (user : Option ℤ)
        → ((require_user user org x).0 ≡ ok tt)
          × ((require_user user org x).1.world.db ≡ x.world.db)
          × ((require_user user org x).1.world.faults ≡ [])
    cases none = (refl, refl, sound)
    cases (some user) = elim (Bool-cases (nonpos user)) [
      | inl nobody ↦ rw nobody (refl, refl, sound)
      | inr known ↦
          let (can, answer) = can_manage_cases org user x.world sound in
          rw (known, answer)
            (elim (Bool-cases can) [
              | inl manager ↦ rw manager (refl, refl, ap later_faults sound)
              | inr other ↦ rw other (refl, refl, ap later_faults sound)
            ])
    ]

renamed :
    (id : ℤ) (name : String) (w : World)
    → w.faults ≡ []
    → nonpos id ≡ false
    → is_empty (trim_space name) ≡ false
    → name_taken id (trim_space name) w.db ≡ false
    → (rename_organization id name w).1.db.organizations
      ≡ map (set_name id (trim_space name)) w.db.organizations
unfolding rename_organization Adapter.update_organization_name Queries.update_organization_name call
renamed id name w sound valid full free =
    rw (valid, full, trim_space_idem name, full, sound)
      (elim (Bool-cases (any (λ o. int_eq o.id id) w.db.organizations)) [
        | inl known ↦ rw (known, free) refl
        | inr unknown ↦ rw unknown refl
      ])

-- The same behind the guard, for a name that was trimmed before.
renamed_behind :
    (id : ℤ) (name : String) (w w' : World)
    → w'.db ≡ w.db
    → w'.faults ≡ []
    → nonpos id ≡ false
    → is_empty (trim_space name) ≡ false
    → name_taken id (trim_space name) w.db ≡ false
    → (rename_organization id (trim_space name) w').1.db.organizations
      ≡ map (set_name id (trim_space name)) w.db.organizations
renamed_behind id name w w' same sound valid full free =
    let idem : trim_space (trim_space name) ≡ trim_space name = trim_space_idem name in
    let full' : is_empty (trim_space (trim_space name)) ≡ false = rw idem full in
    let free' : name_taken id (trim_space (trim_space name)) w'.db ≡ false = rw (idem, same) free in
    renamed id (trim_space name) w' sound valid full' free'
    ∙ ap (λ n. map (set_name id n) w'.db.organizations) idem
    ∙ ap (λ d. map (set_name id (trim_space name)) d.organizations) same

serve_then_redirect :
    {A : Type 0} (m : Exec World A) (l : Location) (x : Exchange)
    → ((serve m >> redirect l) x).1.world ≡ (m x.world).1
unfolding serve redirect ◌>>=◌
serve_then_redirect m l x = elim (Result-cases (m x.world).0) [
  | inl (e, failed) ↦ rw failed refl
  | inr (a, passed) ↦ rw passed refl
]

-- The handler behind a guard that gives no error renames.
pub handle_organization_rename_lem :
    (request : Request) (id : ℤ) (x : Exchange)
    → x.world.faults ≡ []
    → parse_int (trim_space request.organization_id) ≡ some id
    → nonpos id ≡ false
    → is_empty (trim_space request.name) ≡ false
    → name_taken id (trim_space request.name) x.world.db ≡ false
    → (handle_organization_rename request x).1.world.db.organizations
      ≡ map (set_name id (trim_space request.name)) x.world.db.organizations
unfolding handle_organization_rename redirect serve ◌>>=◌
handle_organization_rename_lem request id x sound parsed valid full free =
    let (passed, same, still) = require_organization_admin_lem request id x sound in
    rw (parsed, valid, full, passed)
      (ap (λ w. w.db.organizations)
          (serve_then_redirect (rename_organization id (trim_space request.name))
            (organizations "Organization renamed" "success")
            (require_organization_admin request id x).1)
        ∙ renamed_behind id request.name x.world (require_organization_admin request id x).1.world
            same still valid full free)
