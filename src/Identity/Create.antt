-- ===== src/Identity/Create.antt =====
-- The creation of organizations, with another name while the name is taken.
pub mod Owned
use Prim.Native.String.{◌++◌}
use ddash.Base.{ℕ, zero, suc, ◌+◌, String, ℤ, nonpos, true, ◌||◌, if◌then◌else◌}
use ddash.Base.Text.{trim_space, is_empty}
use ddash.Base.Text.Format.{show_nat}
use ddash.Effect.{
  Err, organization_access_denied, other, ok, err, Exec, pure, raise, attempt, ◌>>=◌, ◌>>◌,
}
use ddash.Store.{World}
use ddash.Store.Adapter
use ddash.Store.Adapter.{Organization, User, CreateOrganizationInput}
use ddash.Identity.Tokens.{random_hex_token, is_organization_name_conflict}

-- The name of round `i`: the base name, then "base-2", "base-3", ...
abbrev pub candidate_name : String → ℕ → String
candidate_name base zero = base
candidate_name base (suc i) = base ++ ("-" ++ show_nat (suc i + 1))

abbrev pub new_input : String → String → String → String → CreateOrganizationInput
new_input name auth_token secret join_code = record {
  name = name;
  auth_token = auth_token;
  join_code = join_code;
  webhook_secret = secret;
  enabled = true;
}

-- The loop with the given rounds left; the creator becomes the owner.
unfoldable pub create_rounds : ℕ → ℕ → String → ℤ → Err → Exec World Organization
create_rounds zero i base user exhausted = raise exhausted
create_rounds (suc n) i base user exhausted =
    let again = create_rounds n (suc i) base user exhausted in
    do
      auth_token ← random_hex_token 16
      secret ← random_hex_token 24
      join_code ← random_hex_token 6
      created ← attempt (
          Adapter.create_organization
            (new_input (candidate_name base i) auth_token secret join_code))
      elim created [
        | err e ↦ if is_organization_name_conflict e then again else raise e
        | ok org ↦ (do Adapter.upsert_organization_member org.id user "owner"; pure org)
      ]

unfoldable pub create_organization : ℤ → String → Exec World Organization
create_organization user name =
    if nonpos user || is_empty (trim_space name)
    then raise organization_access_denied
    else create_rounds 20 0 (trim_space name) user (other "failed to create unique organization")
