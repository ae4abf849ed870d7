-- ===== src/Effect.antt =====
-- Go's results and errors. A function of type `(T, error)` returns a `Result`; one that changes a
-- shared state is an action, which gives the state back beside the error too.
use ddash.Base.{String, Bool, true, false, ◌≡◌, refl, ap, ◌⊎◌, inl, inr}

pub data Err : Type 0 where
  -- sql.ErrNoRows
  no_rows : Err
  -- services/ingestion.go
  missing_auth_token invalid_auth_token invalid_signature invalid_payload : Err
  invalid_schema unsupported_type ingest_busy : Err
  -- services/organization_management.go
  cannot_delete_last_organization organization_access_denied organization_admin_required : Err
  organization_membership_required cannot_remove_last_owner : Err
  -- services/metadata.go
  required_metadata_missing : Err
  -- application/githubintegration/service.go
  setup_intent_not_found setup_intent_expired : Err
  -- the context's error, once it is done
  context_done : Err
  -- any other error, with its message
  other : String → Err

-- `errors.Is(err, sql.ErrNoRows)`
unfoldable pub is_no_rows : Err → Bool
is_no_rows no_rows = true
is_no_rows _ = false

pub data Result {ℓ} (A : Type ℓ) : Type ℓ where
  ok : A → Result A
  err : Err → Result A

-- The result of a function of type `error`.
abbrev pub Outcome : Type 0
Outcome = Result Unit

pub Result-cases : {A : Type 0} (r : Result A) → ((e : Err) × (r ≡ err e)) ⊎ ((a : A) × (r ≡ ok a))
Result-cases (ok a) = inr (a, refl)
Result-cases (err e) = inl (e, refl)

abbrev value_or : {A : Type 0} → A → Result A → A
value_or a (ok b) = b
value_or a (err e) = a

pub ok-injective : {A : Type 0} (a b : A) → ok a ≡ ok b → a ≡ b
ok-injective a b h = ap (value_or a) h

abbrev pub Exec : Type 0 → Type 0 → Type 0
Exec S A = S → Result A × S

module _ {S A : Type 0} where
  unfoldable pub pure : A → Exec S A
  pure a s = (ok a, s)

  unfoldable pub raise : Err → Exec S A
  raise e s = (err e, s)

  unfoldable pub lift : Result A → Exec S A
  lift r s = (r, s)

  -- Runs an action and hands its result to the code that inspects the error.
  unfoldable pub attempt : Exec S A → Exec S (Result A)
  attempt m s = let (r, s') = m s in (ok r, s')

-- `if err != nil { return err }` in front of the rest of a function.
module _ {S A B : Type 0} where
  abbrev pub continue : Result A → (A → Exec S B) → Exec S B
  continue (ok a) rest s = rest a s
  continue (err e) rest s = (err e, s)

  infixl 10 ◌>>=◌ ◌>>◌
  unfoldable pub ◌>>=◌ : Exec S A → (A → Exec S B) → Exec S B
  unfolding pure raise lift attempt
  ◌>>=◌ first rest s = let (answer, later) = first s in continue answer rest later

  abbrev pub ◌>>◌ : Exec S A → Exec S B → Exec S B
  first >> second = first >>= λ _. second
