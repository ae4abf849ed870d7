-- ===== src/Identity/Tokens.antt =====
-- Error messages, and the random tokens of services/helpers.go.
use ddash.Base.{ℕ, zero, suc, String, Bool, ◌&&◌, Option, none, some, List, [], ◌∷◌}
use ddash.Base.Text.{to_lower, contains}
use ddash.Base.Text.Format.{hex_bytes}
use ddash.Effect.{
  Err, no_rows, missing_auth_token, invalid_auth_token, invalid_signature, invalid_payload,
  invalid_schema, unsupported_type, ingest_busy, cannot_delete_last_organization,
  organization_access_denied, organization_admin_required, organization_membership_required,
  cannot_remove_last_owner, required_metadata_missing, setup_intent_not_found, setup_intent_expired,
  context_done, other, ok, err, Exec,
}
use ddash.Store.{World}

-- `err.Error()`
unfoldable pub message : Err → String
message no_rows = "sql: no rows in result set"
message missing_auth_token = "missing auth token"
message invalid_auth_token = "invalid auth token"
message invalid_signature = "invalid signature"
message invalid_payload = "invalid payload"
message invalid_schema = "invalid schema"
message unsupported_type = "unsupported event type"
message ingest_busy = "ingestion busy"
message cannot_delete_last_organization = "cannot delete last organization"
message organization_access_denied = "organization access denied"
message organization_admin_required = "organization admin role required"
message organization_membership_required = "organization membership required"
message cannot_remove_last_owner = "cannot remove last owner"
message required_metadata_missing = "required metadata missing"
message setup_intent_not_found = "setup intent not found"
message setup_intent_expired = "setup intent expired"
message context_done = "context canceled"
message (other text) = text

unfoldable pub is_organization_name_conflict : Err → Bool
unfolding message
is_organization_name_conflict e =
    let msg = to_lower (message e) in contains msg "unique" && contains msg "organizations.name"

abbrev pub read_entropy : List (Option (ℕ → ℕ)) → Option (ℕ → ℕ)
read_entropy [] = none
read_entropy (bytes ∷ _) = bytes

abbrev pub later_entropy : List (Option (ℕ → ℕ)) → List (Option (ℕ → ℕ))
later_entropy [] = []
later_entropy (_ ∷ rest) = rest

unfoldable pub random_hex_token : ℕ → Exec World String
random_hex_token zero w = (err (other "invalid token size"), w)
random_hex_token (suc n) w = elim (read_entropy w.entropy) [
  | none ↦ (err (other "rand"), record w { entropy = later_entropy w.entropy })
  | some bytes ↦ (ok (hex_bytes (suc n) 0 bytes), record w { entropy = later_entropy w.entropy })
]
