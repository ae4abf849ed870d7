-- ===== src/Ingest/Credentials/Laws.antt =====
-- What a sender's signature comes to.
use ddash.Base.{String, eq_iff, eq_refl, true, false, ◌≡◌, sym, arith, inl, inr, ◌↔◌, Bool-cases}
use ddash.Base.Text.{trim_space, to_lower, is_empty}
use ddash.Ingest.Sdk.{Bytes, Sdk}
use ddash.Ingest.Credentials.{valid_signature}

-- Where the digest of a body is not empty: a signature is valid just where it is, up to blanks
-- around it and the case of its letters, the digest of the body under the secret.
pub valid_signature_iff :
    (sdk : Sdk) (body : Bytes) (secret signature : String)
    → is_empty (sdk.hmac_sha256_hex secret body) ≡ false
    → (valid_signature sdk body secret signature ≡ true)
      ↔ (to_lower (trim_space signature) ≡ sdk.hmac_sha256_hex secret body)
unfolding valid_signature
valid_signature_iff sdk body secret signature full =
    (there, λ e. rw (e, full) (eq_refl (sdk.hmac_sha256_hex secret body)))
  where
    there :
        valid_signature sdk body secret signature ≡ true
        → to_lower (trim_space signature) ≡ sdk.hmac_sha256_hex secret body
    there h = elim (Bool-cases (is_empty (to_lower (trim_space signature)))) [
      | inl blank ↦ let broken : false ≡ true = rw blank at h in absurd (ground arith)
      | inr given ↦ sym ((eq_iff _ _).0 (rw given at h))
    ]
