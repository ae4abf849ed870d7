-- ===== src/Ingest/Credentials.antt =====
-- The bearer token and the signature of a request.
pub mod Laws
use ddash.Base.{String, ◌==◌, Bool, false, if◌then◌else◌}
use ddash.Base.Text.{trim_space, to_lower, is_empty, has_prefix, trim_prefix}
use ddash.Effect.{Result, ok, err, other}
use ddash.Ingest.Sdk.{Bytes, Sdk}

unfoldable pub bearer_token : String → Result String
bearer_token value =
    if has_prefix (trim_space value) "Bearer "
    then (if is_empty (trim_space (trim_prefix (trim_space value) "Bearer "))
        then err (other "empty token")
        else ok (trim_space (trim_prefix (trim_space value) "Bearer ")))
    else err (other "missing bearer prefix")

unfoldable pub valid_signature : Sdk → Bytes → String → String → Bool
valid_signature sdk body secret signature =
    if is_empty (to_lower (trim_space signature))
    then false
    else sdk.hmac_sha256_hex secret body == to_lower (trim_space signature)
