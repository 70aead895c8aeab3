-- ===== src/Relay/Errors.antt =====
-- packages/relay/src/lib/errors.ts, and `CredentialError` of lib/credential.ts. An error is its
-- HTTP status and its wire code; the texts for humans are left out.
use inzo.Prelude.{ℕ, String}

pub data Error : Type 0 where
  relay_error : (status : ℕ) (code : String) → Error
  credential_error : (code : String) → Error
  -- a plain `Error`, which the relay answers with 500
  plain_error : Error

abbrev pub not_found : Error
not_found = relay_error 404 "not_found"

abbrev pub bad_request : Error
bad_request = relay_error 400 "bad_request"

abbrev pub conflict : Error
conflict = relay_error 409 "conflict"

abbrev pub forbidden : Error
forbidden = relay_error 403 "forbidden"

abbrev pub gone : Error
gone = relay_error 410 "gone"

abbrev pub unauthenticated : Error
unauthenticated = relay_error 401 "unauthenticated"

abbrev pub identity_not_allowed : Error
identity_not_allowed = relay_error 400 "identity_not_allowed"

abbrev pub revoked : Error
revoked = relay_error 401 "revoked"

abbrev pub insufficient_scope : Error
insufficient_scope = relay_error 403 "insufficient_scope"

-- Also `subjectHashMismatch`, which has the same status and code.
abbrev pub stale_plan : Error
stale_plan = relay_error 409 "stale_plan"

abbrev pub rate_limited : Error
rate_limited = relay_error 429 "rate_limited"

abbrev pub credential_expired : Error
credential_expired = relay_error 401 "credential_expired"

abbrev pub proof_invalid : Error
proof_invalid = relay_error 401 "proof_invalid"

abbrev pub proof_stale : Error
proof_stale = relay_error 401 "proof_stale"

abbrev pub proof_replayed : Error
proof_replayed = relay_error 401 "proof_replayed"

abbrev pub pop_required_for_consent : Error
pop_required_for_consent = relay_error 403 "pop_required_for_consent"

abbrev pub pop_required : Error
pop_required = relay_error 400 "pop_required"

abbrev pub depth_exceeded : Error
depth_exceeded = relay_error 400 "depth_exceeded"

-- The code of `stale_plan`, so that clients need no new branch.
abbrev pub subject_hash_mismatch : Error
subject_hash_mismatch = relay_error 409 "stale_plan"
