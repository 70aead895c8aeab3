-- ===== src/Relay/Credential/Proof.antt =====
-- `proofInput`, `verifyProof` and `ProofReplayGuard` of packages/relay/src/lib/credential.ts.
pub mod Replay
use inzo.Prelude.{
  ℕ, ◌+◌, ◌-◌, ◌*◌, String, Bool, true, false, not, List, [], ◌∷◌, ◌++◌, Option, none, some, Result,
  ok, guard, or_throw, ◌>>◌, ◌>>=◌, leb, ltb, filter, any, ◌==◌, if◌then◌else◌,
}
use Prim.Native.String
use inzo.Prelude.Int.{ℤ, pos, negsuc}
use inzo.Relay.Errors.{Error, credential_error}
use inzo.Relay.Credential.Interface.{CredentialPayload, Crypto, proof_window_seconds}
use inzo.Relay.Credential.Issue.{seconds}

-- `parts.join("\n")`
abbrev pub join_lines : List String → String
join_lines [] = ""
join_lines (s ∷ []) = s
join_lines (s ∷ t ∷ ss) = String.◌++◌ s (String.◌++◌ "\n" (join_lines (t ∷ ss)))

-- `proof` is `none` where the header is missing or empty. `timestamp` is what `Number` makes of its
-- header, `none` where that is not finite; a fraction of a second is not modelled.
pub record ProofInput : Type 0 where
  pub payload : CredentialPayload
  pub proof : Option String
  pub timestamp : Option ℤ
  pub method : String
  pub path : String
  pub body_hash : String
  pub nonce : String
  pub now : ℕ
  pub window_seconds : Option ℕ

-- `Math.abs(nowSec - ts)`
abbrev pub distance : ℕ → ℤ → ℕ
distance now (pos t) = (now - t) + (t - now)
distance now (negsuc t) = now + t + 1

abbrev pub window_of : Option ℕ → ℕ
window_of none = proof_window_seconds
window_of (some seconds) = seconds

module _ (c : Crypto) where
  unfoldable pub proof_input :
      (method path jti : String) (timestamp : ℤ) (body_hash nonce : String) → String
  proof_input method path jti timestamp body_hash nonce =
      join_lines
        (c.to_upper_case method ∷ path ∷ jti ∷ c.show_number timestamp ∷ body_hash ∷ nonce ∷ [])

  unfoldable pub verify_proof : ProofInput → Result Error ℤ
  verify_proof input = do
    proof ← or_throw input.proof (credential_error "proof_invalid")
    ts ← or_throw input.timestamp (credential_error "proof_invalid")
    guard (leb (distance (seconds input.now) ts) (window_of input.window_seconds))
        (credential_error "proof_stale")
    holder ← or_throw (c.from_jwk input.payload.cnf) (credential_error "bad_request")
    guard
        (c.verify holder
          (proof_input input.method input.path input.payload.jti ts input.body_hash input.nonce)
          proof)
        (credential_error "proof_invalid")
    ok ts

-- The accepted proofs with the second of their acceptance, in the order of a `Map`.
pub record ProofReplayGuard : Type 0 where
  pub window_seconds : ℕ
  pub seen : List (String × ℕ)

abbrev pub fresh_guard : ℕ → ProofReplayGuard
fresh_guard window = record { window_seconds = window; seen = [] }

abbrev pub has : String → List (String × ℕ) → Bool
has proof seen = any (λ e. e.0 == proof) seen

-- What the loop over `seen` keeps at a second.
abbrev pub kept : ℕ → ℕ → List (String × ℕ) → List (String × ℕ)
kept window now_sec seen = filter (λ e. not (ltb (window * 2) (now_sec - e.1))) seen

unfoldable pub admit : ProofReplayGuard → String → ℕ → ProofReplayGuard × Bool
admit g proof now =
    let left = kept g.window_seconds (seconds now) g.seen in
    if has proof left
    then (record g { seen = left }, false)
    else (record g { seen = left ++ (proof, seconds now) ∷ [] }, true)
