-- ===== src/Relay/Credential/Verify/RoundTrip.antt =====
-- What the relay issues, it accepts.
use inzo.Prelude.{
  ◌*◌, ◌+◌, ◌≤◌, ◌<◌, ◌≡◌, refl, sym, ap, ◌∙◌, subst, String, true, false, List, some, ok, includes,
  find?-none-any, any, all, all-filter, length, lt→ltb, le→leb, eq→eqb, string_dec,
}
use inzo.Relay.Scopes.{all_scopes}
use inzo.Relay.Credential.Interface.{CredentialPayload, IssuerKey, Crypto, max_depth, ticks}
use inzo.Relay.Credential.Issue.{
  IssueInput, Issued, seconds, issue_credential, credential_header, payload_of, capped_ttl, sealed,
}
use inzo.Relay.Credential.Issue.Attenuation.{issue_credential-eq-ok}
use inzo.Relay.Credential.Verify.{
  VerifyOptions, check_payload, verify_credential, truthy, issued_by, find_key,
}
use inzo.Relay.Credential.Verify.Revocation.{IsCurrent}

-- A payload that satisfies every condition is accepted.
pub check_payload_of_IsCurrent :
    (payload : CredentialPayload) (options : VerifyOptions)
    → IsCurrent payload options
    → check_payload payload options ≡ ok payload
unfolding check_payload
check_payload_of_IsCurrent payload options v = rw (
  v.issuer,
  lt→ltb _ _ v.alive,
  le→leb _ _ v.begun,
  v.known,
  eq→eqb _ _ v.consistent,
  le→leb _ _ v.bounded,
  v.not_revoked,
  v.chain_not_revoked,
)

all_scopes-known : all (includes all_scopes) all_scopes ≡ true
unfolding string_dec
all_scopes-known = refl

-- The documented behaviour of the parsers and of Ed25519, at one key and one payload.
module _ (c : Crypto) (key : IssuerKey c.PrivateKey) (payload : CredentialPayload)
    (header_decodes : c.decode_header (c.encode_header (credential_header key.kid))
      ≡ some (credential_header key.kid))
    (payload_decodes : c.decode_payload (c.encode_payload payload) ≡ some payload)
    (signature_verifies : (message : String)
      → c.verify (c.public_of key.private_key) message (c.sign key.private_key message)
        ≡ true) where
  sealed_verifies :
      (keys : List (String × c.PublicKey)) (options : VerifyOptions)
      → find_key c (some key.kid) keys ≡ some (c.public_of key.private_key)
      → IsCurrent payload options
      → verify_credential c (sealed c key payload) keys options ≡ ok payload
  unfolding verify_credential string_dec
  sealed_verifies keys options k v = rw (
    header_decodes,
    payload_decodes,
    k,
    signature_verifies,
    check_payload_of_IsCurrent payload options v,
  )

  -- A credential that was just issued, of a depth of at most `MAX_DEPTH` and with a chain as long as
  -- its depth, is accepted under the issuer's key by a verifier that expects this issuer or none,
  -- whose clock is at most a minute behind the issuer's and before the end of the credential, as long
  -- as neither it nor an ancestor is revoked.
  pub issue_credential-verifies :
      (input : IssueInput) (jti : String) (issued : Issued) (keys : List (String × c.PublicKey))
      (options : VerifyOptions)
      → payload ≡ issued.payload
      → issue_credential c key input jti ≡ ok issued
      → input.depth ≡ length input.chain
      → input.depth ≤ max_depth
      → find_key c (some key.kid) keys ≡ some (c.public_of key.private_key)
      → issued_by options.expected_issuer input.issuer ≡ true
      → seconds input.now ≤ seconds options.now + 60
      → seconds options.now * ticks < issued.payload.exp
      → includes options.revoked jti ≡ false
      → any (includes options.revoked) input.chain ≡ false
      → verify_credential c issued.credential keys options ≡ ok issued.payload
  issue_credential-verifies input jti issued keys options same h consistent bounded k issuer begun
        alive own ancestors =
      let (made, sealed_as, positive) = issue_credential-eq-ok c key input jti issued h in
      let current : IsCurrent (payload_of input jti (capped_ttl input.ttl_seconds)) options =
        record {
          issuer = issuer;
          alive = subst (λ p. seconds options.now * ticks < p.exp) made alive;
          begun = begun;
          known = all-filter (includes input.cap) (includes all_scopes) all_scopes all_scopes-known;
          consistent = consistent;
          bounded = bounded;
          not_revoked = own;
          chain_not_revoked =
              ap truthy (find?-none-any (includes options.revoked) input.chain ancestors);
        } in
      rw (sealed_as, ← same)
        (sealed_verifies keys options k
          (subst (λ p. IsCurrent p options) (sym made ∙ sym same) current))
