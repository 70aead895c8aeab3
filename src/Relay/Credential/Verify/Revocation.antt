-- ===== src/Relay/Credential/Verify/Revocation.antt =====
-- What `verifyCredential` has checked when it accepts, and revocation through a chain.
use inzo.Prelude.{
  ◌+◌, ◌*◌, ◌≤◌, ◌<◌, ◌≡◌, ◌≢◌, String, true, false, List, [], ◌∷◌, Option, some, ok, arith,
  includes, includes-append, find?, length, all, guard-eq-ok, ok-injective, ltb→lt, leb→le, eqb→eq,
  not→false, or_throw-eq-ok, ◌∙◌, ap, subst,
}
use inzo.Relay.Scopes.{all_scopes}
use inzo.Relay.Credential.Interface.{CredentialPayload, Crypto, max_depth, ticks}
use inzo.Relay.Credential.Issue.{seconds, signing_input}
use inzo.Relay.Credential.Verify.{
  VerifyOptions, check_payload, verify_credential, truthy, issued_by, find_key,
}
use inzo.Relay.Credential.Verify.Delegation.{Delegates, Delegates-Descends}

truthy-find? :
    (revoked chain : List String) (a : String)
    → includes revoked "" ≡ false
    → includes revoked a ≡ true
    → includes chain a ≡ true
    → truthy (find? (includes revoked) chain) ≡ true
truthy-find? revoked [] a h r m = cc
truthy-find? revoked (x ∷ xs) a h r m = ground (arith, truthy-find? revoked xs a)

-- What an accepted payload satisfies.
pub record IsCurrent (payload : CredentialPayload) (options : VerifyOptions) : Type 0 where
  pub issuer : issued_by options.expected_issuer payload.iss ≡ true
  pub alive : seconds options.now * ticks < payload.exp
  pub begun : payload.iat ≤ seconds options.now + 60
  pub known : all (includes all_scopes) payload.cap ≡ true
  pub consistent : payload.depth ≡ length payload.chain
  pub bounded : payload.depth ≤ max_depth
  pub not_revoked : includes options.revoked payload.jti ≡ false
  pub chain_not_revoked : truthy (find? (includes options.revoked) payload.chain) ≡ false

check_payload-eq-ok :
    (payload p : CredentialPayload) (options : VerifyOptions)
    → check_payload payload options ≡ ok p
    → (payload ≡ p) × IsCurrent payload options
unfolding check_payload
check_payload-eq-ok payload p options h =
    let (issuer, h₁) = guard-eq-ok _ _ _ h in
    let (alive, h₂) = guard-eq-ok _ _ _ h₁ in
    let (begun, h₃) = guard-eq-ok _ _ _ h₂ in
    let (known, h₄) = guard-eq-ok _ _ _ h₃ in
    let (consistent, h₅) = guard-eq-ok _ _ _ h₄ in
    let (bounded, h₆) = guard-eq-ok _ _ _ h₅ in
    let (own, h₇) = guard-eq-ok _ _ _ h₆ in
    let (ancestors, h₈) = guard-eq-ok _ _ _ h₇ in
    (
      ok-injective h₈,
      record {
        issuer = issuer;
        alive = ltb→lt _ _ alive;
        begun = leb→le _ _ begun;
        known = known;
        consistent = eqb→eq _ _ consistent;
        bounded = leb→le _ _ bounded;
        not_revoked = not→false _ own;
        chain_not_revoked = not→false _ ancestors;
      },
    )

module _ (c : Crypto) where
  open c use {PublicKey}

  -- A credential is accepted only with the signature of a known issuer key over its two parts, and
  -- only while its payload is current.
  pub verify_credential-IsCurrent :
      (p0 p1 p2 : String) (keys : List (String × PublicKey)) (options : VerifyOptions)
      (payload : CredentialPayload)
      → verify_credential c (p0 ∷ p1 ∷ p2 ∷ []) keys options ≡ ok payload
      → (c.decode_payload p1 ≡ some payload)
        × ((kid : Option String) × (key : PublicKey) × (find_key c kid keys ≡ some key)
            × (c.verify key (signing_input p0 p1) p2 ≡ true))
        × IsCurrent payload options
  unfolding verify_credential
  verify_credential-IsCurrent p0 p1 p2 keys options payload h =
      let (header, decoded_header, h₁) = or_throw-eq-ok (c.decode_header p0) _ _ h in
      let (body, decoded, h₂) = or_throw-eq-ok (c.decode_payload p1) _ _ h₁ in
      let (supported, h₃) = guard-eq-ok _ _ _ h₂ in
      let (key, known, h₄) = or_throw-eq-ok (find_key c header.kid keys) _ _ h₃ in
      let (signed, h₅) = guard-eq-ok _ _ _ h₄ in
      let (same, current) = check_payload-eq-ok body payload options h₅ in
      (
        decoded ∙ ap some same,
        (header.kid, key, known, signed),
        subst (λ p. IsCurrent p options) same current,
      )

  -- Revoking a credential ends everything that was ever made from it: no credential whose chain of
  -- attenuations starts at a revoked one is accepted, whatever its keys, signature and dates. The empty text is not a
  -- revoked id.
  pub verify_credential-revoked :
      (credential : List String) (keys : List (String × PublicKey)) (options : VerifyOptions)
      (root leaf : CredentialPayload)
      → Delegates c root leaf
      → includes options.revoked root.jti ≡ true
      → includes options.revoked "" ≡ false
      → verify_credential c credential keys options ≢ ok leaf
  unfolding verify_credential
  verify_credential-revoked (p0 ∷ p1 ∷ p2 ∷ []) keys options root leaf d r e h =
      let current : IsCurrent leaf options =
        (verify_credential-IsCurrent p0 p1 p2 keys options leaf h).2 in
      let named = (Delegates-Descends c d).named in
      let split = includes-append leaf.chain (leaf.jti ∷ []) root.jti in
      let dead = truthy-find? options.revoked leaf.chain root.jti e r in absurd (ground arith)
  verify_credential-revoked _ keys options root leaf d r e h = cc
