-- ===== src/Relay/Credential/Issue/Attenuation.antt =====
-- What an attenuated credential takes over from its parent, and what it may not add.
use inzo.Prelude.{
  ℕ, ◌+◌, ◌*◌, ◌≤◌, ◌≡◌, refl, sym, ◌∙◌, and_right, String, true, List, [], ◌∷◌, ◌++◌, Option, some,
  ok, arith, includes, >>=-eq-ok, leb, guard, ◌<◌, none,
}
use inzo.Prelude.Int.{ℤ, pos, negsuc, pos_part, ltb_ℤ}
use inzo.Prelude.Json.{Json}
use inzo.Relay.Errors.{bad_request, credential_error}
use inzo.Relay.Scopes.{requested_subset}
use inzo.Relay.Scopes.Narrowing.{requested_subset-held, includes-canonical}
use inzo.Relay.Credential.Interface.{
  Jwk, CredentialPayload, IssuerKey, Crypto, max_ttl_seconds, max_depth, ticks,
}
use inzo.Relay.Credential.Issue.{
  IssueInput, Issued, seconds, capped_ttl, payload_of, sealed, issue_credential, child_ttl,
  attenuate,
}

-- How a child stands to the credential that it was made from.
pub record IsChild (parent child : CredentialPayload) (now : ℕ) : Type 0 where
  pub same_principal : child.prn ≡ parent.prn
  pub same_agent : child.sub ≡ parent.sub
  pub same_issuer : child.iss ≡ parent.iss
  pub same_pairing : child.pairing ≡ parent.pairing
  pub longer_chain : child.chain ≡ parent.chain ++ parent.jti ∷ []
  pub deeper : child.depth ≡ parent.depth + 1
  pub bounded : child.depth ≤ max_depth
  pub narrower : (a : String) → includes child.cap a ≡ true → includes parent.cap a ≡ true
  pub issued_now : child.iat ≡ seconds now
  pub short : child.exp ≤ (seconds now + max_ttl_seconds) * ticks
  pub alive : seconds now * ticks < child.exp
  pub within_parent : (seconds now + 1) * ticks ≤ parent.exp → child.exp ≤ parent.exp
  pub ending_parent : parent.exp ≤ (seconds now + 1) * ticks → child.exp ≡ (seconds now + 1) * ticks

module _ (c : Crypto) where
  open c use {PrivateKey}

  pub issue_credential-eq-ok :
      (key : IssuerKey PrivateKey) (input : IssueInput) (jti : String) (issued : Issued)
      → issue_credential c key input jti ≡ ok issued
      → (issued.payload ≡ payload_of input jti (capped_ttl input.ttl_seconds))
        × (issued.credential ≡ sealed c key issued.payload)
        × (ltb_ℤ (pos 0) (capped_ttl input.ttl_seconds) ≡ true)
  unfolding issue_credential
  issue_credential-eq-ok key input jti issued h =
      let (u, positive, made) =
        >>=-eq-ok (guard (ltb_ℤ (pos 0) (capped_ttl input.ttl_seconds)) bad_request) _ h in
      (ground arith, ground arith, ground arith)

  attenuate-eq-ok :
      (key : IssuerKey PrivateKey) (parent : CredentialPayload) (wanted : Json) (cnf : Jwk)
      (ttl_seconds : Option ℤ) (now : ℕ) (jti : String) (issued : Issued)
      → attenuate c key parent wanted cnf ttl_seconds now jti ≡ ok issued
      → (next : List String) × (requested_subset wanted parent.cap ≡ ok next)
        × (parent.depth + 1 ≤ max_depth)
        × (issue_credential c key
              (record {
                issuer = parent.iss;
                agent_id = parent.sub;
                principal_id = parent.prn;
                pairing_id = parent.pairing;
                cap = next;
                cnf = cnf;
                chain = parent.chain ++ parent.jti ∷ [];
                depth = parent.depth + 1;
                ttl_seconds = some (child_ttl parent ttl_seconds now);
                now = now;
              })
              jti
            ≡ ok issued)
  unfolding attenuate
  attenuate-eq-ok key parent wanted cnf ttl_seconds now jti issued h =
      let (next, e, rest) = >>=-eq-ok (requested_subset wanted parent.cap) _ h in
      let (u, shallow, made) =
        >>=-eq-ok (guard (leb (parent.depth + 1) max_depth) (credential_error "depth_exceeded")) _
          rest in
      (next, e, ground arith, made)

-- The lifetime of a child, in all its cases.
child_ttl_lem :
    (parent : CredentialPayload) (ttl_seconds : Option ℤ) (now : ℕ)
    → let ttl = pos_part (capped_ttl (some (child_ttl parent ttl_seconds now))) in
      (0 < ttl)
      × (ttl ≤ max_ttl_seconds * ticks)
      × ((seconds now + 1) * ticks ≤ parent.exp → seconds now * ticks + ttl ≤ parent.exp)
      × (parent.exp ≤ (seconds now + 1) * ticks → ttl ≡ ticks)
child_ttl_lem parent none now = ground arith
child_ttl_lem parent (some (pos t)) now = ground arith
child_ttl_lem parent (some (negsuc t)) now = ground arith

module _ (c : Crypto) where
  open c use {PrivateKey}

  -- A credential that `attenuate` makes names the same principal, agent, issuer and pairing as its
  -- parent, extends the parent's chain by the parent's own id, is one level deeper and at most
  -- `MAX_DEPTH` deep, carries no capability that the parent lacks, is alive, lives for at most
  -- `MAX_TTL_SECONDS`, and ends no later than a parent that has a second or more left. A parent that
  -- has expired, or that has less than a second left, gives a child that ends a second from now, so
  -- a child may outlive a parent that is still alive.
  pub attenuate-IsChild :
      (key : IssuerKey PrivateKey) (parent : CredentialPayload) (wanted : Json) (cnf : Jwk)
      (ttl_seconds : Option ℤ) (now : ℕ) (jti : String) (issued : Issued)
      → attenuate c key parent wanted cnf ttl_seconds now jti ≡ ok issued
      → IsChild parent issued.payload now
  attenuate-IsChild key parent wanted cnf ttl_seconds now jti issued h =
      let (next, e, shallow, made) =
        attenuate-eq-ok c key parent wanted cnf ttl_seconds now jti issued h in
      let (is, sealed_as, positive) = issue_credential-eq-ok c key _ jti issued made in
      let (some_ttl, bounded_ttl, within, expired) = child_ttl_lem parent ttl_seconds now in
      rw is (record {
        same_principal = refl;
        same_agent = refl;
        same_issuer = refl;
        same_pairing = refl;
        longer_chain = refl;
        deeper = refl;
        bounded = shallow;
        narrower = λ a m.
            requested_subset-held wanted parent.cap next a e
              (and_right _ _ (sym (includes-canonical next a) ∙ m));
        issued_now = refl;
        short = omega arith;
        alive = omega arith;
        within_parent = λ p. within p;
        ending_parent = λ p. omega (arith, expired p);
      })
