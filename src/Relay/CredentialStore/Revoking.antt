-- ===== src/Relay/CredentialStore/Revoking.antt =====
-- Revoking an agent ends each of its credentials, and all that was made from them.
use inzo.Prelude.{
  ℕ, ◌≡◌, ◌≢◌, ◌∙◌, String, true, false, ◌||◌, List, [], ◌∷◌, map, some, ok, arith, filter, find?,
  includes, includes-add_to_set, add_to_set, ◌==◌,
}
use inzo.Relay.Credential.Interface.{CredentialPayload, Crypto}
use inzo.Relay.Credential.Verify.Delegation.{Delegates}
use inzo.Relay.Credential.Verify.Revocation.{verify_credential-revoked}
use inzo.Relay.CredentialStore.{
  CredentialRow, CredentialStore, live_of, add_all, revoke_agent_credentials, verify,
}

includes-add_all :
    (revoked jtis : List String) (a : String)
    → includes (add_all revoked jtis) a ≡ (includes revoked a || includes jtis a)
includes-add_all revoked [] a = ground arith
includes-add_all revoked (j ∷ jtis) a =
    ground (arith, includes-add_all (add_to_set revoked j) jtis a, includes-add_to_set revoked j a)

listed_jti :
    (agent_id jti : String) (rows : List CredentialRow) (row : CredentialRow)
    → find? (λ r. r.jti == jti) rows ≡ some row
    → live_of agent_id row ≡ true
    → includes (map (λ (r : CredentialRow). r.jti) (filter (live_of agent_id) rows)) jti ≡ true
listed_jti agent_id jti [] row e live = cc
listed_jti agent_id jti (r ∷ rows) row e live = ground (arith, listed_jti agent_id jti rows row)

-- Once an agent's credentials are revoked, the store accepts no credential that was made, by
-- however many attenuations, from one of them that was live. The id of that
-- credential names its row, and no revoked id is the empty text.
pub revoke_agent_credentials-ends :
    (c : Crypto) (t : CredentialStore) (agent_id : String) (at : ℕ) (row : CredentialRow)
    (root leaf : CredentialPayload) (issuer_url : String) (credential : List String)
    (keys : List (String × c.PublicKey)) (now : ℕ)
    → find? (λ r. r.jti == root.jti) t.credentials ≡ some row
    → live_of agent_id row ≡ true
    → includes ((revoke_agent_credentials t agent_id at).0).revoked_jtis "" ≡ false
    → Delegates c root leaf
    → verify c (revoke_agent_credentials t agent_id at).0 issuer_url credential keys now ≢ ok leaf
unfolding verify revoke_agent_credentials
revoke_agent_credentials-ends c t agent_id at row root leaf issuer_url credential keys now found
      live e d =
    let jtis = map (λ (r : CredentialRow). r.jti) (filter (live_of agent_id) t.credentials) in
    verify_credential-revoked c credential keys _ root leaf d
      (includes-add_all t.revoked_jtis jtis root.jti
        ∙ ground (arith, listed_jti agent_id root.jti t.credentials row))
      e
