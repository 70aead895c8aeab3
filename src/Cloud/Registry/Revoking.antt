-- ===== src/Cloud/Registry/Revoking.antt =====
-- The kill switch of packages/relay-cf/src/registry.ts.
use inzo.Prelude.{
  ℕ, ◌≡◌, ◌≢◌, refl, sym, ap, ◌∙◌, subst, String, Bool, true, false, not, List, [], ◌∷◌, map,
  Option, none, some, some_eq, ok, arith, find?, is_none, Bool-cases, includes, ◌==◌, ==_refl, inl,
  inr,
}
use inzo.Relay.Credential.Interface.{CredentialPayload, Crypto}
use inzo.Relay.Credential.Verify.Delegation.{Delegates}
use inzo.Relay.CredentialStore.{CredentialRow, CredentialStore, live_of, revoke_agent_credentials}
use inzo.Relay.CredentialStore
use inzo.Relay.CredentialStore.Revoking.{revoke_agent_credentials-ends}
use inzo.Relay.Store.State.{TokenRow}
use inzo.Relay.Store.Revocation.{TokenIdentity}
use inzo.Cloud.Registry.{
  Registry, RevokeResult, revoke_token, first_revoked_at, identity_of, token_of, is_agent_revoked,
  verify, resolve_token, revoke_writes, revoke_unless, revoke_agent,
}

-- The tables that the Node relay's credential store has too.
abbrev pub trust_of : {c : Crypto} → Registry c → CredentialStore
trust_of r = record {
  principals = r.principals;
  credentials = r.credentials;
  revoked_jtis = r.revoked_jtis;
  consents = [];
  audit = [];
}

revoke_agent-writes :
    {c : Crypto} (r : Registry c) (agent_id : String) (at : ℕ)
    → is_agent_revoked r agent_id ≡ false
    → revoke_agent r agent_id at ≡ revoke_writes r agent_id at
unfolding revoke_agent is_agent_revoked
revoke_agent-writes r agent_id at live = writes (first_revoked_at (token_of r agent_id)) live
  where
    writes :
        (before : Option ℕ)
        → not (is_none before) ≡ false
        → revoke_unless r agent_id at before ≡ revoke_writes r agent_id at
    writes none live = refl
    writes (some n) live = cc

module _ {c : Crypto} (r : Registry c) where
  verify-mirrors :
      (credential : List String) (now : ℕ)
      → verify r credential now
        ≡ CredentialStore.verify c (trust_of r) r.issuer_url credential r.ring.verification_keys now
  unfolding verify CredentialStore.verify
  verify-mirrors credential now = refl

  revoke_agent-mirrors :
      (agent_id : String) (at : ℕ)
      → is_agent_revoked r agent_id ≡ false
      → trust_of (revoke_agent r agent_id at).0
        ≡ (revoke_agent_credentials (trust_of r) agent_id at).0
  unfolding revoke_agent_credentials
  revoke_agent-mirrors agent_id at live =
      ap (λ q. trust_of q.0) (revoke_agent-writes r agent_id at live)

revoke_token-revoked :
    (agent_id : String) (at : ℕ) (t : TokenRow)
    → (revoke_token agent_id at t).agent_id ≡ agent_id
    → is_none (revoke_token agent_id at t).revoked_at ≡ false
revoke_token-revoked agent_id at t e = ground (arith, ==_refl agent_id)

revoked_token :
    (test : TokenRow → Bool) (agent_id : String) (at : ℕ) (rows : List TokenRow) (row : TokenRow)
    → find? test (map (revoke_token agent_id at) rows) ≡ some row
    → row.agent_id ≡ agent_id
    → is_none row.revoked_at ≡ false
revoked_token test agent_id at [] row h e = cc
revoked_token test agent_id at (t ∷ rows) row h e =
    elim (Bool-cases (test (revoke_token agent_id at t))) [
      | inl found ↦
          let same : revoke_token agent_id at t ≡ row = some_eq (rw found at h) in
          subst (λ (q : TokenRow). q.agent_id ≡ agent_id → is_none q.revoked_at ≡ false) same
            (revoke_token-revoked agent_id at t) e
      | inr missed ↦ revoked_token test agent_id at rows row (rw missed at h) e
    ]

resolved_row :
    (found : Option TokenRow) (identity : TokenIdentity)
    → (elim found [ none ↦ none | some row ↦ some (identity_of row) ]) ≡ some identity
    → (row : TokenRow) × (found ≡ some row) × (identity_of row ≡ identity)
resolved_row none identity h = cc
resolved_row (some row) identity h = (row, refl, some_eq h)

module _ {c : Crypto} (r : Registry c) where
  -- Once an agent that was not revoked is revoked, whatever token still resolves to it resolves as
  -- revoked, and the registry accepts no credential that was made, by however many attenuations,
  -- from one of its credentials that was live. The id of that credential names its row, and no
  -- revoked id is the empty text.
  pub revoke_agent-ends :
      (agent_id : String) (at : ℕ) (row : CredentialRow) (root leaf : CredentialPayload)
      (credential : List String) (now : ℕ) (hash_token : String → String) (token : String)
      (identity : TokenIdentity)
      → is_agent_revoked r agent_id ≡ false
      → find? (λ row. row.jti == root.jti) r.credentials ≡ some row
      → live_of agent_id row ≡ true
      → includes (revoke_agent r agent_id at).0.revoked_jtis "" ≡ false
      → Delegates c root leaf
      → resolve_token hash_token (revoke_agent r agent_id at).0 token ≡ some identity
      → identity.agent_id ≡ agent_id
      → (is_none identity.revoked_at ≡ false)
        × (verify (revoke_agent r agent_id at).0 credential now ≢ ok leaf)
  unfolding resolve_token
  revoke_agent-ends agent_id at row root leaf credential now hash_token token identity live there
        live_row no_empty delegates resolved same =
      let mirrors = revoke_agent-mirrors r agent_id at live in
      let after = (revoke_agent r agent_id at).0 in
      let (token_row, found, is) =
        resolved_row (find? (λ row. row.token_hash == hash_token token) after.tokens) identity
          resolved in
      (
        subst (λ (i : TokenIdentity). is_none i.revoked_at ≡ false) is
            (revoked_token (λ row. row.token_hash == hash_token token) agent_id at r.tokens
              token_row
              (subst
                (λ (q : Registry c).
                  find? (λ row. row.token_hash == hash_token token) q.tokens ≡ some token_row)
                (ap (λ (q : Registry c × RevokeResult). q.0)
                  (revoke_agent-writes r agent_id at live))
                found)
              (ap (λ (i : TokenIdentity). i.agent_id) is ∙ same)),
        λ accepted.
            revoke_agent_credentials-ends c (trust_of r) agent_id at row root leaf after.issuer_url
              credential after.ring.verification_keys now there live_row
              (subst (λ t. includes t.revoked_jtis "" ≡ false) mirrors no_empty) delegates
              (subst
                (λ t.
                  CredentialStore.verify c t after.issuer_url credential
                    after.ring.verification_keys now
                  ≡ ok leaf)
                mirrors (sym (verify-mirrors after credential now) ∙ accepted)),
      )
