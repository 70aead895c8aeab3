-- ===== src/Cloud/Registry/Tests.antt =====
-- Examples for packages/relay-cf/src/registry.ts: an agent with one credential, one token and one
-- open code.
use inzo.Prelude.{◌≡◌, ◌≢◌, refl, true, false, [], ◌∷◌, none, some, ok, string_dec, is_none}
use inzo.Relay.Scopes.{all_scopes}
use inzo.Relay.RateLimit.{fresh_limiter}
use inzo.Relay.Credential.Verify.Delegation.{here}
use inzo.Relay.CredentialStore.{credential_row}
use inzo.Relay.Store.Codes.{Fresh, token_row}
use inzo.Relay.Store.Revocation.{TokenIdentity}
use inzo.Relay.Tests.{demo, root, key, keys}
use inzo.Cloud.Registry.{
  Registry, is_agent_revoked, issue_root, attenuate_from, verify, bind_pairing, revoke_agent,
}
use inzo.Cloud.Registry.Codes.{code_row, create_invite_code}
use inzo.Cloud.Registry.Joining.{JoinedPairing, join_pairing}
use inzo.Cloud.Registry.Joining.Used.{now_on, invites, join_pairing-consumes}
use inzo.Cloud.Registry.Revoking.{revoke_agent-ends}

abbrev registry : Registry demo
registry = record {
  issuer_url = "https://relay";
  ring = record { rows = []; active = key; verification_keys = keys };
  principals = "prn_1" ∷ [];
  credentials = credential_row root ∷ [];
  tokens = token_row "t1" "agt_1" none 0 ∷ [];
  codes = code_row "c1" "agt_1" none 0 ∷ [];
  revoked_jtis = [];
  limiter = fresh_limiter 10 600000;
}

abbrev identity : TokenIdentity
identity = record {
  agent_id = "agt_1";
  pairing_id = none;
  scope = all_scopes;
  revoked_at = some 40000;
}

revoke_agent-ends_example :
    (is_none identity.revoked_at ≡ false)
    × (verify (revoke_agent registry "agt_1" 40000).0 ("h" ∷ "p" ∷ "skh.p" ∷ []) 50000 ≢ ok root)
unfolding revoke_agent is_agent_revoked inzo.Cloud.Registry.resolve_token string_dec
revoke_agent-ends_example =
    revoke_agent-ends registry "agt_1" 40000 (credential_row root) root root
      ("h" ∷ "p" ∷ "skh.p" ∷ []) 50000 (λ s. s) "t1" identity refl refl refl refl here refl refl

abbrev fresh : Fresh
fresh = record {
  agent_id = "agt_2";
  token_hash = "t2";
  pairing_id = "p1";
  principal_id = "prn_2";
  jti = "j2";
}

abbrev joined : JoinedPairing
joined = record {
  pairing_id = "p1";
  agent_a = "agt_1";
  agent_b = "agt_2";
  issued = none;
  is_new_pairing = true;
}

abbrev paired : Registry demo
paired = (join_pairing registry "c1" none "1.2.3.4" fresh 1000).0

abbrev again : Registry demo
again = (create_invite_code paired "p1" "agt_1" ("c2" ∷ []) 1500).0

join_pairing-consumes_example :
    join_pairing again "c1" none "5.6.7.8" fresh 2000 ≢ (registry, ok joined)
unfolding join_pairing string_dec inzo.Relay.RateLimit.is_limited inzo.Relay.RateLimit.recent
    inzo.Cloud.Registry.Joining.usable_code inzo.Cloud.Registry.Joining.join_as
    inzo.Cloud.Registry.Codes.issue_for
join_pairing-consumes_example =
    join_pairing-consumes registry paired again registry "c1" none none "1.2.3.4" "5.6.7.8" fresh
      fresh 1000 2000 joined joined refl (invites now_on "p1" "agt_1" ("c2" ∷ []) 1500)
