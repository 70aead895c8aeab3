-- ===== src/Relay/Tests/Credentials.antt =====
-- Examples for lib/scopes.ts and lib/credential.ts.
use inzo.Prelude.{
  ◌*◌, ◌/◌, ◌+◌, ltb, ◌≢◌, ℕ, ◌≡◌, refl, String, true, [], ◌∷◌, Option, none, some, ok, includes,
  ==_refl, string_dec, arith,
}
use inzo.Prelude.Int.{pos}
use inzo.Relay.Scopes.{all_scopes, narrowed_scope}
use inzo.Relay.Scopes.Narrowing.{narrowed_scope-eq-ok, requested_texts}
use inzo.Relay.Credential.Interface.{CredentialPayload, ticks}
use inzo.Prelude.Int.{pos_part}
use inzo.Relay.Credential.Issue.{
  seconds, child_ttl, IssueInput, Issued, attenuate, issue_credential, sealed, signing_input,
}
use inzo.Relay.Credential.Issue.Attenuation.{IsChild, attenuate-IsChild}
use inzo.Relay.Credential.Verify.{VerifyOptions, verify_credential, find_key}
use inzo.Relay.Credential.Verify.Revocation.{
  IsCurrent, verify_credential-IsCurrent, verify_credential-revoked,
}
use inzo.Relay.Credential.Verify.Delegation.{Delegates, here, next, Descends, Delegates-Descends}
use inzo.Relay.Credential.Verify.RoundTrip.{issue_credential-verifies}
use inzo.Relay.Credential.Proof.{ProofInput}
use inzo.Relay.Tests.{holder, root, demo, key, keys, reading, child, child_issued}

narrowed_scope-eq-ok_example :
    (includes ("messages:read" ∷ []) "plan:approve"
      ≡ includes (requested_texts reading) "plan:approve")
    × (includes ("messages:read" ∷ []) "plan:approve" ≡ true
        → includes all_scopes "plan:approve" ≡ true)
unfolding narrowed_scope string_dec
narrowed_scope-eq-ok_example =
    narrowed_scope-eq-ok reading all_scopes ("messages:read" ∷ []) "plan:approve" refl

attenuate-IsChild_example : IsChild root child 5000
unfolding attenuate issue_credential string_dec
attenuate-IsChild_example =
    attenuate-IsChild demo key root reading holder none 5000 "child" child_issued refl

-- A parent with half a second left: its child gets a whole second.
abbrev ending : CredentialPayload
ending = record root { exp = 6 * ticks + ticks / 2 }

living_parent_outlived :
    (ltb (seconds 6000 * ticks) ending.exp ≡ true)
    × (ltb ending.exp (seconds 6000 * ticks + pos_part (child_ttl ending none 6000)) ≡ true)
living_parent_outlived = (refl, refl)

abbrev delegated : Delegates demo root child
unfolding attenuate issue_credential string_dec
delegated = next here key reading holder none 5000 "child" child_issued refl

Delegates-Descends_example : Descends demo delegated
Delegates-Descends_example = Delegates-Descends demo delegated

abbrev options : VerifyOptions
options = record { now = 30000; revoked = []; expected_issuer = some "https://relay" }

verify_credential-IsCurrent_example :
    (demo.decode_payload "p" ≡ some root)
    × ((kid : Option String) × (k : String) × (find_key demo kid keys ≡ some k)
        × (demo.verify k (signing_input "h" "p") "skh.p" ≡ true))
    × IsCurrent root options
unfolding verify_credential inzo.Relay.Credential.Verify.check_payload string_dec
verify_credential-IsCurrent_example =
    verify_credential-IsCurrent demo "h" "p" "skh.p" keys options root refl

verify_credential-revoked_example :
    verify_credential demo
      ("h" ∷ "p" ∷ "skh.p" ∷ [])
      keys
      (record options { revoked = "root" ∷ [] })
    ≢ ok child
unfolding string_dec
verify_credential-revoked_example =
    verify_credential-revoked demo ("h" ∷ "p" ∷ "skh.p" ∷ []) keys
      (record options { revoked = "root" ∷ [] }) root child delegated refl refl

abbrev first_input : IssueInput
first_input = record {
  issuer = "https://relay";
  agent_id = "agt_1";
  principal_id = "prn_1";
  pairing_id = none;
  cap = all_scopes;
  cnf = holder;
  chain = [];
  depth = 0;
  ttl_seconds = none;
  now = 0;
}

abbrev root_issued : Issued
root_issued = record { credential = sealed demo key root; payload = root }

issue_credential-verifies_example :
    verify_credential demo root_issued.credential keys options ≡ ok root
unfolding issue_credential string_dec
issue_credential-verifies_example =
    issue_credential-verifies demo key root refl refl (λ m. ==_refl (demo.sign "sk" m)) first_input
      "root" root_issued keys options refl refl refl (omega arith) refl refl (omega arith)
      (omega arith) refl refl

abbrev request : (now : ℕ) → ProofInput
request now = record {
  payload = root;
  proof = some "kPOST\n/pairings\nroot\n1\nh\nn";
  timestamp = some (pos 1);
  method = "POST";
  path = "/pairings";
  body_hash = "h";
  nonce = "n";
  now = now;
  window_seconds = none;
}
