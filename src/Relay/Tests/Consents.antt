-- ===== src/Relay/Tests/Consents.antt =====
-- Examples for lib/consent.ts, lib/audit.ts and lib/credentialStore.ts.
use inzo.Prelude.{
  ◌≡◌, ◌≢◌, ◌⊎◌, refl, String, true, false, List, [], ◌∷◌, none, some, ok, string_dec,
  if◌then◌else◌, ltb, all,
}
use inzo.Prelude.Json.{str, null}
use inzo.Relay.Credential.Interface.{Jwk}
use inzo.Relay.Credential.Verify.Delegation.{here}
use inzo.Relay.Consent.{
  ConsentRecord, ConsentSubject, Approval, ApproveInput, pop, open_consent, approve,
  verify_consent_record, is_satisfied, verify_approval_signature, consent_statement,
}
use inzo.Relay.Consent.Invariant.{IsConsistent}
use inzo.Relay.Consent.Evidence.{
  Life, opened, approved, Life-IsConsistent, HasEvidence, Life-HasEvidence,
}
use inzo.Relay.Consent.Verified.{verify_consent_record-agrees}
use inzo.Relay.Audit.{
  AuditRecord, AuditActor, AppendInput, append, verify, verify_records, prune, of_pairing,
}
use inzo.Relay.Audit.Chain.{Logged, empty, appended, verify-Logged}
use inzo.Relay.Audit.Tamper.{Collision, verify_records-commits}
use inzo.Relay.Audit.Retention.{of_pairing-prune}
use inzo.Relay.CredentialStore.{CredentialStore, CredentialRow, persist, revoke_agent_credentials}
use inzo.Relay.CredentialStore
use inzo.Relay.CredentialStore.Revoking.{revoke_agent_credentials-ends}
use inzo.Relay.Tests.{holder, root, demo, keys, hashing}

abbrev subject : ConsentSubject
subject = record { version = 1; hash = "sha256:a" }

abbrev holders : List (String × Jwk)
holders = ("root", holder) ∷ []

abbrev approving : ApproveInput
approving = record {
  pairing_id = "p1";
  payload = root;
  assurance = pop;
  signature = str "kinzo-consent-v3\np1\nplan\n1\nsha256:a";
}

abbrev fresh_record : ConsentRecord
fresh_record = record {
  pairing_id = "p1";
  subject = subject;
  required = "prn_1" ∷ [];
  approvals = [];
  satisfied = false;
  created_at = 0;
  updated_at = 0;
}

abbrev approval : Approval
approval = record {
  principal = "prn_1";
  credential = "root";
  at = 5;
  signature = "kinzo-consent-v3\np1\nplan\n1\nsha256:a";
}

abbrev approved_record : ConsentRecord
approved_record = record fresh_record {
  approvals = approval ∷ [];
  satisfied = true;
  updated_at = 5;
}

abbrev life : Life demo holders approved_record
unfolding approve open_consent is_satisfied verify_approval_signature consent_statement string_dec
life = approved (opened "p1" subject ("prn_1" ∷ []) 0) approving 5 approved_record refl refl refl

Life-IsConsistent_example : IsConsistent approved_record
Life-IsConsistent_example = Life-IsConsistent demo holders life

Life-HasEvidence_example : HasEvidence demo holders approved_record
Life-HasEvidence_example = Life-HasEvidence demo holders life

verify_consent_record-agrees_example :
    ((verify_consent_record demo approved_record holders).valid ≡ true)
    × ((verify_consent_record demo approved_record holders).satisfied ≡ true)
verify_consent_record-agrees_example =
    verify_consent_record-agrees demo holders approved_record life (λ e. cc)

abbrev actor : AuditActor
actor = record { principal = none; agent = some "agt_1"; credential = none }

abbrev entry : AppendInput
entry = record {
  pairing_id = "p1";
  action = "pairing.created";
  actor = actor;
  assurance = pop;
  detail = null;
}

abbrev log : List AuditRecord
log = (append hashing [] entry 10).0

abbrev logged : Logged hashing log
logged = appended empty entry 10

verify-Logged_example :
    ((verify hashing log "p1").valid ≡ true) × ((verify hashing log "p1").broken_at ≡ none)
verify-Logged_example = verify-Logged hashing "p1" logged

abbrev entry_hash : String
entry_hash =
    "sha256:sha256:0000000000000000000000000000000000000000000000000000000000000000pairing.created"

-- The same log with another date, which this hash does not see.
abbrev forged : List AuditRecord
forged = (append hashing [] entry 20).0

verify_records-commits_example : (log ≡ forged) ⊎ Collision hashing
unfolding append inzo.Relay.Audit.hash_record string_dec inzo.Relay.Audit.head
verify_records-commits_example = verify_records-commits hashing log forged entry_hash refl refl

of_pairing-prune_example :
    of_pairing "p1" (prune log 1 86_400_020).0
    ≡ (if all (λ r. ltb r.at 20) (of_pairing "p1" log) then [] else of_pairing "p1" log)
of_pairing-prune_example = of_pairing-prune log 1 86_400_020 "p1"

abbrev credentials : CredentialStore
credentials = record {
  principals = [];
  credentials = CredentialStore.credential_row root ∷ [];
  revoked_jtis = [];
  consents = [];
  audit = [];
}

revoke_agent_credentials-ends_example :
    CredentialStore.verify demo
      (revoke_agent_credentials credentials "agt_1" 40000).0
      "https://relay"
      ("h" ∷ "p" ∷ "skh.p" ∷ [])
      keys
      50000
    ≢ ok root
unfolding revoke_agent_credentials string_dec
revoke_agent_credentials-ends_example =
    revoke_agent_credentials-ends demo credentials "agt_1" 40000
      (CredentialStore.credential_row root) root root "https://relay" ("h" ∷ "p" ∷ "skh.p" ∷ [])
      keys 50000 refl refl refl here
