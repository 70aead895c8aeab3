-- ===== src/Relay/Store/Plans/Votes.antt =====
-- What `approvePlan` of packages/relay/src/lib/store.ts writes when the signed part is refused.
use inzo.Prelude.{
  ℕ, ◌≡◌, ◌∙◌, refl, String, map, Option, none, some, Result, ok, err, attempt, guard,
}
use inzo.Relay.Errors.{Error, subject_hash_mismatch}
use inzo.Relay.Credential.Interface.{Crypto}
use inzo.Relay.CredentialStore
use inzo.Relay.CredentialStore.{CredentialStore, get_consent}
use inzo.Relay.Store.State.{Store, Plan}
use inzo.Relay.Store.Plans.{
  PlanHashing, ConsentInput, Approving, plan_subject_hash, hash_matches, update_plan,
  approve_consent, approve_commit,
}

attempt-plans :
    {A B : Type 0} (s : Store) (r : Result Error A) (f : A → Store × Result Error B)
    → ((a : A) → (f a).0.plans ≡ s.plans)
    → (attempt s r f).0.plans ≡ s.plans
attempt-plans s (ok a) f h = h a
attempt-plans s (err e) f h = refl

module _ (c : Crypto) (ph : PlanHashing) where
  approve_consent-plans :
      (s : Store) (p : String) (plan : Plan) (input : ConsentInput) (now : ℕ)
      → (approve_consent c ph s p plan input now).0.plans ≡ s.plans
  approve_consent-plans s p plan input now =
      attempt-plans s
        (guard (hash_matches c ph (get_consent s.trust p) (plan_subject_hash ph plan))
          subject_hash_mismatch)
        _
        (λ _.
          attempt-plans s
            (CredentialStore.approve c s.trust
              (record {
                pairing_id = p;
                payload = input.payload;
                assurance = input.assurance;
                signature = input.signature;
              })
              now)
            _ (λ _. refl))

  -- Once an approval has come to its writes, the vote and the lock are stored, whether there is a
  -- signed part or not and whatever becomes of it: an approval refused with an error for its
  -- signature or its subject hash has been counted like any other.
  pub approve_commit-plans :
      (s : Store) (p : String) (a : Approving) (consent : Option ConsentInput) (now : ℕ)
      → (approve_commit c ph s p a consent now).0.plans
        ≡ map (update_plan p a.approved_by a.locked now a.sandbox_state) s.plans
  unfolding approve_commit
  approve_commit-plans s p a none now = refl
  approve_commit-plans s p a (some input) now =
      let written : Store = record s {
        plans = map (update_plan p a.approved_by a.locked now a.sandbox_state) s.plans;
      } in
      let plan : Plan = record a.row {
        approved_by = a.approved_by;
        locked = a.locked;
        updated_at = now;
        sandbox_state = a.sandbox_state;
      } in
      let signed = approve_consent c ph written p plan input now in
      attempt-plans signed.0 signed.1 _ (λ r. refl) ∙ approve_consent-plans written p plan input now
