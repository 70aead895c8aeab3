-- ===== src/Relay/Auth/Once.antt =====
-- A signed request of packages/relay/src/lib/auth.ts is accepted once.
use inzo.Prelude.{
  ℕ, ◌≡◌, ◌≢◌, ◌≤◌, ◌⊎◌, inl, inr, refl, sym, ap, ◌∙◌, subst, String, Bool, true, false, List, [],
  ◌∷◌, Option, none, some, some_eq, ok, arith, Result-cases, if◌then◌else◌,
}
use inzo.Relay.Credential.Interface.{Crypto, stream_proof_window_seconds}
use inzo.Relay.Credential.Issue.{seconds}
use inzo.Relay.Credential.Proof.{ProofReplayGuard, verify_proof, window_of, admit}
use inzo.Relay.Credential.Proof.Replay.{admits, Until, replay_refused}
use inzo.Relay.Store.State.{Store}
use inzo.Relay.Auth.{
  Clock, Request, Texts, AuthContext, presented_credential, token_context, proof_of, signed_payload,
  authenticate, require_auth,
}
use inzo.Relay.Auth.Vouched.{ByCredential, require_auth-eq-ok}

some_ne_none : {A : Type 0} {a : A} → some a ≢ none
some_ne_none e = cc

true_ne_false : true ≢ false
true_ne_false e = cc

proof_window :
    (allow_query : Bool)
    → window_of (if allow_query then some stream_proof_window_seconds else none) ≤ 300
proof_window true = omega arith
proof_window false = omega arith

-- A request with the state of the relay and the readings of the clock.
pub record Call : Type 0 where
  pub allow_query : Bool
  pub store : Store
  pub request : Request
  pub at : Clock

-- In no call has the guard read the clock after a second.
abbrev pub HandledBy : ℕ → List Call → Type 0
HandledBy last [] = Unit {0}
HandledBy last (call ∷ calls) = (seconds call.at.admitted_at ≤ last) × HandledBy last calls

module _ (c : Crypto) (texts : Texts) (issuer_url : String)
    (keys : List (String × c.PublicKey)) where
  -- The guard after a run of requests.
  abbrev pub handle_all : ProofReplayGuard → List Call → ProofReplayGuard
  handle_all g [] = g
  handle_all g (call ∷ calls) =
      handle_all
        (require_auth c texts issuer_url keys call.allow_query call.store call.request g call.at).0
        calls

  -- A request leaves the guard as it is, or shows it one proof.
  authenticate-admits :
      (allow_query : Bool) (s : Store) (r : Request) (found : Option String) (g : ProofReplayGuard)
      (clock : Clock)
      → ((authenticate c texts issuer_url keys allow_query s r found g clock).0 ≡ g)
        ⊎ ((proof : String) × ((authenticate c texts issuer_url keys allow_query s r found g
                clock).0
              ≡ (admit g proof clock.admitted_at).0))
  unfolding authenticate
  authenticate-admits allow_query s r none g clock =
      elim (Result-cases (token_context texts allow_query s r)) [
        | inl (context, e) ↦ inl (rw e refl)
        | inr (e, thrown) ↦ inl (rw thrown refl)
      ]
  authenticate-admits allow_query s r (some credential) g clock =
      elim (Result-cases
        (signed_payload c texts issuer_url keys allow_query s r credential clock)) [
          | inl ((payload, proof), e) ↦ inr (proof, rw e refl)
          | inr (e, thrown) ↦ inl (rw thrown refl)
        ]

  require_auth-admits :
      (call : Call) (g : ProofReplayGuard)
      → ((require_auth c texts issuer_url keys call.allow_query call.store call.request g call.at).0
          ≡ g)
        ⊎ ((proof : String) × ((require_auth c texts issuer_url keys call.allow_query call.store
                call.request g call.at).0
              ≡ (admit g proof call.at.admitted_at).0))
  unfolding require_auth
  require_auth-admits call g =
      authenticate-admits call.allow_query call.store call.request
        (presented_credential call.allow_query call.request) g call.at

  -- A run of requests shows the guard a run of proofs.
  handle_all-admits :
      (g : ProofReplayGuard) (calls : List Call) (last : ℕ)
      → HandledBy last calls
      → (shown : List (String × ℕ)) × Until last shown × (handle_all g calls ≡ admits g shown)
  handle_all-admits g [] last h = ([], tt, refl)
  handle_all-admits g (call ∷ calls) last (on_time, h) =
      let g' =
        (require_auth c texts issuer_url keys call.allow_query call.store call.request g
          call.at).0 in
      let (shown, until, e) = handle_all-admits g' calls last h in
      elim (require_auth-admits call g) [
        | inl same ↦ (shown, until, e ∙ ap (λ k. admits k shown) same)
        | inr (proof, same) ↦ (
          (proof, call.at.admitted_at) ∷ shown,
          (on_time, until),
          e ∙ ap (λ k. admits k shown) same,
        )
      ]

  by_credential :
      (allow_query : Bool) (s : Store) (r : Request) (g g' : ProofReplayGuard) (clock : Clock)
      (context : AuthContext) (credential : String)
      → presented_credential allow_query r ≡ some credential
      → require_auth c texts issuer_url keys allow_query s r g clock ≡ (g', ok context)
      → ByCredential c texts issuer_url keys allow_query s r g g' clock context
  by_credential allow_query s r g g' clock context credential signed accepted =
      elim (require_auth-eq-ok c texts issuer_url keys allow_query s r g g' clock context
        accepted).0 [ inl by ↦ by | inr by ↦ absurd (some_ne_none (sym signed ∙ by.unsigned)) ]

  -- Once a request with a credential has been accepted, the same request, sent again with the same
  -- credential, is never accepted: whatever requests the relay handles in between, and whatever has
  -- become of its tables. The guard has the window of the proofs, the clock does not run back, and the
  -- guard reads it in the second in which the proof sent again was verified.
  pub accepted-once :
      (allow_query : Bool) (s s' : Store) (r : Request) (g g₁ g₂ : ProofReplayGuard)
      (first again : Clock) (context context' : AuthContext) (credential : String)
      (calls : List Call)
      → g.window_seconds ≡ 300
      → presented_credential allow_query r ≡ some credential
      → require_auth c texts issuer_url keys allow_query s r g first ≡ (g₁, ok context)
      → seconds first.proved_at ≤ seconds first.admitted_at
      → HandledBy (seconds again.admitted_at) calls
      → seconds again.admitted_at ≤ seconds again.proved_at
      → require_auth c texts issuer_url keys allow_query s' r (handle_all g₁ calls) again
        ≢ (g₂, ok context')
  accepted-once allow_query s s' r g g₁ g₂ first again context context' credential calls window
        signed accepted in_order calls_between same_second again_accepted =
      let a = by_credential allow_query s r g g₁ first context credential signed accepted in
      let b =
        by_credential allow_query s' r (handle_all g₁ calls) g₂ again context' credential signed
          again_accepted in
      let (shown, until, run) =
        handle_all-admits g₁ calls (seconds again.admitted_at) calls_between in
      let same_proof = some_eq (sym b.given ∙ a.given) in
      let same_time = some_eq (sym b.dated ∙ a.dated) in
      let within =
        subst (λ w. window_of (if allow_query then some stream_proof_window_seconds else none) ≤ w)
          (sym window) (proof_window allow_query) in
      let refused =
        replay_refused c g
          (proof_of c texts issuer_url keys allow_query r a.payload first.proved_at)
          (proof_of c texts issuer_url keys allow_query r b.payload again.proved_at) a.proof
          a.timestamp first.admitted_at again.admitted_at shown a.proved
          (subst
            (λ ts.
              verify_proof c
                (proof_of c texts issuer_url keys allow_query r b.payload again.proved_at)
              ≡ ok ts)
            same_time b.proved)
          within within a.first_use in_order until same_second in
      let shown_again =
        subst (λ k. (admit k a.proof again.admitted_at).1 ≡ true)
          (run ∙ ap (λ k. admits k shown) (sym a.remembered))
          (subst (λ p. (admit (handle_all g₁ calls) p again.admitted_at).1 ≡ true) same_proof
            b.first_use) in
      true_ne_false (sym shown_again ∙ refused)
