-- ===== src/Relay/Auth/Vouched.antt =====
-- Who a request of packages/relay/src/lib/auth.ts is taken for, and on what evidence.
use inzo.Prelude.{
  ℕ, ◌≤◌, sym, leb→le, ◌≡◌, ◌≢◌, ◌⊎◌, inl, inr, some_eq, refl, ap, ◌∙◌, subst, String, Bool, true,
  false, not, List, [], ◌∷◌, Option, none, some, Result, ok, err, arith, attempt-eq-ok, guard-eq-ok,
  or_throw-eq-ok, >>=-eq-ok, ok-injective, any, includes, is_none, if◌then◌else◌,
}
use inzo.Prelude.Int.{ℤ}
use inzo.Relay.Errors.{
  Error, unauthenticated, revoked, identity_not_allowed, forbidden, proof_invalid, proof_replayed,
}
use inzo.Relay.Credential.Interface.{Crypto, CredentialPayload, stream_proof_window_seconds}
use inzo.Relay.Credential.Issue.{seconds}
use inzo.Relay.Credential.Verify.{VerifyOptions, verify_credential}
use inzo.Relay.Credential.Verify.Revocation.{IsCurrent, verify_credential-IsCurrent}
use inzo.Relay.Consent.{pop, bearer}
use inzo.Relay.CredentialStore.{agent_principal}
use inzo.Relay.Credential.Proof.{
  ProofInput, ProofReplayGuard, distance, window_of, proof_input, join_lines, verify_proof, admit,
}
use inzo.Relay.CredentialStore
use inzo.Relay.Store.State.{Store, pairing_for_agent}
use inzo.Relay.Store.Revocation.{TokenIdentity, resolve_token}
use inzo.Relay.Auth.{
  Clock, or_else, or_query, text_or_empty, parsed, Request, Texts, AuthContext, identity_fields,
  presented_credential, presented_proof, presented_token, rethrow, proof_error,
  credential_error_to_relay_error, pairing_matches, check_request, pop_context, bearer_context,
  token_context, proof_of, signed_payload, authenticate, require_auth,
}

pub rethrow-eq-ok :
    {A : Type 0} (f : Error → Error) (r : Result Error A) {a : A} → rethrow f r ≡ ok a → r ≡ ok a
rethrow-eq-ok f (ok a) h = h
rethrow-eq-ok f (err e) h = cc

any-includes :
    (names wanted : List String) (name : String)
    → any (includes names) wanted ≡ false
    → includes wanted name ≡ true
    → includes names name ≡ false
any-includes names [] name h m = cc
any-includes names (w ∷ wanted) name h m = ground (arith, any-includes names wanted name)

-- What the last checks have found: the body says nothing of who sends it, and the context is bound
-- to the pairing in the path.
pub record Fitting (r : Request) (context : AuthContext) : Type 0 where
  pub silent :
      (name : String) → includes identity_fields name ≡ true → includes r.body_names name ≡ false
  pub bound : (id : String) → r.pairing_param ≡ some id → id ≢ "" → context.pairing_id ≡ some id

if-eq-ok :
    {A : Type 0} (test : Bool) (r : Result Error A) (e : Error) {a : A}
    → (if test then r else err e) ≡ ok a
    → (test ≡ true) × (r ≡ ok a)
if-eq-ok true r e h = (refl, h)
if-eq-ok false r e h = cc

matches-bound :
    (asked own : Option String) (id : String)
    → pairing_matches asked own ≡ true
    → asked ≡ some id
    → id ≢ ""
    → own ≡ some id
matches-bound none own id h e ne = cc
matches-bound (some a) none id h e ne = ground arith
matches-bound (some a) (some p) id h e ne =
    let same : a ≡ id = some_eq e in let equal : p ≡ id = ground arith in ap some equal

pub check_request-Fitting :
    (r : Request) (context context' : AuthContext)
    → check_request r context ≡ ok context'
    → (context ≡ context') × Fitting r context
unfolding check_request
check_request-Fitting r context context' h =
    let (quiet, h₁) =
      guard-eq-ok (not (any (includes r.body_names) identity_fields)) identity_not_allowed _ h in
    let (fits, h₂) =
      guard-eq-ok (pairing_matches r.pairing_param context.pairing_id) forbidden _ h₁ in
    (
      ok-injective h₂,
      record {
        silent = λ name m. any-includes r.body_names identity_fields name (ground arith) m;
        bound = λ id e ne. matches-bound r.pairing_param context.pairing_id id fits e ne;
      },
    )

verify-IsCurrent :
    (c : Crypto) (parts : List String) (keys : List (String × c.PublicKey))
    (options : VerifyOptions) (payload : CredentialPayload)
    → verify_credential c parts keys options ≡ ok payload
    → IsCurrent payload options
unfolding verify_credential
verify-IsCurrent c (p0 ∷ p1 ∷ p2 ∷ []) keys options payload h =
    (verify_credential-IsCurrent c p0 p1 p2 keys options payload h).2
verify-IsCurrent c _ keys options payload h = cc

-- What a verified proof is: the holder's signature over this method, path, credential, time, body and
-- nonce, at a time near the clock.
pub verify_proof-eq-ok :
    (c : Crypto) (input : ProofInput) (proof : String) (ts : ℤ)
    → input.proof ≡ some proof
    → verify_proof c input ≡ ok ts
    → (input.timestamp ≡ some ts)
      × (distance (seconds input.now) ts ≤ window_of input.window_seconds)
      × ((holder : c.PublicKey) × (c.from_jwk input.payload.cnf ≡ some holder)
          × (c.verify holder
                (join_lines (
                  c.to_upper_case input.method
                  ∷ input.path
                  ∷ input.payload.jti
                  ∷ c.show_number ts
                  ∷ input.body_hash
                  ∷ input.nonce
                  ∷ []))
                proof
              ≡ true))
unfolding verify_proof proof_input
verify_proof-eq-ok c input proof ts given h =
    let (p, there, h₁) = or_throw-eq-ok input.proof _ _ h in
    let (t, dated, h₂) = or_throw-eq-ok input.timestamp _ _ h₁ in
    let (near, h₃) = guard-eq-ok _ _ _ h₂ in
    let (holder, parsed, h₄) = or_throw-eq-ok (c.from_jwk input.payload.cnf) _ _ h₃ in
    let (signed, h₅) = guard-eq-ok _ _ _ h₄ in
    let same_time : t ≡ ts = ok-injective h₅ in
    let same_proof : p ≡ proof = some_eq (sym there ∙ given) in
    let text : ℤ → String = λ k. join_lines (
      c.to_upper_case input.method
      ∷ input.path
      ∷ input.payload.jti
      ∷ c.show_number k
      ∷ input.body_hash
      ∷ input.nonce
      ∷ []) in
    (
      dated ∙ ap some same_time,
      subst (λ u. distance (seconds input.now) u ≤ window_of input.window_seconds) same_time
          (leb→le _ _ near),
      (
        holder,
        parsed,
        subst (λ k. c.verify holder (text k) proof ≡ true) same_time
            (subst (λ q. c.verify holder (text t) q ≡ true) same_proof signed),
      ),
    )

window_lem :
    (allow_query : Bool) (d : ℕ)
    → d ≤ window_of (if allow_query then some stream_proof_window_seconds else none)
    → d ≤ (if allow_query then 60 else 300)
window_lem true d h = h
window_lem false d h = h

or_else-some : {A : Type 0} (a b : Option A) (x : A) → a ≡ some x → or_else a b ≡ some x
or_else-some none b x h = cc
or_else-some (some a) b x h = h

or_else-none : {A : Type 0} (a b : Option A) → a ≡ none → or_else a b ≡ b
or_else-none none b h = refl
or_else-none (some a) b h = cc

module _ (c : Crypto) (texts : Texts) (issuer_url : String)
    (keys : List (String × c.PublicKey)) where
  -- A credential that verifies, is current and is not revoked; the signature of its holder over this
  -- very request, made near the time of the clock and presented for the first time; and the context
  -- is what that credential says.
  pub record ByCredential (allow_query : Bool) (s : Store) (r : Request) (g g' : ProofReplayGuard)
      (clock : Clock) (context : AuthContext) : Type 0 where
    pub credential : String
    pub payload : CredentialPayload
    pub proof : String
    pub timestamp : ℤ
    pub holder : c.PublicKey
    pub presented : presented_credential allow_query r ≡ some credential
    pub verified :
        CredentialStore.verify c s.trust issuer_url
          (texts.split_dots credential)
          keys
          clock.verified_at
        ≡ ok payload
    pub current : IsCurrent payload (record {
      now = clock.verified_at;
      revoked = s.trust.revoked_jtis;
      expected_issuer = some issuer_url;
    })
    pub proved :
        verify_proof c (proof_of c texts issuer_url keys allow_query r payload clock.proved_at)
        ≡ ok timestamp
    pub given : presented_proof allow_query r ≡ some proof
    pub dated :
        parsed texts.to_number (or_query allow_query r.header_proof_at r.query_proof_at)
        ≡ some timestamp
    pub near : distance (seconds clock.proved_at) timestamp ≤ (if allow_query then 60 else 300)
    pub holder_key : c.from_jwk payload.cnf ≡ some holder
    pub signed :
        c.verify holder
          (join_lines (
            c.to_upper_case r.method
            ∷ r.path
            ∷ payload.jti
            ∷ c.show_number timestamp
            ∷ r.body_hash
            ∷ text_or_empty (or_query allow_query r.header_proof_nonce r.query_proof_nonce)
            ∷ []))
          proof
        ≡ true
    pub first_use : (admit g proof clock.admitted_at).1 ≡ true
    pub remembered : (admit g proof clock.admitted_at).0 ≡ g'
    pub agent : context.agent_id ≡ payload.sub
    pub capabilities : context.scope ≡ payload.cap
    pub principal : context.principal_id ≡ some payload.prn
    pub proven : context.assurance ≡ pop
    pub live : context.revoked_at ≡ none
    pub own_pairing : (id : String) → payload.pairing ≡ some id → context.pairing_id ≡ some id
    pub bound_pairing :
        payload.pairing ≡ none → context.pairing_id ≡ pairing_for_agent s payload.sub
    pub carried : context.credential ≡ some (record payload { pairing = context.pairing_id })

  -- A token of the table that is not revoked, and the context is what its row says.
  pub record ByToken (allow_query : Bool) (s : Store) (r : Request) (context : AuthContext)
      : Type 0 where
    pub token : String
    pub identity : TokenIdentity
    pub unsigned : presented_credential allow_query r ≡ none
    pub presented : presented_token allow_query r ≡ some token
    pub resolved : resolve_token texts.hash_token s token ≡ some identity
    pub live : identity.revoked_at ≡ none
    pub agent : context.agent_id ≡ identity.agent_id
    pub capabilities : context.scope ≡ identity.scope
    pub pairing : context.pairing_id ≡ identity.pairing_id
    pub principal : context.principal_id ≡ agent_principal s.trust identity.agent_id
    pub unproven : context.assurance ≡ bearer
    pub uncarried : context.credential ≡ none

  signed_payload-eq-ok :
      (allow_query : Bool) (s : Store) (r : Request) (credential : String) (clock : Clock)
      (payload : CredentialPayload) (proof : String)
      → signed_payload c texts issuer_url keys allow_query s r credential clock
        ≡ ok (payload, proof)
      → (timestamp : ℤ) × (CredentialStore.verify c s.trust issuer_url
            (texts.split_dots credential)
            keys
            clock.verified_at
          ≡ ok payload)
        × (verify_proof c (proof_of c texts issuer_url keys allow_query r payload clock.proved_at)
            ≡ ok timestamp)
        × (presented_proof allow_query r ≡ some proof)
  unfolding signed_payload
  signed_payload-eq-ok allow_query s r credential clock payload proof h =
      let (found, there, h₁) =
        >>=-eq-ok
          (rethrow credential_error_to_relay_error (
            CredentialStore.verify c s.trust issuer_url (texts.split_dots credential) keys
              clock.verified_at))
          _ h in
      let (timestamp, dated, h₂) =
        >>=-eq-ok
          (rethrow proof_error
            (verify_proof c (proof_of c texts issuer_url keys allow_query r found clock.proved_at)))
          _ h₁ in
      let (p, given, h₃) = or_throw-eq-ok (presented_proof allow_query r) proof_invalid _ h₂ in
      let same = ok-injective h₃ in
      let same_payload : found ≡ payload = ap (λ (q : CredentialPayload × String). q.0) same in
      let same_proof : p ≡ proof = ap (λ (q : CredentialPayload × String). q.1) same in
      (
        timestamp,
        rethrow-eq-ok credential_error_to_relay_error _ there ∙ ap ok same_payload,
        subst
            (λ q.
              verify_proof c (proof_of c texts issuer_url keys allow_query r q clock.proved_at)
              ≡ ok timestamp)
            same_payload (rethrow-eq-ok proof_error _ dated),
        given ∙ ap some same_proof,
      )

  token_context-eq-ok :
      (allow_query : Bool) (s : Store) (r : Request) (context : AuthContext)
      → presented_credential allow_query r ≡ none
      → token_context texts allow_query s r ≡ ok context
      → ByToken allow_query s r context
  unfolding token_context
  token_context-eq-ok allow_query s r context unsigned h =
      let (token, presented, h₁) =
        or_throw-eq-ok (presented_token allow_query r) unauthenticated _ h in
      let (identity, resolved, h₂) =
        or_throw-eq-ok (resolve_token texts.hash_token s token) unauthenticated _ h₁ in
      let (live, h₃) = guard-eq-ok (is_none identity.revoked_at) revoked _ h₂ in
      let same : bearer_context s identity ≡ context = ok-injective h₃ in
      record {
        token = token;
        identity = identity;
        unsigned = unsigned;
        presented = presented;
        resolved = resolved;
        live = none_of identity.revoked_at live;
        agent = ap (λ (q : AuthContext). q.agent_id) (sym same);
        capabilities = ap (λ (q : AuthContext). q.scope) (sym same);
        pairing = ap (λ (q : AuthContext). q.pairing_id) (sym same);
        principal = ap (λ (q : AuthContext). q.principal_id) (sym same);
        unproven = ap (λ (q : AuthContext). q.assurance) (sym same);
        uncarried = ap (λ (q : AuthContext). q.credential) (sym same);
      }
    where
      none_of : (o : Option ℕ) → is_none o ≡ true → o ≡ none
      none_of none e = refl
      none_of (some n) e = cc

  authenticate-eq-ok :
      (allow_query : Bool) (s : Store) (r : Request) (found : Option String)
      (g g' : ProofReplayGuard) (clock : Clock) (context : AuthContext)
      → presented_credential allow_query r ≡ found
      → authenticate c texts issuer_url keys allow_query s r found g clock ≡ (g', ok context)
      → (ByCredential allow_query s r g g' clock context ⊎ ByToken allow_query s r context)
        × Fitting r context
  unfolding authenticate CredentialStore.verify
  authenticate-eq-ok allow_query s r none g g' clock context e h =
      let (made, by, h₁) = attempt-eq-ok g g' (token_context texts allow_query s r) _ context h in
      let (same, fits) = check_request-Fitting r made context (ap (λ q. q.1) h₁) in
      let named = subst (λ q. token_context texts allow_query s r ≡ ok q) same by in
      (inr (token_context-eq-ok allow_query s r context e named), subst (Fitting r) same fits)
  authenticate-eq-ok allow_query s r (some credential) g g' clock context e h =
      let ((payload, proof), by, h₁) =
        attempt-eq-ok g g' (signed_payload c texts issuer_url keys allow_query s r credential clock)
          _ context h in
      let (timestamp, verified, proved, given) =
        signed_payload-eq-ok allow_query s r credential clock payload proof by in
      let (dated, within, (holder, holder_key, signed)) =
        verify_proof-eq-ok c
          (proof_of c texts issuer_url keys allow_query r payload clock.proved_at) proof timestamp
          given proved in
      let near : distance (seconds clock.proved_at) timestamp ≤ (if allow_query then 60 else 300) =
        window_lem allow_query _ within in
      let (fresh, h₂) =
        if-eq-ok (admit g proof clock.admitted_at).1 (check_request r (pop_context s payload))
          proof_replayed (ap (λ q. q.1) h₁) in
      let (same, fits) = check_request-Fitting r (pop_context s payload) context h₂ in
      (
        inl (record {
          credential = credential;
          payload = payload;
          proof = proof;
          timestamp = timestamp;
          presented = e;
          verified = verified;
          current = verify-IsCurrent c (texts.split_dots credential) keys _ payload verified;
          proved = proved;
          given = given;
          dated = dated;
          near = near;
          holder = holder;
          holder_key = holder_key;
          signed = signed;
          first_use = fresh;
          remembered = ap (λ q. q.0) h₁;
          agent = ap (λ (q : AuthContext). q.agent_id) (sym same);
          capabilities = ap (λ (q : AuthContext). q.scope) (sym same);
          principal = ap (λ (q : AuthContext). q.principal_id) (sym same);
          proven = ap (λ (q : AuthContext). q.assurance) (sym same);
          live = ap (λ (q : AuthContext). q.revoked_at) (sym same);
          own_pairing = λ id e.
              ap (λ (q : AuthContext). q.pairing_id) (sym same)
              ∙ or_else-some payload.pairing _ id e;
          bound_pairing = λ e.
              ap (λ (q : AuthContext). q.pairing_id) (sym same) ∙ or_else-none payload.pairing _ e;
          carried =
              subst
                (λ (q : AuthContext).
                  q.credential ≡ some (record payload { pairing = q.pairing_id }))
                same refl;
        }),
        subst (Fitting r) same fits,
      )

  -- A request is accepted only with a credential that verifies, is current and is not revoked, and a
  -- proof that is presented for the first time: the signature of the credential's holder over this
  -- method, path, credential, time, body and nonce, at a time at most 300 seconds (60 for a stream)
  -- from the clock. The context is then the agent, the principal and the capabilities of that
  -- credential, with its pairing or else the one that the agent is in. Or, without a credential, with
  -- a token of the table that is not revoked, and then with the agent, the capabilities and the
  -- pairing of its row. The body names nobody, and the pairing in the path is the context's.
  pub require_auth-eq-ok :
      (allow_query : Bool) (s : Store) (r : Request) (g g' : ProofReplayGuard) (clock : Clock)
      (context : AuthContext)
      → require_auth c texts issuer_url keys allow_query s r g clock ≡ (g', ok context)
      → (ByCredential allow_query s r g g' clock context ⊎ ByToken allow_query s r context)
        × Fitting r context
  unfolding require_auth
  require_auth-eq-ok allow_query s r g g' clock context h =
      authenticate-eq-ok allow_query s r (presented_credential allow_query r) g g' clock context
        refl h
