-- ===== src/Relay/Store/Revocation/KillSwitch.antt =====
-- The kill switch is final for every token of the agent that it names.
use inzo.Prelude.{
  ℕ, ◌≡◌, refl, sym, subst, inl, inr, String, false, List, [], ◌∷◌, map, some, ok, arith,
  attempt-eq-ok, find?, any, ◌==◌, is_none, Option-cases,
}
use inzo.Relay.Audit.{Hashing}
use inzo.Relay.Store.State.{Store, TokenRow}
use inzo.Relay.Store.Revocation.{
  TokenIdentity, Revoked, resolve_token, live_token, revoke_token, eject, revoke_agent,
  revoke_known, revoke_whom,
}

any-revoke_token :
    (agent_id : String) (at : ℕ) (rows : List TokenRow)
    → any (live_token agent_id) (map (revoke_token agent_id at) rows) ≡ false
any-revoke_token agent_id at [] = refl
any-revoke_token agent_id at (row ∷ rows) = ground (arith, any-revoke_token agent_id at rows)

found_dead :
    (agent_id hash : String) (rows : List TokenRow) (row : TokenRow)
    → any (live_token agent_id) rows ≡ false
    → find? (λ r. r.token_hash == hash) rows ≡ some row
    → live_token agent_id row ≡ false
found_dead agent_id hash [] row e f = cc
found_dead agent_id hash (r ∷ rows) row e f = ground (arith, found_dead agent_id hash rows row)

-- Nobody holds a live token of the agent.
abbrev pub IsEjected : Store → String → Type 0
IsEjected s agent_id = any (live_token agent_id) s.tokens ≡ false

revoke_known-IsEjected :
    (h : Hashing) (s t : Store) (pairing_id actor target agent_id : String) (now : ℕ) (r : Revoked)
    → revoke_known h s pairing_id actor target agent_id now ≡ (t, ok r)
    → IsEjected t agent_id × (r.agent_id ≡ agent_id) × (r.by ≡ actor)
unfolding revoke_known eject
revoke_known-IsEjected h s t pairing_id actor target agent_id now r e =
    let all_dead = any-revoke_token agent_id now s.tokens in
    (ground arith, ground arith, ground arith)

revoke_known-again :
    (h : Hashing) (s : Store) (pairing_id actor target agent_id : String) (now : ℕ)
    → IsEjected s agent_id
    → (revoke_known h s pairing_id actor target agent_id now).0 ≡ s
unfolding revoke_known
revoke_known-again h s pairing_id actor target agent_id now e = ground arith

resolve_token-row :
    (hash_token : String → String) (s : Store) (token : String) (identity : TokenIdentity)
    → resolve_token hash_token s token ≡ some identity
    → (row : TokenRow) × (find? (λ r. r.token_hash == hash_token token) s.tokens ≡ some row)
      × (row.agent_id ≡ identity.agent_id)
      × (row.revoked_at ≡ identity.revoked_at)
unfolding resolve_token
resolve_token-row hash_token s token identity e =
    elim (Option-cases (find? (λ r. r.token_hash == hash_token token) s.tokens)) [
      | inl f ↦ absurd (ground arith)
      | inr (row, f) ↦ (row, f, ground arith, ground arith)
    ]

-- A revocation that succeeds leaves no live token of the agent that it reports, so whatever text
-- still resolves to that agent is known to be revoked.
pub revoke_agent-resolve_token :
    (h : Hashing) (hash_token : String → String) (s t : Store)
    (pairing_id actor target token : String) (now : ℕ) (r : Revoked) (identity : TokenIdentity)
    → revoke_agent h s pairing_id actor target now ≡ (t, ok r)
    → resolve_token hash_token t token ≡ some identity
    → identity.agent_id ≡ r.agent_id
    → is_none identity.revoked_at ≡ false
unfolding revoke_agent
revoke_agent-resolve_token h hash_token s t pairing_id actor target token now r identity e found
      same =
    let (agent_id, whom, f) = attempt-eq-ok s t (revoke_whom s pairing_id actor target) _ r e in
    let (ejected, reported, by) =
      revoke_known-IsEjected h s t pairing_id actor target agent_id now r f in
    let (row, there, agent, at) = resolve_token-row hash_token t token identity found in
    let dead = found_dead agent_id (hash_token token) t.tokens row ejected there in ground arith

-- Revoking the same agent again, by whichever member and whatever name, changes nothing in the
-- store: the first time stays on record.
pub revoke_agent-again :
    (h : Hashing) (s t : Store) (pairing_id actor target other other_target : String)
    (now later : ℕ) (r : Revoked)
    → revoke_agent h s pairing_id actor target now ≡ (t, ok r)
    → revoke_whom t pairing_id other other_target ≡ ok r.agent_id
    → (revoke_agent h t pairing_id other other_target later).0 ≡ t
unfolding revoke_agent
revoke_agent-again h s t pairing_id actor target other other_target now later r e whom' =
    let (agent_id, whom, f) = attempt-eq-ok s t (revoke_whom s pairing_id actor target) _ r e in
    let (ejected, reported, by) =
      revoke_known-IsEjected h s t pairing_id actor target agent_id now r f in
    rw whom' (
      revoke_known-again h t pairing_id other other_target r.agent_id later
        (subst (IsEjected t) (sym reported) ejected))
