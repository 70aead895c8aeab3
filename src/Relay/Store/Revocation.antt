-- ===== src/Relay/Store/Revocation.antt =====
-- Tokens of packages/relay/src/lib/store.ts: `resolveToken`, `narrowScope`, `getAgentScope`,
-- `isAgentRevoked` and the kill switch `revokeAgent`.
pub mod KillSwitch
pub mod Narrowed
use inzo.Prelude.{
  is_none, ℕ, String, Bool, true, false, not, ◌&&◌, List, [], ◌∷◌, ◌++◌, map, Option, none, some,
  Result, ok, err, guard, attempt, ◌>>=◌, ◌>>◌, or_throw, filter, find?, any, includes, ◌==◌,
  if◌then◌else◌,
}
use inzo.Prelude.Json.{Json, Items, nil, cons, arr, obj, str, field, end}
use inzo.Relay.Errors.{Error, bad_request, not_found}
use inzo.Relay.Scopes.{narrowed_scope}
use inzo.Relay.Consent.{pop}
use inzo.Relay.Audit.{AuditActor, Hashing}
use inzo.Relay.CredentialStore.{
  CredentialStore, revoke_agent_credentials, withdraw_by_credentials, record_audit, agent_principal,
}
use inzo.Relay.Store.State.{
  Store, Pairing, TokenRow, get_pairing, member_pairing, other_agent, publish,
}

pub record TokenIdentity : Type 0 where
  pub agent_id : String
  pub pairing_id : Option String
  pub scope : List String
  pub revoked_at : Option ℕ

-- `hash_token` is `hashAgentToken`.
unfoldable pub resolve_token : (String → String) → Store → String → Option TokenIdentity
resolve_token hash_token s token =
    elim (find? (λ row. row.token_hash == hash_token token) s.tokens) [
      | none ↦ none
      | some row ↦ some (record {
        agent_id = row.agent_id;
        pairing_id = row.pairing_id;
        scope = row.scope;
        revoked_at = row.revoked_at;
      })
    ]

abbrev pub token_of : Store → String → Option TokenRow
token_of s agent_id = find? (λ row. row.agent_id == agent_id) s.tokens

unfoldable pub get_agent_scope : Store → String → List String
get_agent_scope s agent_id = elim (token_of s agent_id) [ none ↦ [] | some row ↦ row.scope ]

unfoldable pub is_agent_revoked : Store → String → Bool
is_agent_revoked s agent_id = elim (token_of s agent_id) [
  | none ↦ false
  | some row ↦ not (is_none row.revoked_at)
]

-- `UPDATE agent_tokens SET scope = ? WHERE agent_id = ?`
abbrev pub rescope_row : String → List String → TokenRow → TokenRow
rescope_row agent_id scope row =
    if row.agent_id == agent_id then record row { scope = scope } else row

unfoldable pub narrow_scope : Store → String → Json → Store × Result Error (List String)
narrow_scope s agent_id requested =
    attempt s (narrowed_scope requested (get_agent_scope s agent_id))
      λ next. (record s { tokens = map (rescope_row agent_id next) s.tokens }, ok next)

-- `agent_id = ? AND revoked_at IS NULL`
abbrev pub live_token : String → TokenRow → Bool
live_token agent_id row = row.agent_id == agent_id && is_none row.revoked_at

abbrev pub revoke_token : String → ℕ → TokenRow → TokenRow
revoke_token agent_id at row =
    if live_token agent_id row then record row { revoked_at = some at } else row

-- Whom "self", "peer" or the id of a member names.
unfoldable pub revoke_target : Pairing → String → String → Result Error String
revoke_target pairing actor target =
    if target == "self"
    then ok actor
    else (if target == "peer"
        then other_agent pairing actor
        else (if includes pairing.members target then ok target else err bad_request))

pub record Revoked : Type 0 where
  pub agent_id : String
  pub revoked_at : Option ℕ
  pub by : String
  pub credentials : Option (List String)

abbrev pub text_items : List String → Items
text_items [] = nil
text_items (s ∷ ss) = cons (str s) (text_items ss)

-- What `revokeAgent` does once it knows that a live token is there.
unfoldable pub eject :
    Hashing → Store → (pairing_id actor target agent_id : String) → (now : ℕ) → Store × List String
eject h s pairing_id actor target agent_id now =
    let (t₁, jtis) = revoke_agent_credentials s.trust agent_id now in
    let t₂ = withdraw_by_credentials t₁ pairing_id jtis now in
    let t₃ =
      record_audit h t₂
        (record {
          pairing_id = pairing_id;
          action = "credential.revoked";
          actor = record {
            principal = agent_principal t₂ actor;
            agent = some actor;
            credential = none;
          };
          assurance = pop;
          detail = obj (
              field "revokedAgentId" (str agent_id) (
                field "revokedCredentials" (arr (text_items jtis))
                  (field "target" (str target) end)));
        })
        now in
    (
      publish (record s { tokens = map (revoke_token agent_id now) s.tokens; trust = t₃ })
          "pairing.revoked" pairing_id,
      jtis,
    )

-- The rest of `revokeAgent`, once it is known whom to revoke.
unfoldable pub revoke_known :
    Hashing
    → Store
    → (pairing_id actor target agent_id : String) → (now : ℕ) → Store × Result Error Revoked
revoke_known h s pairing_id actor target agent_id now =
    if any (live_token agent_id) s.tokens
    then (let (s', jtis) = eject h s pairing_id actor target agent_id now in
        (
          s',
          ok (record {
            agent_id = agent_id;
            revoked_at = some now;
            by = actor;
            credentials = some jtis;
          }),
        ))
    else attempt s (or_throw (token_of s agent_id) not_found) λ existing. (
      s,
      ok (record {
        agent_id = agent_id;
        revoked_at = existing.revoked_at;
        by = actor;
        credentials = none;
      }),
    )

unfoldable pub revoke_whom : Store → (pairing_id actor target : String) → Result Error String
revoke_whom s pairing_id actor target = do
  pairing ← member_pairing s pairing_id actor
  revoke_target pairing actor target

unfoldable pub revoke_agent :
    Hashing → Store → (pairing_id actor target : String) → (now : ℕ) → Store × Result Error Revoked
revoke_agent h s pairing_id actor target now =
    attempt s (revoke_whom s pairing_id actor target)
      λ agent_id. revoke_known h s pairing_id actor target agent_id now
