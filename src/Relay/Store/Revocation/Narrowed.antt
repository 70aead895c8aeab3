-- ===== src/Relay/Store/Revocation/Narrowed.antt =====
-- An agent can only ever give up capabilities.
use inzo.Prelude.{
  ◌≡◌, refl, inl, inr, String, true, List, [], ◌∷◌, map, none, some, arith, find?, includes, ◌==◌,
  Result-cases, Option-cases,
}
use inzo.Prelude.Json.{Json}
use inzo.Relay.Scopes.{narrowed_scope}
use inzo.Relay.Scopes.Narrowing.{narrowed_scope-eq-ok}
use inzo.Relay.Store.State.{Store, TokenRow}
use inzo.Relay.Store.Revocation.{get_agent_scope, narrow_scope, rescope_row}

find_token-rescope :
    (a b : String) (scope : List String) (rows : List TokenRow)
    → find? (λ r. r.agent_id == b) (map (rescope_row a scope) rows)
      ≡ elim (find? (λ r. r.agent_id == b) rows) [
        | none ↦ none
        | some row ↦ some (rescope_row a scope row)
      ]
find_token-rescope a b scope [] = refl
find_token-rescope a b scope (r ∷ rows) = ground (arith, find_token-rescope a b scope rows)

find_token-agent :
    (b : String) (rows : List TokenRow) (row : TokenRow)
    → find? (λ r. r.agent_id == b) rows ≡ some row
    → row.agent_id ≡ b
find_token-agent b [] row e = cc
find_token-agent b (r ∷ rows) row e = ground (arith, find_token-agent b rows row)

rescope-narrows :
    (s : Store) (a b x : String) (scope : List String)
    → ((y : String) → includes scope y ≡ true → includes (get_agent_scope s a) y ≡ true)
    → includes (get_agent_scope (record s { tokens = map (rescope_row a scope) s.tokens }) b) x
      ≡ true
    → includes (get_agent_scope s b) x ≡ true
unfolding get_agent_scope
rescope-narrows s a b x scope held m = elim (Option-cases (find? (λ r. r.agent_id == b) s.tokens)) [
  | inl e ↦ absurd (ground (arith, find_token-rescope a b scope s.tokens))
  | inr (row, e) ↦
      let agent = find_token-agent b s.tokens row e in
      ground (arith, find_token-rescope a b scope s.tokens, held x)
]

narrow_scope-narrows :
    (s : Store) (a b x : String) (requested : Json)
    → includes (get_agent_scope (narrow_scope s a requested).0 b) x ≡ true
    → includes (get_agent_scope s b) x ≡ true
unfolding narrow_scope
narrow_scope-narrows s a b x requested m =
    elim (Result-cases (narrowed_scope requested (get_agent_scope s a))) [
      | inr (error, e) ↦ rw e at m
      | inl (next, e) ↦
          rescope-narrows s a b x next
            (λ y. (narrowed_scope-eq-ok requested (get_agent_scope s a) next y e).1) (rw e at m)
    ]

-- Requests to narrow, each of the agent that asks.
abbrev pub narrow_all : Store → List (String × Json) → Store
narrow_all s [] = s
narrow_all s ((agent_id, requested) ∷ requests) =
    narrow_all (narrow_scope s agent_id requested).0 requests

-- Whatever requests to narrow its scope an agent and its peers make, in whatever order, an agent ends
-- with no capability that it did not start with: what has been given up never comes back.
pub narrow_all-narrows :
    (requests : List (String × Json)) (s : Store) (agent_id capability : String)
    → includes (get_agent_scope (narrow_all s requests) agent_id) capability ≡ true
    → includes (get_agent_scope s agent_id) capability ≡ true
narrow_all-narrows [] s agent_id capability m = m
narrow_all-narrows ((a, requested) ∷ requests) s agent_id capability m =
    narrow_scope-narrows s a agent_id capability requested
      (narrow_all-narrows requests (narrow_scope s a requested).0 agent_id capability m)
