-- ===== src/Relay/Store/Joining.antt =====
-- A pairing code is good for one join.
use inzo.Prelude.{
  is_none, is_none→eq, subst, ℕ, ◌≡◌, refl, ap, ◌∙◌, String, true, List, [], ◌∷◌, map, Option, none,
  some, ok, err, arith, attempt-eq-ok, guard-eq-ok, or_throw-eq-ok, find?, ◌==◌, leb, ok-injective,
}
use inzo.Relay.Errors.{conflict}
use inzo.Relay.Credential.Interface.{Jwk, IssuerKey, Crypto}
use inzo.Relay.Audit.{Hashing}
use inzo.Relay.Store.State.{Store, CodeRow}
use inzo.Relay.Store.Codes.{Fresh, get_code, issue_for}
use inzo.Relay.Store.Pairing.{
  Joined, usable_code, use_row, found_pairing, extend_pairing, bind_creator, join_new,
  join_existing, join_pairing,
}

find_code-use_row :
    (code : String) (now : ℕ) (rows : List CodeRow) (row : CodeRow)
    → find? (λ r. r.code == code) rows ≡ some row
    → find? (λ r. r.code == code) (map (use_row code now) rows)
      ≡ some (record row { used_at = some now })
find_code-use_row code now [] row e = cc
find_code-use_row code now (r ∷ rows) row e = ground (arith, find_code-use_row code now rows row)

find_code-code :
    (code : String) (rows : List CodeRow) (row : CodeRow)
    → find? (λ r. r.code == code) rows ≡ some row
    → row.code ≡ code
find_code-code code [] row e = cc
find_code-code code (r ∷ rows) row e = ground (arith, find_code-code code rows row)

-- The row of a code that may be used.
pub usable_code-eq-ok :
    (s : Store) (code : String) (now : ℕ) (row : CodeRow)
    → usable_code s code now ≡ ok row
    → (get_code s code ≡ some row) × (row.used_at ≡ none) × (leb now row.expires_at ≡ true)
unfolding usable_code
usable_code-eq-ok s code now row h =
    let (r, found, h₁) = or_throw-eq-ok (get_code s code) _ _ h in
    let (unused, h₂) = guard-eq-ok (is_none r.used_at) _ _ h₁ in
    let (young, h₃) = guard-eq-ok _ _ _ h₂ in
    let same : r ≡ row = ok-injective h₃ in
    (
      found ∙ ap some same,
      subst (λ q. q.used_at ≡ none) same (is_none→eq r.used_at unused),
      subst (λ q. leb now q.expires_at ≡ true) same young,
    )

module _ (c : Crypto) (h : Hashing) (key : IssuerKey c.PrivateKey) (issuer_url : String) where
  issue_for-codes :
      (s : Store) (cnf : Option Jwk) (fresh : Fresh) (pairing_id : Option String) (now : ℕ)
      → ((issue_for c key issuer_url s cnf fresh pairing_id now).0).codes ≡ s.codes
  unfolding issue_for
  issue_for-codes s none fresh pairing_id now = refl
  issue_for-codes s (some cnf) fresh pairing_id now = ground arith

  join_new-codes :
      (s t : Store) (row : CodeRow) (cnf : Option Jwk) (fresh : Fresh) (now : ℕ) (joined : Joined)
      → join_new c h key issuer_url s row cnf fresh now ≡ (t, ok joined)
      → t.codes ≡ map (use_row row.code now) s.codes
  unfolding join_new found_pairing
  join_new-codes s t row cnf fresh now joined e =
      let bound =
        bind_creator (found_pairing s row fresh now) row.creator_agent_id fresh.pairing_id in
      ground (arith, issue_for-codes bound cnf fresh (some fresh.pairing_id) now)

  join_existing-codes :
      (s t : Store) (pairing_id : String) (row : CodeRow) (cnf : Option Jwk) (fresh : Fresh)
      (now : ℕ) (joined : Joined)
      → join_existing c h key issuer_url s pairing_id row cnf fresh now ≡ (t, ok joined)
      → t.codes ≡ map (use_row row.code now) s.codes
  unfolding join_existing extend_pairing
  join_existing-codes s t pairing_id row cnf fresh now joined e = ground (
    arith,
    issue_for-codes (extend_pairing s pairing_id row fresh now) cnf fresh (some pairing_id) now,
  )

  join_by-codes :
      (s t : Store) (row : CodeRow) (cnf : Option Jwk) (fresh : Fresh) (now : ℕ) (joined : Joined)
      (o : Option String)
      → elim o [
        | none ↦ join_new c h key issuer_url s row cnf fresh now
        | some pairing_id ↦ join_existing c h key issuer_url s pairing_id row cnf fresh now
      ]
        ≡ (t, ok joined)
      → t.codes ≡ map (use_row row.code now) s.codes
  join_by-codes s t row cnf fresh now joined none e = join_new-codes s t row cnf fresh now joined e
  join_by-codes s t row cnf fresh now joined (some pairing_id) e =
      join_existing-codes s t pairing_id row cnf fresh now joined e

  -- A code is good for one join: once it has let somebody in, whoever comes next with it is told of
  -- the conflict, and nothing in the store changes.
  pub join_pairing-once :
      (s t : Store) (code : String) (cnf cnf' : Option Jwk) (fresh fresh' : Fresh) (now later : ℕ)
      (joined : Joined)
      → join_pairing c h key issuer_url s code cnf fresh now ≡ (t, ok joined)
      → join_pairing c h key issuer_url t code cnf' fresh' later ≡ (t, err conflict)
  unfolding join_pairing usable_code get_code
  join_pairing-once s t code cnf cnf' fresh fresh' now later joined e =
      let (row, usable, f) = attempt-eq-ok s t (usable_code s code now) _ joined e in
      let (found, unused, young) = usable_code-eq-ok s code now row usable in
      let codes : t.codes ≡ map (use_row code now) s.codes =
        subst (λ k. t.codes ≡ map (use_row k now) s.codes) (find_code-code code s.codes row found)
          (join_by-codes s t row cnf fresh now joined row.pairing_id f) in
      rw (codes, find_code-use_row code now s.codes row found) refl
