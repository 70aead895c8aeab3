-- ===== src/Cloud/Registry/Joining/Writes.antt =====
-- What `joinPairing` of packages/relay-cf/src/registry.ts writes to the table of codes.
use inzo.Prelude.{
  ℕ, ◌≡◌, refl, sym, ap, ◌∙◌, subst, String, Bool, true, false, List, [], ◌∷◌, ◌++◌, map, Option,
  none, some, some_eq, Result, ok, err, arith, attempt_keeps, Result-cases, Bool-cases, inl, inr,
  find?, is_none, leb, ◌==◌, if◌then◌else◌, or_throw-eq-ok, guard-eq-ok, ok-injective,
}
use inzo.Relay.Errors.{Error, not_found, conflict, gone, rate_limited}
use inzo.Relay.RateLimit.{is_limited, clear}
use inzo.Relay.Credential.Interface.{Jwk, Crypto}
use inzo.Relay.Credential.Issue.{IssueInput, Issued, issue_credential}
use inzo.Relay.Store.State.{CodeRow}
use inzo.Relay.Store.Codes.{Fresh}
use inzo.Relay.Store.Pairing.{use_row}
use inzo.Cloud.Registry.{Registry, issue_root, bind_pairing}
use inzo.Cloud.Registry.Codes.{issue_for, root_input}
use inzo.Cloud.Registry.Joining.{
  JoinedPairing, code_of, usable_code, join_writes, join_as, join_row, join_usable, join_pairing,
}

pub find-use_row :
    (code : String) (now : ℕ) (rows : List CodeRow) (row : CodeRow)
    → find? (λ r. r.code == code) (map (use_row code now) rows) ≡ some row
    → is_none row.used_at ≡ false
find-use_row code now [] row h = cc
find-use_row code now (r ∷ rows) row h = ground (arith, find-use_row code now rows row)

pub find-code :
    (code : String) (rows : List CodeRow) (row : CodeRow)
    → find? (λ r. r.code == code) rows ≡ some row
    → (row.code == code) ≡ true
find-code code [] row h = cc
find-code code (r ∷ rows) row h = elim (Bool-cases (r.code == code)) [
  | inl e ↦
      let same : r ≡ row = some_eq (rw e at h) in
      subst (λ (q : CodeRow). (q.code == code) ≡ true) same e
  | inr e ↦ find-code code rows row (rw e at h)
]

module _ {c : Crypto} where
  issue_root-codes :
      (r r' : Registry c) (input : IssueInput) (jti : String) (issued : Issued)
      → issue_root r input jti ≡ ok (r', issued)
      → r'.codes ≡ r.codes
  unfolding issue_root
  issue_root-codes r r' input jti issued h =
      elim (Result-cases (issue_credential c r.ring.active input jti)) [
        | inl (made, e) ↦
            let same = ok-injective (rw e at h) in
            sym (ap (λ (q : Registry c × Issued). q.0.codes) same)
        | inr (thrown, e) ↦ cc
      ]

  pub issue_for-codes :
      (r : Registry c) (cnf : Option Jwk) (fresh : Fresh) (pairing_id : Option String) (now : ℕ)
      → (issue_for r cnf fresh pairing_id now).0.codes ≡ r.codes
  unfolding issue_for
  issue_for-codes r none fresh pairing_id now = refl
  issue_for-codes r (some cnf) fresh pairing_id now =
      let started : Registry c = record r {
        principals = r.principals ++ fresh.principal_id ∷ [];
      } in
      attempt_keeps (λ (q : Registry c). q.codes ≡ r.codes) started
        (issue_root started (root_input r.issuer_url cnf fresh pairing_id now) fresh.jti) _ refl
        λ (made, issued) e.
          issue_root-codes started made (root_input r.issuer_url cnf fresh pairing_id now) fresh.jti
            issued e

  join_writes-codes :
      (r : Registry c) (row : CodeRow) (pairing_id : String) (is_new : Bool) (fresh : Fresh)
      (now : ℕ)
      → (join_writes r row pairing_id is_new fresh now).codes ≡ map (use_row row.code now) r.codes
  unfolding join_writes bind_pairing
  join_writes-codes r row pairing_id true fresh now = refl
  join_writes-codes r row pairing_id false fresh now = refl

  join_as-codes :
      (r : Registry c) (row : CodeRow) (pairing_id : String) (is_new : Bool) (cnf : Option Jwk)
      (fresh : Fresh) (now : ℕ)
      → (join_as r row pairing_id is_new cnf fresh now).0.codes ≡ map (use_row row.code now) r.codes
  unfolding join_as
  join_as-codes r row pairing_id is_new cnf fresh now =
      let written = join_writes r row pairing_id is_new fresh now in
      let same =
        issue_for-codes written cnf fresh (some pairing_id) now
        ∙ join_writes-codes r row pairing_id is_new fresh now in
      attempt_keeps (λ (q : Registry c). q.codes ≡ map (use_row row.code now) r.codes)
        (issue_for written cnf fresh (some pairing_id) now).0
        (issue_for written cnf fresh (some pairing_id) now).1 _ same (λ made e. same)

  join_row-codes :
      (r : Registry c) (row : CodeRow) (pairing_id : Option String) (cnf : Option Jwk)
      (fresh : Fresh) (now : ℕ)
      → (join_row r row pairing_id cnf fresh now).0.codes ≡ map (use_row row.code now) r.codes
  join_row-codes r row none cnf fresh now = join_as-codes r row fresh.pairing_id true cnf fresh now
  join_row-codes r row (some pairing_id) cnf fresh now =
      join_as-codes r row pairing_id false cnf fresh now

  join_usable-eq-ok :
      (r r₁ : Registry c) (u : Result Error CodeRow) (client_key : String) (cnf : Option Jwk)
      (fresh : Fresh) (now : ℕ) (joined : JoinedPairing)
      → join_usable r u client_key cnf fresh now ≡ (r₁, ok joined)
      → (row : CodeRow) × (u ≡ ok row) × (r₁.codes ≡ map (use_row row.code now) r.codes)
  join_usable-eq-ok r r₁ (err e) client_key cnf fresh now joined h = cc
  join_usable-eq-ok r r₁ (ok row) client_key cnf fresh now joined h = (
    row,
    refl,
    sym (ap (λ (q : Registry c × Result Error JoinedPairing). q.0.codes) h)
        ∙ join_row-codes (record r { limiter = clear r.limiter client_key }) row row.pairing_id cnf
            fresh now,
  )

  unless_limited :
      {A : Type 0} (limited : Bool) (r r₁ : Registry c) (rest : Registry c × Result Error A) (a : A)
      → (if limited then (r, err rate_limited) else rest) ≡ (r₁, ok a)
      → rest ≡ (r₁, ok a)
  unless_limited true r r₁ rest a h = cc
  unless_limited false r r₁ rest a h = h

  -- What a join that succeeds has found, and what it leaves of the codes.
  -- Every join, also one that fails, leaves the codes or marks one of them.
  pub join_pairing-codes :
      (P : List CodeRow → Type 0) (r : Registry c) (code : String) (cnf : Option Jwk)
      (client_key : String) (fresh : Fresh) (now : ℕ)
      → P r.codes
      → ((a : String) → P (map (use_row a now) r.codes))
      → P (join_pairing r code cnf client_key fresh now).0.codes
  unfolding join_pairing
  join_pairing-codes P r code cnf client_key fresh now kept marked =
      let (limiter, limited) = is_limited r.limiter client_key now in
      let r' : Registry c = record r { limiter = limiter } in
      cases limited r' (usable_code r' code now) kept marked
    where
      cases :
          (limited : Bool) (r' : Registry c) (u : Result Error CodeRow)
          → P r'.codes
          → ((a : String) → P (map (use_row a now) r'.codes))
          → P
              (if limited
                then (r', err rate_limited)
                else join_usable r' u client_key cnf fresh now).0.codes
      cases true r' u kept marked = kept
      cases false r' (err e) kept marked = kept
      cases false r' (ok row) kept marked =
          subst P
            (sym (
              join_row-codes (record r' { limiter = clear r'.limiter client_key }) row
                row.pairing_id cnf fresh now))
            (marked row.code)

  pub join_pairing-eq-ok :
      (r r₁ : Registry c) (code : String) (cnf : Option Jwk) (client_key : String) (fresh : Fresh)
      (now : ℕ) (joined : JoinedPairing)
      → join_pairing r code cnf client_key fresh now ≡ (r₁, ok joined)
      → (row : CodeRow) × (code_of r code ≡ some row)
        × (is_none row.used_at ≡ true)
        × (r₁.codes ≡ map (use_row row.code now) r.codes)
  unfolding join_pairing usable_code
  join_pairing-eq-ok r r₁ code cnf client_key fresh now joined h =
      let (limiter, limited) = is_limited r.limiter client_key now in
      let r' : Registry c = record r { limiter = limiter } in
      let h₁ = unless_limited limited r' r₁ _ joined h in
      let (row, usable, codes) =
        join_usable-eq-ok r' r₁ (usable_code r' code now) client_key cnf fresh now joined h₁ in
      let (found, there, u₁) = or_throw-eq-ok (code_of r code) not_found _ usable in
      let (fresh_code, u₂) = guard-eq-ok (is_none found.used_at) conflict _ u₁ in
      let (alive, u₃) = guard-eq-ok (leb now found.expires_at) gone _ u₂ in
      let same = ok-injective u₃ in
      (
        row,
        there ∙ ap some same,
        subst (λ (q : CodeRow). is_none q.used_at ≡ true) same fresh_code,
        codes,
      )
