-- ===== src/Cloud/Registry/Joining/Used.antt =====
-- A code of packages/relay-cf/src/registry.ts lets one caller in.
use inzo.Prelude.{
  ℕ, ◌≡◌, ◌≢◌, refl, sym, ap, ◌∙◌, subst, String, true, false, List, [], ◌∷◌, ◌++◌, map, Option,
  none, some, some_eq, ok, arith, attempt_keeps, Bool-cases, inl, inr, find?, is_none, any, ◌==◌,
  ==→eq,
}
use inzo.Relay.Credential.Interface.{Jwk, Crypto}
use inzo.Relay.Store.State.{CodeRow}
use inzo.Relay.Store.Codes.{Fresh}
use inzo.Relay.Store.Pairing.{use_row}
use inzo.Cloud.Registry.{Registry}
use inzo.Cloud.Registry.Codes.{
  insert_code, create_pairing_code, create_invite_code, code_row, issue_for, add_token,
}
use inzo.Relay.Store.Codes.{token_row}
use inzo.Cloud.Registry.Joining.{JoinedPairing, join_pairing}
use inzo.Cloud.Registry.Joining.Writes.{
  find-code, issue_for-codes, join_pairing-codes, join_pairing-eq-ok,
}

true_ne_false : true ≢ false
true_ne_false e = cc

-- The row of a code is there, and is marked as used.
abbrev IsUsed : String → List CodeRow → Type 0
IsUsed code rows =
    (row : CodeRow) × (find? (λ q. q.code == code) rows ≡ some row) × (is_none row.used_at ≡ false)

IsUsed-append :
    (code : String) (rows new : List CodeRow) → IsUsed code rows → IsUsed code (rows ++ new)
IsUsed-append code [] new (row, there, used) = cc
IsUsed-append code (r ∷ rows) new (row, there, used) = elim (Bool-cases (r.code == code)) [
  | inl e ↦ (r, rw e refl, ap (λ (q : CodeRow). is_none q.used_at) (some_eq (rw e at there)) ∙ used)
  | inr e ↦
      let (row', there', used') = IsUsed-append code rows new (row, rw e at there, used) in
      (row', rw e there', used')
]

IsUsed-use_row :
    (code a : String) (now : ℕ) (rows : List CodeRow)
    → IsUsed code rows
    → IsUsed code (map (use_row a now) rows)
IsUsed-use_row code a now [] (row, there, used) = cc
IsUsed-use_row code a now (r ∷ rows) (row, there, used) = elim (Bool-cases (r.code == code)) [
  | inl e ↦ (use_row a now r, ground arith, ground arith)
  | inr e ↦
      let (row', there', used') = IsUsed-use_row code a now rows (row, rw e at there, used) in
      (row', ground arith, used')
]

map-use_row-IsUsed :
    (code : String) (now : ℕ) (rows : List CodeRow) (row : CodeRow)
    → find? (λ q. q.code == code) rows ≡ some row
    → IsUsed code (map (use_row code now) rows)
map-use_row-IsUsed code now [] row there = cc
map-use_row-IsUsed code now (r ∷ rows) row there = elim (Bool-cases (r.code == code)) [
  | inl e ↦ (use_row code now r, ground arith, ground arith)
  | inr e ↦
      let (row', there', used) = map-use_row-IsUsed code now rows row (rw e at there) in
      (row', ground arith, used)
]

module _ {c : Crypto} where
  insert_code-IsUsed :
      (code : String) (attempts : List String) (r : Registry c) (creator : String)
      (pairing_id : Option String) (now : ℕ)
      → IsUsed code r.codes
      → (r' : Registry c) (row : CodeRow)
      → insert_code attempts r creator pairing_id now ≡ some (r', row)
      → IsUsed code r'.codes
  unfolding insert_code
  insert_code-IsUsed code [] r creator pairing_id now u r' row h = cc
  insert_code-IsUsed code (attempt ∷ attempts) r creator pairing_id now u r' row h =
      elim (Bool-cases (any (λ (old : CodeRow). old.code == attempt) r.codes)) [
        | inl e ↦ insert_code-IsUsed code attempts r creator pairing_id now u r' row (rw e at h)
        | inr e ↦
            let made = some_eq (rw e at h) in
            subst (λ (q : Registry c × CodeRow). IsUsed code q.0.codes) made
              (IsUsed-append code r.codes (code_row attempt creator pairing_id now ∷ []) u)
      ]

  -- `r'` is what `r` has become after calls of `joinPairing`, `createPairingCode` and
  -- `createInviteCode`, and of methods that do not touch the codes.
  pub data Later (r : Registry c) : Registry c → Type 0 where
    now_on : Later r r
    joins :
        {r' : Registry c}
        → Later r r'
        → (code : String) (cnf : Option Jwk) (client_key : String) (fresh : Fresh) (now : ℕ)
        → Later r (join_pairing r' code cnf client_key fresh now).0
    creates :
        {r' : Registry c}
        → Later r r'
        → (cnf : Option Jwk) (attempts : List String) (fresh : Fresh) (now : ℕ)
        → Later r (create_pairing_code r' cnf attempts fresh now).0
    invites :
        {r' : Registry c}
        → Later r r'
        → (pairing_id inviter : String) (attempts : List String) (now : ℕ)
        → Later r (create_invite_code r' pairing_id inviter attempts now).0
    leaves : {r' r'' : Registry c} → Later r r' → r'.codes ≡ r''.codes → Later r r''

  create_invite_code-made :
      (code : String) (r : Registry c) (pairing_id inviter : String) (attempts : List String)
      (now : ℕ) (made : Option (Registry c × CodeRow))
      → IsUsed code r.codes
      → insert_code attempts r inviter (some pairing_id) now ≡ made
      → IsUsed code (create_invite_code r pairing_id inviter attempts now).0.codes
  unfolding create_invite_code
  create_invite_code-made code r pairing_id inviter attempts now none u e =
      rw (create_invite_code, e) u
  create_invite_code-made code r pairing_id inviter attempts now (some (r', row)) u e =
      rw (create_invite_code, e)
        (insert_code-IsUsed code attempts r inviter (some pairing_id) now u r' row e)

  create_pairing_code-made :
      (code : String) (r : Registry c) (cnf : Option Jwk) (attempts : List String) (fresh : Fresh)
      (now : ℕ) (made : Option (Registry c × CodeRow))
      → IsUsed code r.codes
      → insert_code attempts r fresh.agent_id none now ≡ made
      → IsUsed code (create_pairing_code r cnf attempts fresh now).0.codes
  unfolding create_pairing_code
  create_pairing_code-made code r cnf attempts fresh now none u e = rw (create_pairing_code, e) u
  create_pairing_code-made code r cnf attempts fresh now (some (r₁, row)) u e =
      let r₂ = add_token r₁ (token_row fresh.token_hash fresh.agent_id none now) in
      let done =
        subst (IsUsed code) (sym (issue_for-codes r₂ cnf fresh none now))
          (insert_code-IsUsed code attempts r fresh.agent_id none now u r₁ row e) in
      rw (create_pairing_code, e)
        (attempt_keeps (λ (q : Registry c). IsUsed code q.codes) (issue_for r₂ cnf fresh none now).0
          (issue_for r₂ cnf fresh none now).1 _ done (λ issued given. done))

  Later-IsUsed :
      (code : String) {r r' : Registry c} → Later r r' → IsUsed code r.codes → IsUsed code r'.codes
  Later-IsUsed code now_on u = u
  Later-IsUsed code (joins {r' = r'} l a cnf client_key fresh now) u =
      let before = Later-IsUsed code l u in
      join_pairing-codes (IsUsed code) r' a cnf client_key fresh now before
        (λ a. IsUsed-use_row code a now r'.codes before)
  Later-IsUsed code (creates {r' = r'} l cnf attempts fresh now) u =
      create_pairing_code-made code r' cnf attempts fresh now _ (Later-IsUsed code l u) refl
  Later-IsUsed code (invites {r' = r'} l pairing_id inviter attempts now) u =
      create_invite_code-made code r' pairing_id inviter attempts now _ (Later-IsUsed code l u) refl
  Later-IsUsed code (leaves l e) u = subst (IsUsed code) e (Later-IsUsed code l u)

  -- Once a join has succeeded, its code lets nobody else in, whatever codes are made and whatever joins
  -- succeed or fail in between.
  pub join_pairing-consumes :
      (r r₁ r₂ r₃ : Registry c) (code : String) (cnf cnf' : Option Jwk)
      (client_key client_key' : String) (fresh fresh' : Fresh) (now now' : ℕ)
      (joined joined' : JoinedPairing)
      → join_pairing r code cnf client_key fresh now ≡ (r₁, ok joined)
      → Later r₁ r₂
      → join_pairing r₂ code cnf' client_key' fresh' now' ≢ (r₃, ok joined')
  join_pairing-consumes r r₁ r₂ r₃ code cnf cnf' client_key client_key' fresh fresh' now now' joined
        joined' first later second =
      let (row, there, unused, codes) =
        join_pairing-eq-ok r r₁ code cnf client_key fresh now joined first in
      let (row', there', unused', codes') =
        join_pairing-eq-ok r₂ r₃ code cnf' client_key' fresh' now' joined' second in
      let named = ==→eq row.code code (find-code code r.codes row there) in
      let marked : IsUsed code r₁.codes =
        subst (IsUsed code) (ap (λ a. map (use_row a now) r.codes) (sym named) ∙ sym codes)
          (map-use_row-IsUsed code now r.codes row there) in
      let (row'', there'', used) = Later-IsUsed code later marked in
      let same = some_eq (sym there' ∙ there'') in
      true_ne_false (sym unused' ∙ ap (λ (q : CodeRow). is_none q.used_at) same ∙ used)
