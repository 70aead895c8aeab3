-- ===== src/Relay/Store/Members.antt =====
-- No pairing grows beyond `MAX_MEMBERS`, and whoever joins becomes a member.
use inzo.Prelude.{
  ℕ, ◌≤◌, ◌≡◌, refl, sym, ap, ◌∙◌, String, Bool, true, false, List, [], ◌∷◌, ◌++◌, map, map-append,
  append-nil, ok-injective, Option, none, some, ok, err, arith, attempt-eq-ok, find?, filter-append,
  length, length-append, leb, includes, includes-append, ◌==◌, ==_refl, if◌then◌else◌, Result-cases,
  inl, inr,
}
use inzo.Relay.Errors.{not_found}
use inzo.Relay.Credential.Interface.{Jwk, IssuerKey, Crypto}
use inzo.Relay.Audit.{Hashing}
use inzo.Relay.Store.State.{
  Store, Pairing, PairingRow, MemberRow, CodeRow, get_pairing, get_members, max_members,
}
use inzo.Relay.Store.Codes.{Fresh, issue_for}
use inzo.Relay.Store.Pairing.{
  Joined, usable_code, found_pairing, extend_pairing, bind_creator, add_member, join_new,
  join_existing, join_pairing,
}

find_pairing-id :
    (p : String) (rows : List PairingRow) (row : PairingRow)
    → find? (λ r. r.id == p) rows ≡ some row
    → row.id ≡ p
find_pairing-id p [] row e = cc
find_pairing-id p (r ∷ rows) row e = ground (arith, find_pairing-id p rows row)

-- A pairing that is found lists its members.
pub get_pairing-members :
    (s : Store) (p : String) (pairing : Pairing)
    → get_pairing s p ≡ ok pairing
    → (pairing.members ≡ get_members s p) × (pairing.id ≡ p)
unfolding get_pairing
get_pairing-members s p pairing e = go (find? (λ row. row.id == p) s.pairings) refl e
  where
    go :
        (o : Option PairingRow)
        → find? (λ row. row.id == p) s.pairings ≡ o
        → elim o [
          | none ↦ err not_found
          | some row ↦ ok (record {
            id = row.id;
            code = row.code;
            agent_a = row.agent_a;
            agent_b = row.agent_b;
            members = get_members s row.id;
            created_at = row.created_at;
          })
        ]
          ≡ ok pairing
        → (pairing.members ≡ get_members s p) × (pairing.id ≡ p)
    go none f e = cc
    go (some row) f e =
        let same = ok-injective e in
        let id = find_pairing-id p s.pairings row f in
        (
          sym (ap (λ (q : Pairing). q.members) same) ∙ ap (get_members s) id,
          sym (ap (λ (q : Pairing). q.id) same) ∙ id,
        )

append_if :
    (b : Bool) (given : List String) (row : MemberRow)
    → given ++ map (λ (r : MemberRow). r.agent_id) (if b then row ∷ [] else [])
      ≡ (if b then given ++ row.agent_id ∷ [] else given)
append_if true given row = refl
append_if false given row = append-nil given

get_members-add_member :
    (s : Store) (p agent_id q : String) (now : ℕ)
    → get_members (add_member s p agent_id now) q
      ≡ (if p == q then get_members s q ++ agent_id ∷ [] else get_members s q)
unfolding get_members
get_members-add_member s p agent_id q now =
    let row : MemberRow = record { pairing_id = p; agent_id = agent_id; joined_at = now } in
    ap (map (λ (r : MemberRow). r.agent_id))
      (filter-append (λ (r : MemberRow). r.pairing_id == q) s.members (row ∷ []))
    ∙ map-append _ _ _
    ∙ append_if (p == q) (get_members s q) row

module _ (c : Crypto) (h : Hashing) (key : IssuerKey c.PrivateKey) (issuer_url : String) where
  issue_for-members :
      (s : Store) (cnf : Option Jwk) (fresh : Fresh) (pairing_id : Option String) (now : ℕ)
      → ((issue_for c key issuer_url s cnf fresh pairing_id now).0).members ≡ s.members
  unfolding issue_for
  issue_for-members s none fresh pairing_id now = refl
  issue_for-members s (some cnf) fresh pairing_id now = ground arith

  -- The members of every pairing after a first join.
  join_new-members :
      (s t : Store) (row : CodeRow) (cnf : Option Jwk) (fresh : Fresh) (now : ℕ) (joined : Joined)
      → join_new c h key issuer_url s row cnf fresh now ≡ (t, ok joined)
      → (t.members
          ≡ (add_member
              (add_member s fresh.pairing_id row.creator_agent_id now)
              fresh.pairing_id
              fresh.agent_id
              now).members)
        × (joined.pairing.members ≡ row.creator_agent_id ∷ fresh.agent_id ∷ [])
        × (joined.pairing.id ≡ fresh.pairing_id)
  unfolding join_new found_pairing
  join_new-members s t row cnf fresh now joined e =
      let bound =
        bind_creator (found_pairing s row fresh now) row.creator_agent_id fresh.pairing_id in
      let same = issue_for-members bound cnf fresh (some fresh.pairing_id) now in
      (ground arith, ground arith, ground arith)

  join_existing-members :
      (s t : Store) (p : String) (row : CodeRow) (cnf : Option Jwk) (fresh : Fresh) (now : ℕ)
      (joined : Joined)
      → join_existing c h key issuer_url s p row cnf fresh now ≡ (t, ok joined)
      → (t.members ≡ (add_member s p fresh.agent_id now).members)
        × ((existing : Pairing) × (get_pairing s p ≡ ok existing)
            × (leb max_members (length existing.members) ≡ false))
        × (get_pairing t p ≡ ok joined.pairing)
  unfolding join_existing extend_pairing
  join_existing-members s t p row cnf fresh now joined e =
      let same = issue_for-members (extend_pairing s p row fresh now) cnf fresh (some p) now in
      elim (Result-cases (get_pairing s p)) [
        | inr (error, f) ↦ absurd (ground arith)
        | inl (existing, f) ↦ (ground arith, (existing, f, ground arith), ground arith)
      ]

get_members_of :
    (s t : Store) (p : String) → t.members ≡ s.members → get_members t p ≡ get_members s p
unfolding get_members
get_members_of s t p e = rw e

-- No pairing has more than `MAX_MEMBERS` members.
abbrev pub IsBounded : Store → Type 0
IsBounded s = (p : String) → length (get_members s p) ≤ max_members

-- What a join leaves behind: the bound holds, and the caller is told the members of its pairing,
-- itself among them.
pub record HasJoined (t : Store) (agent_id : String) (joined : Joined) : Type 0 where
  pub bounded : IsBounded t
  pub told : joined.pairing.members ≡ get_members t joined.pairing.id
  pub member : includes joined.pairing.members agent_id ≡ true

new_member : (given : List String) (a : String) → includes (given ++ a ∷ []) a ≡ true
new_member given a = ground (arith, includes-append given (a ∷ []) a)

module _ (c : Crypto) (h : Hashing) (key : IssuerKey c.PrivateKey) (issuer_url : String) where
  join_new-HasJoined :
      (s t : Store) (row : CodeRow) (cnf : Option Jwk) (fresh : Fresh) (now : ℕ) (joined : Joined)
      → join_new c h key issuer_url s row cnf fresh now ≡ (t, ok joined)
      → get_members s fresh.pairing_id ≡ []
      → IsBounded s
      → HasJoined t fresh.agent_id joined
  join_new-HasJoined s t row cnf fresh now joined e new bounded =
      let (rows, told, id) = join_new-members c h key issuer_url s t row cnf fresh now joined e in
      let p = fresh.pairing_id in
      let one = add_member s p row.creator_agent_id now in
      let two = add_member one p fresh.agent_id now in
      let after = λ (q : String). get_members_of two t q rows in
      let second = λ (q : String). get_members-add_member one p fresh.agent_id q now in
      let first = λ (q : String). get_members-add_member s p row.creator_agent_id q now in
      record {
        bounded = λ q. ground (
          arith,
          after q,
          second q,
          first q,
          new,
          length-append (get_members s q) (row.creator_agent_id ∷ []),
          bounded q,
        );
        told = rw (told, id, after p, second p, first p, new, ==_refl p) refl;
        member = rw told (ground arith);
      }

  join_existing-HasJoined :
      (s t : Store) (p : String) (row : CodeRow) (cnf : Option Jwk) (fresh : Fresh) (now : ℕ)
      (joined : Joined)
      → join_existing c h key issuer_url s p row cnf fresh now ≡ (t, ok joined)
      → IsBounded s
      → HasJoined t fresh.agent_id joined
  join_existing-HasJoined s t p row cnf fresh now joined e bounded =
      let (rows, (existing, found, room), again) =
        join_existing-members c h key issuer_url s t p row cnf fresh now joined e in
      let one = add_member s p fresh.agent_id now in
      let (held, _) = get_pairing-members s p existing found in
      let (told, id) = get_pairing-members t p joined.pairing again in
      record {
        bounded = λ q. ground (
          arith,
          get_members_of one t q rows,
          get_members-add_member s p fresh.agent_id q now,
          length-append (get_members s q) (fresh.agent_id ∷ []),
          bounded q,
          held,
        );
        told = told ∙ ap (get_members t) (sym id);
        member =
            rw
              (
                told,
                get_members_of one t p rows,
                get_members-add_member s p fresh.agent_id p now,
                ==_refl p,
              )
              (new_member (get_members s p) fresh.agent_id);
      }

  join_by-HasJoined :
      (s t : Store) (row : CodeRow) (cnf : Option Jwk) (fresh : Fresh) (now : ℕ) (joined : Joined)
      (o : Option String)
      → elim o [
        | none ↦ join_new c h key issuer_url s row cnf fresh now
        | some p ↦ join_existing c h key issuer_url s p row cnf fresh now
      ]
        ≡ (t, ok joined)
      → get_members s fresh.pairing_id ≡ []
      → IsBounded s
      → HasJoined t fresh.agent_id joined
  join_by-HasJoined s t row cnf fresh now joined none e new bounded =
      join_new-HasJoined s t row cnf fresh now joined e new bounded
  join_by-HasJoined s t row cnf fresh now joined (some p) e new bounded =
      join_existing-HasJoined s t p row cnf fresh now joined e bounded

  -- A join keeps every pairing within `MAX_MEMBERS`, makes the caller a member of the pairing that it
  -- is told of, and tells it that pairing's members. The id that is generated for a new pairing is
  -- taken to be new.
  pub join_pairing-HasJoined :
      (s t : Store) (code : String) (cnf : Option Jwk) (fresh : Fresh) (now : ℕ) (joined : Joined)
      → join_pairing c h key issuer_url s code cnf fresh now ≡ (t, ok joined)
      → get_members s fresh.pairing_id ≡ []
      → IsBounded s
      → HasJoined t fresh.agent_id joined
  unfolding join_pairing
  join_pairing-HasJoined s t code cnf fresh now joined e new bounded =
      let (row, usable, f) = attempt-eq-ok s t (usable_code s code now) _ joined e in
      join_by-HasJoined s t row cnf fresh now joined row.pairing_id f new bounded
