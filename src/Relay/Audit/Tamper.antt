-- ===== src/Relay/Audit/Tamper.antt =====
-- What the head hash of a verified log commits to.
use native.Mathlib.Decide.{ℕ_discrete}
use inzo.Prelude.{
  ℕ, ◌+◌, ◌≡◌, ◌≢◌, refl, sym, ap, ◌∙◌, ◌⊎◌, inl, inr, String, true, List, [], ◌∷◌, none, some,
  arith, length, string_dec, some_eq,
}
use inzo.Prelude.Json.{Json}
use inzo.Prelude.Int.{ℤ}
use inzo.Relay.Audit.{AuditRecord, Unhashed, Hashing, genesis_hash, hash_record, verify_records}
use inzo.Relay.Audit.Chain.{end_hash, IsChain, IsChain-of_verify_from, verify_from_of_IsChain}

ℤ-discrete : Discrete ℤ
ℤ-discrete = hlevel ℕ_discrete

Json-discrete : Discrete Json
Json-discrete = hlevel (ℤ-discrete, string_dec)

Unhashed-discrete : Discrete Unhashed
Unhashed-discrete = hlevel (ℕ_discrete, string_dec, Json-discrete)

module _ (h : Hashing) where
  -- Two different contents with one hash.
  abbrev pub Collision : Type 0
  Collision = (u : Unhashed) × (v : Unhashed) × (u ≢ v) × (hash_record h u ≡ hash_record h v)

  same_content : (u v : Unhashed) → hash_record h u ≡ hash_record h v → (u ≡ v) ⊎ Collision
  same_content u v e = elim (Unhashed-discrete u v) [
    | yes same ↦ inl same
    | no other ↦ inr (u, v, other, e)
  ]

  last_content :
      (rows : List AuditRecord) (r : AuditRecord) (prev : String) (seq : ℕ)
      → IsChain h prev seq (r ∷ rows)
      → (u : Unhashed) × (u.seq ≡ seq + length rows) × (hash_record h u ≡ end_hash prev (r ∷ rows))
  last_content [] r prev seq (n, p, e, c) = (r.rest, omega arith, e)
  last_content (s ∷ rows) r prev seq (n, p, e, c) =
      let (u, m, f) = last_content rows s r.hash (seq + 1) c in (u, omega arith, f)

  -- Chains of one length with one end, compared from the back.
  same_chain :
      (xs ys : List AuditRecord) (p q : String) (seq : ℕ)
      → IsChain h p seq xs
      → IsChain h q seq ys
      → length xs ≡ length ys
      → end_hash p xs ≡ end_hash q ys
      → ((xs ≡ ys) × (p ≡ q)) ⊎ Collision
  same_chain [] [] p q seq c d n e = inl (refl, e)
  same_chain [] (y ∷ ys) p q seq c d n e = absurd (omega arith)
  same_chain (x ∷ xs) [] p q seq c d n e = absurd (omega arith)
  same_chain (x ∷ xs) (y ∷ ys) p q seq (_, px, hx, c) (_, py, hy, d) n e =
      elim (same_chain xs ys x.hash y.hash (seq + 1) c d (omega arith) e) [
        | inr found ↦ inr found
        | inl (tails, hashes) ↦ elim (same_content x.rest y.rest (hx ∙ hashes ∙ sym hy)) [
          | inr found ↦ inr found
          | inl same ↦ inl (ground arith, sym px ∙ ap (λ (u : Unhashed). u.prev_hash) same ∙ py)
        ]
      ]

  verified_head :
      (rows : List AuditRecord) (e : String)
      → verify_records h rows ≡ record { valid = true; broken_at = none; head = some e }
      → IsChain h genesis_hash 1 rows × (end_hash genesis_hash rows ≡ e) × (rows ≢ [])
  verified_head [] e v = absurd (cc)
  verified_head (r ∷ rows) e v =
      let c = IsChain-of_verify_from h (r ∷ rows) genesis_hash 1 (ap (λ k. k.valid) v) in
      let ends =
        ap (λ k. k.head) (sym (verify_from_of_IsChain h (r ∷ rows) genesis_hash 1 c) ∙ v) in
      (c, some_eq ends, λ f. cc)

  same_end :
      (xs ys : List AuditRecord)
      → IsChain h genesis_hash 1 xs
      → IsChain h genesis_hash 1 ys
      → end_hash genesis_hash xs ≡ end_hash genesis_hash ys
      → xs ≢ []
      → ys ≢ []
      → (xs ≡ ys) ⊎ Collision
  same_end [] ys c d e f g = absurd (f refl)
  same_end (x ∷ xs) [] c d e f g = absurd (g refl)
  same_end (x ∷ xs) (y ∷ ys) c d e f g =
      let (u, m, hu) = last_content xs x genesis_hash 1 c in
      let (v, n, hv) = last_content ys y genesis_hash 1 d in
      elim (same_content u v (hu ∙ e ∙ sym hv)) [
        | inr found ↦ inr found
        | inl same ↦
            elim (same_chain (x ∷ xs) (y ∷ ys) genesis_hash genesis_hash 1 c d
              (omega (arith, ap (λ (w : Unhashed). w.seq) same)) e) [
                | inr found ↦ inr found
                | inl (rows, _) ↦ inl rows
              ]
      ]

  -- Two record lists that both verify with the same head are the same list, or else two different
  -- contents with one hash have been found: an edit, a deletion or a reordering that keeps the head
  -- costs a collision.
  pub verify_records-commits :
      (xs ys : List AuditRecord) (e : String)
      → verify_records h xs ≡ record { valid = true; broken_at = none; head = some e }
      → verify_records h ys ≡ record { valid = true; broken_at = none; head = some e }
      → (xs ≡ ys) ⊎ Collision
  verify_records-commits xs ys e v w =
      let (c, a, f) = verified_head xs e v in
      let (d, b, g) = verified_head ys e w in same_end xs ys c d (a ∙ sym b) f g
