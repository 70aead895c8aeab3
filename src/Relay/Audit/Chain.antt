-- ===== src/Relay/Audit/Chain.antt =====
-- A log that is only ever appended to verifies, pairing by pairing.
use inzo.Prelude.{
  ℕ, suc, ◌+◌, ◌<◌, ◌≡◌, refl, sym, ap, ◌∙◌, subst, String, true, false, List, [], ◌∷◌, ◌++◌, none,
  some, arith, all, leb, ltb, length, filter-append, filter_of_all, ◌==◌, string_dec, append-nil,
  ==_refl,
}
use inzo.Relay.Audit.{
  AuditRecord, Hashing, AppendInput, genesis_hash, sort_by_seq, of_pairing, list, last, head,
  next_seq, hash_or_genesis, hash_record, record_after, append, verify_from, verify_records, verify,
}
use inzo.Relay.Audit.Sorting.{all-sort_by_seq, sort_by_seq-append}

-- The hash at the end of a chain.
abbrev pub end_hash : String → List AuditRecord → String
end_hash prev [] = prev
end_hash prev (r ∷ rows) = end_hash r.hash rows

module _ (h : Hashing) where
  -- What the log promises of the records of one pairing: they are numbered without a gap, each
  -- names the hash of the one before it, and each bears the hash of its own content.
  abbrev pub IsChain : String → ℕ → List AuditRecord → Type 0
  IsChain prev seq [] = Unit {0}
  IsChain prev seq (r ∷ rows) =
      (r.seq ≡ seq)
      × (r.prev_hash ≡ prev)
      × (hash_record h r.rest ≡ r.hash)
      × IsChain r.hash (seq + 1) rows

  pub verify_from_of_IsChain :
      (rows : List AuditRecord) (prev : String) (seq : ℕ)
      → IsChain prev seq rows
      → verify_from h rows prev seq
        ≡ record { valid = true; broken_at = none; head = some (end_hash prev rows) }
  verify_from_of_IsChain [] prev seq c = refl
  verify_from_of_IsChain (r ∷ rows) prev seq (numbered, linked, hashed, rest) =
      ground (arith, verify_from_of_IsChain rows r.hash (seq + 1) rest)

  pub IsChain-of_verify_from :
      (rows : List AuditRecord) (prev : String) (seq : ℕ)
      → (verify_from h rows prev seq).valid ≡ true
      → IsChain prev seq rows
  IsChain-of_verify_from [] prev seq v = tt
  IsChain-of_verify_from (r ∷ rows) prev seq v = (
    ground arith,
    ground arith,
    ground arith,
    IsChain-of_verify_from rows r.hash (seq + 1) (ground arith),
  )

  IsChain-append :
      (rows : List AuditRecord) (r : AuditRecord) (prev : String) (seq : ℕ)
      → IsChain prev seq rows
      → r.seq ≡ seq + length rows
      → r.prev_hash ≡ end_hash prev rows
      → hash_record h r.rest ≡ r.hash
      → IsChain prev seq (rows ++ r ∷ [])
  IsChain-append [] r prev seq c n p e = (omega arith, p, e, tt)
  IsChain-append (s ∷ rows) r prev seq (n', p', e', c) n p e =
      (n', p', e', IsChain-append rows r s.hash (seq + 1) c (omega arith) p e)

  IsChain-last :
      (rows : List AuditRecord) (r : AuditRecord) (prev : String) (seq : ℕ)
      → IsChain prev seq (r ∷ rows)
      → (next_seq (last (r ∷ rows)) ≡ seq + length (r ∷ rows))
        × (hash_or_genesis (last (r ∷ rows)) ≡ end_hash prev (r ∷ rows))
  IsChain-last [] r prev seq (n, p, e, c) = (omega arith, refl)
  IsChain-last (s ∷ rows) r prev seq (n, p, e, c) =
      let (a, b) = IsChain-last rows s r.hash (seq + 1) c in (omega arith, b)

  IsChain-bounds :
      (rows : List AuditRecord) (prev : String) (seq : ℕ)
      → IsChain prev seq rows
      → 0 < seq
      → (all (λ r. leb r.seq (seq + length rows)) rows ≡ true)
        × (all (λ r. ltb 0 r.seq) rows ≡ true)
  IsChain-bounds [] prev seq c pos = (refl, refl)
  IsChain-bounds (r ∷ rows) prev seq (n, p, e, c) pos =
      let (a, b) = IsChain-bounds rows r.hash (seq + 1) c (omega arith) in
      let same : seq + 1 + length rows ≡ seq + suc (length rows) = omega arith in
      let a' = subst (λ m. all (λ r. leb r.seq m) rows ≡ true) same a in
      (ground arith, ground arith)

  -- The records of every pairing form a chain from the genesis hash.
  abbrev pub IsLog : List AuditRecord → Type 0
  IsLog log = (p : String) → IsChain genesis_hash 1 (sort_by_seq (of_pairing p log))

  list_of_IsLog :
      (log : List AuditRecord) (p : String)
      → IsLog log
      → list log p 0 ≡ sort_by_seq (of_pairing p log)
  unfolding list
  list_of_IsLog log p l =
      let (a, b) = IsChain-bounds _ genesis_hash 1 (l p) (omega arith) in
      ap sort_by_seq (
        filter_of_all (λ r. ltb 0 r.seq) (of_pairing p log)
          (sym (all-sort_by_seq (λ r. ltb 0 r.seq) (of_pairing p log)) ∙ b))

  verify_records_of_IsChain :
      (rows : List AuditRecord)
      → IsChain genesis_hash 1 rows
      → ((verify_records h rows).valid ≡ true) × ((verify_records h rows).broken_at ≡ none)
  verify_records_of_IsChain [] c = (refl, refl)
  verify_records_of_IsChain (r ∷ rows) c =
      let e = verify_from_of_IsChain (r ∷ rows) genesis_hash 1 c in
      (ap (λ k. k.valid) e, ap (λ k. k.broken_at) e)

  -- The end of a chain that starts at genesis, as `head` finds it.
  IsChain-top :
      (rows : List AuditRecord)
      → IsChain genesis_hash 1 rows
      → (next_seq (last rows) ≡ 1 + length rows)
        × (hash_or_genesis (last rows) ≡ end_hash genesis_hash rows)
  IsChain-top [] c = (refl, refl)
  IsChain-top (r ∷ rows) c = IsChain-last rows r genesis_hash 1 c

  -- The records of a pairing after one more record.
  of_pairing-append_same :
      (log : List AuditRecord) (r : AuditRecord)
      → of_pairing r.pairing_id (log ++ r ∷ []) ≡ of_pairing r.pairing_id log ++ r ∷ []
  of_pairing-append_same log r =
      filter-append (λ s. s.pairing_id == r.pairing_id) log (r ∷ [])
      ∙ ap (λ rows. of_pairing r.pairing_id log ++ rows) (rw (==_refl r.pairing_id))

  of_pairing-append_other :
      (p : String) (log : List AuditRecord) (r : AuditRecord)
      → (r.pairing_id == p) ≡ false
      → of_pairing p (log ++ r ∷ []) ≡ of_pairing p log
  of_pairing-append_other p log r e =
      filter-append (λ s. s.pairing_id == p) log (r ∷ [])
      ∙ ap (λ rows. of_pairing p log ++ rows) (rw e)
      ∙ append-nil _

  append-IsChain :
      (log : List AuditRecord) (input : AppendInput) (now : ℕ)
      → IsLog log
      → IsChain genesis_hash 1
          (sort_by_seq (of_pairing input.pairing_id (append h log input now).0))
  unfolding append head
  append-IsChain log input now l =
      let sorted = sort_by_seq (of_pairing input.pairing_id log) in
      let r = record_after h (last sorted) input now in
      let (numbered, linked) = IsChain-top sorted (l input.pairing_id) in
      let (below, positive) =
        IsChain-bounds sorted genesis_hash 1 (l input.pairing_id) (omega arith) in
      let later : all (λ s. leb s.seq r.seq) (of_pairing input.pairing_id log) ≡ true =
        sym (all-sort_by_seq (λ s. leb s.seq r.seq) (of_pairing input.pairing_id log))
        ∙ subst (λ m. all (λ s. leb s.seq m) sorted ≡ true) (sym numbered) below in
      rw
        (of_pairing-append_same log r, sort_by_seq-append (of_pairing input.pairing_id log) r later)
        (IsChain-append sorted r genesis_hash 1 (l input.pairing_id) numbered linked refl)

  append-IsLog :
      (log : List AuditRecord) (input : AppendInput) (now : ℕ)
      → IsLog log
      → IsLog (append h log input now).0
  unfolding append
  append-IsLog log input now l p = elim (string_dec input.pairing_id p) [
    | yes e ↦
        subst (λ q. IsChain genesis_hash 1 (sort_by_seq (of_pairing q (append h log input now).0)))
          e (append-IsChain log input now l)
    | no ne ↦
        rw
          (of_pairing-append_other p log (record_after h (head log input.pairing_id) input now)
            (ground arith))
          (l p)
  ]

  -- The logs that the relay can write, starting from an empty table.
  pub data Logged : List AuditRecord → Type 0 where
    empty : Logged []
    appended :
        {log : List AuditRecord}
        → Logged log
        → (input : AppendInput) (now : ℕ) → Logged (append h log input now).0

  pub Logged-IsLog : {log : List AuditRecord} → Logged log → IsLog log
  Logged-IsLog empty = λ p. tt
  Logged-IsLog (appended {log = log} d input now) = append-IsLog log input now (Logged-IsLog d)

  -- The relay's own log always verifies: whatever was appended, for whichever pairings and in
  -- whatever order, the records of every pairing check out from genesis.
  pub verify-Logged :
      {log : List AuditRecord} (p : String)
      → Logged log
      → ((verify h log p).valid ≡ true) × ((verify h log p).broken_at ≡ none)
  unfolding verify
  verify-Logged {log} p d =
      let l = Logged-IsLog d in rw (list_of_IsLog log p l) (verify_records_of_IsChain _ (l p))
