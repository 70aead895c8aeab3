-- ===== src/Relay/Audit.antt =====
-- packages/relay/src/lib/audit.ts: the hash-chained log. The table is the list of its rows in the
-- order of insertion; a time is a number of milliseconds.
pub mod Sorting
pub mod Chain
pub mod Tamper
pub mod Retention
use inzo.Prelude.{
  ℕ, suc, ◌+◌, ◌-◌, ◌*◌, String, Bool, true, false, not, ◌&&◌, ◌||◌, List, [], ◌∷◌, ◌++◌, map,
  Option, none, some, eqb, leb, ltb, length, filter, all, dedup, ◌==◌, if◌then◌else◌,
}
use Prim.Native.String
use inzo.Prelude.Json.{Json}
use inzo.Relay.Consent.{Assurance}

pub record AuditActor : Type 0 where
  pub principal : Option String
  pub agent : Option String
  pub credential : Option String

-- `Omit<AuditRecord, "hash">`. An action is the text that names it.
pub record Unhashed : Type 0 where
  pub seq : ℕ
  pub at : ℕ
  pub pairing_id : String
  pub actor : AuditActor
  pub action : String
  pub assurance : Assurance
  pub detail : Json
  pub prev_hash : String

pub record AuditRecord : Type 0 where
  pub rest : Unhashed
  pub open rest use *
  pub hash : String

-- `createHash("sha256")` in hexadecimal, and `canonicalize` of a record.
pub record Hashing : Type 0 where
  pub sha256_hex : String → String
  pub canonicalize : Unhashed → String

abbrev pub genesis_hash : String
genesis_hash = "sha256:0000000000000000000000000000000000000000000000000000000000000000"

-- `ORDER BY seq ASC`
abbrev pub insert_by_seq : AuditRecord → List AuditRecord → List AuditRecord
insert_by_seq r [] = r ∷ []
insert_by_seq r (s ∷ rows) = if leb r.seq s.seq then r ∷ s ∷ rows else s ∷ insert_by_seq r rows

abbrev pub sort_by_seq : List AuditRecord → List AuditRecord
sort_by_seq [] = []
sort_by_seq (r ∷ rows) = insert_by_seq r (sort_by_seq rows)

abbrev pub of_pairing : String → List AuditRecord → List AuditRecord
of_pairing pairing_id = filter (λ r. r.pairing_id == pairing_id)

unfoldable pub list : List AuditRecord → String → (since : ℕ) → List AuditRecord
list log pairing_id since = sort_by_seq (filter (λ r. ltb since r.seq) (of_pairing pairing_id log))

abbrev pub last : List AuditRecord → Option AuditRecord
last [] = none
last (r ∷ []) = some r
last (r ∷ s ∷ rows) = last (s ∷ rows)

-- `ORDER BY seq DESC LIMIT 1`
unfoldable pub head : List AuditRecord → String → Option AuditRecord
head log pairing_id = last (sort_by_seq (of_pairing pairing_id log))

abbrev pub next_seq : Option AuditRecord → ℕ
next_seq none = 1
next_seq (some r) = r.seq + 1

abbrev pub hash_or_genesis : Option AuditRecord → String
hash_or_genesis none = genesis_hash
hash_or_genesis (some r) = r.hash

pub record AppendInput : Type 0 where
  pub pairing_id : String
  pub action : String
  pub actor : AuditActor
  pub assurance : Assurance
  pub detail : Json

pub record Check : Type 0 where
  pub valid : Bool
  pub broken_at : Option ℕ
  pub head : Option String

module _ (h : Hashing) where
  unfoldable pub hash_record : Unhashed → String
  hash_record u = String.◌++◌ "sha256:" (h.sha256_hex (String.◌++◌ u.prev_hash (h.canonicalize u)))

  -- The record that `append` inserts behind a given head.
  abbrev pub record_after : Option AuditRecord → AppendInput → ℕ → AuditRecord
  record_after top input now =
      let unhashed : Unhashed = record {
        seq = next_seq top;
        at = now;
        pairing_id = input.pairing_id;
        actor = input.actor;
        action = input.action;
        assurance = input.assurance;
        detail = input.detail;
        prev_hash = hash_or_genesis top;
      } in
      record { rest = unhashed; hash = hash_record unhashed }

  unfoldable pub append : List AuditRecord → AppendInput → ℕ → List AuditRecord × AuditRecord
  append log input now =
      let r = record_after (head log input.pairing_id) input now in (log ++ r ∷ [], r)

  -- The loop of `verify`, over the records, `prevHash` and `expectedSeq`.
  abbrev pub verify_from : List AuditRecord → String → ℕ → Check
  verify_from [] prev_hash expected_seq = record {
    valid = true;
    broken_at = none;
    head = some prev_hash;
  }
  verify_from (r ∷ rows) prev_hash expected_seq =
      let rest = verify_from rows r.hash (expected_seq + 1) in
      if eqb r.seq expected_seq && (r.prev_hash == prev_hash) && (hash_record r.rest == r.hash)
      then rest
      else record { valid = false; broken_at = some r.seq; head = none }

  abbrev pub verify_records : List AuditRecord → Check
  verify_records [] = record { valid = true; broken_at = none; head = none }
  verify_records (r ∷ rows) = verify_from (r ∷ rows) genesis_hash 1

  unfoldable pub verify : List AuditRecord → String → Check
  verify log pairing_id = verify_records (list log pairing_id 0)

-- The pairings whose newest record is older than the cutoff.
abbrev pub stale_pairings : List AuditRecord → (cutoff : ℕ) → List String
stale_pairings log cutoff =
    filter (λ p. all (λ r. ltb r.at cutoff) (of_pairing p log))
      (dedup (map (λ r. r.pairing_id) log))

-- One `DELETE` for each stale pairing; the second part counts the removed rows.
abbrev pub delete_pairings : List String → List AuditRecord → ℕ → List AuditRecord × ℕ
delete_pairings [] log removed = (log, removed)
delete_pairings (p ∷ ps) log removed =
    delete_pairings ps (filter (λ r. not (r.pairing_id == p)) log)
      (removed + length (of_pairing p log))

unfoldable pub prune : List AuditRecord → (retention_days now : ℕ) → List AuditRecord × ℕ
prune log retention_days now =
    delete_pairings (stale_pairings log (now - retention_days * 86_400_000)) log 0
