-- ===== src/Cloud/Room/Log.antt =====
-- The audit log of packages/relay-cf/src/pairingRoom.ts: `appendAudit` and `getAudit`.
use inzo.Prelude.{
  ℕ, ◌+◌, String, Bool, ◌&&◌, List, [], ◌∷◌, ◌++◌, Option, none, some, Result, ok, attempt, filter,
  eqb, ltb, ◌==◌, if◌then◌else◌, is_none, is_empty,
}
use inzo.Prelude.Json.{Json}
use inzo.Relay.Errors.{Error}
use inzo.Relay.Consent.{Assurance}
use inzo.Relay.Audit.{
  AuditActor, AuditRecord, AppendInput, Hashing, genesis_hash, sort_by_seq, last, record_after,
  hash_record,
}
use inzo.Cloud.Room.{Room, get_pairing}

-- What the Worker or a method says of an event.
pub record Entry : Type 0 where
  pub action : String
  pub actor : AuditActor
  pub assurance : Assurance
  pub detail : Json

abbrev pub append_input : String → Entry → AppendInput
append_input pairing_id e = record {
  pairing_id = pairing_id;
  action = e.action;
  actor = e.actor;
  assurance = e.assurance;
  detail = e.detail;
}

-- `ORDER BY seq DESC LIMIT 1`
abbrev pub audit_head : Room → Option AuditRecord
audit_head r = last (sort_by_seq r.audit)

-- `getAudit`; `brokenAt` is the result of the loop.
pub record AuditCheck : Type 0 where
  pub records : List AuditRecord
  pub chain_valid : Bool
  pub broken_at : Option ℕ
  pub head : Option String

module _ (h : Hashing) where
  -- The insertion, where the pairing is known.
  unfoldable pub append_entry : Room → String → Entry → (now : ℕ) → Room
  append_entry r pairing_id e now = record r {
    audit = r.audit ++ record_after h (audit_head r) (append_input pairing_id e) now ∷ [];
  }

  unfoldable pub append_audit : Room → Entry → (now : ℕ) → Room × Result Error AuditRecord
  append_audit r e now = attempt r (get_pairing r) λ pairing. (
    append_entry r pairing.id e now,
    ok (record_after h (audit_head r) (append_input pairing.id e) now),
  )

  -- The loop: where it breaks, and `prevHash` at its end.
  abbrev pub check_rows : List AuditRecord → String → ℕ → Option ℕ × String
  check_rows [] prev_hash expected_seq = (none, prev_hash)
  check_rows (r ∷ rows) prev_hash expected_seq =
      let rest = check_rows rows r.hash (expected_seq + 1) in
      if eqb r.seq expected_seq && (r.prev_hash == prev_hash) && (hash_record h r.rest == r.hash)
      then rest
      else (some r.seq, prev_hash)

  unfoldable pub get_audit : Room → (since : ℕ) → AuditCheck
  get_audit r since =
      let rows = sort_by_seq r.audit in
      let (broken_at, prev_hash) = check_rows rows genesis_hash 1 in
      record {
        records = sort_by_seq (filter (λ row. ltb since row.seq) r.audit);
        chain_valid = is_none broken_at;
        broken_at = broken_at;
        head = if is_none broken_at then (if is_empty rows then none else some prev_hash) else none;
      }
