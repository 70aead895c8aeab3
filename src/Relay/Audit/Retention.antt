-- ===== src/Relay/Audit/Retention.antt =====
-- Pruning removes whole pairings or nothing of them.
use inzo.Prelude.{
  ℕ, ◌+◌, ◌-◌, ◌*◌, ◌≡◌, refl, ap, ◌∙◌, String, Bool, true, false, not, ◌&&◌, List, [], ◌∷◌, map,
  arith, ltb, length, filter, all, includes, includes-filter, includes-dedup, dedup, ◌==◌,
  if◌then◌else◌,
}
use inzo.Relay.Audit.{AuditRecord, of_pairing, stale_pairings, delete_pairings, prune}

of_pairing-delete :
    (p q : String) (log : List AuditRecord)
    → of_pairing q (filter (λ r. not (r.pairing_id == p)) log)
      ≡ (if p == q then [] else of_pairing q log)
of_pairing-delete p q [] = ground arith
of_pairing-delete p q (r ∷ log) = ground (arith, of_pairing-delete p q log)

of_pairing-delete_pairings :
    (ps : List String) (q : String) (log : List AuditRecord) (removed : ℕ)
    → of_pairing q (delete_pairings ps log removed).0
      ≡ (if includes ps q then [] else of_pairing q log)
of_pairing-delete_pairings [] q log removed = refl
of_pairing-delete_pairings (p ∷ ps) q log removed = ground (
  arith,
  of_pairing-delete_pairings ps q (filter (λ r. not (r.pairing_id == p)) log)
      (removed + length (of_pairing p log)),
  of_pairing-delete p q log,
)

-- The pairings of a log are those that have a record.
includes-pairings :
    (q : String) (log : List AuditRecord)
    → includes (map (λ r. r.pairing_id) log) q ≡ false
    → of_pairing q log ≡ []
includes-pairings q [] e = refl
includes-pairings q (r ∷ log) e = ground (arith, includes-pairings q log)

stale_or_gone :
    (deleted named stale : Bool) (rows : List AuditRecord)
    → deleted ≡ (named && stale)
    → (named ≡ false → rows ≡ [])
    → ◌≡◌ {A = List AuditRecord} (if deleted then [] else rows) (if stale then [] else rows)
stale_or_gone deleted true stale rows e h = rw e refl
stale_or_gone deleted false stale rows e h = ground arith

-- Pruning keeps all the records of a pairing of which at least one is young enough, and removes all
-- the records of every other pairing.
pub of_pairing-prune :
    (log : List AuditRecord) (retention_days now : ℕ) (q : String)
    → of_pairing q (prune log retention_days now).0 ≡ (
        if all (λ r. ltb r.at (now - retention_days * 86_400_000)) (of_pairing q log)
        then []
        else of_pairing q log)
unfolding prune
of_pairing-prune log retention_days now q =
    let names = map (λ (r : AuditRecord). r.pairing_id) log in
    let cutoff = now - retention_days * 86_400_000 in
    of_pairing-delete_pairings (stale_pairings log cutoff) q log 0
    ∙ stale_or_gone _ _ _ (of_pairing q log)
        (includes-filter (λ p. all (λ r. ltb r.at cutoff) (of_pairing p log)) (dedup names) q
          ∙ ap (λ b. b && all (λ r. ltb r.at cutoff) (of_pairing q log)) (includes-dedup names q))
        (includes-pairings q log)
