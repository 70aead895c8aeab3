-- ===== src/Relay/Audit/Sorting.antt =====
-- `ORDER BY seq` on a table to which rows are appended.
use inzo.Prelude.{
  ◌≡◌, refl, ap, ◌∙◌, Bool, true, ◌&&◌, List, [], ◌∷◌, ◌++◌, arith, all, leb, and_left, and_right,
}
use inzo.Relay.Audit.{AuditRecord, insert_by_seq, sort_by_seq}

all-insert_by_seq :
    (p : AuditRecord → Bool) (r : AuditRecord) (rows : List AuditRecord)
    → all p (insert_by_seq r rows) ≡ (p r && all p rows)
all-insert_by_seq p r [] = refl
all-insert_by_seq p r (s ∷ rows) = ground (arith, all-insert_by_seq p r rows)

pub all-sort_by_seq :
    (p : AuditRecord → Bool) (rows : List AuditRecord) → all p (sort_by_seq rows) ≡ all p rows
all-sort_by_seq p [] = refl
all-sort_by_seq p (r ∷ rows) =
    all-insert_by_seq p r (sort_by_seq rows) ∙ ap (λ b. p r && b) (all-sort_by_seq p rows)

insert_by_seq-append :
    (r last : AuditRecord) (rows : List AuditRecord)
    → leb r.seq last.seq ≡ true
    → insert_by_seq r (rows ++ last ∷ []) ≡ insert_by_seq r rows ++ last ∷ []
insert_by_seq-append r last [] h = rw h
insert_by_seq-append r last (s ∷ rows) h = ground (arith, insert_by_seq-append r last rows)

-- A row that comes last by its number may be appended after sorting.
pub sort_by_seq-append :
    (rows : List AuditRecord) (last : AuditRecord)
    → all (λ r. leb r.seq last.seq) rows ≡ true
    → sort_by_seq (rows ++ last ∷ []) ≡ sort_by_seq rows ++ last ∷ []
sort_by_seq-append [] last h = refl
sort_by_seq-append (r ∷ rows) last h =
    ap (insert_by_seq r) (sort_by_seq-append rows last (and_right _ _ h))
    ∙ insert_by_seq-append r last (sort_by_seq rows) (and_left _ _ h)
