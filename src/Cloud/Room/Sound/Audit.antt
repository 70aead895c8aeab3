-- ===== src/Cloud/Room/Sound/Audit.antt =====
-- `getAudit` of packages/relay-cf/src/pairingRoom.ts on the log that its own methods write.
use inzo.Prelude.{ℕ, ◌+◌, ◌≡◌, refl, ap, subst, String, true, List, [], ◌∷◌, none, arith, is_none}
use inzo.Relay.Credential.Interface.{Crypto}
use inzo.Relay.Audit.{AuditRecord, Hashing, genesis_hash, sort_by_seq}
use inzo.Relay.Audit.Chain.{IsChain, Logged-IsLog}
use inzo.Relay.Store.Plans.{PlanHashing}
use inzo.Cloud.Room.{Room}
use inzo.Cloud.Room.Log.{check_rows, get_audit}
use inzo.Cloud.Room.Sound.Reached.{Reached, Reached-IsSound}

module _ (h : Hashing) where
  check_rows_of_IsChain :
      (rows : List AuditRecord) (prev : String) (seq : ℕ)
      → IsChain h prev seq rows
      → (check_rows h rows prev seq).0 ≡ none
  check_rows_of_IsChain [] prev seq c = refl
  check_rows_of_IsChain (r ∷ rows) prev seq (numbered, linked, hashed, rest) =
      ground (arith, check_rows_of_IsChain rows r.hash (seq + 1) rest)

-- The object's log verifies in every state that its methods can reach.
pub get_audit-Reached :
    (c : Crypto) (ph : PlanHashing) (trim : String → String) (id : String) {r : Room} (since : ℕ)
    → Reached c ph trim id r
    → ((get_audit ph.hashing r since).chain_valid ≡ true)
      × ((get_audit ph.hashing r since).broken_at ≡ none)
unfolding get_audit
get_audit-Reached c ph trim id {r} since s =
    let v = Reached-IsSound c ph trim id s in
    let chain =
      subst (λ rows. IsChain ph.hashing genesis_hash 1 (sort_by_seq rows)) v.own
        (Logged-IsLog ph.hashing v.logged id) in
    let e = check_rows_of_IsChain ph.hashing (sort_by_seq r.audit) genesis_hash 1 chain in
    (ap is_none e, e)
