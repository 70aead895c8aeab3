-- ===== src/Cloud/Room/Sound/Reached.antt =====
-- What holds after any calls of the methods of packages/relay-cf/src/pairingRoom.ts. The Worker calls
-- `initialize` once, on a new object, and sends a proposal to the object of its pairing.
use inzo.Prelude.{
  attempt_keeps, ℕ, ◌+◌, ◌≤◌, ◌≡◌, refl, ap, ◌∙◌, String, true, false, List, [], ◌∷◌, map, Option,
  err, arith, guard, length, leb, not, length-map, all, includes,
}
use inzo.Prelude.Json.{Json}
use inzo.Relay.Errors.{bad_request}
use inzo.Relay.Credential.Interface.{Crypto}
use inzo.Relay.Consent.{Assurance}
use inzo.Relay.Audit.{AuditActor, Hashing}
use inzo.Relay.Audit.Chain.{empty}
use inzo.Relay.Store.State.{PlanItem, max_members}
use inzo.Relay.Store.Messages.{is_blank}
use inzo.Relay.Store.Plans.{PlanHashing}
use inzo.Cloud.Room.{
  Room, Member, Plan, new_room, initialize, insert_member, get_pairing, member_pairing, add_member,
  subscribe, broadcast_revocation,
}
use inzo.Cloud.Room.Log.{Entry, append_audit}
use inzo.Cloud.Room.Thread.{add_message}
use inzo.Cloud.Room.Plans.{Proposed, propose_plan}
use inzo.Cloud.Room.Approving.{Signed, approve_plan, withdraw_consent, strip_consent}
use inzo.Cloud.Room.Progress.{update_item_status}
use inzo.Cloud.Room.Sound.{IsSound, owned, pair_keeps, append_entry-IsSound, with_members}
use inzo.Cloud.Room.Sound.Plans.{get_pairing-id, get_pairing-members, propose_plan-IsSound}
use inzo.Cloud.Room.Sound.Progress.{update_item_status-IsSound}
use inzo.Cloud.Room.Sound.Consents.{
  approve_plan-IsSound, withdraw_consent-IsSound, strip_consent-IsSound,
}

length-insert_member :
    (agent_id : String) (now : ℕ) (members : List Member)
    → length (insert_member agent_id now members) ≤ length members + 1
length-insert_member agent_id now [] = omega arith
length-insert_member agent_id now (m ∷ members) =
    ground (arith, length-insert_member agent_id now members)

bounded-insert_member :
    (agent_id : String) (now : ℕ) (members : List Member) (agents : List String)
    → length agents ≡ length members
    → leb max_members (length agents) ≡ false
    → length (insert_member agent_id now members) ≤ max_members
bounded-insert_member agent_id now members agents e room =
    ground (arith, length-insert_member agent_id now members)

includes-insert_member :
    (agent_id : String) (now : ℕ) (members : List Member) (a : String)
    → includes (map (λ (m : Member). m.agent_id) members) a ≡ true
    → includes (map (λ (m : Member). m.agent_id) (insert_member agent_id now members)) a ≡ true
includes-insert_member agent_id now [] a h = cc
includes-insert_member agent_id now (m ∷ members) a h =
    ground (arith, includes-insert_member agent_id now members a)

items-insert_member :
    (agent_id : String) (now : ℕ) (members : List Member) (items : List PlanItem)
    → all
        (λ (item : PlanItem). includes (map (λ (m : Member). m.agent_id) members) item.owner)
        items
      ≡ true
    → all
        (λ (item : PlanItem).
          includes
            (map (λ (m : Member). m.agent_id) (insert_member agent_id now members))
            item.owner)
        items
      ≡ true
items-insert_member agent_id now members [] h = refl
items-insert_member agent_id now members (item ∷ items) h = ground (
  arith,
  includes-insert_member agent_id now members item.owner,
  items-insert_member agent_id now members items,
)

owned-insert_member :
    (agent_id : String) (now : ℕ) (members : List Member) (plans : List Plan)
    → owned (map (λ (m : Member). m.agent_id) members) plans ≡ true
    → owned (map (λ (m : Member). m.agent_id) (insert_member agent_id now members)) plans ≡ true
owned-insert_member agent_id now members [] h = refl
owned-insert_member agent_id now members (plan ∷ plans) h = ground (
  arith,
  items-insert_member agent_id now members plan.items,
  owned-insert_member agent_id now members plans,
)

initialize-IsSound :
    (h : Hashing) (id code agent_a agent_b : String) (now : ℕ)
    → IsSound h id (initialize new_room id code agent_a agent_b now)
unfolding initialize
initialize-IsSound h id code agent_a agent_b now = record {
  row = record { id = id; code = code; agent_a = agent_a; agent_b = agent_b; created_at = now };
  paired = refl;
  named = refl;
  bounded = omega (
    arith,
    length-insert_member agent_b now (insert_member agent_a now []),
    length-insert_member agent_a now [],
  );
  logged = empty;
  own = refl;
  planned = refl;
  owners = refl;
  consistent = tt;
}

module _ (h : Hashing) (id : String) where
  add_member-IsSound :
      (r : Room) (agent_id : String) (now : ℕ)
      → IsSound h id r
      → IsSound h id (add_member r agent_id now).0
  unfolding add_member
  add_member-IsSound r agent_id now v =
      attempt_keeps (IsSound h id) r (get_pairing r) _ v λ pairing made.
        let counted =
          ap length (get_pairing-members h id r pairing v made)
          ∙ length-map (λ (m : Member). m.agent_id) r.members in
        pair_keeps (IsSound h id) (leb max_members (length pairing.members)) (r, err bad_request)
          (
            record r { members = insert_member agent_id now r.members },
            get_pairing (record r { members = insert_member agent_id now r.members }),
          )
          (λ full. v)
          (λ room.
            with_members v
              (bounded-insert_member agent_id now r.members pairing.members counted room)
              (owned-insert_member agent_id now r.members r.plans v.owners))

  add_message-IsSound :
      (trim : String → String) (r : Room) (from body message_id : String) (now : ℕ)
      → IsSound h id r
      → IsSound h id (add_message trim r from body message_id now).0
  unfolding add_message
  add_message-IsSound trim r from body message_id now v =
      attempt_keeps (IsSound h id) r (guard (not (is_blank trim body)) bad_request) _ v
        λ _ _. attempt_keeps (IsSound h id) r (member_pairing r from) _ v λ pairing member. v

  append_audit-IsSound :
      (r : Room) (e : Entry) (now : ℕ) → IsSound h id r → IsSound h id (append_audit h r e now).0
  unfolding append_audit
  append_audit-IsSound r e now v =
      attempt_keeps (IsSound h id) r (get_pairing r) _ v λ pairing made.
        rw (get_pairing-id h id r pairing v made) (append_entry-IsSound h id r e now v)

  subscribe-IsSound :
      (r : Room) (agent_id : String) → IsSound h id r → IsSound h id (subscribe r agent_id).0
  unfolding subscribe
  subscribe-IsSound r agent_id v =
      attempt_keeps (IsSound h id) r (get_pairing r) _ v λ pairing made. v

  broadcast_revocation-IsSound :
      (r : Room) (agent_id : String)
      → IsSound h id r
      → IsSound h id (broadcast_revocation r agent_id)
  unfolding broadcast_revocation
  broadcast_revocation-IsSound r agent_id v = v

-- The states of the object of a pairing.
pub data Reached (c : Crypto) (ph : PlanHashing) (trim : String → String) (id : String)
    : Room → Type 0 where
  made :
      (code agent_a agent_b : String) (now : ℕ)
      → Reached c ph trim id (initialize new_room id code agent_a agent_b now)
  joined :
      {r : Room}
      → Reached c ph trim id r
      → (agent_id : String) (now : ℕ) → Reached c ph trim id (add_member r agent_id now).0
  posted :
      {r : Room}
      → Reached c ph trim id r
      → (from body message_id : String) (now : ℕ)
      → Reached c ph trim id (add_message trim r from body message_id now).0
  proposed :
      {r : Room}
      → Reached c ph trim id r
      → (p : Proposed) (actor : AuditActor) (assurance : Assurance) (now : ℕ) → p.pairing_id ≡ id
      → Reached c ph trim id (propose_plan ph trim r p actor assurance now).0
  approved :
      {r : Room}
      → Reached c ph trim id r
      → (agent_id : String) (plan_version : Json) (consent : Option Signed) (now : ℕ)
      → Reached c ph trim id (approve_plan c ph r agent_id plan_version consent now).0
  updated :
      {r : Room}
      → Reached c ph trim id r
      → (agent_id : String) (item_index : ℕ) (status : String) (actor : AuditActor)
        (assurance : Assurance) (now : ℕ)
      → Reached c ph trim id
          (update_item_status ph.hashing r agent_id item_index status actor assurance now).0
  withdrawn :
      {r : Room}
      → Reached c ph trim id r
      → (principal_id : String) (actor : AuditActor) (assurance : Assurance) (now : ℕ)
      → Reached c ph trim id (withdraw_consent ph r principal_id actor assurance now).0
  stripped :
      {r : Room}
      → Reached c ph trim id r
      → (jtis : List String) (now : ℕ) → Reached c ph trim id (strip_consent r jtis now).0
  audited :
      {r : Room}
      → Reached c ph trim id r
      → (e : Entry) (now : ℕ) → Reached c ph trim id (append_audit ph.hashing r e now).0
  subscribed :
      {r : Room}
      → Reached c ph trim id r
      → (agent_id : String) → Reached c ph trim id (subscribe r agent_id).0
  revoked :
      {r : Room}
      → Reached c ph trim id r
      → (agent_id : String) → Reached c ph trim id (broadcast_revocation r agent_id)

-- After any calls, whatever they answered, the object keeps its pairing and has at most eight
-- members; it has at most one plan, whose dependencies point to earlier items, with no status of
-- another version; every consent record is consistent; its log is one that was only appended to.
pub Reached-IsSound :
    (c : Crypto) (ph : PlanHashing) (trim : String → String) (id : String) {r : Room}
    → Reached c ph trim id r
    → IsSound ph.hashing id r
Reached-IsSound c ph trim id (made code agent_a agent_b now) =
    initialize-IsSound ph.hashing id code agent_a agent_b now
Reached-IsSound c ph trim id (joined {r} s agent_id now) =
    add_member-IsSound ph.hashing id r agent_id now (Reached-IsSound c ph trim id s)
Reached-IsSound c ph trim id (posted {r} s from body message_id now) =
    add_message-IsSound ph.hashing id trim r from body message_id now
      (Reached-IsSound c ph trim id s)
Reached-IsSound c ph trim id (proposed {r} s p actor assurance now e) =
    propose_plan-IsSound ph id trim r p actor assurance now e (Reached-IsSound c ph trim id s)
Reached-IsSound c ph trim id (approved {r} s agent_id plan_version consent now) =
    approve_plan-IsSound c ph id r agent_id plan_version consent now
      (Reached-IsSound c ph trim id s)
Reached-IsSound c ph trim id (updated {r} s agent_id item_index status actor assurance now) =
    update_item_status-IsSound ph.hashing id r agent_id item_index status actor assurance now
      (Reached-IsSound c ph trim id s)
Reached-IsSound c ph trim id (withdrawn {r} s principal_id actor assurance now) =
    withdraw_consent-IsSound ph id r principal_id actor assurance now
      (Reached-IsSound c ph trim id s)
Reached-IsSound c ph trim id (stripped {r} s jtis now) =
    strip_consent-IsSound ph id r jtis now (Reached-IsSound c ph trim id s)
Reached-IsSound c ph trim id (audited {r} s e now) =
    append_audit-IsSound ph.hashing id r e now (Reached-IsSound c ph trim id s)
Reached-IsSound c ph trim id (subscribed {r} s agent_id) =
    subscribe-IsSound ph.hashing id r agent_id (Reached-IsSound c ph trim id s)
Reached-IsSound c ph trim id (revoked {r} s agent_id) =
    broadcast_revocation-IsSound ph.hashing id r agent_id (Reached-IsSound c ph trim id s)
