-- ===== src/Cloud/Room/Usage/Agreement.antt =====
-- Usage of packages/relay-cf/src/pairingRoom.ts against packages/relay/src/lib/store.ts.
use inzo.Prelude.{◌≡◌, String, ok, filter, ◌==◌}
use inzo.Relay.Store.State.{Store, Pairing}
use inzo.Relay.Store.State
use inzo.Relay.Runway.{Numbers}
use inzo.Relay.Usage
use inzo.Cloud.Room.{Room, get_pairing}
use inzo.Cloud.Room.Usage.{Ledger}

module _ (n : Numbers) where
  -- The object of a pairing and the Node relay hold the same pairing and the same reports of it.
  abbrev pub Mirrors : String → Usage.Ledger n → Ledger n → Type 0
  Mirrors id node cloud =
      (pairing : Pairing) × (State.get_pairing node.store id ≡ ok pairing)
      × (get_pairing cloud.room ≡ ok pairing)
      × (pairing.id ≡ id)
      × (filter (λ r. r.pairing_id == id) node.reports ≡ cloud.reports)
