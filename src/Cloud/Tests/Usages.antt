-- ===== src/Cloud/Tests/Usages.antt =====
-- An example for the usage reports of the pairing object.
use inzo.Prelude.{[], ◌∷◌, ◌++◌, some}
use inzo.Relay.Tests.Usages.{whole, report, earlier}
use inzo.Relay.Usage
use inzo.Relay.Store.State
use inzo.Relay.Usage.{next_budget}
use inzo.Cloud.Room.{Room, new_room, broadcast}
use inzo.Cloud.Room.Usage.{Ledger}

abbrev room : Room
room = record new_room {
  pairing =
      some (record { id = "p"; code = "C"; agent_a = "ada"; agent_b = "bob"; created_at = 1 });
  members =
      record { agent_id = "ada"; joined_at = 1 } ∷ record { agent_id = "bob"; joined_at = 2 } ∷ [];
}

abbrev object : Ledger whole
object = record { room = room; budgets = []; reports = earlier }

abbrev told : Ledger whole
told = record {
  room = broadcast room "usage.reported";
  budgets = [];
  reports = earlier ++ report "ada" 250 9 ∷ [];
}
