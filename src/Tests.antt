-- ===== src/Tests.antt =====
-- A small server to run the model on: the event backend is a table of interests, and two clients
-- are connected, neither of which has registered.
pub mod Serving
pub mod Nicknames
pub mod Joining
pub mod Timing
pub mod Leaving
pub mod Buffers
pub mod Names
pub mod Lines
pub mod Runs
pub mod Rooms
pub mod Backends
pub mod Ending
pub mod Reaching
use irc_relay_server.Prelude.{
  ℕ, ◌≡◌, refl, ◌≢◌, Bool, true, false, Option, none, some, List, [], ◌∷◌, if◌then◌else◌, arith,
  ==_iff, Bool-cases, inl, inr,
}
use irc_relay_server.Prelude.{◌==◌ as nat_beq}
use irc_relay_server.Prelude.Map.{Map, nat_key, find, insert, erase, contains, find-insert}
use irc_relay_server.Text.{Str, text}
use irc_relay_server.Registry.{ClientState, find_client}
use irc_relay_server.Registry.Index.{IsIndexed}
use irc_relay_server.RuntimeConfig.{runtime_config, server_config}
use irc_relay_server.Connection.{Connection, connection}
use irc_relay_server.Events.{EventManager, EventInterest}
use irc_relay_server.World.{App, World, Server}
use irc_relay_server.App.Consistent.{IsConsistent}

-- An update of a descriptor that is not registered fails.
abbrev pub update_table : Map ℕ EventInterest → ℕ → EventInterest → Map ℕ EventInterest × Bool
update_table s fd i = if contains fd s then (insert fd i s, true) else (s, false)

pub update_table-updated :
    (s : Map ℕ EventInterest) (fd : ℕ) (i : EventInterest)
    → i ≢ 0
    → (update_table s fd i).1 ≡ true
    → find fd (update_table s fd i).0 ≡ some i
update_table-updated s fd i ne t = ground (arith, t, find-insert fd fd i s, ==_iff fd fd)

pub update_table-other :
    (s : Map ℕ EventInterest) (fd other : ℕ) (i : EventInterest)
    → fd ≢ other
    → find other (update_table s fd i).0 ≡ find other s
update_table-other s fd other i ne = ground (arith, ne, find-insert fd other i s, ==_iff fd other)

instance abbrev pub table_events : EventManager
table_events = record {
  State = Map ℕ EventInterest;
  interest = λ s fd. find fd s;
  add_fd = λ s fd i. (insert fd i s, true);
  update_fd = update_table;
  remove_fd = λ s fd. (erase fd s, true);
  updated = update_table-updated;
  update_other = update_table-other;
}

abbrev pub empty_app : App
empty_app = record {
  password = [];
  runtime = runtime_config;
  server_name = text "irc";
  clients = record { states = []; nickname_index = [] };
  channels = [];
  metrics = record {
    commands_handled = 0;
    messages_relayed = 0;
    rooms_created = 0;
    rate_limited_clients = 0;
    idle_timeouts = 0;
    heartbeat_pings = 0;
  };
  next_heartbeat_token = 0;
}

abbrev pub connection_5 : Connection
connection_5 = connection 5 (text "10.0.0.5") 512 1024

abbrev pub connection_6 : Connection
connection_6 = connection 6 (text "10.0.0.6") 512 1024

abbrev pub start : World table_events
start = record {
  app = empty_app;
  server = record {
    config = server_config;
    listen_fd = some 4;
    has_manager = true;
    events = (5, 1) ∷ (6, 1) ∷ [];
    connections = (5, connection_5) ∷ (6, connection_6) ∷ [];
    running = true;
    stop_requested = false;
    metrics = record {
      accepted_connections = 2;
      closed_connections = 0;
      lines_received = 0;
      outbound_queue_drops = 0;
    };
  };
}

pub start-IsConsistent : IsConsistent start.app
unfolding find find_client
start-IsConsistent = record {
  rooms = λ name c e. cc;
  clients = λ fd c e. cc;
  indexed = record { sound = λ n fd e. cc; complete = λ n fd e. cc };
}
