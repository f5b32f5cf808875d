-- ===== src/App/Relay.antt =====
-- How the application writes to a client (`sendRaw` of src/ApplicationSupport.cpp) and forgets one
-- (`removeClientState`), tied to `Server::sendTo` and `Server::disconnect`, which call back.
-- Every disconnection takes a connection out of the table before it goes on, so the nesting of
-- these calls is at most the number of connections: that is the fuel.
pub mod Leaving
pub mod Steps
pub mod Fuel
pub mod Results
pub mod Refreshing
use irc_relay_server.Prelude.{
  ℕ, zero, suc, ◌≡◌, refl, Bool, true, false, ◌&&◌, Option, none, some, List, [], ◌∷◌,
  if◌then◌else◌, not, is_empty, length,
}
use irc_relay_server.Prelude.Map.{
  Map, nat_key, find, erase, insert_all, set_insert, set_erase, ◌==◌, contains, modify,
}
use irc_relay_server.Text.{Str, str_key, text}
use irc_relay_server.Channel.{Channel, has_member, remove_member, empty}
use irc_relay_server.Registry.{
  ClientState, ClientRegistry, find_client, erase_client, find_fd_by_nickname, contains_client,
}
use irc_relay_server.Replies.{hostmask, format_message, numeric, code}
use irc_relay_server.Connection.{Connection}
use irc_relay_server.Events.{EventManager}
use irc_relay_server.World.{App, World}
use irc_relay_server.Server.{disconnect, send_to}

unfoldable pub prefix_for_client : App → ClientState → Str
prefix_for_client app client =
    if is_empty client.nick then app.server_name else hostmask client.nick client.user client.host

unfoldable pub prefix_for : App → ℕ → Str
prefix_for app fd = elim (find_client app.clients fd) [
  | none ↦ app.server_name
  | some client ↦ prefix_for_client app client
]

unfoldable pub reply_target : App → ℕ → Str
reply_target app fd = elim (find_client app.clients fd) [
  | none ↦ text "*"
  | some client ↦ if is_empty client.nick then text "*" else client.nick
]

-- The members of the channels that `fd` is in.
unfoldable pub common_members : ℕ → Map Str Channel → List ℕ → List ℕ
common_members fd [] targets = targets
common_members fd ((name, c) ∷ m) targets =
    common_members fd m (if has_member c fd then insert_all c.members targets else targets)

-- The same without `fd` itself, as `removeClientState` collects them.
unfoldable pub other_members : ℕ → List ℕ → List ℕ → List ℕ
other_members fd [] peers = peers
other_members fd (k ∷ ks) peers =
    other_members fd ks (if k == fd then peers else set_insert k peers)

unfoldable pub peers_of : ℕ → Map Str Channel → List ℕ → List ℕ
peers_of fd [] peers = peers
peers_of fd ((name, c) ∷ m) peers =
    peers_of fd m (if has_member c fd then other_members fd c.members peers else peers)

-- The two loops at the end of `removeClientState`.
unfoldable pub leave_channels : ℕ → Map Str Channel → Map Str Channel
leave_channels fd [] = []
leave_channels fd ((name, c) ∷ m) =
    (name, (if has_member c fd then remove_member fd c else c)) ∷ leave_channels fd m

unfoldable pub emptied_by : ℕ → Map Str Channel → List Str
emptied_by fd [] = []
emptied_by fd ((name, c) ∷ m) =
    if has_member c fd && empty (remove_member fd c)
    then name ∷ emptied_by fd m
    else emptied_by fd m

unfoldable pub erase_all : List Str → Map Str Channel → Map Str Channel
erase_all [] m = m
erase_all (name ∷ names) m = erase_all names (erase name m)

-- What is left of the application's state once the client is forgotten.
unfoldable pub forget : ℕ → App → App
forget fd app = record app {
  channels = erase_all (emptied_by fd app.channels) (leave_channels fd app.channels);
  clients = erase_client fd app.clients;
}

module _ ⦃em : EventManager⦄ where
  abbrev pub with_app : App → World em → World em
  with_app app w = record w { app = app }

  module _ (send : World em → ℕ → Str → World em × Bool) where
    -- A loop of `sendRaw` whose results are ignored.
    unfoldable pub send_each : World em → Str → List ℕ → World em
    send_each w line [] = w
    send_each w line (fd ∷ fds) = send_each (send w fd line).0 line fds

    unfoldable pub notify_quit : World em → ℕ → ClientState → Str → World em
    notify_quit w fd client reason =
        send_each w (format_message (prefix_for_client w.app client) (text "QUIT") (reason ∷ []))
          (peers_of fd w.app.channels [])

    unfoldable pub remove_client_state : World em → ℕ → Str → Bool → World em
    remove_client_state w fd reason notify_peers = elim (find_client w.app.clients fd) [
      | none ↦ w
      | some client ↦
          let notified =
            if notify_peers && (client.registered && not (is_empty client.nick))
            then notify_quit w fd client reason
            else w in
          with_app (forget fd notified.app) notified
    ]

    unfoldable pub on_disconnect : World em → Connection → Str → World em
    on_disconnect w c reason = remove_client_state w c.fd reason true

  unfoldable pub send_within : ℕ → World em → ℕ → Str → World em × Bool
  send_within zero w fd line = (w, false)
  send_within (suc fuel) w fd line = send_to (on_disconnect (send_within fuel)) w fd line

  unfoldable pub fuel_for : World em → ℕ
  fuel_for w = suc (length w.server.connections)

  unfoldable pub send_raw : World em → ℕ → Str → World em × Bool
  send_raw w fd line = send_within (fuel_for w) w fd line

  -- `Server::disconnect` with the application's handler registered.
  unfoldable pub drop_client : World em → ℕ → Str → World em
  drop_client w fd reason = disconnect (on_disconnect (send_within (fuel_for w))) w fd reason
