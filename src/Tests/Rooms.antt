-- ===== src/Tests/Rooms.antt =====
-- A channel with two members, one of them an operator, on the server of Tests.
use irc_relay_server.Prelude.{◌≡◌, refl, false, [], ◌∷◌}
use irc_relay_server.Prelude.Map.{nat_key, find, insert, member}
use irc_relay_server.Text.{str_key, text, to_lower, str_eq, str_less}
use irc_relay_server.Channel.{Channel, channel, has_member, is_operator, canonical_nick}
use irc_relay_server.Registry.{set_nickname, find_fd_by_nickname, state, client_state}
use irc_relay_server.World.{World}
use irc_relay_server.App.Support.{part_channel, find_nick}
use irc_relay_server.App.Channels.{kick}
use irc_relay_server.App.Channels.Departing.{is_in, part_channel-is_in, kick-is_in}
use irc_relay_server.Tests.{table_events, start}

abbrev dev : Channel
dev = record (channel (text "#dev")) { members = 5 ∷ 6 ∷ []; operators = 5 ∷ [] }

abbrev room_world : World table_events
room_world = record start {
  app = record start.app {
    channels = (text "#dev", dev) ∷ [];
    clients = set_nickname 6 (text "Bob") (set_nickname 5 (text "Alice") start.app.clients);
  };
}

part_channel-is_in_example :
    is_in (part_channel room_world 5 (text "#dev") []).app (text "#dev") 5 ≡ false
part_channel-is_in_example = part_channel-is_in room_world 5 (text "#dev") []

kick-is_in_example :
    is_in (kick room_world 5 (text "bob") (text "bye") dev).app (text "#dev") 6 ≡ false
unfolding find_nick find_fd_by_nickname find set_nickname insert text canonical_nick to_lower str_eq
    str_less is_operator has_member member state client_state
kick-is_in_example = kick-is_in room_world 5 6 (text "bob") (text "bye") dev refl refl refl
