-- ===== src/Tests/Joining.antt =====
-- A client enters the channel of another.
use irc_relay_server.Prelude.{◌≡◌, refl, true, some, [], ◌∷◌}
use irc_relay_server.Text.{text, str_eq, decimal, decimal_from}
use irc_relay_server.Prelude.Map.{find, insert, modify, member, set_insert}
use irc_relay_server.Channel.{
  Channel, channel, is_valid_name, has_member, clear_invite, add_member, empty, is_operator,
}
use irc_relay_server.Message.{trim_frame, prefix_text, needs_trailing_marker}
use irc_relay_server.Registry.{ClientState, client_state, find_client, contains_client}
use irc_relay_server.Replies.{hostmask, format_message, reply_params, numeric, code}
use irc_relay_server.Connection.{queue_line, pending_bytes, connection, request_close, wants_write}
use irc_relay_server.Server.{
  find_connection, set_events, send_to, after_queue, modify_connection, refresh_interest,
  interests_for, update_interest,
}
use irc_relay_server.App.Relay.{
  send_raw, send_within, fuel_for, send_each, prefix_for, prefix_for_client, reply_target,
}
use irc_relay_server.App.Support.{
  ensure_channel, modify_channel, broadcast_to_channel, send_topic_reply, send_numeric, send_names,
  names_of, join_words,
}
use irc_relay_server.World.{World}
use irc_relay_server.App.Channels.{join, join_channel, enter}
use irc_relay_server.App.Channels.Departing.{is_in}
use irc_relay_server.App.Channels.Admission.{may_join, join-may_join}
use irc_relay_server.App.Channels.Officers.{is_officer, join-is_officer}
use irc_relay_server.Tests.{table_events, start}

abbrev ann : ClientState
ann = record client_state { fd = some 5; nick = text "ann"; registered = true }

abbrev bob : ClientState
bob = record client_state { fd = some 6; nick = text "bob"; registered = true }

abbrev bobs_room : Channel
bobs_room = record (channel (text "#a")) { members = 6 ∷ []; operators = 6 ∷ [] }

abbrev before_join : World table_events
before_join = record start {
  app = record start.app {
    clients = record {
      states = (5, ann) ∷ (6, bob) ∷ [];
      nickname_index = (text "ann", 5) ∷ (text "bob", 6) ∷ [];
    };
    channels = (text "#a", bobs_room) ∷ [];
  };
}

abbrev after_join : World table_events
after_join = (join 5 before_join (text "#a")).0

after_join-members :
    (is_in after_join.app (text "#a") 5 ≡ true) × (is_officer after_join.app (text "#a") 6 ≡ true)
unfolding is_in is_officer join is_valid_name text find ensure_channel insert str_eq join_channel
    has_member member find_client enter modify_channel modify clear_invite add_member empty
    broadcast_to_channel send_each prefix_for prefix_for_client hostmask format_message prefix_text
    reply_params needs_trailing_marker send_raw send_within fuel_for send_to find_connection
    after_queue queue_line pending_bytes connection trim_frame request_close wants_write
    modify_connection refresh_interest interests_for update_interest set_events contains_client
    send_topic_reply send_numeric numeric reply_target send_names names_of join_words client_state
    set_insert code decimal decimal_from is_operator
after_join-members = (refl, refl)

join-may_join_example : may_join before_join.app 5 (text "#a") ≡ true
join-may_join_example = join-may_join before_join 5 (text "#a") after_join-members.0

join-is_officer_example : is_operator bobs_room 6 ≡ true
unfolding find empty str_eq text
join-is_officer_example =
    join-is_officer before_join 5 6 (text "#a") bobs_room refl refl after_join-members.1
