-- ===== src/Tests/Timing.antt =====
-- A client that has been silent.
use irc_relay_server.Prelude.{◌≡◌, refl, true, some, [], ◌∷◌, ◌*◌}
use irc_relay_server.Prelude.Map.{nat_key, find, member, mapped, modify, insert}
use irc_relay_server.Message.{trim_frame, prefix_text, needs_trailing_marker}
use irc_relay_server.Replies.{error, format_message, reply_params}
use irc_relay_server.Connection.{queue_line, pending_bytes, connection, wants_write}
use irc_relay_server.Connection.{request_close as close_connection}
use irc_relay_server.Server.{
  find_connection, set_events, send_to, after_queue, modify_connection, refresh_interest,
  interests_for, update_interest,
}
use irc_relay_server.App.Relay.{send_raw, send_within, fuel_for}
use irc_relay_server.App.Dispatch.Farewell.{all_told, dismissed, shutdown-IsClosing, shutdown-find}
use irc_relay_server.Text.{text}
use irc_relay_server.Registry.{ClientState, client_state, second, find_client, contains_client, fds}
use irc_relay_server.World.{World}
use irc_relay_server.App.Dispatch.{maintain_client, shutdown}
use irc_relay_server.App.Dispatch.Timers.{IsAsked, IsClosing, maintain_client-Maintained}
use irc_relay_server.Tests.{table_events, start, connection_5}

abbrev silent : ClientState
silent = record client_state {
  fd = some 5;
  nick = text "ann";
  registered = true;
  last_activity_at = 7;
}

abbrev silent_world : World table_events
silent_world = record start {
  app = record start.app {
    clients = record { states = (5, silent) ∷ []; nickname_index = (text "ann", 5) ∷ [] };
  };
}

maintain_client-Maintained_example :
    IsAsked silent_world 5 silent (200 * second) (maintain_client silent_world 5 (200 * second))
unfolding find_client find client_state
maintain_client-Maintained_example =
    maintain_client-Maintained silent_world 5 silent (200 * second) refl

shutdown-IsClosing_example : IsClosing (shutdown silent_world (text "bye")) 5
unfolding contains_client find_client find
shutdown-IsClosing_example = shutdown-IsClosing silent_world (text "bye") 5 refl

silent_world-all_told : all_told silent_world (text "bye") (5 ∷ []) ≡ true
unfolding all_told send_raw send_within fuel_for send_to find_connection find after_queue queue_line
    pending_bytes connection trim_frame close_connection wants_write modify_connection modify
    refresh_interest interests_for update_interest set_events insert text error format_message
    prefix_text reply_params needs_trailing_marker
silent_world-all_told = refl

shutdown-find_example :
    find 5 (shutdown silent_world (text "bye")).server.connections
    ≡ mapped (dismissed (text "bye")) (some connection_5)
unfolding contains_client find_client find fds member
shutdown-find_example = shutdown-find silent_world (text "bye") 5 (refl, tt) silent_world-all_told
