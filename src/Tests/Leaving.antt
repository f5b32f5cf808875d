-- ===== src/Tests/Leaving.antt =====
-- Writes and disconnections, run on the server of Tests.
use irc_relay_server.Prelude.{refl, true}
use irc_relay_server.Prelude.Map.{nat_key, find, insert, modify}
use irc_relay_server.Text.{Str, text}
use irc_relay_server.Message.{trim_frame}
use irc_relay_server.Registry.{ClientState, client_state, find_client, put_state}
use irc_relay_server.Connection.{connection, wants_write, queue_line, pending_bytes}
use irc_relay_server.World.{World}
use irc_relay_server.Server.{
  find_connection, refresh_interest, interests_for, send_to, after_queue, modify_connection,
  update_interest, set_events,
}
use irc_relay_server.App.Relay.Refreshing.{Kept, refresh_interest-Kept}
use irc_relay_server.EventLoop.{refresh}
use irc_relay_server.App.Relay.{send_raw, send_within, drop_client, fuel_for}
use irc_relay_server.App.Relay.Leaving.{IsGone, drop_client-IsGone}
use irc_relay_server.App.Relay.Results.{Queued, send_raw-true}
use irc_relay_server.App.Support.{with_client}
use irc_relay_server.Tests.{table_events, start, connection_5}

abbrev greeting : Str
greeting = text "NOTICE :hi"

abbrev alice : ClientState
alice = record client_state { nick = text "alice"; has_nick = true }

abbrev with_alice : World table_events
with_alice = with_client 5 alice start

drop_client-IsGone_example : IsGone 5 (drop_client with_alice 5 (text "bye")).app
unfolding find_connection find_client find insert put_state connection
drop_client-IsGone_example =
    drop_client-IsGone with_alice 5 (text "bye") connection_5 alice refl refl refl

send_raw-true_example : Queued start 5 greeting (send_raw start 5 greeting).0
unfolding send_raw fuel_for send_within send_to find_connection find after_queue refresh_interest
    update_interest set_events modify_connection modify queue_line pending_bytes trim_frame
    connection wants_write interests_for text insert
send_raw-true_example = send_raw-true start 5 greeting refl

refresh_interest-Kept_example : Kept true (refresh start 5).0 5 connection_5
unfolding find_connection find refresh refresh_interest update_interest set_events connection
    wants_write interests_for insert
refresh_interest-Kept_example = refresh_interest-Kept (fuel_for start) start 5 connection_5 refl
