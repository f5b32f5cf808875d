-- ===== src/Tests/Serving.antt =====
-- The handlers, run on the server of Tests.
use irc_relay_server.Prelude.{◌≡◌, true, false, [], ◌∷◌, ◌++◌, arith}
use irc_relay_server.Prelude.Map.{nat_key, find}
use irc_relay_server.Text.{Str, text}
use irc_relay_server.Registry.{client_state, state}
use irc_relay_server.Connection.{received}
use irc_relay_server.Events.{Event}
use irc_relay_server.World.{World}
use irc_relay_server.Server.{disconnect, send_to}
use irc_relay_server.App.Relay.{send_raw, on_disconnect, drop_client}
use irc_relay_server.App.Relay.Fuel.{send_raw-fixed_point, drop_client-fixed_point}
use irc_relay_server.App.Consistent.{IsConsistent, drop_client-IsConsistent}
use irc_relay_server.App.Support.{with_client}
use irc_relay_server.App.Dispatch.{on_line, on_tick, record_command, trim_window}
use irc_relay_server.App.Dispatch.RateLimit.{record_command-accepts, trim_window-recent}
use irc_relay_server.EventLoop.Consistency.{
  on_line-IsConsistent, on_tick-IsConsistent, handle_client_event-IsConsistent,
}
use irc_relay_server.EventLoop.{Outside, handle_client_event}
use irc_relay_server.Tests.{table_events, start, start-IsConsistent, connection_5}

abbrev nick_line : Str
nick_line = text "NICK al"

-- The server once the client at 5 has sent a nickname.
abbrev named_world : World table_events
named_world = on_line start connection_5 nick_line 10 11

on_line-IsConsistent_example : IsConsistent named_world.app
on_line-IsConsistent_example =
    on_line-IsConsistent start connection_5 nick_line 10 11 start-IsConsistent

abbrev readable_event : Event
readable_event = record { fd = 5; interests = 1; error = false; hangup = false; error_code = 0 }

abbrev nick_outside : Outside
nick_outside = record {
  receiving = received (nick_line ++ 13 ∷ 10 ∷ []) ∷ [];
  sending = [];
  clock = 10;
}

handle_client_event-IsConsistent_example :
    IsConsistent (handle_client_event (λ e. []) start readable_event nick_outside).app
handle_client_event-IsConsistent_example =
    handle_client_event-IsConsistent (λ e. []) start readable_event nick_outside start-IsConsistent

on_tick-IsConsistent_example : IsConsistent (on_tick named_world 90_000_000_000).app
on_tick-IsConsistent_example =
    on_tick-IsConsistent named_world 90_000_000_000
      (on_line-IsConsistent start connection_5 nick_line 10 11 start-IsConsistent)

drop_client-IsConsistent_example : IsConsistent (drop_client named_world 5 (text "bye")).app
drop_client-IsConsistent_example =
    drop_client-IsConsistent named_world 5 (text "bye")
      (on_line-IsConsistent start connection_5 nick_line 10 11 start-IsConsistent)

send_raw-fixed_point_example :
    send_raw start 5 nick_line ≡ send_to (on_disconnect send_raw) start 5 nick_line
send_raw-fixed_point_example = send_raw-fixed_point start 5 nick_line

drop_client-fixed_point_example :
    drop_client start 5 nick_line ≡ disconnect (on_disconnect send_raw) start 5 nick_line
drop_client-fixed_point_example = drop_client-fixed_point start 5 nick_line

record_command-accepts_example :
    ((record_command start 5 10).1 ≡ true)
    × ((record_command start 5 10).1 ≡ true
        → (record_command start 5 10).0
          ≡ with_client 5 (record client_state { command_window = 10 ∷ [] }) start)
unfolding state find client_state
record_command-accepts_example = record_command-accepts start 5 10 tt

trim_window-recent_example :
    trim_window 3 4_000_000_000 (500_000_000 ∷ 2_000_000_000 ∷ []) ≡ 2_000_000_000 ∷ []
trim_window-recent_example =
    trim_window-recent 3 4_000_000_000 (500_000_000 ∷ 2_000_000_000 ∷ [])
      ((omega arith, tt), (tt, tt))
