-- ===== src/Tests/Nicknames.antt =====
-- Two clients connect and choose nicknames.
use irc_relay_server.Prelude.{ℕ, ◌≡◌, refl, false, ◌++◌, [], ◌∷◌, is_empty, arith}
use irc_relay_server.Text.{Str, text}
use irc_relay_server.Channel.Invitations.{same_nick}
use irc_relay_server.Registry.{state}
use irc_relay_server.Connection.{received}
use irc_relay_server.Events.{Event}
use irc_relay_server.World.{World}
use irc_relay_server.EventLoop.{Outside, accept_client, handle_client_event}
use irc_relay_server.Lifecycle.Reachable.{Reach, next, accepts, serves}
use irc_relay_server.Lifecycle.Nicknames.{Reach-same_nick}
use irc_relay_server.Tests.{table_events}
use irc_relay_server.Tests.Reaching.{listening_world, listening_world-Reach, no_error}
use irc_relay_server.Events.{has_interest}
use irc_relay_server.Lifecycle.{
  settle_port, create_listen_socket, watch_listener, ensure_manager, start,
}
use irc_relay_server.Lifecycle.Process.{new_world}
use irc_relay_server.EventLoop.{
  count_line, refresh, deliver_lines, read_event, finish_event, write_phase, add_client,
}
use irc_relay_server.App.Dispatch.{
  trim_window, next_window, on_connect, record_command, handle_message, handle_parsed, on_line,
}
use irc_relay_server.App.Registration.{
  is_valid_nickname, is_taken, maybe_register, rename, nick_params, handle_nick,
}
use irc_relay_server.Server.{
  find_connection, modify_connection, set_events, update_interest, refresh_interest,
}
use irc_relay_server.Connection.{
  connection, strip_cr, extract_from, extract_lines, read_loop, read_available,
}
use irc_relay_server.Message.{
  upper, trim_frame, skip_spaces, rest_of, param_round, parse_params, parse_command, parse_trimmed,
  parse_line,
}
use irc_relay_server.Channel.{canonical_nick}
use irc_relay_server.Registry.{
  client_state, find_client, put_state, contains_client, find_fd_by_nickname, set_nickname,
}
use irc_relay_server.Text.{str_eq, to_upper, to_lower, before, after}
use irc_relay_server.Prelude.Map.{find, insert, modify}

abbrev readable : ℕ → Event
readable fd = record { fd = fd; interests = 1; error = false; hangup = false; error_code = 0 }

abbrev arrives : Str → Outside
arrives line = record { receiving = received (line ++ 13 ∷ 10 ∷ []) ∷ []; sending = []; clock = 20 }

abbrev two_clients : World table_events
two_clients = accept_client (accept_client listening_world 5 (text "a") 10) 6 (text "b") 11

abbrev one_name : World table_events
one_name = handle_client_event no_error two_clients (readable 5) (arrives (text "NICK ann"))

abbrev two_names : World table_events
two_names = handle_client_event no_error one_name (readable 6) (arrives (text "NICK bob"))

two_names-Reach : Reach two_names
two_names-Reach =
    next
      (next (next (next listening_world-Reach (accepts 5 (text "a") 10)) (accepts 6 (text "b") 11))
        (serves no_error (readable 5) (arrives (text "NICK ann"))))
      (serves no_error (readable 6) (arrives (text "NICK bob")))

two_names-nick :
    (is_empty (state two_names.app.clients 5).nick ≡ false)
    × (is_empty (state two_names.app.clients 6).nick ≡ false)
unfolding has_interest settle_port create_listen_socket watch_listener ensure_manager start
    new_world count_line refresh deliver_lines read_event finish_event write_phase
    handle_client_event add_client accept_client trim_window next_window on_connect record_command
    handle_message handle_parsed on_line is_valid_nickname is_taken maybe_register rename
    nick_params handle_nick find_connection modify_connection set_events update_interest
    refresh_interest connection strip_cr extract_from extract_lines read_loop read_available upper
    trim_frame skip_spaces rest_of param_round parse_params parse_command parse_trimmed parse_line
    canonical_nick client_state find_client state put_state contains_client find_fd_by_nickname
    set_nickname str_eq to_upper to_lower before after find insert modify
two_names-nick = (refl, refl)

Reach-same_nick_example :
    same_nick (state two_names.app.clients 5).nick (state two_names.app.clients 6).nick ≡ false
Reach-same_nick_example =
    Reach-same_nick two_names 5 6 two_names-Reach (λ e. omega (arith, e)) two_names-nick.0
      two_names-nick.1
