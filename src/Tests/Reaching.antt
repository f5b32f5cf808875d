-- ===== src/Tests/Reaching.antt =====
-- The process from its launch through a first client, and a message to a channel.
use irc_relay_server.Prelude.{ℕ, ◌≡◌, refl, true, some, none, [], ◌∷◌, ◌&&◌, not, if◌then◌else◌}
use irc_relay_server.Prelude.{◌==◌ as nat_beq}
use irc_relay_server.Prelude.Map.{nat_key, find, mapped, insert, modify, member}
use irc_relay_server.Text.{Str, str_key, text, str_eq}
use irc_relay_server.Channel.{Channel, channel, has_member}
use irc_relay_server.World.{World}
use irc_relay_server.Message.{trim_frame, prefix_text, needs_trailing_marker}
use irc_relay_server.Replies.{format_message, reply_params}
use irc_relay_server.Registry.{find_client}
use irc_relay_server.Connection.{queue_line, pending_bytes, connection, request_close, wants_write}
use irc_relay_server.Server.{
  find_connection, set_events, send_to, after_queue, modify_connection, refresh_interest,
  interests_for, update_interest,
}
use irc_relay_server.App.Relay.{send_raw, send_within, fuel_for, prefix_for}
use irc_relay_server.App.Dispatch.{on_tick}
use irc_relay_server.App.Support.{except, is_channel_target}
use irc_relay_server.App.Messaging.{relay_to, message_line}
use irc_relay_server.App.Messaging.Delivery.{all_sent, with_line, relay_to-find}
use irc_relay_server.EventLoop.{accept_client}
use irc_relay_server.EventLoop.Sound.{IsSound}
use irc_relay_server.Lifecycle
use irc_relay_server.Lifecycle.{Wait, poll_once}
use irc_relay_server.Lifecycle.Process.{new_world, main_loop}
use irc_relay_server.Lifecycle.Reachable.{
  Reach, launched, next, starts, accepts, Reach-IsSound, main_loop-IsSound,
}
use irc_relay_server.Tests.{table_events, start}
use irc_relay_server.Tests.Ending.{outer, defaults, quiet_wait}

abbrev launched_world : World table_events
launched_world = new_world [] (text "secret") defaults

abbrev pub listening_world : World table_events
listening_world = (Lifecycle.start outer.is_ipv4 outer.manager outer.calls launched_world).0

pub listening_world-Reach : Reach listening_world
listening_world-Reach =
    next (launched [] (text "secret") defaults) (starts outer.is_ipv4 outer.manager outer.calls)

Reach-IsSound_example : IsSound (accept_client listening_world 5 (text "10.0.0.5:4000") 10)
Reach-IsSound_example =
    Reach-IsSound (accept_client listening_world 5 (text "10.0.0.5:4000") 10)
      (next listening_world-Reach (accepts 5 (text "10.0.0.5:4000") 10))

abbrev pub no_error : ℕ → Str
no_error e = []

abbrev first_world : World table_events
first_world = on_tick (poll_once no_error listening_world none quiet_wait).0 10

main_loop-IsSound_example : Reach first_world × IsSound first_world
unfolding main_loop poll_once Lifecycle.start new_world Lifecycle.create_listen_socket
    Lifecycle.settle_port set_events Lifecycle.watch_listener Lifecycle.handle_events
    Lifecycle.ensure_manager
main_loop-IsSound_example =
    main_loop-IsSound no_error listening_world outer.rounds (first_world, true)
      listening_world-Reach refl

-- The clients at 5 and 6 are in a channel.
abbrev room : Channel
room = record (channel (text "#a")) { members = 5 ∷ 6 ∷ []; operators = 5 ∷ [] }

abbrev room_world : World table_events
room_world = record start { app = record start.app { channels = (text "#a", room) ∷ [] } }

room_world-all_sent :
    all_sent room_world
      (message_line room_world 5 (text "#a") (text "hi"))
      (except (some 5) room.members)
    ≡ true
unfolding all_sent message_line send_raw send_within fuel_for send_to find_connection find
    after_queue queue_line pending_bytes connection trim_frame request_close wants_write
    modify_connection modify refresh_interest interests_for update_interest set_events insert text
    prefix_for find_client format_message prefix_text reply_params needs_trailing_marker
room_world-all_sent = refl

relay_to-find_example :
    find 6 (relay_to room_world 5 (text "hi") (text "#a")).server.connections ≡ (
      if has_member room 6 && not (nat_beq 6 5)
      then mapped
          (with_line (message_line room_world 5 (text "#a") (text "hi")))
          (find 6 room_world.server.connections)
      else find 6 room_world.server.connections)
unfolding is_channel_target text find has_member member str_eq
relay_to-find_example =
    relay_to-find room_world 5 (text "hi") (text "#a") room 6 refl refl refl (refl, (refl, tt))
      room_world-all_sent
