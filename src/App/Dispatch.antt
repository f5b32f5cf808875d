-- ===== src/App/Dispatch.antt =====
-- src/IrcApplication.cpp: what the server calls. A time read from the clock is an argument; an
-- elapsed time `now - past >= n` is read as `past + n <= now`, which is exact on signed durations.
pub mod RateLimit
pub mod Keeps
pub mod Serving
pub mod Timers
pub mod Farewell
use irc_relay_server.Prelude.{
  ℕ, ◌+◌, ◌*◌, ◌≡◌, refl, Bool, true, false, ◌&&◌, ◌||◌, Option, none, some, List, [], ◌∷◌, ◌++◌,
  if◌then◌else◌, not, is_empty, length, leb, ltb, ◌==◌,
}
use irc_relay_server.Text.{Str, text, str_eq, decimal}
use irc_relay_server.Message.{IrcMessage, Parsed, parsed, rejected, parse_line}
use irc_relay_server.Registry.{
  ClientState, MonotonicTime, client_state, second, find_client, state, contains_client, put_state,
  fds,
}
use irc_relay_server.Replies.{format_message, error}
use irc_relay_server.Connection.{Connection}
use irc_relay_server.Events.{EventManager}
use irc_relay_server.World.{App, World, increment}
use irc_relay_server.App.Relay.{send_raw, reply_target, with_app}
use irc_relay_server.App.Support.{refuse, send_numeric, request_close, with_client}
use irc_relay_server.App.Registration.{
  handle_pass, handle_nick, handle_user, handle_ping, handle_pong, handle_quit,
}
use irc_relay_server.App.Messaging.{handle_privmsg}
use irc_relay_server.App.Channels.{
  handle_join, handle_part, handle_topic, handle_kick, handle_invite, handle_list, handle_names,
}
use irc_relay_server.App.Modes.{handle_mode}

-- `now - past >= std::chrono::seconds(n)`.
abbrev pub has_passed : ℕ → MonotonicTime → MonotonicTime → Bool
has_passed seconds past now = leb (past + seconds * second) now

-- The loop of `recordCommand`: the oldest times leave the window.
unfoldable pub trim_window : ℕ → MonotonicTime → List MonotonicTime → List MonotonicTime
trim_window seconds now [] = []
trim_window seconds now (t ∷ ts) = elim (has_passed seconds t now) [
  | true ↦ trim_window seconds now ts
  | false ↦ t ∷ ts
]

-- `++_metrics.…`, one for each counter that this file writes.
abbrev pub count_command : App → App
count_command app = record app {
  metrics = record app.metrics { commands_handled = increment app.metrics.commands_handled };
}

abbrev pub count_rate_limited : App → App
count_rate_limited app = record app {
  metrics = record app.metrics {
    rate_limited_clients = increment app.metrics.rate_limited_clients;
  };
}

abbrev pub count_idle_timeout : App → App
count_idle_timeout app = record app {
  metrics = record app.metrics { idle_timeouts = increment app.metrics.idle_timeouts };
}

abbrev pub count_heartbeat : App → App
count_heartbeat app = record app {
  metrics = record app.metrics { heartbeat_pings = increment app.metrics.heartbeat_pings };
}

-- The window with the command that arrives at `now`.
unfoldable pub next_window : ℕ → MonotonicTime → List MonotonicTime → List MonotonicTime
next_window seconds now window = trim_window seconds now window ++ now ∷ []

unfoldable pub heartbeat_token : ℕ → ℕ → Str
heartbeat_token fd n = text "heartbeat-" ++ decimal fd ++ text "-" ++ decimal n

module _ ⦃em : EventManager⦄ where
  unfoldable pub on_connect : World em → Connection → MonotonicTime → World em
  on_connect w c now =
      with_client c.fd
        (record client_state {
          fd = some c.fd;
          host = c.peer_address;
          pass_ok = is_empty w.app.password;
          connected_at = now;
          last_activity_at = now;
        })
        w

  unfoldable pub record_command : World em → ℕ → MonotonicTime → World em × Bool
  record_command w fd now =
      let client = state w.app.clients fd in
      let runtime = w.app.runtime in
      let window = next_window runtime.rate_limit_window_seconds now client.command_window in
      let w₁ = with_client fd (record client { command_window = window }) w in
      let w₂ = with_app (count_rate_limited w₁.app) w₁ in
      let w₃ = refuse w₂ fd 439 [] (text "Command rate limit exceeded") in
      if not (runtime.rate_limit_count == 0) && ltb runtime.rate_limit_count (length window)
      then (request_close w₃ fd (text "command rate limit exceeded"), false)
      else (w₁, true)

  unfoldable pub handle_metrics : World em → ℕ → World em
  handle_metrics w fd =
      let metrics = w.server.metrics in
      let line =
        text "connections="
        ++ decimal (length w.server.connections)
        ++ text " accepted="
        ++ decimal metrics.accepted_connections
        ++ text " closed="
        ++ decimal metrics.closed_connections
        ++ text " rooms="
        ++ decimal (length w.app.channels)
        ++ text " commands="
        ++ decimal w.app.metrics.commands_handled
        ++ text " messages="
        ++ decimal w.app.metrics.messages_relayed
        ++ text " queue_drops="
        ++ decimal metrics.outbound_queue_drops
        ++ text " rate_limited="
        ++ decimal w.app.metrics.rate_limited_clients in
      (send_raw w fd
        (format_message w.app.server_name (text "NOTICE") (reply_target w.app fd ∷ line ∷ []))).0

  -- The commands of a registered client.
  unfoldable pub handle_registered : World em → ℕ → IrcMessage → World em
  handle_registered w fd m =
      if str_eq m.command (text "PRIVMSG")
      then handle_privmsg w fd m
      else if str_eq m.command (text "JOIN")
      then handle_join w fd m
      else if str_eq m.command (text "PART")
      then handle_part w fd m
      else if str_eq m.command (text "TOPIC")
      then handle_topic w fd m
      else if str_eq m.command (text "KICK")
      then handle_kick w fd m
      else if str_eq m.command (text "INVITE")
      then handle_invite w fd m
      else if str_eq m.command (text "MODE")
      then handle_mode w fd m
      else if str_eq m.command (text "LIST")
      then handle_list w fd m
      else if str_eq m.command (text "NAMES")
      then handle_names w fd m
      else if str_eq m.command (text "METRICS")
      then handle_metrics w fd
      else refuse w fd 421 (m.command ∷ []) (text "Unknown command")

  -- The chain of `handleMessage`: the first six commands need no registration.
  unfoldable pub handle_message : World em → ℕ → IrcMessage → World em
  handle_message w fd m =
      if str_eq m.command (text "PASS")
      then handle_pass w fd m
      else if str_eq m.command (text "NICK")
      then handle_nick w fd m
      else if str_eq m.command (text "USER")
      then handle_user w fd m
      else if str_eq m.command (text "PING")
      then handle_ping w fd m
      else if str_eq m.command (text "PONG")
      then handle_pong w fd m
      else if str_eq m.command (text "QUIT")
      then handle_quit w fd m
      else if not (state w.app.clients fd).registered
      then refuse w fd 451 [] (text "You have not registered")
      else handle_registered w fd m

  unfoldable pub handle_parsed : World em → ℕ → MonotonicTime → Parsed → World em
  handle_parsed w fd now (rejected reason) = refuse w fd 417 [] reason
  handle_parsed w fd now (parsed m) =
      let (w', accepted) = record_command w fd now in
      if not accepted then w' else handle_message (with_app (count_command w'.app) w') fd m

  -- `connect_now` is the time that `onConnect` reads where it is called from here.
  unfoldable pub on_line : World em → Connection → Str → MonotonicTime → MonotonicTime → World em
  on_line w c line connect_now now =
      let w₁ = if not (contains_client w.app.clients c.fd) then on_connect w c connect_now else w in
      let w₂ =
        with_client c.fd (record (state w₁.app.clients c.fd) { last_activity_at = now }) w₁ in
      handle_parsed w₂ c.fd now (parse_line line)

  unfoldable pub send_heartbeat : World em → ℕ → ClientState → MonotonicTime → World em
  send_heartbeat w fd client now =
      let n = increment w.app.next_heartbeat_token in
      let token = heartbeat_token fd n in
      let w₁ = with_app (record w.app { next_heartbeat_token = n }) w in
      let w₂ =
        with_client fd
          (record client { awaiting_pong = true; pending_pong_token = token; last_ping_at = now })
          w₁ in
      let (w₃, sent) =
        send_raw w₂ fd (format_message w₂.app.server_name (text "PING") (token ∷ [])) in
      if not sent then w₃ else with_app (count_heartbeat w₃.app) w₃

  unfoldable pub maintain_found : World em → ℕ → ClientState → MonotonicTime → World em
  maintain_found w fd client now =
      let runtime = w.app.runtime in
      let w₁ = with_app (count_idle_timeout w.app) w in
      if not client.registered
        && has_passed runtime.registration_timeout_seconds client.connected_at now
      then request_close (refuse w fd 451 [] (text "Registration timeout")) fd
          (text "registration timeout")
      else if runtime.idle_timeout_seconds == 0
      then w
      else if client.awaiting_pong
          && has_passed runtime.ping_timeout_seconds client.last_ping_at now
      then request_close (send_raw w₁ fd (error (text "Ping timeout"))).0 fd (text "ping timeout")
      else if not client.awaiting_pong
          && has_passed runtime.idle_timeout_seconds client.last_activity_at now
      then send_heartbeat w fd client now
      else w

  unfoldable pub maintain_client : World em → ℕ → MonotonicTime → World em
  maintain_client w fd now = elim (find_client w.app.clients fd) [
    | none ↦ w
    | some client ↦ maintain_found w fd client now
  ]

  unfoldable pub maintain_each : World em → List ℕ → MonotonicTime → World em
  maintain_each w [] now = w
  maintain_each w (fd ∷ ks) now = maintain_each (maintain_client w fd now) ks now

  unfoldable pub on_tick : World em → MonotonicTime → World em
  on_tick w now = maintain_each w (fds w.app.clients) now

  unfoldable pub shutdown_each : World em → List ℕ → Str → World em
  shutdown_each w [] reason = w
  shutdown_each w (fd ∷ ks) reason =
      shutdown_each (request_close (send_raw w fd (error reason)).0 fd reason) ks reason

  unfoldable pub shutdown : World em → Str → World em
  shutdown w reason = shutdown_each w (fds w.app.clients) reason
