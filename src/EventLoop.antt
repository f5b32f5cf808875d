-- ===== src/EventLoop.antt =====
-- The event loop of Server (src/Server.cpp) with the handlers of main.cpp registered: what a
-- readiness event does to one connection, and the shutdown of them all. What the sockets return,
-- and the times that the handlers read, are arguments.
pub mod Seats
pub mod Keeps
pub mod Sound
pub mod Consistency
pub mod Accepting
use irc_relay_server.Prelude.{
  ℕ, Bool, true, false, ◌&&◌, none, some, List, [], ◌∷◌, ◌++◌, if◌then◌else◌, not, leb, ◌==◌,
  length,
}
use irc_relay_server.Prelude.Map.{nat_key, insert, keys, contains}
use irc_relay_server.Text.{Str, text}
use irc_relay_server.Registry.{MonotonicTime}
use irc_relay_server.Connection.{
  Connection, connection, Recv, Sent, ReadResult, WriteResult, read_available, flush_pending,
  request_close, wants_write,
}
use irc_relay_server.Events.{EventManager, Event, has_interest, read_interest, write_interest}
use irc_relay_server.World.{World, increment}
use irc_relay_server.Server.{find_connection, modify_connection, set_events, refresh_interest}
use irc_relay_server.App.Relay.{on_disconnect, send_within, fuel_for, drop_client}
use irc_relay_server.App.Dispatch.{on_connect, on_line}

-- What the outside gives to one event: the results of `recv` and `send`, and the clock. `strerror`
-- is the text of an error code.
pub record Outside : Type 0 where
  pub receiving : List Recv
  pub sending : List Sent
  pub clock : MonotonicTime

module _ (strerror : ℕ → Str) where
  unfoldable pub event_error_message : Event → Str
  event_error_message event =
      if event.error_code == 0
      then text "socket readiness error"
      else text "socket readiness error: " ++ strerror event.error_code

module _ ⦃em : EventManager⦄ where
  unfoldable pub count_line : World em → World em
  count_line w = record w {
    server = record w.server {
      metrics = record w.server.metrics {
        lines_received = increment w.server.metrics.lines_received;
      };
    };
  }

  -- The handler may write to the connection, which can take it out of the table.
  unfoldable pub refresh : World em → ℕ → World em × Bool
  refresh w fd = refresh_interest (on_disconnect (send_within (fuel_for w))) w fd

  -- The loop over the lines: `false` where the connection is gone.
  unfoldable pub deliver_lines : World em → ℕ → List Str → MonotonicTime → World em × Bool
  deliver_lines w fd [] now = (w, contains fd w.server.connections)
  deliver_lines w fd (line ∷ lines) now = elim (find_connection w fd) [
    | none ↦ (w, false)
    | some c ↦
        let w' = on_line (count_line w) c line now now in
        let rest = deliver_lines w' fd lines now in
        elim (find_connection w' fd) [
          | none ↦ (w', false)
          | some c' ↦ if c'.close_requested then (w', true) else rest
        ]
  ]

  -- The reading half of `handleClientEvent`; `false` where it returns.
  unfoldable pub read_event :
      World em → ℕ → Connection × ReadResult → MonotonicTime → World em × Bool
  read_event w fd (c, result) now =
      let w₁ = modify_connection fd (λ _. c) w in
      let (w₂, present) = deliver_lines w₁ fd result.lines now in
      if result.has_error
      then (drop_client w₁ fd result.error, false)
      else if not present
      then (w₂, false)
      else if result.peer_closed
      then (modify_connection fd (request_close (text "peer closed connection")) w₂, true)
      else (w₂, true)

  unfoldable pub write_event : World em → ℕ → Connection × WriteResult → World em × Bool
  write_event w fd (c, result) =
      let w₁ = modify_connection fd (λ _. c) w in
      if result.has_error then (drop_client w₁ fd result.error, false) else (w₁, true)

  -- Behind the reading and the writing.
  unfoldable pub finish_event : World em → ℕ → Bool → World em
  finish_event w fd hangup = elim (find_connection w fd) [
    | none ↦ w
    | some c ↦
        if hangup && not (wants_write c)
        then drop_client w fd (text "peer hangup")
        else (refresh w fd).0
  ]

  unfoldable pub write_phase : World em → Event → Outside → World em
  write_phase w event outside = elim (find_connection w event.fd) [
    | none ↦ w
    | some c ↦
        let (w', more) = write_event w event.fd (flush_pending outside.sending c).0 in
        if has_interest event.interests write_interest && wants_write c
        then (if more then finish_event w' event.fd event.hangup else w')
        else finish_event w event.fd event.hangup
  ]

  unfoldable pub handle_client_event : (ℕ → Str) → World em → Event → Outside → World em
  handle_client_event strerror w event outside = elim (find_connection w event.fd) [
    | none ↦ w
    | some c ↦
        let (w', more) = read_event w event.fd (read_available outside.receiving c) outside.clock in
        if event.error
        then drop_client w event.fd (event_error_message strerror event)
        else if has_interest event.interests read_interest && not c.close_requested
        then (if more then write_phase w' event outside else w')
        else write_phase w event outside
  ]

  -- A client that `accept` returned, in `acceptReadyClients`: refused at the limit, or registered.
  unfoldable pub add_client : World em → ℕ → Str → MonotonicTime → World em
  add_client w fd peer now =
      let config = w.server.config in
      let c = connection fd peer config.max_line_length config.max_pending_bytes in
      let (s, added) = em.add_fd w.server.events fd read_interest in
      let w₁ = set_events s w in
      let w₂ = record w₁ {
        server = record w₁.server {
          connections = insert fd c w.server.connections;
          metrics = record w₁.server.metrics {
            accepted_connections = increment w₁.server.metrics.accepted_connections;
          };
        };
      } in
      if contains fd w.server.connections
      then w
      else if not added
      then w₁
      else (refresh (on_connect w₂ c now) fd).0

  unfoldable pub accept_client : World em → ℕ → Str → MonotonicTime → World em
  accept_client w fd peer now =
      let limit = w.server.config.max_connections in
      if not (limit == 0) && leb limit (length w.server.connections)
      then w
      else add_client w fd peer now

  unfoldable pub close_each : World em → List ℕ → World em
  close_each w [] = w
  close_each w (fd ∷ ks) = close_each (drop_client w fd (text "server stopped")) ks

  unfoldable pub close_all_connections : World em → World em
  close_all_connections w = close_each w (keys w.server.connections)
