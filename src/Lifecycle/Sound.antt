-- ===== src/Lifecycle/Sound.antt =====
-- The start of the server and the acceptance of a client (src/Server.cpp) keep the invariant of the
-- whole program.
use irc_relay_server.Prelude.{
  ℕ, ◌≡◌, refl, Bool, false, ◌&&◌, Option, List, [], ◌∷◌, not, leb, ◌==◌, length, arith, Bool-cases,
  inl, inr, ==_iff, ◌≤◌, ◌+◌,
}
use irc_relay_server.Prelude.Map.{nat_key, insert, contains, find-insert}
use irc_relay_server.Text.{Str}
use irc_relay_server.Registry.{MonotonicTime, contains_client}
use irc_relay_server.Connection.{Connection, connection}
use irc_relay_server.Events.{EventManager, read_interest}
use irc_relay_server.World.{World, increment}
use irc_relay_server.Server.{find_connection, set_events}
use irc_relay_server.App.Dispatch.{on_connect}
use irc_relay_server.EventLoop.{add_client, accept_client}
use irc_relay_server.EventLoop.Sound.{IsSound, connects-IsSound}
use irc_relay_server.EventLoop.Sound.Rules.{refreshes-IsSound}
use irc_relay_server.Lifecycle.{
  ListenCalls, start, create_listen_socket, settle_port, set_port, watch_listener,
  close_listen_socket, ensure_manager,
}

length-insert :
    {V : Type 0} (k : ℕ) (v : V) (m : List (ℕ × V)) → length (insert k v m) ≤ length m + 1
unfolding insert
length-insert k v [] = omega arith
length-insert k v ((j, x) ∷ m) = ground (arith, length-insert k v m)

module _ ⦃em : EventManager⦄ where
  -- Only what the invariant does not read has changed.
  pub record IsIdle (w w' : World em) : Type 0 where
    pub same_app : w'.app ≡ w.app
    pub same_connections : w'.server.connections ≡ w.server.connections
    pub same_limit : w'.server.config.max_connections ≡ w.server.config.max_connections

  pub idle-IsSound : (w w' : World em) → IsIdle w w' → IsSound w → IsSound w'
  unfolding find_connection
  idle-IsSound w w' i h = record {
    consistent = rw i.same_app h.consistent;
    seated = record {
      keyed = rw i.same_connections h.seated.keyed;
      seats = rw (i.same_connections, i.same_app) h.seated.seats;
    };
    limited = rw (i.same_connections, i.same_limit) h.limited;
  }

  pub start-IsIdle :
      (is_ipv4 : Str → Bool) (manager : Option em.State) (calls : ListenCalls) (w : World em)
      → IsIdle w (start is_ipv4 manager calls w).0
  unfolding start ensure_manager create_listen_socket settle_port set_port watch_listener
      close_listen_socket set_events
  start-IsIdle is_ipv4 manager calls w = record {
    same_app = ground arith;
    same_connections = ground arith;
    same_limit = ground arith;
  }

  -- The world with the connection of a client that has been accepted.
  abbrev admitted : World em → em.State → Connection → World em
  admitted w s c = record w {
    server = record w.server {
      events = s;
      connections = insert c.fd c w.server.connections;
      metrics = record w.server.metrics {
        accepted_connections = increment w.server.metrics.accepted_connections;
      };
    };
  }

  admitted-IsSound :
      (w : World em) (s : em.State) (c : Connection)
      → (not (w.server.config.max_connections == 0)
          && leb w.server.config.max_connections (length w.server.connections))
        ≡ false
      → IsSound w
      → IsSound (admitted w s c)
  unfolding find_connection
  admitted-IsSound w s c room h = record {
    consistent = h.consistent;
    seated = record {
      keyed = λ k d e.
          ground (
            arith,
            e,
            h.seated.keyed k d,
            ==_iff c.fd k,
            find-insert c.fd k c w.server.connections,
          );
      seats = λ k t. ground (arith, t, h.seated.seats k, find-insert c.fd k c w.server.connections);
    };
    limited = ground (arith, room, length-insert c.fd c w.server.connections);
  }

  no_client-without_seat :
      (w : World em) (fd : ℕ)
      → contains fd w.server.connections ≡ false
      → IsSound w
      → contains_client w.app.clients fd ≡ false
  no_client-without_seat w fd free h = elim (Bool-cases (contains_client w.app.clients fd)) [
    | inl t ↦ absurd (cc (h.seated.seats fd t, free))
    | inr f ↦ f
  ]

  pub accept_client-IsSound :
      (w : World em) (fd : ℕ) (peer : Str) (now : MonotonicTime)
      → IsSound w
      → IsSound (accept_client w fd peer now)
  unfolding accept_client add_client set_events connection
  accept_client-IsSound w fd peer now h =
      let limit = w.server.config.max_connections in
      let c =
        connection fd peer w.server.config.max_line_length w.server.config.max_pending_bytes in
      let s = em.add_fd w.server.events fd read_interest in
      elim (Bool-cases (not (limit == 0) && leb limit (length w.server.connections))) [
        | inl full ↦ rw (full, accept_client) h
        | inr room ↦ elim (Bool-cases (contains fd w.server.connections)) [
          | inl taken ↦ rw (room, accept_client, taken, add_client) h
          | inr free ↦ elim (Bool-cases s.1) [
            | inr failed ↦
                rw (room, accept_client, free, add_client, failed)
                  (idle-IsSound w _
                    (record { same_app = refl; same_connections = refl; same_limit = refl }) h)
            | inl added ↦
                rw (room, accept_client, free, add_client, added)
                  (refreshes-IsSound (on_connect (admitted w s.0 c) c now) fd (
                    connects-IsSound (admitted w s.0 c) c now (no_client-without_seat w fd free h)
                      (ground (arith, find-insert fd fd c w.server.connections, ==_iff fd fd))
                      (admitted-IsSound w s.0 c room h)))
          ]
        ]
      ]
