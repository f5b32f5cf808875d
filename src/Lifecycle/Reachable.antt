-- ===== src/Lifecycle/Reachable.antt =====
-- The worlds that the process can reach: whatever arrives at the sockets, in whatever order, from
-- the construction of the server (src/Server.cpp, src/main.cpp) until its handlers are cleared.
use irc_relay_server.Prelude.{
  ℕ, ◌≡◌, refl, Bool, true, false, ◌||◌, Option, none, some, List, [], ◌∷◌, not, if◌then◌else◌,
  Option-cases, inl, inr, arith, subst,
}
use irc_relay_server.Prelude.Map.{nat_key, find}
use irc_relay_server.Text.{Str}
use irc_relay_server.Registry.{MonotonicTime, contains_client, find_client}
use irc_relay_server.RuntimeConfig.{Options}
use irc_relay_server.Events.{EventManager, Event, has_interest, read_interest}
use irc_relay_server.World.{World}
use irc_relay_server.Server.{find_connection, set_events}
use irc_relay_server.App.Relay.{send_raw, drop_client}
use irc_relay_server.App.Dispatch.{on_tick, shutdown}
use irc_relay_server.App.Dispatch.Serving.{on_tick-keeps, shutdown-keeps}
use irc_relay_server.EventLoop.{Outside, handle_client_event, accept_client}
use irc_relay_server.EventLoop.Accepting.{
  Accept, accepted, accept_interrupted, would_block, accept_failed, accept_ready_clients,
  format_peer_address,
}
use irc_relay_server.EventLoop.Keeps.{handle_client_event-keeps}
use irc_relay_server.EventLoop.Sound.{IsSound, sends-IsSound}
use irc_relay_server.EventLoop.Sound.Rules.{
  IsSound-IsInvariant, IsSound-IsLoopInvariant, drops-IsSound,
}
use irc_relay_server.Lifecycle.{
  Happening, Wait, ListenCalls, start, stop, is_listener, handle_events, effective_timeout,
  poll_once, close_listen_socket,
}
use irc_relay_server.Lifecycle.Process.{Round, new_world, main_loop}
use irc_relay_server.Lifecycle.Sound.{IsIdle, idle-IsSound, start-IsIdle, accept_client-IsSound}

module _ ⦃em : EventManager⦄ where
  -- What can happen next: whatever the sockets, the clock and the event backend give. The destructor
  -- with the handlers in place is `stops`, `disconnects` and `unlistens`; without them it is no step.
  pub data Step (w : World em) : World em → Type 0 where
    starts :
        (is_ipv4 : Str → Bool) (manager : Option em.State) (calls : ListenCalls)
        → Step w (start is_ipv4 manager calls w).0
    accepts : (fd : ℕ) (peer : Str) (now : MonotonicTime) → Step w (accept_client w fd peer now)
    serves :
        (strerror : ℕ → Str) (event : Event) (outside : Outside)
        → Step w (handle_client_event strerror w event outside)
    ticks : (now : MonotonicTime) → Step w (on_tick w now)
    sends : (fd : ℕ) (line : Str) → Step w (send_raw w fd line).0
    disconnects : (fd : ℕ) (reason : Str) → Step w (drop_client w fd reason)
    farewells : (reason : Str) → Step w (shutdown w reason)
    stops : Step w (stop w)
    unlistens : Step w (close_listen_socket w)

  pub data Reach : World em → Type 0 where
    launched : (s : em.State) (password : Str) (o : Options) → Reach (new_world s password o)
    next : {w w' : World em} → Reach w → Step w w' → Reach w'

  stop-IsIdle : (w : World em) → IsIdle w (stop w)
  unfolding stop
  stop-IsIdle w = record { same_app = refl; same_connections = refl; same_limit = refl }

  close_listen_socket-IsIdle : (w : World em) → IsIdle w (close_listen_socket w)
  unfolding close_listen_socket set_events
  close_listen_socket-IsIdle w = record {
    same_app = ground arith;
    same_connections = ground arith;
    same_limit = ground arith;
  }

  Step-IsSound : {w w' : World em} → Step w w' → IsSound w → IsSound w'
  Step-IsSound {w} (starts is_ipv4 manager calls) h =
      idle-IsSound w (start is_ipv4 manager calls w).0 (start-IsIdle is_ipv4 manager calls w) h
  Step-IsSound {w} (accepts fd peer now) h = accept_client-IsSound w fd peer now h
  Step-IsSound {w} (serves strerror event outside) h =
      handle_client_event-keeps IsSound-IsLoopInvariant strerror w event outside h
  Step-IsSound {w} (ticks now) h = on_tick-keeps IsSound-IsInvariant w now h
  Step-IsSound {w} (sends fd line) h = sends-IsSound w fd line h
  Step-IsSound {w} (disconnects fd reason) h = drops-IsSound w fd reason h
  Step-IsSound {w} (farewells reason) h = shutdown-keeps IsSound-IsInvariant w reason h
  Step-IsSound {w} stops h = idle-IsSound w (stop w) (stop-IsIdle w) h
  Step-IsSound {w} unlistens h =
      idle-IsSound w (close_listen_socket w) (close_listen_socket-IsIdle w) h

  new_world-IsSound :
      (s : em.State) (password : Str) (o : Options) → IsSound (new_world s password o)
  unfolding new_world find_connection find contains_client find_client
  new_world-IsSound s password o = record {
    consistent = record {
      rooms = λ name c e. cc;
      clients = λ fd c e. cc;
      indexed = record { sound = λ n fd e. cc; complete = λ n fd e. cc };
    };
    seated = record { keyed = λ fd c e. cc; seats = λ fd t. cc };
    limited = ground arith;
  }

  -- In every world that the process can reach until `main` clears the server's handlers at its end, in
  -- whatever order clients connect, send and vanish and the timers run, the application's state is
  -- consistent, every client has a connection, every connection stands under its descriptor, and the
  -- connections are within the configured limit.
  pub Reach-IsSound : (w : World em) → Reach w → IsSound w
  Reach-IsSound w (launched s password o) = new_world-IsSound s password o
  Reach-IsSound w (next r step) = Step-IsSound step (Reach-IsSound _ r)

  accept_ready_clients-Reach :
      (w : World em) (results : List Accept) → Reach w → Reach (accept_ready_clients w results)
  unfolding accept_ready_clients
  accept_ready_clients-Reach w [] r = r
  accept_ready_clients-Reach w (accepted fd peer true now ∷ rest) r =
      accept_ready_clients-Reach (accept_client w fd (format_peer_address peer) now) rest
        (next r (accepts fd (format_peer_address peer) now))
  accept_ready_clients-Reach w (accepted fd peer false now ∷ rest) r =
      accept_ready_clients-Reach w rest r
  accept_ready_clients-Reach w (accept_interrupted ∷ rest) r = accept_ready_clients-Reach w rest r
  accept_ready_clients-Reach w (would_block ∷ rest) r = r
  accept_ready_clients-Reach w (accept_failed errno ∷ rest) r = r

  either : (b : Bool) (u v : World em × Bool) → Reach u.0 → Reach v.0 → Reach (if b then u else v).0
  either true u v p q = p
  either false u v p q = q

  handle_events-Reach :
      (strerror : ℕ → Str) (w : World em) (hs : List Happening)
      → Reach w
      → Reach (handle_events strerror w hs).0
  unfolding handle_events
  handle_events-Reach strerror w [] r = r
  handle_events-Reach strerror w (h ∷ hs) r = either w.server.stop_requested _ _ r (
      either (is_listener w.server.listen_fd h.event.fd) _ _
        (either h.event.error _ _ r (
          either (has_interest h.event.interests read_interest) _ _
            (handle_events-Reach strerror (accept_ready_clients w h.accepts) hs
              (accept_ready_clients-Reach w h.accepts r))
            (handle_events-Reach strerror w hs r)))
        (handle_events-Reach strerror (handle_client_event strerror w h.event h.outside) hs
          (next r (serves strerror h.event h.outside))))

  poll_once-Reach :
      (strerror : ℕ → Str) (w : World em) (timeout : Option ℕ) (wait : Wait)
      → Reach w
      → Reach (poll_once strerror w timeout wait).0
  unfolding poll_once
  poll_once-Reach strerror w timeout wait r =
      elim (Option-cases (wait (effective_timeout w.server.config timeout))) [
        | inl e ↦ rw (e, poll_once) (either (not w.server.running) _ _ r r)
        | inr (hs, e) ↦
            rw (e, poll_once)
              (either (not w.server.running) _ _ r (handle_events-Reach strerror w hs r))
      ]

  -- A result, if there is one, can be reached.
  abbrev Reaches : Option (World em × Bool) → Type 0
  Reaches none = Unit {0}
  Reaches (some r) = Reach r.0

  either-Reaches :
      (b : Bool) (u v : Option (World em × Bool))
      → Reaches u
      → Reaches v
      → Reaches (if b then u else v)
  either-Reaches true u v p q = p
  either-Reaches false u v p q = q

  main_loop-Reaches :
      (strerror : ℕ → Str) (w : World em) (rs : List Round)
      → Reach w
      → Reaches (main_loop strerror w rs)
  unfolding main_loop
  main_loop-Reaches strerror w [] r = either-Reaches w.server.running none (some (w, true)) tt r
  main_loop-Reaches strerror w (round ∷ rs) r =
      let p = poll_once strerror w none round.wait in
      let q = poll_once-Reach strerror w none round.wait r in
      either-Reaches (round.signalled || not w.server.running) (some (w, true)) _ r (
        either-Reaches p.1 (main_loop strerror (on_tick p.0 round.clock) rs) (some (p.0, false))
          (main_loop-Reaches strerror (on_tick p.0 round.clock) rs (next q (ticks round.clock))) q)

  -- The world in which the main loop of the process ends, whatever happens in its rounds and whether
  -- it ends by a signal or by an exception, is one that the process can reach: its application's state
  -- is consistent, every client has a connection, and the connections are within the limit.
  pub main_loop-IsSound :
      (strerror : ℕ → Str) (w : World em) (rs : List Round) (result : World em × Bool)
      → Reach w
      → main_loop strerror w rs ≡ some result
      → Reach result.0 × IsSound result.0
  main_loop-IsSound strerror w rs result r e =
      let q : Reach result.0 = subst Reaches e (main_loop-Reaches strerror w rs r) in
      (q, Reach-IsSound result.0 q)
