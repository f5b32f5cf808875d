-- ===== src/Lifecycle/Process.antt =====
-- src/main.cpp. The arguments of the process are without the program's name; a signal is a round
-- that starts with `gRunning` cleared.
use irc_relay_server.Prelude.{
  ℕ, zero, suc, Bool, true, false, ◌||◌, Option, none, some, List, [], ◌∷◌, if◌then◌else◌, not,
  is_empty,
}
use irc_relay_server.Prelude.Map.{nat_key, keys}
use irc_relay_server.Text.{Str, text}
use irc_relay_server.Registry.{MonotonicTime}
use irc_relay_server.RuntimeConfig.{
  Result, ◌>>=◌, Options, runtime_config, server_config, parse_port, parse_options,
}
use irc_relay_server.Events.{EventManager}
use irc_relay_server.World.{World}
use irc_relay_server.Server.{disconnect}
use irc_relay_server.App.Dispatch.{on_tick, shutdown}
use irc_relay_server.EventLoop.{close_all_connections}
use irc_relay_server.Lifecycle.{Wait, ListenCalls, start, stop, poll_once, close_listen_socket}

-- `parsePort`, then `parseOptions` on the configuration with that port.
unfoldable pub configure : Str → List Str → Result Options
configure port args = do
  n ← parse_port port
  parse_options args
      (record { runtime = runtime_config; server = record server_config { port = n } })

-- A round of the main loop: whether a signal has come before it, what `wait` returns, and the time
-- that `onTick` reads.
pub record Round : Type 0 where
  pub signalled : Bool
  pub wait : Wait
  pub clock : MonotonicTime

-- What the process is given from outside.
pub record Outer (em : EventManager) : Type 0 where
  pub strerror : ℕ → Str
  pub is_ipv4 : Str → Bool
  pub manager : Option em.State
  pub calls : ListenCalls
  pub rounds : List Round
  pub last_waits : ℕ → Wait

module _ ⦃em : EventManager⦄ where
  -- The constructors of `Server` and `IrcApplication`; `s` is what the event manager starts as.
  unfoldable pub new_world : em.State → Str → Options → World em
  new_world s password o = record {
    app = record {
      password = password;
      runtime = o.runtime;
      server_name = text "irc.relay.local";
      clients = record { states = []; nickname_index = [] };
      channels = [];
      metrics = record {
        commands_handled = 0;
        messages_relayed = 0;
        rooms_created = 0;
        rate_limited_clients = 0;
        idle_timeouts = 0;
        heartbeat_pings = 0;
      };
      next_heartbeat_token = 0;
    };
    server = record {
      config = o.server;
      listen_fd = none;
      has_manager = false;
      events = s;
      connections = [];
      running = false;
      stop_requested = false;
      metrics = record {
        accepted_connections = 0;
        closed_connections = 0;
        lines_received = 0;
        outbound_queue_drops = 0;
      };
    };
  }

  -- The loop; `none` where it is still running when the rounds are used up.
  unfoldable pub main_loop : (ℕ → Str) → World em → List Round → Option (World em × Bool)
  main_loop strerror w [] = if w.server.running then none else some (w, true)
  main_loop strerror w (r ∷ rs) =
      let (w', polled) = poll_once strerror w none r.wait in
      let rest = main_loop strerror (on_tick w' r.clock) rs in
      if r.signalled || not w.server.running
      then some (w, true)
      else if polled
      then rest
      else some (w', false)

  -- The last rounds, in which the farewells leave: `n` of them are left.
  unfoldable pub drain : (ℕ → Str) → ℕ → World em → (ℕ → Wait) → World em × Bool
  drain strerror zero w waits = (w, true)
  drain strerror (suc n) w waits =
      let (w', polled) = poll_once strerror w (some 50) (waits n) in
      let rest = drain strerror n w' waits in
      if is_empty w.server.connections then (w, true) else if polled then rest else (w', false)

  -- `closeAllConnections` once the handlers are cleared.
  unfoldable pub close_unheard : World em → List ℕ → World em
  close_unheard w [] = w
  close_unheard w (fd ∷ fds) =
      close_unheard (disconnect (λ v c reason. v) w fd (text "server stopped")) fds

  -- `~Server` with the handlers cleared, and with the handlers in place.
  unfoldable pub destroy_unheard : World em → World em
  destroy_unheard w =
      let w' = stop w in close_listen_socket (close_unheard w' (keys w'.server.connections))

  unfoldable pub destroy : World em → World em
  destroy w = close_listen_socket (close_all_connections (stop w))

  -- Behind the loop: the farewells, and the end. An exception leaves `main` with the handlers in
  -- place and the exit status 1.
  unfoldable pub farewell : Outer em → World em × Bool → World em × ℕ
  farewell o (w, false) = (destroy w, 1)
  farewell o (w, true) =
      let (w', drained) =
        drain o.strerror 8 (shutdown w (text "Server shutting down")) o.last_waits in
      if drained then (destroy_unheard (stop w'), 0) else (destroy w', 1)

  unfoldable pub serve : Outer em → World em → Option (World em × ℕ)
  serve o w =
      let (w', started) = start o.is_ipv4 o.manager o.calls w in
      if started
      then elim (main_loop o.strerror w' o.rounds) [ none ↦ none | some r ↦ some (farewell o r) ]
      else some (destroy w', 1)
