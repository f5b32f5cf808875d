-- ===== src/Lifecycle.antt =====
-- The life of the server, src/Server.cpp: start, pollOnce, run, stop and what is left behind. An
-- exception is `false` beside the world that it leaves.
pub mod Process
pub mod Closing
pub mod Ending
pub mod Sound
pub mod Reachable
pub mod Nicknames
use irc_relay_server.Prelude.{
  ℕ, Bool, true, false, ◌&&◌, Option, none, some, List, [], ◌∷◌, if◌then◌else◌, not, is_empty,
  or_default, ◌==◌,
}
use irc_relay_server.Text.{Str, text}
use irc_relay_server.RuntimeConfig.{ServerConfig}
use irc_relay_server.Events.{EventManager, Event, has_interest, read_interest}
use irc_relay_server.World.{World}
use irc_relay_server.Server.{set_events, unwatched}
use irc_relay_server.EventLoop.{Outside, handle_client_event, close_all_connections}
use irc_relay_server.EventLoop.Accepting.{Accept, accept_ready_clients}

-- An event that `wait` returns, with what the sockets give while it is handled.
pub record Happening : Type 0 where
  pub event : Event
  pub outside : Outside
  pub accepts : List Accept

-- `wait` of the event manager, by its timeout; `none` is the exception.
abbrev pub Wait : Type 0
Wait = ℕ → Option (List Happening)

-- The results of the calls that make the listening socket: the descriptor of `socket`, whether its
-- flags and options could be set, whether `bind` and `listen` succeed, and the port of `getsockname`.
pub record ListenCalls : Type 0 where
  pub socket : Option ℕ
  pub prepared : Bool
  pub bound : Bool
  pub listening : Bool
  pub bound_port : Option ℕ

unfoldable pub bind_address_of : ServerConfig → Str
bind_address_of config =
    if is_empty config.bind_address then text "0.0.0.0" else config.bind_address

-- `it->fd == listenFd_`.
abbrev pub is_listener : Option ℕ → ℕ → Bool
is_listener none fd = false
is_listener (some listen_fd) fd = fd == listen_fd

module _ ⦃em : EventManager⦄ where
  abbrev pub set_listen_fd : Option ℕ → World em → World em
  set_listen_fd fd w = record w { server = record w.server { listen_fd = fd } }

  unfoldable pub set_port : ℕ → World em → World em
  set_port port w = record w {
    server = record w.server { config = record w.server.config { port = port } };
  }

  -- A chosen port is asked for where the configuration leaves it open.
  unfoldable pub settle_port : ListenCalls → ℕ → World em → World em × Bool
  settle_port calls fd w =
      if w.server.config.port == 0
      then elim calls.bound_port [
        | none ↦ (w, false)
        | some port ↦ (set_listen_fd (some fd) (set_port port w), true)
      ]
      else (set_listen_fd (some fd) w, true)

  unfoldable pub create_listen_socket : (Str → Bool) → ListenCalls → World em → World em × Bool
  create_listen_socket is_ipv4 calls w = elim calls.socket [
    | none ↦ (w, false)
    | some fd ↦
        if calls.prepared
          && (is_ipv4 (bind_address_of w.server.config) && (calls.bound && calls.listening))
        then settle_port calls fd w
        else (w, false)
  ]

  unfoldable pub close_listen_socket : World em → World em
  close_listen_socket w = elim w.server.listen_fd [
    | none ↦ w
    | some fd ↦ set_listen_fd none (set_events (unwatched w fd) w)
  ]

  abbrev pub set_running : Bool → Bool → World em → World em
  set_running running stop_requested w = record w {
    server = record w.server { running = running; stop_requested = stop_requested };
  }

  -- `eventManager_.reset()`: the state that is left stands for nothing, and `start` replaces it.
  abbrev pub reset_manager : World em → World em
  reset_manager w = record w { server = record w.server { has_manager = false } }

  -- `eventManager_->addFd(listenFd_, …)`.
  unfoldable pub watch_listener : World em → World em × Bool
  watch_listener w =
      let (s, added) = em.add_fd w.server.events (or_default 0 w.server.listen_fd) read_interest in
      if added
      then (set_running true false (set_events s w), true)
      else (reset_manager (close_listen_socket (set_events s w)), false)

  -- `if (!eventManager_)`: `manager` is what `createDefault` makes, `none` where it throws.
  unfoldable pub ensure_manager : Option em.State → World em → World em × Bool
  ensure_manager manager w = if w.server.has_manager then (w, true) else elim manager [
    | none ↦ (w, false)
    | some s ↦ (record w { server = record w.server { has_manager = true; events = s } }, true)
  ]

  unfoldable pub start : (Str → Bool) → Option em.State → ListenCalls → World em → World em × Bool
  start is_ipv4 manager calls w =
      let (w₁, managed) = ensure_manager manager w in
      let (w₂, created) = create_listen_socket is_ipv4 calls w₁ in
      if w.server.running
      then (w, true)
      else if not managed
      then (w₁, false)
      else if created
      then watch_listener w₂
      else (w₂, false)

  unfoldable pub stop : World em → World em
  stop w = set_running false true w

  -- The loop over the events: one that `stop` cuts short, and that an error of the listening socket
  -- ends by an exception.
  unfoldable pub handle_events : (ℕ → Str) → World em → List Happening → World em × Bool
  handle_events strerror w [] = (w, true)
  handle_events strerror w (h ∷ hs) =
      let accepting = handle_events strerror (accept_ready_clients w h.accepts) hs in
      let idle = handle_events strerror w hs in
      let served = handle_events strerror (handle_client_event strerror w h.event h.outside) hs in
      if w.server.stop_requested
      then (w, true)
      else if is_listener w.server.listen_fd h.event.fd
      then (if h.event.error
          then (w, false)
          else if has_interest h.event.interests read_interest
          then accepting
          else idle)
      else served

  -- A timeout below 0 is `none`.
  abbrev pub effective_timeout : ServerConfig → Option ℕ → ℕ
  effective_timeout config timeout = or_default config.event_timeout_ms timeout

  unfoldable pub poll_once : (ℕ → Str) → World em → Option ℕ → Wait → World em × Bool
  poll_once strerror w timeout wait =
      if not w.server.running
      then (w, false)
      else elim (wait (effective_timeout w.server.config timeout)) [
        | none ↦ (w, false)
        | some happenings ↦ handle_events strerror w happenings
      ]

  -- The loop of `run`; `none` where it is still running when the rounds are used up.
  unfoldable pub run_rounds : (ℕ → Str) → World em → List Wait → Option (World em × Bool)
  run_rounds strerror w [] =
      if w.server.running && not w.server.stop_requested then none else some (w, true)
  run_rounds strerror w (wait ∷ waits) =
      let (w', polled) = poll_once strerror w (some w.server.config.event_timeout_ms) wait in
      let rest = run_rounds strerror w' waits in
      if w.server.running && not w.server.stop_requested
      then (if polled then rest else some (w', false))
      else some (w, true)

  -- Behind the loop of `run`, where it has not thrown.
  unfoldable pub finish_run : World em × Bool → World em × Bool
  finish_run (w, true) = (
    reset_manager
        (close_listen_socket (close_all_connections (set_running false w.server.stop_requested w))),
    true,
  )
  finish_run (w, false) = (w, false)

  unfoldable pub run :
      (ℕ → Str)
      → (Str → Bool)
      → Option em.State
      → ListenCalls
      → World em
      → List Wait
      → Option (World em × Bool)
  run strerror is_ipv4 manager calls w waits =
      let (w', started) = start is_ipv4 manager calls w in
      if started
      then elim (run_rounds strerror w' waits) [ none ↦ none | some r ↦ some (finish_run r) ]
      else some (w', false)
