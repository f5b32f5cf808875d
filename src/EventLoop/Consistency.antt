-- ===== src/EventLoop/Consistency.antt =====
-- The handlers and the event loop at the invariant of the application's state.
use irc_relay_server.Prelude.{ℕ}
use irc_relay_server.Text.{Str}
use irc_relay_server.Registry.{MonotonicTime}
use irc_relay_server.Connection.{Connection}
use irc_relay_server.Server.{modify_connection}
use irc_relay_server.Events.{EventManager, Event}
use irc_relay_server.World.{World}
use irc_relay_server.App.Relay.{fuel_for}
use irc_relay_server.App.Relay.Steps.{keeps_app, refresh-path}
use irc_relay_server.App.Consistent.{IsConsistent, forget-IsConsistent, drop_client-IsConsistent}
use irc_relay_server.App.Changes.Keeping.{IsConsistent-IsInvariant}
use irc_relay_server.App.Dispatch.{on_line, on_tick, shutdown}
use irc_relay_server.App.Dispatch.Serving.{on_line-keeps, on_tick-keeps, shutdown-keeps}
use irc_relay_server.EventLoop.{Outside, count_line, refresh, handle_client_event}
use irc_relay_server.EventLoop.Keeps.{IsLoopInvariant, handle_client_event-keeps}

module _ ⦃em : EventManager⦄ where
  -- Whatever line a client sends, the state is consistent behind it if it was before.
  pub on_line-IsConsistent :
      (w : World em) (c : Connection) (line : Str) (connect_now now : MonotonicTime)
      → IsConsistent w.app
      → IsConsistent (on_line w c line connect_now now).app
  on_line-IsConsistent w c line connect_now now =
      on_line-keeps IsConsistent-IsInvariant w c line connect_now now tt

  -- A tick of the timers, at whatever time, leaves the state consistent if it was before.
  pub on_tick-IsConsistent :
      (w : World em) (now : MonotonicTime) → IsConsistent w.app → IsConsistent (on_tick w now).app
  on_tick-IsConsistent = on_tick-keeps IsConsistent-IsInvariant

  -- A shutdown, for whatever reason, leaves the state consistent if it was before.
  pub shutdown-IsConsistent :
      (w : World em) (reason : Str) → IsConsistent w.app → IsConsistent (shutdown w reason).app
  shutdown-IsConsistent = shutdown-keeps IsConsistent-IsInvariant

  refresh-IsConsistent :
      (w : World em) (fd : ℕ) → IsConsistent w.app → IsConsistent (refresh w fd).0.app
  unfolding refresh
  refresh-IsConsistent w fd =
      refresh-path (keeps_app IsConsistent forget-IsConsistent) (fuel_for w) w fd

  IsConsistent-IsLoopInvariant :
      IsLoopInvariant (λ w fd. Unit {0}) (λ (w : World em). IsConsistent w.app)
  unfolding modify_connection count_line
  IsConsistent-IsLoopInvariant = record {
    inv = IsConsistent-IsInvariant;
    drops = drop_client-IsConsistent;
    refreshes = refresh-IsConsistent;
    reads = λ w fd c results e h. h;
    flushes = λ w fd c results e h. h;
    counts_line = λ w h. h;
    finds = λ w fd c e h. tt;
  }

  -- Whatever a readiness event finds at a socket, what was received, what could be sent, an error or
  -- a hang-up, the application's state is consistent behind it if it was before.
  pub handle_client_event-IsConsistent :
      (strerror : ℕ → Str) (w : World em) (event : Event) (outside : Outside)
      → IsConsistent w.app
      → IsConsistent (handle_client_event strerror w event outside).app
  handle_client_event-IsConsistent = handle_client_event-keeps IsConsistent-IsLoopInvariant
