-- ===== src/Server.antt =====
-- The part of Server (src/Server.cpp) through which the application writes to a client, and the
-- disconnection that a write can cause. `on_disconnect` is the handler that main.cpp registers:
-- it runs inside `disconnect` and writes to other clients, which can disconnect them in turn.
pub mod Interests
use irc_relay_server.Prelude.{ℕ, Bool, true, false, ◌&&◌, Option, none, some, if◌then◌else◌, not}
use irc_relay_server.Prelude.Map.{nat_key, find, erase, modify}
use irc_relay_server.Text.{Str, text}
use irc_relay_server.Connection.{Connection, wants_write, queue_line, queue_raw}
use irc_relay_server.Events.{EventManager, EventInterest, union, read_interest, write_interest}
use irc_relay_server.World.{World, increment}

-- The interests that `refreshInterest` registers: no reading once the close is requested.
unfoldable pub interests_for : Connection → EventInterest
interests_for c =
    let base = if c.close_requested then write_interest else read_interest in
    if wants_write c then union base write_interest else base

module _ ⦃em : EventManager⦄ where
  unfoldable pub find_connection : World em → ℕ → Option Connection
  find_connection w fd = find fd w.server.connections

  -- A write through the pointer that `findConnection` returns.
  unfoldable pub modify_connection : ℕ → (Connection → Connection) → World em → World em
  modify_connection fd f w = record w {
    server = record w.server { connections = modify fd f w.server.connections };
  }

  unfoldable pub set_events : em.State → World em → World em
  set_events s w = record w { server = record w.server { events = s } }

  unfoldable pub count_drop : World em → World em
  count_drop w = record w {
    server = record w.server {
      metrics = record w.server.metrics {
        outbound_queue_drops = increment w.server.metrics.outbound_queue_drops;
      };
    };
  }

  -- `eventManager_->removeFd(fd)` where there is an event manager, its exception ignored.
  abbrev pub unwatched : World em → ℕ → em.State
  unwatched w fd =
      if w.server.has_manager then (em.remove_fd w.server.events fd).0 else w.server.events

  -- The connection leaves the table before the handler runs.
  unfoldable pub drop_connection : ℕ → World em → World em
  drop_connection fd w = record w {
    server = record w.server {
      events = unwatched w fd;
      connections = erase fd w.server.connections;
      metrics = record w.server.metrics {
        closed_connections = increment w.server.metrics.closed_connections;
      };
    };
  }

  module _ (on_disconnect : World em → Connection → Str → World em) where
    unfoldable pub disconnect : World em → ℕ → Str → World em
    disconnect w fd reason = elim (find_connection w fd) [
      | none ↦ w
      | some c ↦ on_disconnect (drop_connection fd w) c reason
    ]

    unfoldable pub update_interest : World em → ℕ → EventInterest → World em × Bool
    update_interest w fd interests =
        let (s, updated) = em.update_fd w.server.events fd interests in
        if updated
        then (set_events s w, true)
        else (disconnect (set_events s w) fd (text "event interest update failed"), false)

    unfoldable pub refresh_interest : World em → ℕ → World em × Bool
    refresh_interest w fd = elim (find_connection w fd) [
      | none ↦ (w, false)
      | some c ↦
          if c.close_requested && not (wants_write c)
          then (disconnect w fd c.close_reason, false)
          else update_interest w fd (interests_for c)
    ]

    -- What `sendTo` and `queueRawTo` do once the connection has queued its bytes or refused them.
    unfoldable pub after_queue : World em → ℕ → Connection × Bool → World em × Bool
    after_queue w fd (c, queued) =
        let w' = modify_connection fd (λ _. c) w in
        let (w'', refreshed) = refresh_interest (if queued then w' else count_drop w') fd in
        (w'', queued && refreshed)

    unfoldable pub send_to : World em → ℕ → Str → World em × Bool
    send_to w fd line = elim (find_connection w fd) [
      | none ↦ (w, false)
      | some c ↦ after_queue w fd (queue_line line c)
    ]

    unfoldable pub queue_raw_to : World em → ℕ → Str → World em × Bool
    queue_raw_to w fd bytes = elim (find_connection w fd) [
      | none ↦ (w, false)
      | some c ↦ after_queue w fd (queue_raw bytes c)
    ]
