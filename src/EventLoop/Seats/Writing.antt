-- ===== src/EventLoop/Seats/Writing.antt =====
-- A write to a client and a disconnection (src/Server.cpp), nested as they are, keep every client at
-- a connection.
use irc_relay_server.Prelude.{
  ℕ, zero, suc, ◌≡◌, Bool, true, false, ◌&&◌, List, [], ◌∷◌, not, if◌then◌else◌, Option-cases,
  Bool-cases, inl, inr, ◌∙◌,
}
use irc_relay_server.Text.{Str}
use irc_relay_server.Registry.{ClientState, find_client}
use irc_relay_server.Connection.{Connection, wants_write, queue_line}
use irc_relay_server.Connection.Descriptor.{fd-queue_line}
use irc_relay_server.Events.{EventManager, EventInterest}
use irc_relay_server.World.{World}
use irc_relay_server.Server.{
  find_connection, modify_connection, set_events, count_drop, drop_connection, disconnect,
  update_interest, refresh_interest, after_queue, send_to, interests_for,
}
use irc_relay_server.App.Relay.{
  send_each, notify_quit, remove_client_state, on_disconnect, send_within, send_raw, drop_client,
  fuel_for,
}
use irc_relay_server.EventLoop.{refresh}
use irc_relay_server.EventLoop.Seats.{
  IsSeated, with_seat, modify-IsSeated, drop-IsSeated, forget-IsSeated, absent-IsSeated,
}

module _ ⦃em : EventManager⦄ where
  -- A property of the world, whoever is leaving.
  abbrev KeepsSeats : (World em → ℕ → Str → World em × Bool) → Type 0
  KeepsSeats send =
      (leaving : ℕ → Bool) (w : World em) (fd : ℕ) (line : Str)
      → IsSeated leaving w
      → IsSeated leaving (send w fd line).0

  module _ (send : World em → ℕ → Str → World em × Bool) (sent : KeepsSeats send) where
    send_each-IsSeated :
        (leaving : ℕ → Bool) (w : World em) (line : Str) (fds : List ℕ)
        → IsSeated leaving w
        → IsSeated leaving (send_each send w line fds)
    unfolding send_each
    send_each-IsSeated leaving w line [] h = h
    send_each-IsSeated leaving w line (fd ∷ fds) h =
        send_each-IsSeated leaving (send w fd line).0 line fds (sent leaving w fd line h)

    notified-IsSeated :
        (leaving : ℕ → Bool) (w : World em) (fd : ℕ) (client : ClientState) (reason : Str)
        (b : Bool)
        → IsSeated leaving w
        → IsSeated leaving (if b then notify_quit send w fd client reason else w)
    unfolding notify_quit
    notified-IsSeated leaving w fd client reason true h = send_each-IsSeated leaving w _ _ h
    notified-IsSeated leaving w fd client reason false h = h

    -- The connection at `fd` is gone, and its client follows.
    remove_client_state-IsSeated :
        (leaving : ℕ → Bool) (w : World em) (fd : ℕ) (reason : Str) (notify : Bool)
        → IsSeated (with_seat fd leaving) w
        → IsSeated leaving (remove_client_state send w fd reason notify)
    unfolding remove_client_state
    remove_client_state-IsSeated leaving w fd reason notify h =
        elim (Option-cases (find_client w.app.clients fd)) [
          | inl e ↦ rw (e, remove_client_state) (absent-IsSeated leaving w fd e h)
          | inr (client, e) ↦
              rw (e, remove_client_state)
                (forget-IsSeated leaving _ fd
                  (notified-IsSeated (with_seat fd leaving) w fd client reason _ h))
        ]

    disconnect-IsSeated :
        (leaving : ℕ → Bool) (w : World em) (fd : ℕ) (reason : Str)
        → IsSeated leaving w
        → IsSeated leaving (disconnect (on_disconnect send) w fd reason)
    unfolding disconnect on_disconnect
    disconnect-IsSeated leaving w fd reason h = elim (Option-cases (find_connection w fd)) [
      | inl e ↦ rw (e, disconnect) h
      | inr (c, e) ↦
          rw (e, disconnect, h.keyed fd c e)
            (remove_client_state-IsSeated leaving (drop_connection fd w) fd reason true
              (drop-IsSeated leaving w fd h))
    ]

    set_events-IsSeated :
        (leaving : ℕ → Bool) (w : World em) (s : em.State)
        → IsSeated leaving w
        → IsSeated leaving (set_events s w)
    unfolding set_events find_connection
    set_events-IsSeated leaving w s h = record { keyed = h.keyed; seats = h.seats }

    count_drop-IsSeated :
        (leaving : ℕ → Bool) (w : World em) → IsSeated leaving w → IsSeated leaving (count_drop w)
    unfolding count_drop find_connection
    count_drop-IsSeated leaving w h = record { keyed = h.keyed; seats = h.seats }

    update_interest-IsSeated :
        (leaving : ℕ → Bool) (w : World em) (fd : ℕ) (i : EventInterest)
        → IsSeated leaving w
        → IsSeated leaving (update_interest (on_disconnect send) w fd i).0
    unfolding update_interest
    update_interest-IsSeated leaving w fd i h =
        let s = em.update_fd w.server.events fd i in
        elim (Bool-cases s.1) [
          | inl e ↦ rw (e, update_interest) (set_events-IsSeated leaving w s.0 h)
          | inr e ↦
              rw (e, update_interest)
                (disconnect-IsSeated leaving (set_events s.0 w) fd _
                  (set_events-IsSeated leaving w s.0 h))
        ]

    refresh_interest-IsSeated :
        (leaving : ℕ → Bool) (w : World em) (fd : ℕ)
        → IsSeated leaving w
        → IsSeated leaving (refresh_interest (on_disconnect send) w fd).0
    unfolding refresh_interest
    refresh_interest-IsSeated leaving w fd h = elim (Option-cases (find_connection w fd)) [
      | inl e ↦ rw (e, refresh_interest) h
      | inr (c, e) ↦ elim (Bool-cases (c.close_requested && not (wants_write c))) [
        | inl done ↦
            rw (e, refresh_interest, done) (disconnect-IsSeated leaving w fd c.close_reason h)
        | inr open' ↦
            rw (e, refresh_interest, open')
              (update_interest-IsSeated leaving w fd (interests_for c) h)
      ]
    ]

    after_queue-IsSeated :
        (leaving : ℕ → Bool) (w : World em) (fd : ℕ) (c : Connection) (queued : Bool)
        → c.fd ≡ fd
        → IsSeated leaving w
        → IsSeated leaving (after_queue (on_disconnect send) w fd (c, queued)).0
    unfolding after_queue
    after_queue-IsSeated leaving w fd c true same h =
        refresh_interest-IsSeated leaving (modify_connection fd (λ _. c) w) fd
          (modify-IsSeated leaving w fd c same h)
    after_queue-IsSeated leaving w fd c false same h =
        refresh_interest-IsSeated leaving (count_drop (modify_connection fd (λ _. c) w)) fd (
          count_drop-IsSeated leaving (modify_connection fd (λ _. c) w)
            (modify-IsSeated leaving w fd c same h))

    send_to-IsSeated : KeepsSeats (send_to (on_disconnect send))
    unfolding send_to
    send_to-IsSeated leaving w fd line h = elim (Option-cases (find_connection w fd)) [
      | inl e ↦ rw (e, send_to) h
      | inr (c, e) ↦
          rw (e, send_to)
            (after_queue-IsSeated leaving w fd (queue_line line c).0 (queue_line line c).1
              (fd-queue_line line c ∙ h.keyed fd c e) h)
    ]

  send_within-IsSeated : (fuel : ℕ) → KeepsSeats (send_within fuel)
  unfolding send_within
  send_within-IsSeated zero leaving w fd line h = h
  send_within-IsSeated (suc fuel) leaving w fd line h =
      send_to-IsSeated (send_within fuel) (send_within-IsSeated fuel) leaving w fd line h

  pub send_raw-IsSeated : KeepsSeats send_raw
  unfolding send_raw
  send_raw-IsSeated leaving w fd line h = send_within-IsSeated _ leaving w fd line h

  pub drop_client-IsSeated :
      (leaving : ℕ → Bool) (w : World em) (fd : ℕ) (reason : Str)
      → IsSeated leaving w
      → IsSeated leaving (drop_client w fd reason)
  unfolding drop_client
  drop_client-IsSeated leaving w fd reason h =
      disconnect-IsSeated (send_within (fuel_for w)) (send_within-IsSeated (fuel_for w)) leaving w
        fd reason h

  pub refresh-IsSeated :
      (leaving : ℕ → Bool) (w : World em) (fd : ℕ)
      → IsSeated leaving w
      → IsSeated leaving (refresh w fd).0
  unfolding refresh
  refresh-IsSeated leaving w fd h =
      refresh_interest-IsSeated (send_within (fuel_for w)) (send_within-IsSeated (fuel_for w))
        leaving w fd h
