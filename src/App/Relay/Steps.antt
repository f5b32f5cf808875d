-- ===== src/App/Relay/Steps.antt =====
-- What a write to a client can do to the world, by the elementary changes that it is made of: a
-- relation that holds across each of them holds across a write and a disconnection.
use irc_relay_server.Prelude.{
  ℕ, zero, suc, ◌≡◌, ◌≤◌, some, Bool, true, false, ◌&&◌, List, [], ◌∷◌, if◌then◌else◌, not, length,
  arith, Option-cases, Bool-cases, inl, inr,
}
use irc_relay_server.Text.{Str}
use irc_relay_server.Prelude.Map.{nat_key, length-modify, length-erase-le}
use irc_relay_server.Connection.{Connection, wants_write, queue_line}
use irc_relay_server.Events.{EventManager, EventInterest}
use irc_relay_server.World.{App, World}
use irc_relay_server.Registry.{ClientState, find_client}
use irc_relay_server.Server.{
  find_connection, modify_connection, set_events, count_drop, drop_connection, disconnect,
  update_interest, refresh_interest, after_queue, send_to, interests_for,
}
use irc_relay_server.App.Relay.{
  forget, with_app, send_each, notify_quit, remove_client_state, on_disconnect, send_within,
  send_raw, drop_client,
}

module _ ⦃em : EventManager⦄ where
  -- `R` relates the world before to the world after.
  pub record IsPath {ℓ} (R : World em → World em → Type ℓ) : Type ℓ where
    pub stay : (w : World em) → R w w
    pub join : (u v w : World em) → R u v → R v w → R u w
    pub modifies :
        (w : World em) (fd : ℕ) (line : Str) (c : Connection)
        → find_connection w fd ≡ some c
        → R w (modify_connection fd (λ _. (queue_line line c).0) w)
    pub counts : (w : World em) → R w (count_drop w)
    pub registers : (w : World em) (s : em.State) → R w (set_events s w)
    pub drops : (w : World em) (fd : ℕ) → R w (drop_connection fd w)
    pub forgets : (w : World em) (fd : ℕ) → R w (with_app (forget fd w.app) w)

  module _ {ℓ} {R : World em → World em → Type ℓ} (p : IsPath R) where
    module _ (handler : World em → Connection → Str → World em)
        (handled : (w : World em) (c : Connection) (reason : Str) → R w (handler w c reason)) where
      disconnect-path :
          (w : World em) (fd : ℕ) (reason : Str) → R w (disconnect handler w fd reason)
      unfolding disconnect
      disconnect-path w fd reason = elim (Option-cases (find_connection w fd)) [
        | inl e ↦ rw (e, disconnect) (p.stay w)
        | inr (c, e) ↦
            rw (e, disconnect)
              (p.join w _ _ (p.drops w fd) (handled (drop_connection fd w) c reason))
      ]

      update_interest-path :
          (w : World em) (fd : ℕ) (i : EventInterest) → R w (update_interest handler w fd i).0
      unfolding update_interest
      update_interest-path w fd i =
          let s = (em.update_fd w.server.events fd i).0 in
          elim (Bool-cases (em.update_fd w.server.events fd i).1) [
            | inl e ↦ rw (e, update_interest) (p.registers w s)
            | inr e ↦
                rw (e, update_interest)
                  (p.join w _ _ (p.registers w s) (disconnect-path (set_events s w) fd _))
          ]

      refresh_interest-path : (w : World em) (fd : ℕ) → R w (refresh_interest handler w fd).0
      unfolding refresh_interest
      refresh_interest-path w fd = elim (Option-cases (find_connection w fd)) [
        | inl e ↦ rw (e, refresh_interest) (p.stay w)
        | inr (c, e) ↦ elim (Bool-cases (c.close_requested && not (wants_write c))) [
          | inl done ↦ rw (e, refresh_interest, done) (disconnect-path w fd c.close_reason)
          | inr open' ↦
              rw (e, refresh_interest, open') (update_interest-path w fd (interests_for c))
        ]
      ]

      after_queue-path :
          (w : World em) (fd : ℕ) (c : Connection) (queued : Bool)
          → R w (modify_connection fd (λ _. c) w)
          → R w (after_queue handler w fd (c, queued)).0
      unfolding after_queue
      after_queue-path w fd c true written = p.join w _ _ written (refresh_interest-path _ fd)
      after_queue-path w fd c false written =
          p.join w _ _ (p.join w _ _ written (p.counts _)) (refresh_interest-path _ fd)

      send_to-path : (w : World em) (fd : ℕ) (line : Str) → R w (send_to handler w fd line).0
      unfolding send_to
      send_to-path w fd line = elim (Option-cases (find_connection w fd)) [
        | inl e ↦ rw (e, send_to) (p.stay w)
        | inr (c, e) ↦ rw (e, send_to) (after_queue-path w fd _ _ (p.modifies w fd line c e))
      ]

    module _ (send : World em → ℕ → Str → World em × Bool)
        (sent : (w : World em) (fd : ℕ) (line : Str) → R w (send w fd line).0) where
      pub send_each-path :
          (w : World em) (line : Str) (fds : List ℕ) → R w (send_each send w line fds)
      unfolding send_each
      send_each-path w line [] = p.stay w
      send_each-path w line (fd ∷ fds) =
          p.join w _ _ (sent w fd line) (send_each-path (send w fd line).0 line fds)

      notified-path :
          (w : World em) (fd : ℕ) (client : ClientState) (reason : Str) (b : Bool)
          → R w (if b then notify_quit send w fd client reason else w)
      unfolding notify_quit
      notified-path w fd client reason true = send_each-path w _ _
      notified-path w fd client reason false = p.stay w

      remove_client_state-path :
          (w : World em) (fd : ℕ) (reason : Str) (notify : Bool)
          → R w (remove_client_state send w fd reason notify)
      unfolding remove_client_state
      remove_client_state-path w fd reason notify =
          elim (Option-cases (find_client w.app.clients fd)) [
            | inl e ↦ rw (e, remove_client_state) (p.stay w)
            | inr (client, e) ↦
                rw (e, remove_client_state)
                  (p.join w _ _ (notified-path w fd client reason _) (p.forgets _ fd))
          ]

      pub on_disconnect-path :
          (w : World em) (c : Connection) (reason : Str) → R w (on_disconnect send w c reason)
      unfolding on_disconnect
      on_disconnect-path w c reason = remove_client_state-path w c.fd reason true

    pub send_within-path :
        (fuel : ℕ) (w : World em) (fd : ℕ) (line : Str) → R w (send_within fuel w fd line).0
    unfolding send_within
    send_within-path zero w fd line = p.stay w
    send_within-path (suc fuel) w fd line =
        send_to-path (on_disconnect (send_within fuel))
          (on_disconnect-path (send_within fuel) (send_within-path fuel)) w fd line

    pub send_raw-path : (w : World em) (fd : ℕ) (line : Str) → R w (send_raw w fd line).0
    unfolding send_raw
    send_raw-path w fd line = send_within-path _ w fd line

    pub drop_client-path : (w : World em) (fd : ℕ) (reason : Str) → R w (drop_client w fd reason)
    unfolding drop_client
    drop_client-path w fd reason =
        disconnect-path _ (on_disconnect-path _ (send_within-path _)) w fd reason

    pub refresh-path :
        (fuel : ℕ) (w : World em) (fd : ℕ)
        → R w (refresh_interest (on_disconnect (send_within fuel)) w fd).0
    refresh-path fuel w fd =
        refresh_interest-path _ (on_disconnect-path _ (send_within-path fuel)) w fd

  -- A property of the application's state that survives the loss of a client.
  pub keeps_app {ℓ} :
      (P : App → Type ℓ)
      → ((app : App) (fd : ℕ) → P app → P (forget fd app))
      → IsPath (λ w w'. P w.app → P w'.app)
  unfolding modify_connection count_drop set_events drop_connection
  keeps_app P keep = record {
    stay = λ w h. h;
    join = λ u v w f g h. g (f h);
    modifies = λ w fd line c e h. h;
    counts = λ w h. h;
    registers = λ w s h. h;
    drops = λ w fd h. h;
    forgets = λ w fd. keep w.app fd;
  }

  -- The table of connections only shrinks.
  pub shrinks : IsPath (λ w w'. length w'.server.connections ≤ length w.server.connections)
  unfolding modify_connection count_drop set_events drop_connection
  shrinks = record {
    stay = λ w. omega arith;
    join = λ u v w f g. omega arith;
    modifies = λ w fd line c e.
        omega (arith, length-modify fd (λ _. (queue_line line c).0) w.server.connections);
    counts = λ w. omega arith;
    registers = λ w s. omega arith;
    drops = λ w fd. length-erase-le fd w.server.connections;
    forgets = λ w fd. omega arith;
  }
