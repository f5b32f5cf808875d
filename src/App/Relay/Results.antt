-- ===== src/App/Relay/Results.antt =====
-- What the result of a write says. A write that succeeds has disconnected nobody, so references
-- into the maps stay good: this is what the loops over `_channels` rely on.
use irc_relay_server.Prelude.{
  ℕ, ◌≡◌, refl, Bool, true, false, ◌&&◌, not, none, some, arith, Option-cases, Bool-cases, inl, inr,
  ==_iff,
}
use irc_relay_server.Prelude.Map.{nat_key, modify, find-modify}
use irc_relay_server.Text.{Str}
use irc_relay_server.Connection.{Connection, queue_line, wants_write}
use irc_relay_server.Events.{EventManager, EventInterest}
use irc_relay_server.World.{World}
use irc_relay_server.Server.{
  find_connection, modify_connection, set_events, update_interest, refresh_interest, after_queue,
  send_to, interests_for,
}
use irc_relay_server.App.Relay.{send_within, send_raw, fuel_for}

module _ ⦃em : EventManager⦄ where
  -- The same application, and the same connections.
  pub record IsQuiet (w w' : World em) : Type 0 where
    pub same_app : w'.app ≡ w.app
    pub same_connections : w'.server.connections ≡ w.server.connections

  module _ (h : World em → Connection → Str → World em) where
    update_interest-true :
        (w : World em) (fd : ℕ) (i : EventInterest)
        → (update_interest h w fd i).1 ≡ true
        → IsQuiet w (update_interest h w fd i).0
    unfolding update_interest set_events
    update_interest-true w fd i t = elim (Bool-cases (em.update_fd w.server.events fd i).1) [
      | inl e ↦ rw (e, update_interest) (record { same_app = refl; same_connections = refl })
      | inr e ↦ cc (e, t)
    ]

    pub refresh_interest-true :
        (w : World em) (fd : ℕ)
        → (refresh_interest h w fd).1 ≡ true
        → IsQuiet w (refresh_interest h w fd).0
    unfolding refresh_interest
    refresh_interest-true w fd t = elim (Option-cases (find_connection w fd)) [
      | inl e ↦ cc (e, t)
      | inr (c, e) ↦ ground (arith, e, t, update_interest-true w fd (interests_for c))
    ]

    -- A write that succeeds queues the line at its connection, registers the interests, and changes
    -- nothing else: no client is lost and no other connection is touched.
    after_queue-true :
        (w : World em) (fd : ℕ) (c : Connection) (queued : Bool)
        → (after_queue h w fd (c, queued)).1 ≡ true
        → (queued ≡ true)
          × IsQuiet (modify_connection fd (λ _. c) w) (after_queue h w fd (c, queued)).0
    unfolding after_queue
    after_queue-true w fd c true t =
        (refl, refresh_interest-true (modify_connection fd (λ _. c) w) fd t)
    after_queue-true w fd c false t = cc

  pub record Queued (w : World em) (fd : ℕ) (line : Str) (w' : World em) : Type 0 where
    pub at : Connection
    pub was_connected : find_connection w fd ≡ some at
    pub accepted : (queue_line line at).1 ≡ true
    pub same_app : w'.app ≡ w.app
    pub new_connections :
        w'.server.connections ≡ modify fd (λ _. (queue_line line at).0) w.server.connections

  module _ (h : World em → Connection → Str → World em) where
    send_to-found :
        (w : World em) (fd : ℕ) (line : Str) (c : Connection)
        → find_connection w fd ≡ some c
        → send_to h w fd line ≡ after_queue h w fd (queue_line line c)
    unfolding send_to
    send_to-found w fd line c e = rw (e, send_to) refl

    send_to-true :
        (w : World em) (fd : ℕ) (line : Str)
        → (send_to h w fd line).1 ≡ true
        → Queued w fd line (send_to h w fd line).0
    unfolding modify_connection
    send_to-true w fd line t = elim (Option-cases (find_connection w fd)) [
      | inl e ↦ unfold send_to in cc (e, t)
      | inr (c, e) ↦
          let found = send_to-found w fd line c e in
          let q = after_queue-true h w fd _ _ (rw found at t) in
          rw found (record {
            at = c;
            was_connected = e;
            accepted = q.0;
            same_app = q.1.same_app;
            new_connections = q.1.same_connections;
          })
    ]

  -- A write that returns true has queued the line at a connection of the table, which accepted it, and
  -- changed no other connection and nothing of the application: it has disconnected nobody.
  pub send_raw-true :
      (w : World em) (fd : ℕ) (line : Str)
      → (send_raw w fd line).1 ≡ true
      → Queued w fd line (send_raw w fd line).0
  unfolding send_raw fuel_for send_within
  send_raw-true w fd line t = send_to-true _ w fd line t

  abbrev takes : World em → ℕ → Connection × Bool → Bool
  takes w fd (c, queued) =
      queued
      && (not (c.close_requested && not (wants_write c))
          && (em.update_fd w.server.events fd (interests_for c)).1)

  -- The connection has room for the line, is not one that is to be closed with nothing pending then,
  -- and the backend registers its interests.
  unfoldable pub can_take : World em → ℕ → Str → Bool
  can_take w fd line = elim (find_connection w fd) [
    | none ↦ false
    | some c ↦ takes w fd (queue_line line c)
  ]

  module _ (h : World em → Connection → Str → World em) where
    refresh_interest-result :
        (w : World em) (fd : ℕ) (c : Connection)
        → find_connection w fd ≡ some c
        → (refresh_interest h w fd).1 ≡ takes w fd (c, true)
    unfolding refresh_interest update_interest
    refresh_interest-result w fd c e =
        elim (Bool-cases (c.close_requested && not (wants_write c))) [
          | inl over ↦ rw (e, refresh_interest, over) refl
          | inr live ↦ elim (Bool-cases (em.update_fd w.server.events fd (interests_for c)).1) [
            | inl done ↦ rw (e, refresh_interest, done, live) refl
            | inr failed ↦ rw (e, refresh_interest, failed, live) refl
          ]
        ]

    after_queue-result :
        (w : World em) (fd : ℕ) (c : Connection) (d : Connection × Bool)
        → find_connection w fd ≡ some c
        → (after_queue h w fd d).1 ≡ takes w fd d
    unfolding after_queue modify_connection find_connection
    after_queue-result w fd c (d, true) e =
        refresh_interest-result (modify_connection fd (λ _. d) w) fd d
          (ground (arith, e, ==_iff fd fd, find-modify fd fd (λ _. d) w.server.connections))
    after_queue-result w fd c (d, false) e = refl

  -- A write succeeds exactly where a connection can take the line.
  pub send_raw-result :
      (w : World em) (fd : ℕ) (line : Str) → (send_raw w fd line).1 ≡ can_take w fd line
  unfolding send_raw fuel_for send_within send_to can_take
  send_raw-result w fd line = elim (Option-cases (find_connection w fd)) [
    | inl e ↦ rw (e, send_to, can_take) refl
    | inr (c, e) ↦
        rw (send_to-found _ w fd line c e, e, can_take)
          (after_queue-result _ w fd c (queue_line line c) e)
  ]
