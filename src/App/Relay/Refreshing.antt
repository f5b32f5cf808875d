-- ===== src/App/Relay/Refreshing.antt =====
-- `refreshInterest` and `disconnect` (src/Server.cpp) with the application's handler: who is still in
-- the table behind them.
use irc_relay_server.Prelude.{
  ℕ, ◌≡◌, Bool, true, false, ◌&&◌, ◌||◌, none, some, not, arith, Option-cases, Bool-cases, inl, inr,
  ==_iff,
}
use irc_relay_server.Prelude.Map.{nat_key, find, find-erase, find-modify}
use irc_relay_server.Text.{Str}
use irc_relay_server.Connection.{Connection, queue_line, wants_write}
use irc_relay_server.Events.{
  EventManager, EventInterest, has_interest, read_interest, write_interest,
}
use irc_relay_server.World.{World}
use irc_relay_server.Server.{
  find_connection, modify_connection, set_events, count_drop, drop_connection, disconnect,
  interests_for, update_interest, refresh_interest,
}
use irc_relay_server.Server.Interests.{interests_for-has_interest, refresh_interest-registered}
use irc_relay_server.App.Relay.{on_disconnect, send_within}
use irc_relay_server.App.Relay.Steps.{IsPath, on_disconnect-path, send_within-path}
use irc_relay_server.App.Relay.Results.{refresh_interest-true}

module _ ⦃em : EventManager⦄ where
  -- A descriptor without a connection.
  abbrev pub IsAbsent : World em → ℕ → Type 0
  IsAbsent w fd = find fd w.server.connections ≡ none

  -- No write and no disconnection makes a connection.
  pub IsAbsent-path : (fd : ℕ) → IsPath (λ w w'. IsAbsent w fd → IsAbsent w' fd)
  unfolding modify_connection count_drop set_events drop_connection
  IsAbsent-path fd = record {
    stay = λ w h. h;
    join = λ u v w f g h. g (f h);
    modifies = λ w k line c e h.
        ground (arith, h, find-modify k fd (λ _. (queue_line line c).0) w.server.connections);
    counts = λ w h. h;
    registers = λ w s h. h;
    drops = λ w k h. ground (arith, h, find-erase k fd w.server.connections);
    forgets = λ w k h. h;
  }

  -- What becomes of a connection by the result of `refreshInterest`.
  abbrev pub Kept : Bool → World em → ℕ → Connection → Type 0
  Kept false w' fd c = find_connection w' fd ≡ none
  Kept true w' fd c =
      (find_connection w' fd ≡ some c)
      × ((c.close_requested && not (wants_write c)) ≡ false)
      × (i : EventInterest) × (em.interest w'.server.events fd ≡ some i)
      × (has_interest i read_interest ≡ not c.close_requested)
      × (has_interest i write_interest ≡ (c.close_requested || wants_write c))

  module _ (fuel : ℕ) where
    -- The application's handler, whose writes nest at most `fuel` deep.
    abbrev pub handler : World em → Connection → Str → World em
    handler = on_disconnect (send_within fuel)

    pub disconnect-IsAbsent :
        (w : World em) (fd : ℕ) (reason : Str) → IsAbsent (disconnect handler w fd reason) fd
    unfolding disconnect find_connection drop_connection
    disconnect-IsAbsent w fd reason = elim (Option-cases (find fd w.server.connections)) [
      | inl e ↦ rw (e, disconnect) e
      | inr (c, e) ↦
          rw (e, disconnect)
            (on_disconnect-path (IsAbsent-path fd) (send_within fuel)
              (send_within-path (IsAbsent-path fd) fuel) (drop_connection fd w) c reason
              (unfold drop_connection in
                ground (arith, find-erase fd fd w.server.connections, ==_iff fd fd)))
    ]

    update_interest-false :
        (w : World em) (fd : ℕ) (i : EventInterest)
        → (update_interest handler w fd i).1 ≡ false
        → IsAbsent (update_interest handler w fd i).0 fd
    unfolding update_interest
    update_interest-false w fd i t = elim (Bool-cases (em.update_fd w.server.events fd i).1) [
      | inl e ↦ cc (e, t)
      | inr e ↦ rw (e, update_interest) (disconnect-IsAbsent _ fd _)
    ]

    refresh_interest-false :
        (w : World em) (fd : ℕ) (c : Connection)
        → find_connection w fd ≡ some c
        → (refresh_interest handler w fd).1 ≡ false
        → IsAbsent (refresh_interest handler w fd).0 fd
    unfolding refresh_interest
    refresh_interest-false w fd c e t =
        elim (Bool-cases (c.close_requested && not (wants_write c))) [
          | inl over ↦ rw (e, refresh_interest, over) (disconnect-IsAbsent w fd c.close_reason)
          | inr live ↦
              rw (e, refresh_interest, live)
                (update_interest-false w fd (interests_for c) (rw (e, refresh_interest, live) at t))
        ]

    -- Whether `refreshInterest` leaves a connection in the table is its result. Where it does, the
    -- connection is unchanged and the backend watches it: for reading exactly as long as its close is
    -- not requested, for writing exactly where bytes are pending or the close is requested; and it is
    -- not one that is to be closed with nothing pending.
    pub refresh_interest-Kept :
        (w : World em) (fd : ℕ) (c : Connection)
        → find_connection w fd ≡ some c
        → Kept (refresh_interest handler w fd).1 (refresh_interest handler w fd).0 fd c
    unfolding find_connection
    refresh_interest-Kept w fd c e = elim (Bool-cases (refresh_interest handler w fd).1) [
      | inr gone ↦ rw gone (refresh_interest-false w fd c e gone)
      | inl t ↦
          let q = refresh_interest-true handler w fd t in
          let r = refresh_interest-registered handler w fd c e t in
          let bits = interests_for-has_interest c in
          rw t (rw q.same_connections e, r.1, interests_for c, r.0, bits.0, bits.1)
    ]
