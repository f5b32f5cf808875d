-- ===== src/App/Relay/Fuel.antt =====
-- Nested disconnections end: each takes a connection out of the table, so any fuel above the
-- number of connections gives the same result as any other.
use irc_relay_server.Prelude.{
  ℕ, zero, suc, ◌≤◌, ◌<◌, ◌≡◌, refl, ap, Bool, true, false, some, List, [], ◌∷◌, if◌then◌else◌,
  length, arith, Option-cases, inl, inr,
}
use irc_relay_server.Prelude.Map.{nat_key, length-modify, length-erase-lt}
use irc_relay_server.Text.{Str}
use irc_relay_server.Connection.{Connection}
use irc_relay_server.Events.{EventManager, EventInterest}
use irc_relay_server.World.{World}
use irc_relay_server.Registry.{find_client}
use irc_relay_server.Server.{
  find_connection, modify_connection, set_events, count_drop, drop_connection, disconnect,
  update_interest, refresh_interest, after_queue, send_to, interests_for,
}
use irc_relay_server.App.Relay.{
  send_each, notify_quit, remove_client_state, on_disconnect, send_within, send_raw, fuel_for,
  drop_client,
}
use irc_relay_server.App.Relay.Steps.{shrinks, send_within-path}

module _ ⦃em : EventManager⦄ where
  abbrev pub size : World em → ℕ
  size w = length w.server.connections

  size-drop :
      (w : World em) (fd : ℕ) (c : Connection)
      → find_connection w fd ≡ some c
      → size (drop_connection fd w) < size w
  unfolding find_connection drop_connection
  size-drop w fd c e = length-erase-lt fd c w.server.connections e

  size-modify :
      (w : World em) (fd : ℕ) (f : Connection → Connection)
      → size (modify_connection fd f w) ≡ size w
  unfolding modify_connection
  size-modify w fd f = length-modify fd f w.server.connections

  -- Two handlers that agree on smaller worlds.
  module _ (h k : World em → Connection → Str → World em) (n : ℕ)
      (agree : (w : World em) (c : Connection) (reason : Str)
        → size w < n
        → h w c reason ≡ k w c reason) where
    disconnect-agree :
        (w : World em) (fd : ℕ) (reason : Str)
        → size w ≤ n
        → disconnect h w fd reason ≡ disconnect k w fd reason
    unfolding disconnect
    disconnect-agree w fd reason b = elim (Option-cases (find_connection w fd)) [
      | inl e ↦ rw (e, disconnect) refl
      | inr (c, e) ↦
          rw (e, disconnect)
            (agree (drop_connection fd w) c reason (omega (arith, size-drop w fd c e)))
    ]

    update_interest-agree :
        (w : World em) (fd : ℕ) (i : EventInterest)
        → size w ≤ n
        → update_interest h w fd i ≡ update_interest k w fd i
    unfolding update_interest set_events
    update_interest-agree w fd i b =
        let s = (em.update_fd w.server.events fd i).0 in
        ap
          (λ x.
            if (em.update_fd w.server.events fd i).1 then (set_events s w, true) else (x, false))
          (disconnect-agree (set_events s w) fd _ b)

    refresh_interest-agree :
        (w : World em) (fd : ℕ) → size w ≤ n → refresh_interest h w fd ≡ refresh_interest k w fd
    unfolding refresh_interest
    refresh_interest-agree w fd b = elim (Option-cases (find_connection w fd)) [
      | inl e ↦ rw (e, refresh_interest) refl
      | inr (c, e) ↦
          rw (e, refresh_interest)
            (rw
              (
                disconnect-agree w fd c.close_reason b,
                update_interest-agree w fd (interests_for c) b,
              )
              refl)
    ]

    after_queue-agree :
        (w : World em) (fd : ℕ) (c : Connection) (queued : Bool)
        → size w ≤ n
        → after_queue h w fd (c, queued) ≡ after_queue k w fd (c, queued)
    unfolding after_queue count_drop
    after_queue-agree w fd c true b = rw (
        refresh_interest-agree (modify_connection fd (λ _. c) w) fd
          (omega (arith, size-modify w fd (λ _. c))))
    after_queue-agree w fd c false b = rw (
        refresh_interest-agree (count_drop (modify_connection fd (λ _. c) w)) fd
          (omega (arith, size-modify w fd (λ _. c))))

    send_to-agree :
        (w : World em) (fd : ℕ) (line : Str)
        → size w ≤ n
        → send_to h w fd line ≡ send_to k w fd line
    unfolding send_to
    send_to-agree w fd line b = elim (Option-cases (find_connection w fd)) [
      | inl e ↦ rw (e, send_to) refl
      | inr (c, e) ↦ rw (e, send_to) (after_queue-agree w fd _ _ b)
    ]

  -- Two ways to send that agree on smaller worlds.
  module _ (s t : World em → ℕ → Str → World em × Bool) (n : ℕ)
      (agree : (w : World em) (fd : ℕ) (line : Str) → size w < n → s w fd line ≡ t w fd line)
      (smaller : (w : World em) (fd : ℕ) (line : Str) → size (s w fd line).0 ≤ size w) where
    send_each-agree :
        (w : World em) (line : Str) (fds : List ℕ)
        → size w < n
        → send_each s w line fds ≡ send_each t w line fds
    unfolding send_each
    send_each-agree w line [] b = refl
    send_each-agree w line (fd ∷ fds) b =
        rw (← agree w fd line b)
          (send_each-agree (s w fd line).0 line fds (omega (arith, smaller w fd line)))

    on_disconnect-agree :
        (w : World em) (c : Connection) (reason : Str)
        → size w < n
        → on_disconnect s w c reason ≡ on_disconnect t w c reason
    unfolding on_disconnect remove_client_state notify_quit
    on_disconnect-agree w c reason b = elim (Option-cases (find_client w.app.clients c.fd)) [
      | inl e ↦ rw (e, remove_client_state) refl
      | inr (client, e) ↦ rw (e, remove_client_state) (rw (send_each-agree w _ _ b) refl)
    ]

  -- Any two fuels above the number of connections give the same world and the same result.
  pub send_within-enough :
      (f g : ℕ) (w : World em) (fd : ℕ) (line : Str)
      → size w < f
      → size w < g
      → send_within f w fd line ≡ send_within g w fd line
  unfolding send_within
  send_within-enough zero g w fd line b b' = absurd (omega arith)
  send_within-enough (suc f) zero w fd line b b' = absurd (omega arith)
  send_within-enough (suc f) (suc g) w fd line b b' =
      send_to-agree _ _ (size w)
        (λ v c reason m.
          on_disconnect-agree (send_within f) (send_within g) (size w)
            (λ u k l m'. send_within-enough f g u k l (omega arith) (omega arith))
            (send_within-path shrinks f) v c reason m)
        w fd line (omega arith)

  -- The fuel of `send_raw` is enough: it satisfies the equation of the code, which has no fuel.
  pub send_raw-fixed_point :
      (w : World em) (fd : ℕ) (line : Str)
      → send_raw w fd line ≡ send_to (on_disconnect send_raw) w fd line
  unfolding send_raw send_within fuel_for
  send_raw-fixed_point w fd line =
      send_to-agree _ _ (size w)
        (λ v c reason m.
          on_disconnect-agree (send_within (size w)) send_raw (size w)
            (λ u k l m'. send_within-enough (size w) (suc (size u)) u k l m' (omega arith))
            (send_within-path shrinks (size w)) v c reason m)
        w fd line (omega arith)

  -- The fuel of `drop_client` is enough: it satisfies the equation of the code, which has no fuel.
  pub drop_client-fixed_point :
      (w : World em) (fd : ℕ) (reason : Str)
      → drop_client w fd reason ≡ disconnect (on_disconnect send_raw) w fd reason
  unfolding drop_client send_raw fuel_for
  drop_client-fixed_point w fd reason =
      disconnect-agree _ _ (suc (size w))
        (λ v c r m.
          on_disconnect-agree (send_within (suc (size w))) send_raw (suc (size w))
            (λ u k l m'. send_within-enough (suc (size w)) (suc (size u)) u k l m' (omega arith))
            (send_within-path shrinks (suc (size w))) v c r m)
        w fd reason (omega arith)
