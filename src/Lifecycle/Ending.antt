-- ===== src/Lifecycle/Ending.antt =====
-- The end of the process, src/main.cpp and the destructor of src/Server.cpp.
use irc_relay_server.Prelude.{
  ℕ, ◌≡◌, refl, ◌∙◌, ◌||◌, Bool, true, false, none, some, List, [], ◌∷◌, arith, Option-cases,
  Bool-cases, inl, inr, not,
}
use irc_relay_server.Prelude.Map.{nat_key, keys}
use irc_relay_server.Text.{Str, text}
use irc_relay_server.Events.{EventManager}
use irc_relay_server.World.{World}
use irc_relay_server.Server.{
  find_connection, modify_connection, set_events, count_drop, drop_connection, disconnect,
}
use irc_relay_server.App.Relay.Steps.{IsPath, drop_client-path}
use irc_relay_server.App.Relay.{drop_client}
use irc_relay_server.App.Dispatch.{on_tick, shutdown}
use irc_relay_server.EventLoop.{close_each, close_all_connections}
use irc_relay_server.Lifecycle.{start, stop, poll_once, close_listen_socket}
use irc_relay_server.Lifecycle.Process.{
  Round, Outer, main_loop, drain, close_unheard, destroy_unheard, destroy, farewell, serve,
}
use irc_relay_server.Lifecycle.Closing.{IsClosed, close_all_connections-empty, close_unheard-empty}

module _ ⦃em : EventManager⦄ where
  same_running : IsPath (λ w w'. w'.server.running ≡ w.server.running)
  unfolding modify_connection count_drop set_events drop_connection
  same_running = record {
    stay = λ w. refl;
    join = λ u v w f g. g ∙ f;
    modifies = λ w k line c e. refl;
    counts = λ w. refl;
    registers = λ w s. refl;
    drops = λ w k. refl;
    forgets = λ w k. refl;
  }

  close_each-running :
      (w : World em) (ks : List ℕ) → (close_each w ks).server.running ≡ w.server.running
  unfolding close_each
  close_each-running w [] = refl
  close_each-running w (fd ∷ ks) =
      close_each-running (drop_client w fd (text "server stopped")) ks
      ∙ drop_client-path same_running w fd (text "server stopped")

  drop_unheard-running :
      (w : World em) (fd : ℕ) (reason : Str)
      → (disconnect (λ v c r. v) w fd reason).server.running ≡ w.server.running
  unfolding disconnect drop_connection
  drop_unheard-running w fd reason = elim (Option-cases (find_connection w fd)) [
    | inl e ↦ rw (e, disconnect) refl
    | inr (c, e) ↦ rw (e, disconnect) refl
  ]

  close_unheard-running :
      (w : World em) (ks : List ℕ) → (close_unheard w ks).server.running ≡ w.server.running
  unfolding close_unheard
  close_unheard-running w [] = refl
  close_unheard-running w (fd ∷ ks) =
      close_unheard-running (disconnect (λ v c r. v) w fd (text "server stopped")) ks
      ∙ drop_unheard-running w fd (text "server stopped")

  close_listen_socket-IsClosed :
      (w : World em)
      → w.server.connections ≡ []
      → w.server.running ≡ false
      → IsClosed (close_listen_socket w)
  unfolding close_listen_socket set_events
  close_listen_socket-IsClosed w c r = elim (Option-cases w.server.listen_fd) [
    | inl e ↦
        rw (e, close_listen_socket) (record { no_connections = c; no_listener = e; stopped = r })
    | inr (fd, e) ↦
        rw (e, close_listen_socket) (record { no_connections = c; no_listener = refl; stopped = r })
  ]

  destroy-IsClosed : (w : World em) → IsClosed (destroy w)
  unfolding destroy stop close_all_connections
  destroy-IsClosed w =
      close_listen_socket-IsClosed (close_all_connections (stop w))
        (close_all_connections-empty (stop w)) (close_each-running (stop w) _)

  destroy_unheard-IsClosed : (w : World em) → IsClosed (destroy_unheard w)
  unfolding destroy_unheard stop
  destroy_unheard-IsClosed w =
      close_listen_socket-IsClosed (close_unheard (stop w) (keys w.server.connections))
        (close_unheard-empty (stop w)) (close_unheard-running (stop w) _)

  farewell-IsClosed : (o : Outer em) (r : World em × Bool) → IsClosed (farewell o r).0
  unfolding farewell
  farewell-IsClosed o (w, false) = destroy-IsClosed w
  farewell-IsClosed o (w, true) =
      let d = drain o.strerror 8 (shutdown w (text "Server shutting down")) o.last_waits in
      elim (Bool-cases d.1) [
        | inl t ↦ rw (t, farewell) (destroy_unheard-IsClosed (stop d.0))
        | inr f ↦ rw (f, farewell) (destroy-IsClosed d.0)
      ]

  -- Whether a signal comes in one of the rounds.
  abbrev pub is_signalled : List Round → Bool
  is_signalled [] = false
  is_signalled (r ∷ rs) = r.signalled || is_signalled rs

  main_loop-total :
      (strerror : ℕ → Str) (w : World em) (rs : List Round)
      → is_signalled rs ≡ true
      → (r : World em × Bool) × (main_loop strerror w rs ≡ some r)
  unfolding main_loop
  main_loop-total strerror w [] t = cc
  main_loop-total strerror w (r ∷ rs) t =
      let p = poll_once strerror w none r.wait in
      elim (Bool-cases (r.signalled || not w.server.running)) [
        | inl over ↦ ((w, true), rw (over, main_loop) refl)
        | inr goes ↦ elim (Bool-cases p.1) [
          | inr thrown ↦ ((p.0, false), rw (goes, thrown, main_loop) refl)
          | inl polled ↦
              let rest =
                main_loop-total strerror (on_tick p.0 r.clock) rs (ground (arith, t, goes)) in
              (rest.0, rw (goes, polled, main_loop) rest.1)
        ]
      ]

  -- Once a signal comes in one of the rounds, the process ends, whatever the sockets, the clock and
  -- the event backend do, and it leaves no connection and no listening socket and is not running.
  pub serve-ends :
      (o : Outer em) (w : World em)
      → is_signalled o.rounds ≡ true
      → (r : World em × ℕ) × (serve o w ≡ some r) × IsClosed r.0
  unfolding serve
  serve-ends o w t =
      let s = start o.is_ipv4 o.manager o.calls w in
      elim (Bool-cases s.1) [
        | inr failed ↦ ((destroy s.0, 1), rw (failed, serve) refl, destroy-IsClosed s.0)
        | inl started ↦
            let (r, e) = main_loop-total o.strerror s.0 o.rounds t in
            (farewell o r, rw (started, e, serve) refl, farewell-IsClosed o r)
      ]
