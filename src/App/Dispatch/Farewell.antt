-- ===== src/App/Dispatch/Farewell.antt =====
-- What `shutdown` of src/IrcApplication.cpp leaves of the connections.
use irc_relay_server.Prelude.{
  ℕ, ◌≡◌, ◌⊎◌, refl, ◌∙◌, subst, Bool, true, false, some, List, [], ◌∷◌, arith, Bool-cases, inl,
  inr, ==_iff, if◌then◌else◌, ◌&&◌, Option, none, &&-true,
}
use irc_relay_server.Prelude.{◌==◌ as nat_beq}
use irc_relay_server.Prelude.Map.{
  nat_key, find, find-modify, find-erase, member, member-keys, mapped,
}
use irc_relay_server.Text.{Str}
use irc_relay_server.Registry.{contains_client, find_client, fds}
use irc_relay_server.Replies.{error}
use irc_relay_server.Connection.{Connection, queue_line}
use irc_relay_server.Connection.{request_close as close_connection}
use irc_relay_server.Events.{EventManager}
use irc_relay_server.World.{World}
use irc_relay_server.Server.{
  find_connection, modify_connection, set_events, count_drop, drop_connection,
}
use irc_relay_server.App.Relay.{send_raw}
use irc_relay_server.App.Relay.Steps.{IsPath, send_raw-path}
use irc_relay_server.App.Relay.Results.{send_raw-true}
use irc_relay_server.App.Support.{request_close}
use irc_relay_server.App.Messaging.Delivery.{IsDistinct, with_line, Queued-find}
use irc_relay_server.App.Dispatch.{shutdown, shutdown_each}
use irc_relay_server.App.Dispatch.Timers.{IsClosing, request_close-IsClosing}

-- A connection that is to be closed stays so, whatever is written to it.
queue_line-close_requested :
    (line : Str) (c : Connection)
    → c.close_requested ≡ true
    → (queue_line line c).0.close_requested ≡ true
unfolding queue_line close_connection
queue_line-close_requested line c t = ground (arith, t)

-- The connection with the farewell queued and its close requested.
abbrev pub dismissed : Str → Connection → Connection
dismissed reason c = close_connection reason (queue_line (error reason) c).0

module _ ⦃em : EventManager⦄ where
  IsClosing-path : (fd : ℕ) → IsPath (λ w w'. IsClosing w fd → IsClosing w' fd)
  unfolding modify_connection count_drop set_events drop_connection find_connection
  IsClosing-path fd = record {
    stay = λ w h. h;
    join = λ u v w f g h. g (f h);
    modifies = λ w k line c e h d e'. ground (
      arith,
      e,
      e',
      h d,
      h c,
      queue_line-close_requested line c,
      ==_iff k fd,
      find-modify k fd (λ _. (queue_line line c).0) w.server.connections,
    );
    counts = λ w h. h;
    registers = λ w s h. h;
    drops = λ w k h d e'. ground (arith, e', h d, find-erase k fd w.server.connections);
    forgets = λ w k h. h;
  }

  request_close-IsClosing_other :
      (w : World em) (k fd : ℕ) (reason : Str)
      → IsClosing w fd
      → IsClosing (request_close w k reason) fd
  request_close-IsClosing_other w k fd reason h = elim (Bool-cases (nat_beq k fd)) [
    | inl same ↦
        subst (IsClosing (request_close w k reason)) ((==_iff k fd).0 same)
          (request_close-IsClosing w k reason)
    | inr other ↦ λ d e.
        unfold request_close modify_connection find_connection in
        h d (
          ground (arith, e, other, find-modify k fd (close_connection reason) w.server.connections))
  ]

  -- A loop of farewells reaches every client of its list.
  shutdown_each-IsClosing :
      (w : World em) (ks : List ℕ) (reason : Str) (fd : ℕ)
      → (member fd ks ≡ true) ⊎ IsClosing w fd
      → IsClosing (shutdown_each w ks reason) fd
  unfolding shutdown_each member
  shutdown_each-IsClosing w [] reason fd (inl t) = cc
  shutdown_each-IsClosing w [] reason fd (inr h) = h
  shutdown_each-IsClosing w (k ∷ ks) reason fd t =
      let w₁ = (send_raw w k (error reason)).0 in
      let w' = request_close w₁ k reason in
      shutdown_each-IsClosing w' ks reason fd (elim (Bool-cases (nat_beq k fd)) [
        | inl same ↦
            inr (subst (IsClosing w') ((==_iff k fd).0 same) (request_close-IsClosing w₁ k reason))
        | inr other ↦ elim t [
          | inl m ↦ inl (ground (arith, other, m))
          | inr h ↦ inr (
              request_close-IsClosing_other w₁ k fd reason
                (send_raw-path (IsClosing-path fd) w k (error reason) h))
        ]
      ])

  -- Behind `shutdown`, whatever its writes have done, every client's connection is gone or is to be
  -- closed once its bytes are written.
  pub shutdown-IsClosing :
      (w : World em) (reason : Str) (fd : ℕ)
      → contains_client w.app.clients fd ≡ true
      → IsClosing (shutdown w reason) fd
  unfolding shutdown fds contains_client find_client
  shutdown-IsClosing w reason fd t =
      shutdown_each-IsClosing w (fds w.app.clients) reason fd
        (inl (member-keys fd w.app.clients.states ∙ t))

  -- Every write of `shutdown` returns true.
  unfoldable pub all_told : World em → Str → List ℕ → Bool
  all_told w reason [] = true
  all_told w reason (k ∷ ks) =
      let (w', sent) = send_raw w k (error reason) in
      sent && all_told (request_close w' k reason) reason ks

  told-find :
      (w : World em) (k j : ℕ) (reason : Str)
      → (send_raw w k (error reason)).1 ≡ true
      → find j (request_close (send_raw w k (error reason)).0 k reason).server.connections ≡ (
          if nat_beq k j
          then mapped (dismissed reason) (find j w.server.connections)
          else find j w.server.connections)
  unfolding request_close modify_connection
  told-find w k j reason sent =
      let w₁ = (send_raw w k (error reason)).0 in
      find-modify k j (close_connection reason) w₁.server.connections
      ∙ twice (nat_beq k j) (find j w.server.connections) (find j w₁.server.connections)
          (Queued-find w w₁ k j (error reason) (send_raw-true w k (error reason) sent))
    where
      twice :
          (b : Bool) (u v : Option Connection)
          → v ≡ (if b then mapped (with_line (error reason)) u else u)
          → (if b then mapped (close_connection reason) v else v)
            ≡ (if b then mapped (dismissed reason) u else u)
      twice true none v e = rw e refl
      twice true (some c) v e = rw e refl
      twice false u v e = e

  shutdown_each-find :
      (w : World em) (reason : Str) (ks : List ℕ) (j : ℕ)
      → IsDistinct ks
      → all_told w reason ks ≡ true
      → find j (shutdown_each w ks reason).server.connections ≡ (
          if member j ks
          then mapped (dismissed reason) (find j w.server.connections)
          else find j w.server.connections)
  unfolding shutdown_each all_told member
  shutdown_each-find w reason [] j d t = refl
  shutdown_each-find w reason (k ∷ ks) j d t =
      let w' = request_close (send_raw w k (error reason)).0 k reason in
      let told = &&-true (send_raw w k (error reason)).1 (all_told w' reason ks) t in
      ground (
        arith,
        d.0,
        ==_iff k j,
        told-find w k j reason told.0,
        shutdown_each-find w' reason ks j d.1 told.1,
      )

  -- Where every write of `shutdown` succeeds, the connection of each client has the ERROR line with
  -- the reason queued once and its close requested for that reason, and no other connection changes.
  pub shutdown-find :
      (w : World em) (reason : Str) (j : ℕ)
      → IsDistinct (fds w.app.clients)
      → all_told w reason (fds w.app.clients) ≡ true
      → find j (shutdown w reason).server.connections ≡ (
          if contains_client w.app.clients j
          then mapped (dismissed reason) (find j w.server.connections)
          else find j w.server.connections)
  unfolding shutdown fds contains_client find_client
  shutdown-find w reason j d t =
      rw (← member-keys j w.app.clients.states)
        (shutdown_each-find w reason (fds w.app.clients) j d t)
