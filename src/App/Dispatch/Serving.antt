-- ===== src/App/Dispatch/Serving.antt =====
-- The handlers that main.cpp registers with the server, and `shutdown`, keep the invariant.
use irc_relay_server.App.Invariant.{IsInvariant, contains-put_state}
use irc_relay_server.App.Support.Keeps.{send_numeric-keeps, if-keeps}
use irc_relay_server.Prelude.{
  ℕ, ◌≡◌, refl, true, List, [], ◌∷◌, not, Option-cases, Bool-cases, inl, inr, if◌then◌else◌,
  or_default,
}
use irc_relay_server.Prelude.Map.{nat_key, find, beq_refl}
use irc_relay_server.Text.{Str, text}
use irc_relay_server.Message.{Parsed, parsed, rejected, parse_line}
use irc_relay_server.Registry.{ClientState, MonotonicTime, find_client, state, contains_client, fds}
use irc_relay_server.Replies.{error, format_message}
use irc_relay_server.Connection.{Connection}
use irc_relay_server.Events.{EventManager}
use irc_relay_server.World.{World, increment}
use irc_relay_server.App.Relay.{with_app, send_raw}
use irc_relay_server.App.Support.{request_close, with_client}
use irc_relay_server.App.Dispatch.Keeps.{
  record_command-known, record_command-keeps, handle_message-keeps,
}
use irc_relay_server.App.Dispatch.{
  record_command, count_command, count_idle_timeout, on_connect, handle_parsed, on_line,
  send_heartbeat, maintain_found, maintain_client, maintain_each, on_tick, shutdown_each, shutdown,
  heartbeat_token, count_heartbeat,
}

module _ ⦃em : EventManager⦄ {M : World em → ℕ → Type 0} {P : World em → Type 0}
    (rules : IsInvariant M P) where
  handle_parsed-keeps :
      (w : World em) (fd : ℕ) (now : MonotonicTime) (p : Parsed)
      → contains_client w.app.clients fd ≡ true
      → P w
      → P (handle_parsed w fd now p)
  unfolding handle_parsed
  handle_parsed-keeps w fd now (rejected reason) known h =
      send_numeric-keeps rules.kept w fd 417 _ _ h
  handle_parsed-keeps w fd now (parsed m) known h =
      let r = record_command w fd now in
      let h₁ : P r.0 = record_command-keeps rules w fd now known h in
      elim (Bool-cases r.1) [
        | inr refused ↦ rw refused h₁
        | inl accepted ↦ rw accepted (
            handle_message-keeps rules (with_app (count_command r.0.app) r.0) fd m
              (record_command-known w fd now accepted)
              (rules.counts r.0 (count_command r.0.app) refl refl h₁))
      ]

  -- The world in which `on_line` finds a client.
  abbrev met : World em → Connection → MonotonicTime → World em
  met w c now = if not (contains_client w.app.clients c.fd) then on_connect w c now else w

  met-keeps :
      (w : World em) (c : Connection) (now : MonotonicTime) → M w c.fd → P w → P (met w c now)
  met-keeps w c now may h = elim (Bool-cases (contains_client w.app.clients c.fd)) [
    | inl here ↦ rw here h
    | inr new ↦ rw new (rules.connects w c now new may h)
  ]

  met-known :
      (w : World em) (c : Connection) (now : MonotonicTime)
      → contains_client (met w c now).app.clients c.fd ≡ true
  unfolding on_connect
  met-known w c now = elim (Bool-cases (contains_client w.app.clients c.fd)) [
    | inl here ↦ rw (here, here) refl
    | inr new ↦ rw (new, contains-put_state w.app.clients c.fd c.fd _, beq_refl c.fd) refl
  ]

  pub on_line-keeps :
      (w : World em) (c : Connection) (line : Str) (connect_now now : MonotonicTime)
      → M w c.fd
      → P w
      → P (on_line w c line connect_now now)
  unfolding on_line
  on_line-keeps w c line connect_now now may h =
      let w₁ = met w c connect_now in
      let active = record (state w₁.app.clients c.fd) { last_activity_at = now } in
      handle_parsed-keeps (with_client c.fd active w₁) c.fd now (parse_line line)
        (rw (contains-put_state w₁.app.clients c.fd c.fd active, beq_refl c.fd) refl)
        (rules.clients w₁ c.fd active (met-known w c connect_now)
          (record {
            nick_kept = refl;
            has_nick_kept = refl;
            registered_kept = refl;
            pass_kept = λ t. t;
            user_kept = λ t. t;
          })
          (met-keeps w c connect_now may h))

  send_heartbeat-keeps :
      (w : World em) (fd : ℕ) (client : ClientState) (now : MonotonicTime)
      → contains_client w.app.clients fd ≡ true
      → state w.app.clients fd ≡ client
      → P w
      → P (send_heartbeat w fd client now)
  unfolding send_heartbeat
  send_heartbeat-keeps w fd client now known e h =
      let n = increment w.app.next_heartbeat_token in
      let w₁ = with_app (record w.app { next_heartbeat_token = n }) w in
      let asked = record client {
        awaiting_pong = true;
        pending_pong_token = heartbeat_token fd n;
        last_ping_at = now;
      } in
      let w₂ = with_client fd asked w₁ in
      let h₁ =
        rules.clients w₁ fd asked known
          (record {
            nick_kept = rw e refl;
            has_nick_kept = rw e refl;
            registered_kept = rw e refl;
            pass_kept = λ t. rw e at t;
            user_kept = λ t. rw e at t;
          })
          (rules.counts w w₁.app refl refl h) in
      let line = format_message w₂.app.server_name (text "PING") (heartbeat_token fd n ∷ []) in
      let h₂ = rules.kept.sends w₂ fd line h₁ in
      let s = send_raw w₂ fd line in
      if-keeps rules.kept (not s.1) s.0 (with_app (count_heartbeat s.0.app) s.0) h₂
        (rules.counts s.0 (count_heartbeat s.0.app) refl refl h₂)

  maintain_found-keeps :
      (w : World em) (fd : ℕ) (client : ClientState) (now : MonotonicTime)
      → contains_client w.app.clients fd ≡ true
      → state w.app.clients fd ≡ client
      → P w
      → P (maintain_found w fd client now)
  unfolding maintain_found
  maintain_found-keeps w fd client now known e h =
      if-keeps rules.kept _ _ _
        (rules.kept.closes _ fd _ (send_numeric-keeps rules.kept w fd 451 _ _ h))
        (if-keeps rules.kept _ _ _ h (
          if-keeps rules.kept _ _ _
            (rules.kept.closes _ fd _
              (rules.kept.sends _ fd _ (rules.counts w (count_idle_timeout w.app) refl refl h)))
            (if-keeps rules.kept _ _ _ (send_heartbeat-keeps w fd client now known e h) h)))

  maintain_client-keeps :
      (w : World em) (fd : ℕ) (now : MonotonicTime) → P w → P (maintain_client w fd now)
  unfolding maintain_client find_client state
  maintain_client-keeps w fd now h = elim (Option-cases (find fd w.app.clients.states)) [
    | inl e ↦ rw (e, maintain_client) h
    | inr (client, e) ↦
        rw (e, maintain_client)
          (maintain_found-keeps w fd client now (unfold contains_client in rw e refl)
            (unfold state in rw (e, or_default) refl) h)
  ]

  maintain_each-keeps :
      (w : World em) (ks : List ℕ) (now : MonotonicTime) → P w → P (maintain_each w ks now)
  unfolding maintain_each
  maintain_each-keeps w [] now h = h
  maintain_each-keeps w (fd ∷ ks) now h =
      maintain_each-keeps (maintain_client w fd now) ks now (maintain_client-keeps w fd now h)

  pub on_tick-keeps : (w : World em) (now : MonotonicTime) → P w → P (on_tick w now)
  unfolding on_tick
  on_tick-keeps w now h = maintain_each-keeps w (fds w.app.clients) now h

  shutdown_each-keeps :
      (w : World em) (ks : List ℕ) (reason : Str) → P w → P (shutdown_each w ks reason)
  unfolding shutdown_each
  shutdown_each-keeps w [] reason h = h
  shutdown_each-keeps w (fd ∷ ks) reason h =
      shutdown_each-keeps (request_close (send_raw w fd (error reason)).0 fd reason) ks reason
        (rules.kept.closes _ fd _ (rules.kept.sends w fd _ h))

  pub shutdown-keeps : (w : World em) (reason : Str) → P w → P (shutdown w reason)
  unfolding shutdown
  shutdown-keeps w reason h = shutdown_each-keeps w (fds w.app.clients) reason h
