-- ===== src/App/Dispatch/Keeps.antt =====
-- Whatever the server calls keeps the invariant.
use irc_relay_server.App.Invariant.{IsInvariant, contains-put_state}
use irc_relay_server.App.Support.Keeps.{send_numeric-keeps, if-keeps}
use irc_relay_server.App.Channels.Keeps.{handle_part-keeps, handle_topic-keeps, handle_kick-keeps}
use irc_relay_server.Prelude.{
  ℕ, ◌≡◌, refl, true, [], not, ltb, length, ◌==◌, ◌&&◌, arith, Bool-cases, inl, inr, if◌then◌else◌,
}
use irc_relay_server.Prelude.Map.{nat_key, beq_refl}
use irc_relay_server.Text.{text}
use irc_relay_server.Message.{IrcMessage}
use irc_relay_server.Registry.{contains_client, MonotonicTime, client_state, state}
use irc_relay_server.Events.{EventManager}
use irc_relay_server.World.{App, World}
use irc_relay_server.App.Rooms.{is_registered}
use irc_relay_server.App.Support.{refuse, with_client}
use irc_relay_server.App.Support.Keeps.{if-keeps₂}
use irc_relay_server.App.Registration.Keeps.{
  handle_pass-keeps, handle_nick-keeps, handle_user-keeps,
}
use irc_relay_server.App.Registration.Staying.{
  handle_ping-keeps, handle_pong-keeps, handle_quit-keeps,
}
use irc_relay_server.App.Messaging.Keeps.{handle_privmsg-keeps}
use irc_relay_server.App.Channels.Inviting.{
  handle_invite-keeps, handle_list-keeps, handle_names-keeps,
}
use irc_relay_server.App.Channels.Joining.{handle_join-keeps}
use irc_relay_server.App.Modes.Keeps.{handle_mode-keeps}
use irc_relay_server.App.Dispatch.{
  count_rate_limited, next_window, record_command, handle_metrics, handle_registered,
  handle_message,
}

state-registered :
    (w : App) (fd : ℕ) → (state w.clients fd).registered ≡ true → is_registered w.clients fd ≡ true
unfolding state is_registered client_state
state-registered w fd t = ground (arith, t)

module _ ⦃em : EventManager⦄ {M : World em → ℕ → Type 0} {P : World em → Type 0}
    (rules : IsInvariant M P) where
  pub handle_registered-keeps :
      (w : World em) (fd : ℕ) (m : IrcMessage)
      → is_registered w.app.clients fd ≡ true
      → P w
      → P (handle_registered w fd m)
  unfolding handle_registered handle_metrics
  handle_registered-keeps w fd m known h =
      if-keeps rules.kept _ _ _ (handle_privmsg-keeps rules w fd m h) (
        if-keeps rules.kept _ _ _ (handle_join-keeps rules fd w m known h) (
          if-keeps rules.kept _ _ _ (handle_part-keeps rules w fd m h) (
            if-keeps rules.kept _ _ _ (handle_topic-keeps rules w fd m h) (
              if-keeps rules.kept _ _ _ (handle_kick-keeps rules w fd m h) (
                if-keeps rules.kept _ _ _ (handle_invite-keeps rules w fd m h) (
                  if-keeps rules.kept _ _ _ (handle_mode-keeps rules w fd m h) (
                    if-keeps rules.kept _ _ _ (handle_list-keeps rules w fd m h) (
                      if-keeps rules.kept _ _ _ (handle_names-keeps rules w fd m h) (
                        if-keeps rules.kept _ _ _ (rules.kept.sends w fd _ h)
                          (send_numeric-keeps rules.kept w fd 421 _ _ h))))))))))

  by_registration :
      (w : World em) (fd : ℕ) (m : IrcMessage)
      → P w
      → P (
          if not (state w.app.clients fd).registered
          then refuse w fd 451 [] (text "You have not registered")
          else handle_registered w fd m)
  by_registration w fd m h = elim (Bool-cases (state w.app.clients fd).registered) [
    | inl t ↦ rw t (handle_registered-keeps w fd m (state-registered w.app fd t) h)
    | inr f ↦ rw f (send_numeric-keeps rules.kept w fd 451 _ _ h)
  ]

  pub handle_message-keeps :
      (w : World em) (fd : ℕ) (m : IrcMessage)
      → contains_client w.app.clients fd ≡ true
      → P w
      → P (handle_message w fd m)
  unfolding handle_message
  handle_message-keeps w fd m known h =
      if-keeps rules.kept _ _ _ (handle_pass-keeps rules w fd m known h) (
        if-keeps rules.kept _ _ _ (handle_nick-keeps rules w fd m known h) (
          if-keeps rules.kept _ _ _ (handle_user-keeps rules w fd m known h) (
            if-keeps rules.kept _ _ _ (handle_ping-keeps rules w fd m h) (
              if-keeps rules.kept _ _ _ (handle_pong-keeps rules w fd m known h) (
                if-keeps rules.kept _ _ _ (handle_quit-keeps rules w fd m h)
                  (by_registration w fd m h))))))

  pub record_command-keeps :
      (w : World em) (fd : ℕ) (now : MonotonicTime)
      → contains_client w.app.clients fd ≡ true
      → P w
      → P (record_command w fd now).0
  unfolding record_command
  record_command-keeps w fd now known h =
      let client = state w.app.clients fd in
      let window = next_window w.app.runtime.rate_limit_window_seconds now client.command_window in
      let w₁ = with_client fd (record client { command_window = window }) w in
      let h₁ : P w₁ =
        rules.clients w fd (record client { command_window = window }) known
          (record {
            nick_kept = refl;
            has_nick_kept = refl;
            registered_kept = refl;
            pass_kept = λ t. t;
            user_kept = λ t. t;
          })
          h in
      if-keeps₂ rules.kept _ _ _
        (rules.kept.closes _ fd _ (
          send_numeric-keeps rules.kept _ fd 439 [] _
            (rules.counts w₁ (count_rate_limited w₁.app) refl refl h₁)))
        h₁

module _ ⦃em : EventManager⦄ where
  -- A command that is let through comes from a client.
  pub record_command-known :
      (w : World em) (fd : ℕ) (now : MonotonicTime)
      → (record_command w fd now).1 ≡ true
      → contains_client (record_command w fd now).0.app.clients fd ≡ true
  unfolding record_command
  record_command-known w fd now t =
      let limit = w.app.runtime.rate_limit_count in
      let client = state w.app.clients fd in
      let window = next_window w.app.runtime.rate_limit_window_seconds now client.command_window in
      elim (Bool-cases (not (limit == 0) && ltb limit (length window))) [
        | inl over ↦ cc (rw over at t)
        | inr within ↦
            rw
              (
                within,
                contains-put_state w.app.clients fd fd (record client { command_window = window }),
              )
              (rw (beq_refl fd) refl)
      ]
