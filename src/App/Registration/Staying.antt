-- ===== src/App/Registration/Staying.antt =====
-- PING, PONG and QUIT keep the invariant.
use irc_relay_server.App.Invariant.{IsInvariant}
use irc_relay_server.Registry.{contains_client}
use irc_relay_server.App.Support.Keeps.{send_numeric-keeps, if-keeps}
use irc_relay_server.Prelude.{ℕ, ◌≡◌, true, refl, List, [], ◌∷◌}
use irc_relay_server.Prelude.Map.{nat_key}
use irc_relay_server.Text.{Str}
use irc_relay_server.Message.{IrcMessage}
use irc_relay_server.Events.{EventManager}
use irc_relay_server.World.{World}
use irc_relay_server.App.Registration.{
  handle_ping, handle_pong, handle_quit, ping_params, pong_params,
}

module _ ⦃em : EventManager⦄ {M : World em → ℕ → Type 0} {P : World em → Type 0}
    (rules : IsInvariant M P) where
  ping_params-keeps : (w : World em) (fd : ℕ) (ps : List Str) → P w → P (ping_params w fd ps)
  unfolding ping_params
  ping_params-keeps w fd [] h = send_numeric-keeps rules.kept w fd 409 _ _ h
  ping_params-keeps w fd (token ∷ _) h = rules.kept.sends w fd _ h

  pub handle_ping-keeps : (w : World em) (fd : ℕ) (m : IrcMessage) → P w → P (handle_ping w fd m)
  unfolding handle_ping
  handle_ping-keeps w fd m h = ping_params-keeps w fd m.params h

  pong_params-keeps :
      (w : World em) (fd : ℕ) (ps : List Str)
      → contains_client w.app.clients fd ≡ true
      → P w
      → P (pong_params w fd ps)
  unfolding pong_params
  pong_params-keeps w fd (token ∷ []) known h = if-keeps rules.kept _ _ _ h (
      rules.clients w fd _ known
        (record {
          nick_kept = refl;
          has_nick_kept = refl;
          registered_kept = refl;
          pass_kept = λ t. t;
          user_kept = λ t. t;
        })
        h)
  pong_params-keeps w fd _ known h = h

  pub handle_pong-keeps :
      (w : World em) (fd : ℕ) (m : IrcMessage)
      → contains_client w.app.clients fd ≡ true
      → P w
      → P (handle_pong w fd m)
  unfolding handle_pong
  handle_pong-keeps w fd m known h = pong_params-keeps w fd m.params known h

  pub handle_quit-keeps : (w : World em) (fd : ℕ) (m : IrcMessage) → P w → P (handle_quit w fd m)
  unfolding handle_quit
  handle_quit-keeps w fd m h = rules.kept.closes w fd _ h
