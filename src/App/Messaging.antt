-- ===== src/App/Messaging.antt =====
-- src/MessagingCommands.cpp: PRIVMSG.
pub mod Keeps
pub mod Delivery
use irc_relay_server.Prelude.{
  ℕ, ◌≡◌, refl, Bool, true, false, ◌&&◌, ◌||◌, Option, none, some, List, [], ◌∷◌, ◌++◌,
  if◌then◌else◌, not, is_empty,
}
use irc_relay_server.Prelude.Map.{find}
use irc_relay_server.Text.{Str, str_key, text}
use irc_relay_server.Message.{IrcMessage}
use irc_relay_server.Channel.{has_member}
use irc_relay_server.Replies.{format_message}
use irc_relay_server.Events.{EventManager}
use irc_relay_server.World.{App, World, increment}
use irc_relay_server.App.Relay.{send_raw, prefix_for, with_app}
use irc_relay_server.App.Support.{
  refuse, send_numeric, split_comma, is_channel_target, find_nick, broadcast_to_channel,
}

module _ ⦃em : EventManager⦄ where
  unfoldable pub count_relayed : World em → World em
  count_relayed w =
      with_app
        (record w.app {
          metrics = record w.app.metrics {
            messages_relayed = increment w.app.metrics.messages_relayed;
          };
        })
        w

  unfoldable pub message_line : World em → ℕ → Str → Str → Str
  message_line w fd target body =
      format_message (prefix_for w.app fd) (text "PRIVMSG") (target ∷ body ∷ [])

  -- One round of the loop over the targets.
  unfoldable pub relay_to : World em → ℕ → Str → Str → World em
  relay_to w fd body target =
      if is_channel_target target
      then (elim (find target w.app.channels) [
        | none ↦ refuse w fd 404 (target ∷ []) (text "Cannot send to channel")
        | some c ↦
            if not (has_member c fd)
            then refuse w fd 404 (target ∷ []) (text "Cannot send to channel")
            else count_relayed
                (broadcast_to_channel w target (message_line w fd target body) (some fd))
      ])
      else elim (find_nick w.app target) [
        | none ↦ refuse w fd 401 (target ∷ []) (text "No such nick/channel")
        | some target_fd ↦ count_relayed (send_raw w target_fd (message_line w fd target body)).0
      ]

  unfoldable pub relay_each : World em → ℕ → Str → List Str → World em
  relay_each w fd body [] = w
  relay_each w fd body (target ∷ targets) = relay_each (relay_to w fd body target) fd body targets

  unfoldable pub privmsg_params : World em → ℕ → List Str → World em
  privmsg_params w fd [] = refuse w fd 411 [] (text "No recipient given (PRIVMSG)")
  privmsg_params w fd (targets ∷ []) = refuse w fd 412 [] (text "No text to send")
  privmsg_params w fd (targets ∷ body ∷ _) =
      if is_empty body
      then refuse w fd 412 [] (text "No text to send")
      else relay_each w fd body (split_comma targets)

  unfoldable pub handle_privmsg : World em → ℕ → IrcMessage → World em
  handle_privmsg w fd m = privmsg_params w fd m.params
