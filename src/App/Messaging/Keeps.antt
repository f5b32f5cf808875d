-- ===== src/App/Messaging/Keeps.antt =====
-- PRIVMSG keeps the invariant.
use irc_relay_server.App.Invariant.{IsInvariant}
use irc_relay_server.Prelude.{ℕ, refl, some, List, [], ◌∷◌, not, Option-cases, Bool-cases, inl, inr}
use irc_relay_server.Prelude.Map.{find}
use irc_relay_server.Text.{Str, str_key}
use irc_relay_server.Message.{IrcMessage}
use irc_relay_server.Channel.{has_member}
use irc_relay_server.Events.{EventManager}
use irc_relay_server.World.{World}
use irc_relay_server.App.Support.{is_channel_target, find_nick, split_comma}
use irc_relay_server.App.Support.Keeps.{send_numeric-keeps, broadcast_to_channel-keeps, if-keeps}
use irc_relay_server.App.Messaging.{
  count_relayed, relay_to, relay_each, privmsg_params, handle_privmsg,
}

module _ ⦃em : EventManager⦄ {M : World em → ℕ → Type 0} {P : World em → Type 0}
    (rules : IsInvariant M P) where
  count_relayed-keeps : (w : World em) → P w → P (count_relayed w)
  unfolding count_relayed
  count_relayed-keeps w h = rules.counts w _ refl refl h

  relay_to-keeps : (w : World em) (fd : ℕ) (body target : Str) → P w → P (relay_to w fd body target)
  unfolding relay_to
  relay_to-keeps w fd body target h = elim (Bool-cases (is_channel_target target)) [
    | inl room ↦ elim (Option-cases (find target w.app.channels)) [
      | inl e ↦ rw (room, e) (send_numeric-keeps rules.kept w fd 404 _ _ h)
      | inr (c, e) ↦
          rw (room, e)
            (if-keeps rules.kept (not (has_member c fd)) _ _
              (send_numeric-keeps rules.kept w fd 404 _ _ h)
              (count_relayed-keeps _
                (broadcast_to_channel-keeps rules.kept w target _ (some fd) h)))
    ]
    | inr nick ↦ elim (Option-cases (find_nick w.app target)) [
      | inl e ↦ rw (nick, e) (send_numeric-keeps rules.kept w fd 401 _ _ h)
      | inr (k, e) ↦ rw (nick, e) (count_relayed-keeps _ (rules.kept.sends w k _ h))
    ]
  ]

  relay_each-keeps :
      (w : World em) (fd : ℕ) (body : Str) (targets : List Str)
      → P w
      → P (relay_each w fd body targets)
  unfolding relay_each
  relay_each-keeps w fd body [] h = h
  relay_each-keeps w fd body (target ∷ targets) h =
      relay_each-keeps (relay_to w fd body target) fd body targets
        (relay_to-keeps w fd body target h)

  privmsg_params-keeps : (w : World em) (fd : ℕ) (ps : List Str) → P w → P (privmsg_params w fd ps)
  unfolding privmsg_params
  privmsg_params-keeps w fd [] h = send_numeric-keeps rules.kept w fd 411 _ _ h
  privmsg_params-keeps w fd (targets ∷ []) h = send_numeric-keeps rules.kept w fd 412 _ _ h
  privmsg_params-keeps w fd (targets ∷ body ∷ _) h =
      if-keeps rules.kept _ _ _ (send_numeric-keeps rules.kept w fd 412 _ _ h)
        (relay_each-keeps w fd body (split_comma targets) h)

  pub handle_privmsg-keeps :
      (w : World em) (fd : ℕ) (m : IrcMessage) → P w → P (handle_privmsg w fd m)
  unfolding handle_privmsg
  handle_privmsg-keeps w fd m h = privmsg_params-keeps w fd m.params h
