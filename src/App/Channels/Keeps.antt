-- ===== src/App/Channels/Keeps.antt =====
-- PART, TOPIC, KICK, INVITE, LIST and NAMES keep the invariant.
use irc_relay_server.App.Invariant.{IsInvariant}
use irc_relay_server.App.Changes.Channels.{set_topic-IsRoom}
use irc_relay_server.App.Support.Keeps.{send_numeric-keeps, if-keeps}
use irc_relay_server.Prelude.{
  ℕ, true, Option, none, some, List, [], ◌∷◌, Option-cases, Bool-cases, inl, inr, get_or,
}
use irc_relay_server.Prelude.Map.{find}
use irc_relay_server.Text.{Str, str_key}
use irc_relay_server.Message.{IrcMessage}
use irc_relay_server.Channel.{Channel, is_operator}
use irc_relay_server.Events.{EventManager}
use irc_relay_server.World.{World}
use irc_relay_server.App.Support.{
  find_nick, split_comma, part_channel, part_each, part_all_channels, joined_by,
}
use irc_relay_server.App.Support.Keeps.{
  send_numeric-keeps, broadcast_to_channel-keeps, if-keeps, send_topic_reply-keeps,
  find_channel_for_command-keeps,
}
use irc_relay_server.App.Channels.{
  part_params, handle_part, change_topic, topic_of, topic_params, handle_topic, kick, kick_from,
  kick_params, handle_kick,
}

module _ ⦃em : EventManager⦄ {M : World em → ℕ → Type 0} {P : World em → Type 0}
    (rules : IsInvariant M P) where
  part_channel-keeps :
      (w : World em) (fd : ℕ) (name reason : Str) → P w → P (part_channel w fd name reason)
  unfolding part_channel
  part_channel-keeps w fd name reason h = elim (Option-cases (find name w.app.channels)) [
    | inl e ↦ rw (e, part_channel) (send_numeric-keeps rules.kept w fd 403 _ _ h)
    | inr (c, e) ↦
        rw (e, part_channel)
          (if-keeps rules.kept _ _ _ (send_numeric-keeps rules.kept w fd 442 _ _ h)
            (rules.takes _ name fd (broadcast_to_channel-keeps rules.kept w name _ none h)))
  ]

  part_each-keeps :
      (w : World em) (fd : ℕ) (names : List Str) (reason : Str)
      → P w
      → P (part_each w fd names reason)
  unfolding part_each
  part_each-keeps w fd [] reason h = h
  part_each-keeps w fd (name ∷ names) reason h =
      part_each-keeps (part_channel w fd name reason) fd names reason
        (part_channel-keeps w fd name reason h)

  pub part_all_channels-keeps :
      (w : World em) (fd : ℕ) (reason : Str) → P w → P (part_all_channels w fd reason)
  unfolding part_all_channels
  part_all_channels-keeps w fd reason h =
      part_each-keeps w fd (joined_by fd w.app.channels) reason h

  part_params-keeps : (w : World em) (fd : ℕ) (ps : List Str) → P w → P (part_params w fd ps)
  unfolding part_params
  part_params-keeps w fd [] h = send_numeric-keeps rules.kept w fd 461 _ _ h
  part_params-keeps w fd (names ∷ rest) h =
      part_each-keeps w fd (split_comma names) (get_or rest 0 []) h

  pub handle_part-keeps : (w : World em) (fd : ℕ) (m : IrcMessage) → P w → P (handle_part w fd m)
  unfolding handle_part
  handle_part-keeps w fd m h = part_params-keeps w fd m.params h

  change_topic-keeps :
      (w : World em) (fd : ℕ) (c : Channel) (topic : Str) → P w → P (change_topic w fd c topic)
  unfolding change_topic
  change_topic-keeps w fd c topic h =
      if-keeps rules.kept _ _ _ (send_numeric-keeps rules.kept w fd 482 _ _ h) (
        broadcast_to_channel-keeps rules.kept _ c.name _ none
          (rules.rooms w c.name _ (set_topic-IsRoom w.app.clients c.name topic) h))

  topic_of-keeps :
      (w : World em) (fd : ℕ) (rest : List Str) (found : Option Channel)
      → P w
      → P (topic_of w fd rest found)
  unfolding topic_of
  topic_of-keeps w fd rest none h = h
  topic_of-keeps w fd [] (some c) h = send_topic_reply-keeps rules.kept w fd c h
  topic_of-keeps w fd (topic ∷ _) (some c) h = change_topic-keeps w fd c topic h

  topic_params-keeps : (w : World em) (fd : ℕ) (ps : List Str) → P w → P (topic_params w fd ps)
  unfolding topic_params
  topic_params-keeps w fd [] h = send_numeric-keeps rules.kept w fd 461 _ _ h
  topic_params-keeps w fd (name ∷ rest) h =
      topic_of-keeps _ fd rest _ (find_channel_for_command-keeps rules.kept w fd name true h)

  pub handle_topic-keeps : (w : World em) (fd : ℕ) (m : IrcMessage) → P w → P (handle_topic w fd m)
  unfolding handle_topic
  handle_topic-keeps w fd m h = topic_params-keeps w fd m.params h

  kick-keeps :
      (w : World em) (fd : ℕ) (nick comment : Str) (c : Channel)
      → P w
      → P (kick w fd nick comment c)
  unfolding kick
  kick-keeps w fd nick comment c h = elim (Bool-cases (is_operator c fd)) [
    | inr plain ↦ rw plain (send_numeric-keeps rules.kept w fd 482 _ _ h)
    | inl officer ↦ elim (Option-cases (find_nick w.app nick)) [
      | inl e ↦ rw (officer, e) (send_numeric-keeps rules.kept w fd 401 _ _ h)
      | inr (k, e) ↦
          rw (officer, e)
            (if-keeps rules.kept _ _ _ (send_numeric-keeps rules.kept w fd 441 _ _ h)
              (rules.takes _ c.name k (broadcast_to_channel-keeps rules.kept w c.name _ none h)))
    ]
  ]

  kick_from-keeps :
      (w : World em) (fd : ℕ) (nick comment : Str) (found : Option Channel)
      → P w
      → P (kick_from w fd nick comment found)
  unfolding kick_from
  kick_from-keeps w fd nick comment none h = h
  kick_from-keeps w fd nick comment (some c) h = kick-keeps w fd nick comment c h

  kick_params-keeps : (w : World em) (fd : ℕ) (ps : List Str) → P w → P (kick_params w fd ps)
  unfolding kick_params
  kick_params-keeps w fd (name ∷ nick ∷ rest) h =
      kick_from-keeps _ fd nick _ _ (find_channel_for_command-keeps rules.kept w fd name true h)
  kick_params-keeps w fd _ h = send_numeric-keeps rules.kept w fd 461 _ _ h

  pub handle_kick-keeps : (w : World em) (fd : ℕ) (m : IrcMessage) → P w → P (handle_kick w fd m)
  unfolding handle_kick
  handle_kick-keeps w fd m h = kick_params-keeps w fd m.params h
