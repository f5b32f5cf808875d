-- ===== src/App/Channels.antt =====
-- src/ChannelCommands.cpp, but for the modes: JOIN, PART, TOPIC, KICK, INVITE, LIST and NAMES.
pub mod Departing
pub mod Admission
pub mod Officers
pub mod Inviting
pub mod Keeps
pub mod Joining
use irc_relay_server.Prelude.{
  ℕ, ◌≡◌, refl, Bool, true, false, ◌&&◌, ◌||◌, Option, none, some, List, [], ◌∷◌, ◌++◌,
  if◌then◌else◌, not, is_empty, get_or,
}
use irc_relay_server.Prelude.Map.{Map, find, member, insert_all}
use irc_relay_server.Text.{Str, str_key, text, str_eq, decimal}
use irc_relay_server.Message.{IrcMessage}
use irc_relay_server.Channel.{
  Channel, has_member, is_operator, is_valid_name, empty, add_member, clear_invite, is_invited,
  invite, set_topic, member_count,
}
use irc_relay_server.Registry.{find_client, contains_client}
use irc_relay_server.Replies.{format_message}
use irc_relay_server.Events.{EventManager}
use irc_relay_server.World.{App, World}
use irc_relay_server.App.Relay.{send_raw, prefix_for, reply_target}
use irc_relay_server.App.Support.{
  refuse, send_numeric, send_numeric_raw, split_comma, find_nick, broadcast_to_channel, for_each,
  ensure_channel, modify_channel, send_names, send_topic_reply, find_channel_for_command, part_each,
  part_all_channels, take_out,
}

-- The names that LIST is asked for, in the order of `std::set`.
unfoldable pub requested_by : List Str → List Str
requested_by [] = []
requested_by (names ∷ _) = insert_all (split_comma names) []

module _ ⦃em : EventManager⦄ where
  -- The client becomes a member, the first one an operator, and is sent the topic and the names.
  -- Each write can disconnect it, so the code looks everything up again behind each.
  unfoldable pub enter : World em → ℕ → Channel → Str → Str → World em × Bool
  enter w fd c nick name =
      let w₁ = modify_channel name (λ d. clear_invite nick (add_member fd (empty c) d)) w in
      let w₂ =
        broadcast_to_channel w₁ name
          (format_message (prefix_for w₁.app fd) (text "JOIN") (name ∷ [])) none in
      if not (contains_client w₂.app.clients fd)
      then (w₂, false)
      else elim (find name w₂.app.channels) [
        | none ↦ (w₂, false)
        | some c₂ ↦
            let (w₃, sent) = send_topic_reply w₂ fd c₂ in
            if not sent then (w₃, false) else elim (find name w₃.app.channels) [
              | none ↦ (w₃, false)
              | some c₃ ↦ send_names w₃ fd c₃
            ]
      ]

  unfoldable pub join_channel : World em → ℕ → Str → Channel → World em × Bool
  join_channel w fd name c =
      if has_member c fd then send_names w fd c else elim (find_client w.app.clients fd) [
        | none ↦ (w, false)
        | some client ↦
            if c.invite_only && not (is_invited c client.nick)
            then send_numeric w fd 473 (name ∷ []) (text "Cannot join channel (+i)")
            else enter w fd c client.nick name
      ]

  -- One round of the loop of `handleJoin`.
  unfoldable pub join : ℕ → World em → Str → World em × Bool
  join fd w name =
      if not (is_valid_name name)
      then send_numeric w fd 403 (name ∷ []) (text "No such channel")
      else let (w', c) = ensure_channel w name in join_channel w' fd name c

  unfoldable pub join_params : World em → ℕ → List Str → World em
  join_params w fd [] = refuse w fd 461 (text "JOIN" ∷ []) (text "Not enough parameters")
  join_params w fd (names ∷ _) =
      if str_eq names (text "0")
      then part_all_channels w fd (text "Leaving all channels")
      else (for_each (join fd) w (split_comma names)).0

  unfoldable pub handle_join : World em → ℕ → IrcMessage → World em
  handle_join w fd m = join_params w fd m.params

  unfoldable pub part_params : World em → ℕ → List Str → World em
  part_params w fd [] = refuse w fd 461 (text "PART" ∷ []) (text "Not enough parameters")
  part_params w fd (names ∷ rest) = part_each w fd (split_comma names) (get_or rest 0 [])

  unfoldable pub handle_part : World em → ℕ → IrcMessage → World em
  handle_part w fd m = part_params w fd m.params

  unfoldable pub change_topic : World em → ℕ → Channel → Str → World em
  change_topic w fd c topic =
      if c.topic_protected && not (is_operator c fd)
      then refuse w fd 482 (c.name ∷ []) (text "You're not channel operator")
      else let w' = modify_channel c.name (set_topic topic) w in
        broadcast_to_channel w' c.name
          (format_message (prefix_for w'.app fd) (text "TOPIC") (c.name ∷ topic ∷ [])) none

  unfoldable pub topic_of : World em → ℕ → List Str → Option Channel → World em
  topic_of w fd rest none = w
  topic_of w fd [] (some c) = (send_topic_reply w fd c).0
  topic_of w fd (topic ∷ _) (some c) = change_topic w fd c topic

  unfoldable pub topic_params : World em → ℕ → List Str → World em
  topic_params w fd [] = refuse w fd 461 (text "TOPIC" ∷ []) (text "Not enough parameters")
  topic_params w fd (name ∷ rest) =
      let (w', found) = find_channel_for_command w fd name true in topic_of w' fd rest found

  unfoldable pub handle_topic : World em → ℕ → IrcMessage → World em
  handle_topic w fd m = topic_params w fd m.params

  unfoldable pub kick : World em → ℕ → Str → Str → Channel → World em
  kick w fd nick comment c =
      if not (is_operator c fd)
      then refuse w fd 482 (c.name ∷ []) (text "You're not channel operator")
      else elim (find_nick w.app nick) [
        | none ↦ refuse w fd 401 (nick ∷ []) (text "No such nick/channel")
        | some target ↦
            if not (has_member c target)
            then refuse w fd 441 (nick ∷ c.name ∷ []) (text "They aren't on that channel")
            else let line =
                format_message (prefix_for w.app fd) (text "KICK") (c.name ∷ nick ∷ comment ∷ []) in
              take_out (broadcast_to_channel w c.name line none) c.name target
      ]

  unfoldable pub kick_from : World em → ℕ → Str → Str → Option Channel → World em
  kick_from w fd nick comment none = w
  kick_from w fd nick comment (some c) = kick w fd nick comment c

  unfoldable pub kick_params : World em → ℕ → List Str → World em
  kick_params w fd (name ∷ nick ∷ rest) =
      let (w', found) = find_channel_for_command w fd name true in
      kick_from w' fd nick (get_or rest 0 nick) found
  kick_params w fd _ = refuse w fd 461 (text "KICK" ∷ []) (text "Not enough parameters")

  unfoldable pub handle_kick : World em → ℕ → IrcMessage → World em
  handle_kick w fd m = kick_params w fd m.params

  unfoldable pub invite_to : World em → ℕ → Str → ℕ → Str → Channel → World em
  invite_to w fd nick target name c =
      if c.invite_only && not (is_operator c fd)
      then refuse w fd 482 (name ∷ []) (text "You're not channel operator")
      else if has_member c target
      then refuse w fd 443 (nick ∷ name ∷ []) (text "is already on channel")
      else let w₁ = modify_channel name (invite nick) w in
        let acknowledgement =
          format_message w.app.server_name (text "341")
            (reply_target w₁.app fd ∷ nick ∷ name ∷ []) in
        let invitation = format_message (prefix_for w₁.app fd) (text "INVITE") (nick ∷ name ∷ []) in
        (send_raw (send_raw w₁ fd acknowledgement).0 target invitation).0

  unfoldable pub invite_into : World em → ℕ → Str → ℕ → Str → Option Channel → World em
  invite_into w fd nick target name none = w
  invite_into w fd nick target name (some c) = invite_to w fd nick target name c

  unfoldable pub invite_nick : World em → ℕ → Str → Str → Option ℕ → World em
  invite_nick w fd nick name none = refuse w fd 401 (nick ∷ []) (text "No such nick/channel")
  invite_nick w fd nick name (some target) =
      let (w', found) = find_channel_for_command w fd name true in
      invite_into w' fd nick target name found

  unfoldable pub invite_params : World em → ℕ → List Str → World em
  invite_params w fd (nick ∷ name ∷ _) = invite_nick w fd nick name (find_nick w.app nick)
  invite_params w fd _ = refuse w fd 461 (text "INVITE" ∷ []) (text "Not enough parameters")

  unfoldable pub handle_invite : World em → ℕ → IrcMessage → World em
  handle_invite w fd m = invite_params w fd m.params

  -- One line of LIST; `requested` is empty where the client names no channel.
  unfoldable pub list_channel : ℕ → List Str → World em → Str × Channel → World em × Bool
  list_channel fd requested w (name, c) =
      if not (is_empty requested) && not (member name requested)
      then (w, true)
      else send_numeric w fd 322 (name ∷ decimal (member_count c) ∷ [])
          (if c.has_topic then c.topic else text "open room")

  unfoldable pub list_requested : World em → ℕ → List Str → World em
  list_requested w fd requested =
      let (w₁, sent) =
        send_numeric_raw w fd 321 (text "Channel" ∷ text "Users" ∷ text "Name" ∷ []) in
      let (w₂, all_sent) = for_each (list_channel fd requested) w₁ w₁.app.channels in
      if not sent
      then w₁
      else if not all_sent
      then w₂
      else refuse w₂ fd 323 [] (text "End of /LIST")

  unfoldable pub handle_list : World em → ℕ → IrcMessage → World em
  handle_list w fd m = list_requested w fd (requested_by m.params)

  unfoldable pub names_at : ℕ → World em → Str × Channel → World em × Bool
  names_at fd w (name, c) = send_names w fd c

  unfoldable pub names_named : ℕ → World em → Str → World em × Bool
  names_named fd w name = elim (find name w.app.channels) [
    | some c ↦ send_names w fd c
    | none ↦ send_numeric w fd 366 (name ∷ []) (text "End of /NAMES list")
  ]

  unfoldable pub names_params : World em → ℕ → List Str → World em
  names_params w fd [] = (for_each (names_at fd) w w.app.channels).0
  names_params w fd (names ∷ _) = (for_each (names_named fd) w (split_comma names)).0

  unfoldable pub handle_names : World em → ℕ → IrcMessage → World em
  handle_names w fd m = names_params w fd m.params
