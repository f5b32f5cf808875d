-- ===== src/App/Modes.antt =====
-- `handleMode` and `handleChannelMode` of src/ChannelCommands.cpp.
pub mod Keeps
use irc_relay_server.Prelude.{
  ℕ, ◌≡◌, refl, Bool, true, false, ◌&&◌, ◌||◌, Option, none, some, List, [], ◌∷◌, ◌++◌,
  if◌then◌else◌, not, is_empty, ◌==◌,
}
use irc_relay_server.Prelude.Map.{find}
use irc_relay_server.Text.{Str, str_key, text}
use irc_relay_server.Message.{IrcMessage}
use irc_relay_server.Channel.{
  Channel, has_member, is_operator, set_invite_only, set_topic_protected, set_operator, mode_string,
}
use irc_relay_server.Registry.{ClientState, find_client}
use irc_relay_server.Events.{EventManager}
use irc_relay_server.World.{App, World}
use irc_relay_server.App.Support.{
  refuse, send_numeric, send_numeric_raw, is_channel_target, find_nick, broadcast_mode,
  modify_channel, find_channel_for_command,
}

abbrev pub sign : Bool → Str
sign adding = if adding then b'+' ∷ [] else b'-' ∷ []

-- `_clients.find(findNick(nick))`, with the descriptor.
unfoldable pub find_target : App → Str → Option (ℕ × ClientState)
find_target app nick = elim (find_nick app nick) [
  | none ↦ none
  | some fd ↦ elim (find_client app.clients fd) [ none ↦ none | some client ↦ some (fd, client) ]
]

module _ ⦃em : EventManager⦄ where
  unfoldable pub change_operator : World em → ℕ → Channel → Bool → Str → World em × Bool
  change_operator w fd c adding nick = elim (find_target w.app nick) [
    | none ↦ send_numeric w fd 441 (nick ∷ c.name ∷ []) (text "They aren't on that channel")
    | some (target, client) ↦
        if not (has_member c target)
        then send_numeric w fd 441 (nick ∷ c.name ∷ []) (text "They aren't on that channel")
        else broadcast_mode (modify_channel c.name (set_operator target adding) w) fd c
            (sign adding ++ b'o' ∷ []) client.nick
  ]

  -- What the loop carries: the world, the direction, the arguments left, and whether it goes on.
  pub record ModeState : Type 0 where
    pub world : World em
    pub adding : Bool
    pub arguments : List Str
    pub more : Bool

  abbrev pub mode_state : Bool → List Str → World em × Bool → ModeState
  mode_state adding arguments (w, more) = record {
    world = w;
    adding = adding;
    arguments = arguments;
    more = more;
  }

  unfoldable pub operator_mode : World em → ℕ → Channel → Bool → List Str → ModeState
  operator_mode w fd c adding [] =
      mode_state adding [] (send_numeric w fd 461 (text "MODE" ∷ []) (text "Not enough parameters"))
  operator_mode w fd c adding (nick ∷ arguments) =
      mode_state adding arguments (change_operator w fd c adding nick)

  -- One round: the character `mode`, at the channel as it is now.
  unfoldable pub apply_mode : World em → ℕ → Channel → Bool → List Str → ℕ → ModeState
  apply_mode w fd c adding arguments mode =
      if mode == b'+'
      then mode_state true arguments (w, true)
      else if mode == b'-'
      then mode_state false arguments (w, true)
      else if mode == b'i'
      then mode_state adding arguments (
          broadcast_mode (modify_channel c.name (set_invite_only adding) w) fd c
            (sign adding ++ b'i' ∷ []) [])
      else if mode == b't'
      then mode_state adding arguments (
          broadcast_mode (modify_channel c.name (set_topic_protected adding) w) fd c
            (sign adding ++ b't' ∷ []) [])
      else if mode == b'o'
      then operator_mode w fd c adding arguments
      else mode_state adding arguments
          (send_numeric w fd 472 ((mode ∷ []) ∷ []) (text "is unknown mode char to me"))

  -- The pointer to the channel is looked up anew in each round: a round that goes on has left the
  -- channel in the map.
  unfoldable pub apply_modes : World em → ℕ → Str → Bool → List Str → Str → World em
  apply_modes w fd name adding arguments [] = w
  apply_modes w fd name adding arguments (mode ∷ modes) = elim (find name w.app.channels) [
    | none ↦ w
    | some c ↦
        let s = apply_mode w fd c adding arguments mode in
        let rest = apply_modes s.world fd name s.adding s.arguments modes in
        if s.more then rest else s.world
  ]

  unfoldable pub channel_mode : World em → ℕ → Channel → List Str → World em
  channel_mode w fd c [] = (send_numeric_raw w fd 324 (c.name ∷ mode_string c ∷ [])).0
  channel_mode w fd c (modes ∷ arguments) =
      if not (has_member c fd)
      then refuse w fd 442 (c.name ∷ []) (text "You're not on that channel")
      else if not (is_operator c fd)
      then refuse w fd 482 (c.name ∷ []) (text "You're not channel operator")
      else apply_modes w fd c.name true arguments modes

  unfoldable pub mode_of : World em → ℕ → List Str → Option Channel → World em
  mode_of w fd rest none = w
  mode_of w fd rest (some c) = channel_mode w fd c rest

  unfoldable pub handle_channel_mode : World em → ℕ → Str → List Str → World em
  handle_channel_mode w fd name rest =
      let (w', found) = find_channel_for_command w fd name false in mode_of w' fd rest found

  -- The modes of a user, behind `findNick`.
  unfoldable pub user_mode : World em → ℕ → Str → List Str → Option ℕ → World em
  user_mode w fd nick rest none = refuse w fd 401 (nick ∷ []) (text "No such nick/channel")
  user_mode w fd nick [] (some target) = (send_numeric_raw w fd 221 (text "+" ∷ [])).0
  user_mode w fd nick (_ ∷ _) (some target) =
      if not (target == fd)
      then refuse w fd 502 [] (text "Cannot change mode for other users")
      else refuse w fd 501 [] (text "User modes are not implemented")

  unfoldable pub mode_params : World em → ℕ → List Str → World em
  mode_params w fd [] = refuse w fd 461 (text "MODE" ∷ []) (text "Not enough parameters")
  mode_params w fd (target ∷ rest) =
      if is_channel_target target
      then handle_channel_mode w fd target rest
      else user_mode w fd target rest (find_nick w.app target)

  unfoldable pub handle_mode : World em → ℕ → IrcMessage → World em
  handle_mode w fd m = mode_params w fd m.params
