-- ===== src/App/Support.antt =====
-- The helpers of src/ApplicationSupport.cpp that the handlers share. What is only logged is left out.
pub mod Keeps
use irc_relay_server.Prelude.{
  ℕ, zero, suc, ◌≡◌, refl, Bool, true, false, ◌&&◌, ◌||◌, Option, none, some, List, [], ◌∷◌, ◌++◌,
  if◌then◌else◌, not, is_empty, length,
}
use irc_relay_server.Prelude.{◌==◌ as nat_beq}
use irc_relay_server.Prelude.Map.{
  Map, nat_key, find, insert, erase, set_erase, contains, modify, ◌==◌,
}
use irc_relay_server.Text.{
  Str, str_key, text, decimal, before, after, has_byte, starts_with_byte, cat,
}
use irc_relay_server.Channel.{Channel, channel, has_member, is_operator, remove_member, empty}
use irc_relay_server.Registry.{
  ClientState, find_client, find_fd_by_nickname, contains_client, put_state,
}
use irc_relay_server.Replies.{format_message, numeric, code}
use irc_relay_server.Connection.{request_close as close_connection}
use irc_relay_server.Events.{EventManager}
use irc_relay_server.World.{App, World, increment}
use irc_relay_server.Server.{modify_connection}
use irc_relay_server.App.Relay.{
  send_raw, send_each, prefix_for, reply_target, common_members, with_app,
}

unfoldable pub join_words : List Str → Str → Str
join_words [] separator = []
join_words (v ∷ []) separator = v
join_words (v ∷ w ∷ vs) separator = v ++ separator ++ join_words (w ∷ vs) separator

-- The loop of `splitComma`: `fuel` is the length, and each round takes a comma.
unfoldable pub split_from : ℕ → Str → List Str
split_from zero value = []
split_from (suc fuel) value =
    let part = before b',' value in
    let rest = if has_byte b',' value then split_from fuel (after b',' value) else [] in
    if is_empty part then rest else part ∷ rest

unfoldable pub split_comma : Str → List Str
split_comma value = split_from (suc (length value)) value

unfoldable pub is_channel_target : Str → Bool
is_channel_target target = starts_with_byte b'#' target || starts_with_byte b'&' target

unfoldable pub find_nick : App → Str → Option ℕ
find_nick app nickname = find_fd_by_nickname app.clients nickname

-- The nicknames of `sendNames`, operators behind '@'; a member without a state is passed over.
unfoldable pub names_of : App → Channel → List ℕ → List Str
names_of app c [] = []
names_of app c (k ∷ ks) = elim (find_client app.clients k) [
  | none ↦ names_of app c ks
  | some client ↦ ((if is_operator c k then b'@' ∷ [] else []) ++ client.nick) ∷ names_of app c ks
]

-- The channels that `fd` is a member of.
unfoldable pub joined_by : ℕ → Map Str Channel → List Str
joined_by fd [] = []
joined_by fd ((name, c) ∷ m) = if has_member c fd then name ∷ joined_by fd m else joined_by fd m

module _ ⦃em : EventManager⦄ where
  abbrev pub with_channels : Map Str Channel → World em → World em
  with_channels channels w = with_app (record w.app { channels = channels }) w

  abbrev pub with_client : ℕ → ClientState → World em → World em
  with_client fd client w =
      with_app (record w.app { clients = put_state fd client w.app.clients }) w

  -- A write through a reference to the channel.
  unfoldable pub modify_channel : Str → (Channel → Channel) → World em → World em
  modify_channel name f w = with_channels (modify name f w.app.channels) w

  unfoldable pub send_numeric : World em → ℕ → ℕ → List Str → Str → World em × Bool
  send_numeric w fd numeric_code params trailing =
      send_raw w fd (numeric w.app.server_name (reply_target w.app fd) numeric_code params trailing)

  unfoldable pub send_numeric_raw : World em → ℕ → ℕ → List Str → World em × Bool
  send_numeric_raw w fd numeric_code params =
      send_raw w fd
        (format_message w.app.server_name (code numeric_code) (reply_target w.app fd ∷ params))

  -- A refusal whose result the handler ignores.
  abbrev pub refuse : World em → ℕ → ℕ → List Str → Str → World em
  refuse w fd numeric_code params trailing = (send_numeric w fd numeric_code params trailing).0

  unfoldable pub request_close : World em → ℕ → Str → World em
  request_close w fd reason = modify_connection fd (close_connection reason) w

  -- `std::map::insert`, and the reference to the channel that it returns.
  unfoldable pub ensure_channel : World em → Str → World em × Channel
  ensure_channel w name = elim (find name w.app.channels) [
    | some c ↦ (w, c)
    | none ↦ (
      with_app
          (record w.app {
            channels = insert name (channel name) w.app.channels;
            metrics = record w.app.metrics {
              rooms_created = increment w.app.metrics.rooms_created;
            };
          })
          w,
      channel name,
    )
  ]

  -- The channel, or the refusal that was sent in its place.
  unfoldable pub find_channel_for_command : World em → ℕ → Str → Bool → World em × Option Channel
  find_channel_for_command w fd name require_membership = elim (find name w.app.channels) [
    | none ↦ (refuse w fd 403 (name ∷ []) (text "No such channel"), none)
    | some c ↦
        if require_membership && not (has_member c fd)
        then (refuse w fd 442 (name ∷ []) (text "You're not on that channel"), none)
        else (w, some c)
  ]

  unfoldable pub send_topic_reply : World em → ℕ → Channel → World em × Bool
  send_topic_reply w fd c =
      if c.has_topic
      then send_numeric w fd 332 (c.name ∷ []) c.topic
      else send_numeric w fd 331 (c.name ∷ []) (text "No topic is set")

  unfoldable pub send_names : World em → ℕ → Channel → World em × Bool
  send_names w fd c =
      let (w', sent) =
        send_numeric w fd 353 (text "=" ∷ c.name ∷ [])
          (join_words (names_of w.app c c.members) (text " ")) in
      if sent then send_numeric w' fd 366 (c.name ∷ []) (text "End of /NAMES list") else (w', false)

  -- `exceptFd` is `none` where the code passes -1.
  abbrev pub except : Option ℕ → List ℕ → List ℕ
  except none ks = ks
  except (some fd) [] = []
  except (some fd) (k ∷ ks) =
      let rest = except (some fd) ks in if nat_beq k fd then rest else k ∷ rest

  unfoldable pub broadcast_to_channel : World em → Str → Str → Option ℕ → World em
  broadcast_to_channel w name line except_fd = elim (find name w.app.channels) [
    | none ↦ w
    | some c ↦ send_each send_raw w line (except except_fd c.members)
  ]

  unfoldable pub broadcast_to_common : World em → ℕ → Str → Bool → World em
  broadcast_to_common w fd line include_self =
      let targets = common_members fd w.app.channels [] in
      send_each send_raw w line (if include_self then targets else set_erase fd targets)

  unfoldable pub erase_channel_if_empty : World em → Str → World em
  erase_channel_if_empty w name = elim (find name w.app.channels) [
    | none ↦ w
    | some c ↦ if empty c then with_channels (erase name w.app.channels) w else w
  ]

  -- `removeMember` and `eraseChannelIfEmpty`, behind a broadcast that may have erased the channel.
  unfoldable pub take_out : World em → Str → ℕ → World em
  take_out w name fd = elim (find name w.app.channels) [
    | none ↦ w
    | some c ↦ erase_channel_if_empty (modify_channel name (remove_member fd) w) name
  ]

  unfoldable pub part_channel : World em → ℕ → Str → Str → World em
  part_channel w fd name reason = elim (find name w.app.channels) [
    | none ↦ refuse w fd 403 (name ∷ []) (text "No such channel")
    | some c ↦
        if not (has_member c fd)
        then refuse w fd 442 (name ∷ []) (text "You're not on that channel")
        else let line =
            format_message (prefix_for w.app fd) (text "PART")
              (name ∷ (if is_empty reason then [] else reason ∷ [])) in
          take_out (broadcast_to_channel w name line none) name fd
  ]

  -- A loop of `partChannel`.
  unfoldable pub part_each : World em → ℕ → List Str → Str → World em
  part_each w fd [] reason = w
  part_each w fd (name ∷ names) reason = part_each (part_channel w fd name reason) fd names reason

  unfoldable pub part_all_channels : World em → ℕ → Str → World em
  part_all_channels w fd reason = part_each w fd (joined_by fd w.app.channels) reason

  unfoldable pub broadcast_mode : World em → ℕ → Channel → Str → Str → World em × Bool
  broadcast_mode w fd c mode arg =
      let line =
        format_message (prefix_for w.app fd) (text "MODE")
          (c.name ∷ mode ∷ (if is_empty arg then [] else arg ∷ [])) in
      let w' = broadcast_to_channel w c.name line none in
      (w', contains_client w'.app.clients fd && contains c.name w'.app.channels)

  -- A loop whose body returns `false` where the code returns from the handler.
  unfoldable pub for_each {ℓ} :
      {A : Type ℓ} → (World em → A → World em × Bool) → World em → List A → World em × Bool
  for_each body w [] = (w, true)
  for_each body w (a ∷ as') =
      let (w', more) = body w a in
      let rest = for_each body w' as' in if more then rest else (w', false)
