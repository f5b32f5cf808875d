-- ===== src/App/Registration.antt =====
-- src/RegistrationCommands.cpp. A handler runs for a client that has a state (`on_line` sees to
-- it), so a read through `_clients.state(fd)` creates no entry.
pub mod Staying
pub mod Keeps
use irc_relay_server.Prelude.{
  ℕ, zero, suc, ◌≡◌, refl, Bool, true, false, ◌&&◌, ◌||◌, Option, none, some, List, [], ◌∷◌, ◌++◌,
  if◌then◌else◌, not, is_empty, length, any, ltb, leb,
}
use irc_relay_server.Prelude.{◌==◌ as nat_beq}
use irc_relay_server.Text.{Str, text, str_eq, is_digit, is_space, starts_with_byte}
use irc_relay_server.Message.{IrcMessage}
use irc_relay_server.Registry.{
  ClientState, find_client, state, find_fd_by_nickname, contains_client, set_nickname,
}
use irc_relay_server.Replies.{format_message}
use irc_relay_server.Events.{EventManager}
use irc_relay_server.World.{App, World}
use irc_relay_server.App.Relay.{send_raw, prefix_for_client, with_app}
use irc_relay_server.App.Support.{
  refuse, send_numeric, request_close, broadcast_to_common, with_client,
}

abbrev pub max_nickname : ℕ
max_nickname = 30

abbrev pub is_first_of_nickname : ℕ → Bool
is_first_of_nickname c =
    not (is_digit c || nat_beq c b'#' || nat_beq c b'&' || nat_beq c b':' || nat_beq c b'-')

abbrev pub is_bad_in_nickname : ℕ → Bool
is_bad_in_nickname c =
    is_space c
    || nat_beq c b','
    || nat_beq c b'*'
    || nat_beq c b'?'
    || nat_beq c b'!'
    || nat_beq c b'@'

unfoldable pub is_valid_nickname : Str → Bool
is_valid_nickname [] = false
is_valid_nickname (c ∷ s) =
    not (ltb max_nickname (length (c ∷ s)))
    && is_first_of_nickname c
    && not (any is_bad_in_nickname (c ∷ s))

-- `collision != -1 && collision != fd`.
unfoldable pub is_taken : App → ℕ → Str → Bool
is_taken app fd nickname = elim (find_fd_by_nickname app.clients nickname) [
  | none ↦ false
  | some owner ↦ not (nat_beq owner fd)
]

unfoldable pub quit_reason : List Str → Str
quit_reason [] = text "Client Quit"
quit_reason (reason ∷ _) = reason

module _ ⦃em : EventManager⦄ where
  -- The three lines of the welcome; a failed write ends it.
  unfoldable pub welcome : World em → ℕ → Str → World em
  welcome w fd nick =
      let (w₁, sent₁) = send_numeric w fd 1 [] (text "Welcome to irc-relay-server, " ++ nick) in
      let (w₂, sent₂) = send_numeric w₁ fd 2 [] (text "Your host is " ++ w₁.app.server_name) in
      let w₃ = refuse w₂ fd 3 [] (text "This server is running a C++17 event backend") in
      if not sent₁ then w₁ else if not sent₂ then w₂ else w₃

  unfoldable pub maybe_register : World em → ℕ → World em
  maybe_register w fd = elim (find_client w.app.clients fd) [
    | none ↦ w
    | some client ↦
        if client.registered || not client.pass_ok || not client.has_nick || not client.has_user
        then w
        else welcome (with_client fd (record client { registered = true }) w) fd client.nick
  ]

  -- Behind the first check of `handlePass`.
  unfoldable pub pass_params : World em → ℕ → List Str → World em
  pass_params w fd [] = refuse w fd 461 (text "PASS" ∷ []) (text "Not enough parameters")
  pass_params w fd (given ∷ _) =
      if not (is_empty w.app.password) && not (str_eq given w.app.password)
      then request_close (refuse w fd 464 [] (text "Password incorrect")) fd
          (text "Password incorrect")
      else maybe_register (with_client fd (record (state w.app.clients fd) { pass_ok = true }) w) fd

  unfoldable pub handle_pass : World em → ℕ → IrcMessage → World em
  handle_pass w fd m =
      let client = state w.app.clients fd in
      if client.registered || client.pass_ok
      then refuse w fd 462 [] (text "You may not reregister")
      else pass_params w fd m.params

  -- Behind the checks of `handleNick`. The old prefix is taken before the nickname changes.
  unfoldable pub rename : World em → ℕ → Str → World em
  rename w fd nickname =
      let client = state w.app.clients fd in
      let old_prefix = prefix_for_client w.app client in
      let w₁ = with_app (record w.app { clients = set_nickname fd nickname w.app.clients }) w in
      let w₂ =
        broadcast_to_common w₁ fd (format_message old_prefix (text "NICK") (nickname ∷ [])) true in
      if client.registered
      then (if not (contains_client w₂.app.clients fd) then w₂ else maybe_register w₂ fd)
      else maybe_register w₁ fd

  unfoldable pub nick_params : World em → ℕ → List Str → World em
  nick_params w fd [] = refuse w fd 431 [] (text "No nickname given")
  nick_params w fd (next_nick ∷ _) =
      if not (is_valid_nickname next_nick)
      then refuse w fd 432 (next_nick ∷ []) (text "Erroneous nickname")
      else if is_taken w.app fd next_nick
      then refuse w fd 433 (next_nick ∷ []) (text "Nickname is already in use")
      else rename w fd next_nick

  unfoldable pub handle_nick : World em → ℕ → IrcMessage → World em
  handle_nick w fd m = nick_params w fd m.params

  unfoldable pub user_params : World em → ℕ → List Str → World em
  user_params w fd (user ∷ _ ∷ _ ∷ realname ∷ _) =
      maybe_register
        (with_client fd
          (record (state w.app.clients fd) { user = user; realname = realname; has_user = true }) w)
        fd
  user_params w fd _ = refuse w fd 461 (text "USER" ∷ []) (text "Not enough parameters")

  unfoldable pub handle_user : World em → ℕ → IrcMessage → World em
  handle_user w fd m =
      if (state w.app.clients fd).registered
      then refuse w fd 462 [] (text "You may not reregister")
      else user_params w fd m.params

  unfoldable pub ping_params : World em → ℕ → List Str → World em
  ping_params w fd [] = refuse w fd 409 [] (text "No origin specified")
  ping_params w fd (token ∷ _) =
      (send_raw w fd
        (format_message w.app.server_name (text "PONG") (w.app.server_name ∷ token ∷ []))).0

  unfoldable pub handle_ping : World em → ℕ → IrcMessage → World em
  handle_ping w fd m = ping_params w fd m.params

  -- Only the token of the last PING counts.
  unfoldable pub pong_params : World em → ℕ → List Str → World em
  pong_params w fd (token ∷ []) =
      let client = state w.app.clients fd in
      if not client.awaiting_pong || not (str_eq token client.pending_pong_token)
      then w
      else with_client fd
          (record client { awaiting_pong = false; pending_pong_token = []; last_ping_at = 0 }) w
  pong_params w fd _ = w

  unfoldable pub handle_pong : World em → ℕ → IrcMessage → World em
  handle_pong w fd m = pong_params w fd m.params

  unfoldable pub handle_quit : World em → ℕ → IrcMessage → World em
  handle_quit w fd m = request_close w fd (quit_reason m.params)
